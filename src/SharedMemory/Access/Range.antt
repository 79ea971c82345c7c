-- ===== src/SharedMemory/Access/Range.antt =====
-- The range check and the lookup at a buffer of the segment.
use artdaq_core.Prelude.{ℕ, ◌<◌, ◌≤◌, ◌≡◌, true, false, some, arith}
use artdaq_core.SharedMemory.State.{World, ok, throw, argument_out_of_range, deref_ok}
use artdaq_core.SharedMemory.Access.{check_range, get_buffer_info, detach_world}

module _ (w : World) (i : ℕ) (attached : w.me.attached ≡ true) where
  pub check_range_in : i < w.shm.buffer_count → check_range i w ≡ (ok tt, w)
  unfolding check_range
  check_range_in h = rw (deref_ok (λ s. s.buffer_count) w attached) (ground arith)

  pub get_buffer_info_in : i < w.shm.buffer_count → get_buffer_info i w ≡ (ok (some i), w)
  unfolding get_buffer_info
  get_buffer_info_in h = ground arith

  pub check_range_out :
      w.shm.buffer_count ≤ i → check_range i w ≡ (throw argument_out_of_range, detach_world false w)
  unfolding check_range
  check_range_out h = rw (deref_ok (λ s. s.buffer_count) w attached) (ground arith)
