-- ===== src/SharedMemory/Marks/Effects.antt =====
-- What the operations on one buffer do, on a buffer of the segment.
use artdaq_core.Prelude.{ℕ, ◌<◌, ◌≤◌, ◌≡◌, ◌≢◌, refl, true, false, arith, ap}
use artdaq_core.Prelude.Int.{ℤ, eqb_ℤ, eqb_ℤ_iff, to_int16}
use artdaq_core.SharedMemory.State.{full, World, M, ok, Outcome, throw, argument_out_of_range}
use artdaq_core.SharedMemory.Access.{detach_world}
use artdaq_core.SharedMemory.Access.Range.{check_range_in, check_range_out, get_buffer_info_in}
use artdaq_core.SharedMemory.Access.Take.{touch_form, stamp}
use artdaq_core.SharedMemory.Marks.{with_buffer, mark_buffer_full, set_full}

pub pair_eq : {A : Type 0} {a : Outcome A} {x : Outcome A × World} → x.0 ≡ a → x ≡ (a, x.1)
pair_eq {x = x} e = ap (λ y. (y, x.1)) e

module _ (w : World) (i : ℕ) (attached : w.me.attached ≡ true) where
  pub with_buffer_in :
      {A : Type 0} (missing : A) (body : ℕ → M A)
      → i < w.shm.buffer_count
      → with_buffer i missing body w ≡ body i w
  unfolding with_buffer
  with_buffer_in missing body h =
      rw (check_range_in w i attached h, get_buffer_info_in w i attached h)

  pub with_buffer_out :
      {A : Type 0} (missing : A) (body : ℕ → M A)
      → w.shm.buffer_count ≤ i
      → with_buffer i missing body w ≡ (throw argument_out_of_range, detach_world false w)
  unfolding with_buffer
  with_buffer_out missing body h = rw (check_range_out w i attached h)

-- The world after `MarkBufferFull`, by the world before: only buffer `i` changes, its semaphores only.
pub record MarkedFull (i : ℕ) (destination : ℤ) (w v : World) : Type 0 where
  pub sem : (v.shm.buffers i).sem ≡ full
  pub sem_id : (v.shm.buffers i).sem_id ≡ to_int16 destination
  pub write_pos : (v.shm.buffers i).write_pos ≡ (w.shm.buffers i).write_pos
  pub read_pos : (v.shm.buffers i).read_pos ≡ (w.shm.buffers i).read_pos
  pub sequence_id : (v.shm.buffers i).sequence_id ≡ (w.shm.buffers i).sequence_id
  pub others : (j : ℕ) → j ≢ i → v.shm.buffers j ≡ w.shm.buffers j
  pub bytes : v.shm.bytes ≡ w.shm.bytes
  pub me : v.me ≡ w.me
  pub buffer_count : v.shm.buffer_count ≡ w.shm.buffer_count
  pub buffer_size : v.shm.buffer_size ≡ w.shm.buffer_size
  pub reader_pos : v.shm.reader_pos ≡ w.shm.reader_pos
  pub destructive_read_mode : v.shm.destructive_read_mode ≡ w.shm.destructive_read_mode
  pub reader_count : v.shm.reader_count ≡ w.shm.reader_count
  pub writer_pos : v.shm.writer_pos ≡ w.shm.writer_pos

set_full-MarkedFull :
    (w u : World) (i : ℕ) (destination : ℤ)
    → (t n : ℕ) → u ≡ stamp i t n w
    → eqb_ℤ (w.shm.buffers i).sem_id w.me.manager_id ≡ true
    → ((set_full i destination u).0 ≡ ok tt)
      × MarkedFull i destination w (set_full i destination u).1
unfolding set_full
set_full-MarkedFull w u i destination t n e mine = rw e (
  ground arith,
  record {
    sem = ground arith;
    sem_id = ground arith;
    write_pos = ground arith;
    read_pos = ground arith;
    sequence_id = ground arith;
    others = λ j ne. ground arith;
    bytes = ground arith;
    me = ground arith;
    buffer_count = ground arith;
    buffer_size = ground arith;
    reader_pos = ground arith;
    destructive_read_mode = ground arith;
    reader_count = ground arith;
    writer_pos = ground arith;
  },
)

-- `MarkBufferFull` by an attached manager of a buffer of the segment that it owns returns, and makes
-- the buffer full, for the destination, taken into an int16_t, or for everyone; its positions and
-- id, every other buffer and all bytes stay.
pub mark_buffer_full_mine :
    (w : World) (i : ℕ) (destination : ℤ)
    → w.me.attached ≡ true
    → i < w.shm.buffer_count
    → (w.shm.buffers i).sem_id ≡ w.me.manager_id
    → (v : World) × (mark_buffer_full i destination w ≡ (ok tt, v)) × MarkedFull i destination w v
unfolding mark_buffer_full
mark_buffer_full_mine w i destination attached h mine =
    let (t, n, p) = touch_form i w in
    let u : World = stamp i t n w in
    let (e, m) =
      set_full-MarkedFull w u i destination t n refl
        ((eqb_ℤ_iff (w.shm.buffers i).sem_id w.me.manager_id).1 mine) in
    ((set_full i destination u).1, rw (with_buffer_in w i attached tt _ h, p) (pair_eq e), m)
