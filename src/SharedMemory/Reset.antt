-- ===== src/SharedMemory/Reset.antt =====
-- `SharedMemoryManager::ResetBuffer`, by which every scan takes stale buffers back.
pub mod Drift
use artdaq_core.Prelude.{
  ℕ, Bool, true, false, not, ◌&&◌, ◌||◌, none, some, ltb, leb, ◌==◌, if◌then◌else◌,
}
use artdaq_core.Prelude.Int.{pos, minus_one, eqb_ℤ}
use artdaq_core.Prelude.Words.{sub64}
use artdaq_core.SharedMemory.State.{
  empty, writing, full, reading, sem_eq, M, pure, choose◌then◌else◌, ◌>>=◌, ◌>>◌, gets, modify,
  gettimeofday_us, set_shm, update_buffer,
}
use artdaq_core.SharedMemory.Access.{check_range, get_buffer_info, next_pos}

-- The end of `ResetBuffer`: a stale buffer that another manager is reading. The clock is read again.
unfoldable pub reset_reading : ℕ → M Bool
reset_reading i = do
  b ← gets λ w. w.shm.buffers i
  me ← gets λ w. w.me.manager_id
  choose not (eqb_ℤ b.sem_id me) && sem_eq b.sem reading
      then (do
        now ← gettimeofday_us
        timeout ← gets λ w. w.shm.buffer_timeout_us
        choose leb (sub64 now b.last_touch_time) timeout then pure false else (do
          update_buffer i (λ c. record c { read_pos = 0; sem = full; sem_id = minus_one })
          pure true))
      else pure false

-- The owner of a segment in broadcast mode empties a stale full buffer.
unfoldable pub expire_full : ℕ → M Bool
unfolding next_pos
expire_full i = do
  update_buffer i (λ c. record c { write_pos = 0; sem = empty; sem_id = minus_one })
  modify (λ w.
      if w.shm.reader_pos == i
      then set_shm (record (w.shm) { reader_pos = next_pos i w.shm.buffer_count }) w
      else w)
  pure true

-- What `ResetBuffer` does with a buffer that is there, once it is known to be stale.
unfoldable pub reset_stale : ℕ → M Bool
unfolding reset_reading expire_full
reset_stale i = do
  b ← gets λ w. w.shm.buffers i
  me ← gets λ w. w.me.manager_id
  destructive ← gets λ w. w.shm.destructive_read_mode
  choose eqb_ℤ b.sem_id me && sem_eq b.sem writing
      then pure true
      else choose not destructive && sem_eq b.sem full && eqb_ℤ me (pos 0)
      then expire_full i
      else reset_reading i

-- `ResetBuffer` behind its lookup. A touch time ahead of the clock wraps the difference, and is
-- taken for a clock that was set.
unfoldable pub reset_found : ℕ → M Bool
unfolding reset_stale
reset_found i = do
  now ← gettimeofday_us
  b ← gets λ w. w.shm.buffers i
  timeout ← gets λ w. w.shm.buffer_timeout_us
  let delta = sub64 now b.last_touch_time
  choose ltb 0xffff_ffff delta
      then (do
        again ← gettimeofday_us
        update_buffer i (λ c. record c { last_touch_time = again })
        pure false)
      else choose timeout == 0 || leb delta timeout || sem_eq b.sem empty
      then pure false
      else reset_stale i

-- `ResetBuffer`
unfoldable pub reset_buffer : ℕ → M Bool
unfolding check_range get_buffer_info
reset_buffer buffer = do
  check_range buffer
  found ← get_buffer_info buffer
  elim found [ none ↦ pure false | some i ↦ reset_found i ]
