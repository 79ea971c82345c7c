-- ===== src/SharedMemory/Marks.antt =====
-- The operations of SharedMemoryManager.cc on one buffer that move its positions and its
-- semaphores: `ResetReadPos` to `MarkBufferEmpty`.
pub mod Effects
pub mod Release
use artdaq_core.Prelude.{
  ℕ, Bool, true, false, not, ◌&&◌, ◌||◌, none, some, ltb, leb, ◌==◌, if◌then◌else◌,
}
use artdaq_core.Prelude.Int.{ℤ, pos, minus_one, eqb_ℤ, to_int16}
use artdaq_core.Prelude.Words.{add64}
use artdaq_core.SharedMemory.State.{
  BufferSemaphoreFlags, empty, writing, full, reading, sem_eq, M, pure, choose◌then◌else◌, ◌>>=◌,
  ◌>>◌, gets, modify, when, set_shm, update_buffer, argument_out_of_range, logic_error,
}
use artdaq_core.SharedMemory.Access.{
  check_range, get_buffer_info, touch_buffer, check_buffer, next_pos, fail,
}

-- The head of every operation: the range check, the lookup, and the answer where there is no header.
unfoldable pub with_buffer : {A : Type 0} → ℕ → A → (ℕ → M A) → M A
with_buffer buffer missing body = do
  check_range buffer
  found ← get_buffer_info buffer
  elim found [ none ↦ pure missing | some i ↦ body i ]

-- `BufferDataSize`, which tests for a null `shm_ptr_` itself.
unfoldable pub buffer_data_size : ℕ → M ℕ
buffer_data_size buffer = do
  out ← gets λ w. not w.me.attached || leb w.shm.buffer_count buffer
  when out (fail argument_out_of_range)
  found ← get_buffer_info buffer
  elim found [ none ↦ pure 0 | some i ↦ (do touch_buffer i; gets λ w. (w.shm.buffers i).write_pos) ]

-- `buf->sem_id != manager_id_`
unfoldable pub is_mine : ℕ → M Bool
is_mine i = gets λ w. eqb_ℤ (w.shm.buffers i).sem_id w.me.manager_id

unfoldable pub reset_read_pos : ℕ → M (Unit {0})
reset_read_pos buffer = with_buffer buffer tt λ i. do
  mine ← is_mine i
  when mine (do touch_buffer i; update_buffer i (λ b. record b { read_pos = 0 }))

unfoldable pub reset_write_pos : ℕ → M (Unit {0})
reset_write_pos buffer = with_buffer buffer tt λ i. do
  check_buffer i writing true
  touch_buffer i
  update_buffer i (λ b. record b { write_pos = 0 })

unfoldable pub increment_read_pos : ℕ → ℕ → M (Unit {0})
increment_read_pos buffer read = with_buffer buffer tt λ i. do
  mine ← is_mine i
  when mine (do
    touch_buffer i
    update_buffer i (λ b. record b { read_pos = add64 b.read_pos read })
    when (read == 0) (fail logic_error))

-- The end of `IncrementWritePos`.
unfoldable pub advance_write : ℕ → ℕ → M Bool
advance_write i written = do
  full_up ← gets λ w. ltb w.shm.buffer_size (add64 (w.shm.buffers i).write_pos written)
  choose full_up then pure false else (do
    update_buffer i (λ b. record b { write_pos = add64 b.write_pos written })
    when (written == 0) (fail logic_error)
    pure true)

unfoldable pub increment_write_pos : ℕ → ℕ → M Bool
increment_write_pos buffer written =
    with_buffer buffer false
      λ i. do check_buffer i writing true; touch_buffer i; advance_write i written

unfoldable pub more_data_in_buffer : ℕ → M Bool
more_data_in_buffer buffer =
    with_buffer buffer false
      λ i. gets λ w. ltb (w.shm.buffers i).read_pos (w.shm.buffers i).write_pos

-- `CheckBuffer`
unfoldable pub check_buffer_of : ℕ → BufferSemaphoreFlags → M Bool
check_buffer_of buffer flags = with_buffer buffer false λ i. check_buffer i flags false

-- The end of `MarkBufferFull`. The destination is stored in an int16_t.
unfoldable pub set_full : ℕ → ℤ → M (Unit {0})
unfolding is_mine
set_full i destination = do
  mine ← is_mine i
  when mine (do
    b ← gets λ w. w.shm.buffers i
    when (not (sem_eq b.sem full)) (update_buffer i (λ c. record c { sem = full }))
    update_buffer i (λ c. record c { sem_id = to_int16 destination }))

unfoldable pub mark_buffer_full : ℕ → ℤ → M (Unit {0})
mark_buffer_full buffer destination =
    with_buffer buffer tt λ i. touch_buffer i >> set_full i destination

-- Whether `MarkBufferEmpty` empties the buffer, or gives it back full.
unfoldable pub empties : Bool → ℕ → M Bool
empties force i = gets λ w.
    force && (eqb_ℤ w.me.manager_id (pos 0) || eqb_ℤ w.me.manager_id (w.shm.buffers i).sem_id)
    || not force && w.shm.destructive_read_mode

-- The end of `MarkBufferEmpty`.
unfoldable pub set_empty : Bool → ℕ → M (Unit {0})
unfolding empties next_pos
set_empty force i = do
  update_buffer i (λ b. record b { read_pos = 0 })
  emptied ← empties force i
  choose emptied
      then (do
        update_buffer i (λ b. record b { write_pos = 0; sem = empty })
        modify λ w.
            if w.shm.reader_pos == i && not w.shm.destructive_read_mode
            then set_shm (record (w.shm) { reader_pos = next_pos i w.shm.buffer_count }) w
            else w)
      else update_buffer i (λ b. record b { sem = full })
  update_buffer i (λ b. record b { sem_id = minus_one })

unfoldable pub mark_buffer_empty : ℕ → Bool → Bool → M (Unit {0})
mark_buffer_empty buffer force detach_on_exception = with_buffer buffer tt λ i.
    choose force then (touch_buffer i >> set_empty force i) else (do
      ret ← check_buffer i reading detach_on_exception
      when ret ((touch_buffer i >> set_empty force i)))
