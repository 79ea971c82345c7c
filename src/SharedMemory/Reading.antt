-- ===== src/SharedMemory/Reading.antt =====
-- `SharedMemoryManager::GetBufferForReading`: up to five scans for the readable buffer with the
-- lowest sequence id, each followed by an attempt to take that buffer.
pub mod Choose
pub mod Acquire
pub mod Rounds
pub mod Grant
pub mod Order
use artdaq_core.Prelude.{
  ℕ, zero, suc, ◌+◌, ◌-◌, Bool, true, false, not, ◌&&◌, ◌||◌, Option, none, some, ltb, ◌==◌,
  if◌then◌else◌,
}
use artdaq_core.Prelude.Int.{pos, minus_one, eqb_ℤ, ltb_ℤ, to_size, ◌+ℤ◌, ◌*ℤ◌}
use artdaq_core.Prelude.Words.{w64, add64, sub64}
use artdaq_core.SharedMemory.State.{
  full, reading, sem_eq, ShmBuffer, World, M, pure, choose◌then◌else◌, ◌>>=◌, ◌>>◌, ◌&&>◌, gets,
  deref, modify, update_buffer,
}
use artdaq_core.SharedMemory.Access.{
  get_buffer_info, touch_buffer, check_buffer, take_semaphores, next_pos,
}
use artdaq_core.SharedMemory.Reset.{reset_buffer}
use artdaq_core.SharedMemory.Writing.{scan_index}

-- A full buffer that is for everyone or for this manager, and in broadcast mode not seen before.
unfoldable pub is_readable : World → ShmBuffer → Bool
is_readable w b =
    sem_eq b.sem full
    && (eqb_ℤ b.sem_id minus_one || eqb_ℤ b.sem_id w.me.manager_id)
    && (w.shm.destructive_read_mode || ltb w.me.last_seen_id b.sequence_id)

-- `last_seen_id_ + shm_ptr_->reader_count`: the turn of this reader in a round robin.
unfoldable pub next_turn : World → ℕ
unfolding to_size
next_turn w = add64 w.me.last_seen_id (to_size w.shm.reader_count)

-- The body of the scan behind the lookup: the best buffer so far, its sequence id, and whether the
-- loop ends by `break`.
unfoldable pub consider : ℕ → Option ℕ → ℕ → M (Option ℕ × ℕ × Bool)
consider i best seq_id = do
  b ← gets λ w. w.shm.buffers i
  better ← gets λ w. is_readable w b && ltb b.sequence_id seq_id
  choose better
      then (do
        touch_buffer i
        turn ← gets next_turn
        pure (some i, b.sequence_id, b.sequence_id == turn))
      else pure (best, seq_id, false)

unfoldable pub scan_for_reading : ℕ → ℕ → ℕ → Option ℕ → ℕ → M (Option ℕ × ℕ)
scan_for_reading zero ii rp best seq_id = pure (best, seq_id)
scan_for_reading (suc left) ii rp best seq_id = do
  count ← deref λ s. s.buffer_count
  let buffer = scan_index ii rp count
  reset_buffer buffer
  found ← get_buffer_info buffer
  (best', seq', stop) ← elim found [
    | none ↦ pure (best, seq_id, false)
    | some i ↦ consider i best seq_id
  ]
  elim stop [ true ↦ pure (best', seq') | false ↦ scan_for_reading left (ii + 1) rp best' seq' ]

-- Round robin: whether a buffer is left for another reader.
unfoldable pub skips_turn : World → ℕ → Bool
skips_turn w seq_id =
    w.shm.destructive_read_mode
    && ltb 0 w.me.last_seen_id
    && ltb_ℤ (pos 1) w.shm.reader_count
    && not (seq_id == next_turn w)
    && ltb (sub64 w.me.last_seen_id (to_size w.shm.reader_count)) seq_id
    && ltb seq_id (add64 w.me.last_seen_id (to_size (pos 2 *ℤ w.shm.reader_count)))

-- What `GetBufferForReading` records once the buffer is its own.
unfoldable pub record_read : ℕ → ℕ → World → World
unfolding next_pos
record_read i seq_id w = record w {
  shm = record shm {
    lowest_seq_id_read =
        if shm.destructive_read_mode && shm.lowest_seq_id_read == me.last_seen_id
        then seq_id
        else shm.lowest_seq_id_read;
    reader_pos = if shm.destructive_read_mode then next_pos i shm.buffer_count else shm.reader_pos;
  };
  me = record me { last_seen_id = seq_id };
}
  where
    open w use {shm, me}

-- The end of a round, once the semaphores are taken.
unfoldable pub finish_acquire : ℕ → ℕ → M Bool
finish_acquire i seq_id =
    (do
      update_buffer i (λ c. record c { read_pos = 0 })
      touch_buffer i
      check_buffer i reading false)
    &&> (do modify (record_read i seq_id); pure true)

-- The rest of a round once the scan has found a buffer: false where the code goes on with the next
-- round.
unfoldable pub acquire_for_reading : ℕ → M Bool
acquire_for_reading i = do
  b ← gets λ w. w.shm.buffers i
  me ← gets λ w. w.me.manager_id
  skip ← gets λ w. skips_turn w b.sequence_id
  pure (not skip)
      &&> pure ((eqb_ℤ b.sem_id minus_one || eqb_ℤ b.sem_id me) && sem_eq b.sem full)
      &&> take_semaphores i b.sem_id b.sem reading
      &&> finish_acquire i b.sequence_id

-- The loop over `retry`. Where no buffer was found the code goes on with the next round on either
-- side of the test for the reader's turn.
unfoldable pub retry_reading : ℕ → ℕ → M (Option ℕ)
retry_reading zero rp = pure none
retry_reading (suc left) rp = do
  count ← deref λ s. s.buffer_count
  (best, seq_id) ← scan_for_reading count 0 rp none (w64 - 1)
  taken ← elim best [ none ↦ pure false | some i ↦ acquire_for_reading i ]
  elim taken [ true ↦ pure best | false ↦ retry_reading left rp ]

-- `if (!registered_reader_) { shm_ptr_->reader_count++; registered_reader_ = true; }`
unfoldable pub register_reader : M (Unit {0})
unfolding ◌+ℤ◌
register_reader = do
  registered ← gets λ w. w.me.registered_reader
  choose registered then pure tt else (do
    deref (λ s. s.reader_count)
    modify λ w. record w {
      shm = record (w.shm) { reader_count = w.shm.reader_count +ℤ pos 1 };
      me = record (w.me) { registered_reader = true };
    })

-- `GetBufferForReading`; `none` is the -1 that it returns.
unfoldable pub get_buffer_for_reading : M (Option ℕ)
get_buffer_for_reading = do register_reader; rp ← deref λ s. s.reader_pos; retry_reading 5 rp
