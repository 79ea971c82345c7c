-- ===== src/SharedMemory/Writing.antt =====
-- `SharedMemoryManager::GetBufferForWriting`: three scans, for an empty buffer, a full one and one
-- that is being read. Each stops at the first buffer that it can claim.
pub mod Claim
pub mod Scan
pub mod Grant
use artdaq_core.Prelude.{
  ℕ, zero, suc, ◌+◌, ◌%◌, Bool, true, false, ◌&&◌, Option, none, some, if◌then◌else◌,
}
use artdaq_core.Prelude.Int.{ℤ, pos, minus_one, eqb_ℤ, ◌+ℤ◌}
use artdaq_core.Prelude.Words.{add32, add64}
use artdaq_core.SharedMemory.State.{
  BufferSemaphoreFlags, empty, writing, full, reading, sem_eq, World, M, pure, choose◌then◌else◌,
  ◌>>=◌, ◌>>◌, ◌&&>◌, gets, deref, modify, set_shm, put_buffer,
}
use artdaq_core.SharedMemory.Access.{
  get_buffer_info, touch_buffer, check_buffer, take_semaphores, next_pos,
}
use artdaq_core.SharedMemory.Reset.{reset_buffer}

-- `(ii + wp) % shm_ptr_->buffer_count`
unfoldable pub scan_index : ℕ → ℕ → ℕ → ℕ
scan_index ii start count = add32 ii start % count

-- The tests of the three scans, on what was loaded from the two semaphores.
unfoldable pub is_free : BufferSemaphoreFlags → ℤ → Bool
is_free sem sem_id = sem_eq sem empty && eqb_ℤ sem_id minus_one

unfoldable pub is_unread : BufferSemaphoreFlags → ℤ → Bool
is_unread sem sem_id = sem_eq sem full && eqb_ℤ sem_id minus_one

unfoldable pub is_being_read : BufferSemaphoreFlags → ℤ → Bool
is_being_read sem sem_id = sem_eq sem reading

-- `writer_pos = (buffer + 1) % buffer_count; sequence_id = ++next_sequence_id; writePos = 0;`
unfoldable pub start_writing : ℕ → World → World
start_writing i w =
    put_buffer i (record (w.shm.buffers i) { sequence_id = id; write_pos = 0 })
      (set_shm (record shm { writer_pos = next_pos i shm.buffer_count; next_sequence_id = id }) w)
  where
    open w use {shm}

    id : ℕ
    id = add64 w.shm.next_sequence_id 1

-- The end of that body, once the semaphores are taken.
unfoldable pub finish_claim : ℕ → M Bool
finish_claim i =
    (modify (start_writing i) >> check_buffer i writing false) &&> (touch_buffer i >> pure true)

-- The body of a scan behind the lookup: false where the code goes on with the next buffer.
unfoldable pub claim_for_writing : (BufferSemaphoreFlags → ℤ → Bool) → ℕ → M Bool
claim_for_writing test i = do
  b ← gets λ w. w.shm.buffers i
  pure (test b.sem b.sem_id) &&> take_semaphores i b.sem_id b.sem writing &&> finish_claim i

unfoldable pub scan_for_writing : (BufferSemaphoreFlags → ℤ → Bool) → ℕ → ℕ → ℕ → M (Option ℕ)
scan_for_writing test zero ii wp = pure none
scan_for_writing test (suc left) ii wp = do
  count ← deref λ s. s.buffer_count
  let buffer = scan_index ii wp count
  reset_buffer buffer
  found ← get_buffer_info buffer
  claimed ← elim found [ none ↦ pure false | some i ↦ claim_for_writing test i ]
  elim claimed [ true ↦ pure (some buffer) | false ↦ scan_for_writing test left (ii + 1) wp ]

-- `if (!registered_writer_) { shm_ptr_->writer_count++; registered_writer_ = true; }`
unfoldable pub register_writer : M (Unit {0})
unfolding ◌+ℤ◌
register_writer = do
  registered ← gets λ w. w.me.registered_writer
  choose registered then pure tt else (do
    deref (λ s. s.writer_count)
    modify λ w. record w {
      shm = record (w.shm) { writer_count = w.shm.writer_count +ℤ pos 1 };
      me = record (w.me) { registered_writer = true };
    })

-- One scan after another, until one finds a buffer.
abbrev pub or_scan : M (Option ℕ) → M (Option ℕ) → M (Option ℕ)
or_scan m k = do found ← m; elim found [ some i ↦ pure (some i) | none ↦ k ]

-- The scans of `GetBufferForWriting` in overwrite mode: for a full buffer, then for one that is
-- being read.
unfoldable pub overwrite_scans : ℕ → ℕ → M (Option ℕ)
overwrite_scans count wp =
    or_scan (scan_for_writing is_unread count 0 wp) (scan_for_writing is_being_read count 0 wp)

-- `GetBufferForWriting`; `none` is the -1 that it returns.
unfoldable pub get_buffer_for_writing : Bool → M (Option ℕ)
get_buffer_for_writing overwrite = do
  register_writer
  wp ← deref λ s. s.writer_pos
  count ← deref λ s. s.buffer_count
  or_scan (scan_for_writing is_free count 0 wp)
      (choose overwrite then overwrite_scans count wp else pure none)
