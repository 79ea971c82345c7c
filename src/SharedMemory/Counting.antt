-- ===== src/SharedMemory/Counting.antt =====
-- The operations of SharedMemoryManager.cc that look over all buffers and take none:
-- `ReadReadyCount`, `WriteReadyCount`, `ReadyForRead`, `ReadyForWrite` and `GetBufferReport`.
pub mod Agreement
use artdaq_core.Prelude.{
  ℕ, zero, suc, ◌+◌, Bool, true, false, not, ◌&&◌, ◌||◌, none, some, List, [], ◌∷◌, if◌then◌else◌,
}
use artdaq_core.Prelude.Int.{ℤ, minus_one, eqb_ℤ}
use artdaq_core.SharedMemory.State.{
  BufferSemaphoreFlags, empty, writing, sem_eq, ShmBuffer, World, M, pure, choose◌then◌else◌, ◌>>=◌,
  ◌>>◌, ◌&&>◌, gets, deref,
}
use artdaq_core.SharedMemory.Access.{size, get_buffer_info, touch_buffer}
use artdaq_core.SharedMemory.Reset.{reset_buffer}
use artdaq_core.SharedMemory.Writing.{scan_index}
use artdaq_core.SharedMemory.Reading.{is_readable}

-- The test of `WriteReadyCount` and `ReadyForWrite`.
unfoldable pub is_writable : Bool → ShmBuffer → Bool
is_writable overwrite b =
    sem_eq b.sem empty && eqb_ℤ b.sem_id minus_one || overwrite && not (sem_eq b.sem writing)

-- `if (readable) { touchBuffer_(buf); … }`
unfoldable pub probe_read : ℕ → M Bool
unfolding touch_buffer
probe_read i = do
  b ← gets λ w. w.shm.buffers i
  ready ← gets λ w. is_readable w b
  pure ready &&> (do touch_buffer i; pure true)

unfoldable pub probe_write : Bool → ℕ → M Bool
probe_write overwrite i = gets λ w. is_writable overwrite (w.shm.buffers i)

-- The body of all four loops: a stale buffer is taken back first.
unfoldable pub visit : (ℕ → M Bool) → ℕ → M Bool
visit probe buffer = do
  reset_buffer buffer
  found ← get_buffer_info buffer
  elim found [ none ↦ pure false | some i ↦ probe i ]

-- The loops of `ReadReadyCount` and `WriteReadyCount`, over the buffers in order.
unfoldable pub count_from : (ℕ → M Bool) → ℕ → ℕ → ℕ → M ℕ
count_from probe zero ii count = pure count
count_from probe (suc left) ii count = do
  hit ← visit probe ii
  count_from probe left (ii + 1) (if hit then count + 1 else count)

-- The loops of `ReadyForRead` and `ReadyForWrite`, from a position on, up to the first hit.
unfoldable pub any_from : (ℕ → M Bool) → ℕ → ℕ → ℕ → M Bool
unfolding scan_index
any_from probe zero ii start = pure false
any_from probe (suc left) ii start = do
  count ← deref λ s. s.buffer_count
  hit ← visit probe (scan_index ii start count)
  elim hit [ true ↦ pure true | false ↦ any_from probe left (ii + 1) start ]

-- `if (!IsValid()) return …;`
unfoldable pub if_valid : {A : Type 0} → A → M A → M A
if_valid a m = do valid ← gets λ w. w.me.attached; choose valid then m else pure a

unfoldable pub read_ready_count : M ℕ
read_ready_count =
    if_valid 0 (do count ← deref λ s. s.buffer_count; count_from probe_read count 0 0)

unfoldable pub write_ready_count : Bool → M ℕ
write_ready_count overwrite =
    if_valid 0 (do count ← deref λ s. s.buffer_count; count_from (probe_write overwrite) count 0 0)

unfoldable pub ready_for_read : M Bool
ready_for_read = if_valid false (do
  rp ← deref λ s. s.reader_pos
  count ← deref λ s. s.buffer_count
  any_from probe_read count 0 rp)

unfoldable pub ready_for_write : Bool → M Bool
ready_for_write overwrite = if_valid false (do
  wp ← deref λ s. s.writer_pos
  count ← deref λ s. s.buffer_count
  any_from (probe_write overwrite) count 0 wp)

unfoldable pub report_from : ℕ → ℕ → World → List (ℤ × BufferSemaphoreFlags)
report_from zero ii w = []
report_from (suc left) ii w =
    ((w.shm.buffers ii).sem_id, (w.shm.buffers ii).sem) ∷ report_from left (ii + 1) w

-- `GetBufferReport`; every index is below `size()`.
unfoldable pub get_buffer_report : World → List (ℤ × BufferSemaphoreFlags)
unfolding report_from size
get_buffer_report w = report_from (size w) 0 w
