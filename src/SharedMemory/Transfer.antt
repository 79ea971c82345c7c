-- ===== src/SharedMemory/Transfer.antt =====
-- `SharedMemoryManager::Write`, `Read` and the addresses that they use, counted from `dataStart_`.
pub mod Bytes
pub mod Effects
pub mod Roundtrip
pub mod Cases
use artdaq_core.Prelude.{
  ℕ, zero, suc, ◌+◌, ◌-◌, ◌*◌, Bool, true, false, Option, none, some, List, [], ◌∷◌, length, ltb,
  leb, ◌&&◌, if◌then◌else◌,
}
use artdaq_core.Prelude.Words.{w64, add64}
use artdaq_core.SharedMemory.State.{
  writing, reading, World, M, pure, choose◌then◌else◌, fault, ◌>>=◌, ◌>>◌, gets, modify, when,
  put_at, set_shm, set_me, update_buffer, argument_out_of_range, shared_memory_write,
  shared_memory_read, ShmBuffer,
}
use artdaq_core.SharedMemory.Access.{get_buffer_info, touch_buffer, check_buffer, fail}
use artdaq_core.SharedMemory.Marks.{with_buffer}

-- `memcpy` into the segment and out of it.
unfoldable pub copy_in : ℕ → List ℕ → (ℕ → ℕ) → ℕ → ℕ
copy_in address [] bytes = bytes
copy_in address (x ∷ xs) bytes = copy_in (address + 1) xs (put_at bytes address x)

unfoldable pub copy_out : ℕ → ℕ → (ℕ → ℕ) → List ℕ
copy_out address zero bytes = []
copy_out address (suc n) bytes = bytes address ∷ copy_out (address + 1) n bytes

-- `bufferStart_`; `none` is the null pointer.
unfoldable pub buffer_start : ℕ → M (Option ℕ)
buffer_start buffer = do
  attached ← gets λ w. w.me.attached
  out ← gets λ w. leb w.me.requested.buffer_count buffer && leb w.shm.buffer_count buffer
  choose attached
      then (do when out (fail argument_out_of_range); gets λ w. some (buffer * w.shm.buffer_size))
      else pure none

-- `GetReadPos` and `GetWritePos`
unfoldable pub get_pos : (ShmBuffer → ℕ) → ℕ → M (Option ℕ)
get_pos field buffer = do
  found ← get_buffer_info buffer
  elim found [
    | none ↦ pure none
    | some i ↦ (do
      start ← buffer_start buffer
      elim start [ none ↦ pure none | some a ↦ gets λ w. some (a + field (w.shm.buffers i)) ])
  ]

abbrev pub get_read_pos : ℕ → M (Option ℕ)
get_read_pos = get_pos λ b. b.read_pos

abbrev pub get_write_pos : ℕ → M (Option ℕ)
get_write_pos = get_pos λ b. b.write_pos

-- The loop at the end of `Write`, which raises `last_seen_id_` to the buffer's sequence id.
unfoldable pub see : ℕ → World → World
see id w =
    set_me
      (record (w.me) { last_seen_id = if ltb w.me.last_seen_id id then id else w.me.last_seen_id })
      w

-- The end of `Write`: the new write position and the sequence id that was seen.
unfoldable pub settle_write : ℕ → ℕ → M ℕ
unfolding see
settle_write i size = do
  update_buffer i (λ b. record b { write_pos = add64 b.write_pos size })
  modify (λ w. see (w.shm.buffers i).sequence_id w)
  pure size

-- `memcpy(pos, data, size)`
abbrev pub store_bytes : ℕ → List ℕ → World → World
store_bytes a source w = set_shm (record (w.shm) { bytes = copy_in a source w.shm.bytes }) w

-- `Write` of the bytes `source`; the result is their number, or the -1 as a size_t.
unfoldable pub write : ℕ → List ℕ → M ℕ
write buffer source = with_buffer buffer (w64 - 1) λ i. do
  check_buffer i writing true
  touch_buffer i
  too_long ← gets λ w. ltb w.shm.buffer_size (add64 (w.shm.buffers i).write_pos (length source))
  when too_long (fail shared_memory_write)
  position ← get_write_pos buffer
  elim position [
    | none ↦ (λ w. (fault, w))
    | some a ↦ (do modify (store_bytes a source); touch_buffer i; settle_write i (length source))
  ]

-- The end of `Read`.
unfoldable pub settle_read : ℕ → ℕ → List ℕ → M (Bool × List ℕ)
settle_read i size target = do
  sts ← check_buffer i reading false
  choose sts
      then (do
        update_buffer i (λ b. record b { read_pos = add64 b.read_pos size })
        touch_buffer i
        pure (true, target))
      else pure (false, target)

-- `Read` of `size` bytes: whether it went well, and what was copied.
unfoldable pub read : ℕ → ℕ → M (Bool × List ℕ)
read buffer size =
    with_buffer buffer (false, [])
      λ i. do
        check_buffer i reading true
        touch_buffer i
        too_long ← gets λ w. ltb w.shm.buffer_size (add64 (w.shm.buffers i).read_pos size)
        when too_long (fail shared_memory_read)
        position ← get_read_pos buffer
        elim position [
          | none ↦ (λ w. (fault, w))
          | some a ↦ (do
            target ← gets (λ w. copy_out a size w.shm.bytes)
            settle_read i size target)
        ]
