-- ===== src/FragmentManager.antt =====
-- artdaq-core/Core/SharedMemoryFragmentManager.cc: fragments handed from one process to another, one in
-- each buffer of a segment, the header first.
pub mod Sending
pub mod Receiving
pub mod Delivery
pub mod Passing
pub mod Endings
mod Tests
use artdaq_core.Prelude.{
  ℕ, zero, suc, ◌+◌, ◌-◌, ◌*◌, ◌/◌, Bool, true, false, not, ◌&&◌, ◌||◌, Option, none, some, List,
  ltb, ◌==◌, if◌then◌else◌,
}
use artdaq_core.Prelude.Int.{ℤ, pos, negsuc, minus_one}
use artdaq_core.Prelude.Words.{w64, mul64, sub64}
use artdaq_core.Prelude.Bytes.{bytes_of, load_words}
use artdaq_core.QuickVec.{copy_from}
use artdaq_core.Header.{RawFragmentHeader, num_words, decode, encode}
use artdaq_core.SharedMemory.State.{
  reading, World, M, Outcome, pure, choose◌then◌else◌, fault, waits, ◌>>=◌, ◌>>◌, gets, modify,
}
use artdaq_core.SharedMemory.Writing.{get_buffer_for_writing}
use artdaq_core.SharedMemory.Reading.{get_buffer_for_reading}
use artdaq_core.SharedMemory.Marks.{mark_buffer_full, mark_buffer_empty, check_buffer_of}
use artdaq_core.SharedMemory.Transfer.{write, read}
use artdaq_core.SharedMemory.Attach.{Os, is_valid, is_end_of_data, attach}
use artdaq_core.Fragment.{
  Fragment, Result, done, refused, fragment_header, resize_fragment, with_vals,
}

-- `active_buffer_`; `none` is its -1.
abbrev pub Active : Type 0
Active = Option ℕ

-- `ReadyForWrite`: the active buffer after it, which says whether there is one.
unfoldable pub ready_for_write : Bool → Active → M Active
ready_for_write overwrite (some i) = pure (some i)
ready_for_write overwrite none = get_buffer_for_writing overwrite

-- What happens around one call of `WriteFragment`: the answers of the operating system, how often the clock
-- reads less than 1000 us in the busy loop, and what the other processes do during the k-th sleep.
pub record Surroundings : Type 0 where
  pub os : Os
  pub spins : ℕ
  pub meanwhile : ℕ → World → World

-- The busy loop.
unfoldable pub spin : Bool → (spins : ℕ) → Active → M Active
spin overwrite zero active = ready_for_write overwrite active
spin overwrite (suc n) active = do
  found ← ready_for_write overwrite active
  elim found [ some i ↦ pure (some i) | none ↦ spin overwrite n none ]

-- `if (!IsValid() || IsEndOfData())`, with the new attempt to attach: false where -1 is returned.
unfoldable pub reconnect : Os → (timeout_us : ℕ) → M Bool
reconnect os timeout_us = do
  gone ← gets λ w. not (is_valid w) || is_end_of_data os w
  choose gone then attach os timeout_us else pure true

-- (timeout_us - 1000) / sleepTime, of size_t values.
unfoldable pub max_loops : ℕ → ℕ
max_loops timeout_us = sub64 timeout_us 1000 / 1000

-- The loop that sleeps, for at most `left` rounds; `none` is the return of -1. Where it has no bound of its
-- own the rounds that are left run out, and the call waits for another process.
unfoldable pub sleep_until_ready :
    Surroundings → Bool → (timeout_us left loop_count : ℕ) → Active → M (Option Active)
sleep_until_ready s overwrite timeout_us zero loop_count active = (λ w. (waits, w))
sleep_until_ready s overwrite timeout_us (suc left) loop_count active = do
  found ← ready_for_write overwrite active
  elim found [
    | some i ↦ pure (some (some i))
    | none ↦
        choose not overwrite || timeout_us == 0 || ltb loop_count (max_loops timeout_us)
        then (do
          connected ← reconnect s.os timeout_us
          choose connected
              then (do
                modify (s.meanwhile loop_count)
                sleep_until_ready s overwrite timeout_us left (loop_count + 1) none)
              else pure none)
        else pure (some none)
  ]

-- The end of `WriteFragment`, with a buffer: the status that is returned.
unfoldable pub send_words : ℕ → (ℕ → ℕ) → (words : ℕ) → M ℤ
send_words i source words = do
  sts ← write i (bytes_of source 0 words)
  choose sts == mul64 words 8
      then (do mark_buffer_full i minus_one; pure (pos 0))
      else pure (negsuc 1)

-- That end; a header that cannot be read throws, and the buffer stays the active one.
unfoldable pub send_fragment : ℕ → Fragment → M (Result ℤ × Active)
send_fragment i f = elim (fragment_header f) [
  | refused r ↦ pure (refused r, some i)
  | done (h, f') ↦ (do sts ← send_words i f'.vals.data_ h.word_count; pure (done sts, none))
]

-- The wait for a buffer, after the busy loop.
unfoldable pub wait_for_buffer :
    Surroundings → Bool → (timeout_us rounds : ℕ) → Active → M (Option Active)
wait_for_buffer s overwrite timeout_us rounds active = do
  found ← ready_for_write overwrite active
  elim found [
    | some i ↦ pure (some (some i))
    | none ↦ sleep_until_ready s overwrite timeout_us rounds 0 none
  ]

-- `WriteFragment`
unfoldable pub write_fragment :
    Surroundings
    → (rounds : ℕ) → Fragment
    → (overwrite : Bool) → (timeout_us : ℕ) → Active
    → M (Result ℤ × Active)
write_fragment s rounds f overwrite timeout_us active = do
  connected ← reconnect s.os timeout_us
  choose connected
      then (do
        spun ← spin overwrite s.spins active
        waited ← wait_for_buffer s overwrite timeout_us rounds spun
        elim waited [
          | none ↦ pure (done minus_one, none)
          | some a ↦ (do
            ready ← ready_for_write overwrite a
            elim ready [ none ↦ pure (done (negsuc 2), none) | some i ↦ send_fragment i f ])
        ])
      else pure (done minus_one, active)

-- `ReadFragmentHeader`: the status, the header that was read, and the active buffer.
unfoldable pub read_fragment_header : Active → M (ℤ × Option RawFragmentHeader × Active)
read_fragment_header active = do
  valid ← gets is_valid
  choose valid
      then (do
        found ← get_buffer_for_reading
        elim found [
          | none ↦ pure (minus_one, none, none)
          | some i ↦ (do
            (sts, bytes) ← read i (num_words * 8)
            choose sts
                then pure (pos 0, some (decode (load_words num_words bytes 0 (λ k. 0))), some i)
                else (do mark_buffer_empty i false true; pure (negsuc 1, none, none)))
        ])
      else pure (negsuc 2, none, active)

-- The end of `ReadFragmentData`, from `Read` on. Either way the buffer is given back.
unfoldable pub receive_words : ℕ → (words : ℕ) → M (ℤ × Option (List ℕ))
receive_words i words = do
  (sts, bytes) ← read i (mul64 words 8)
  mark_buffer_empty i false true
  pure (if sts then pos 0 else negsuc 1, some bytes)

-- `CheckBuffer(active_buffer_, Reading)`; of -1 it uses the null `shm_ptr_`, or the mutex before the first.
unfoldable pub check_active : Active → M Bool
check_active none = (λ w. (fault, w))
check_active (some i) = check_buffer_of i reading

-- The tests of `ReadFragmentData`, each of which is made where those before it hold: the active buffer, where
-- they all hold.
unfoldable pub readable_buffer : Active → M Active
readable_buffer active = do
  valid ← gets is_valid
  choose valid
      then elim active [
        | none ↦ pure none
        | some i ↦ (do checked ← check_active (some i); pure (if checked then some i else none))
      ]
      else pure none

-- The message on failed tests, whose argument calls `CheckBuffer` once more; `logged` is whether the library
-- of the messages evaluates it.
unfoldable pub report_failure : (logged : Bool) → Active → M (Unit {0})
report_failure logged active = choose logged then (do check_active active; pure tt) else pure tt

-- `ReadFragmentData`: the status, the bytes that were stored at the destination, and the active buffer.
unfoldable pub read_fragment_data :
    (logged : Bool) → Active → (words : ℕ) → M (ℤ × Option (List ℕ) × Active)
read_fragment_data logged active words = do
  found ← readable_buffer active
  elim found [
    | some i ↦ (do (sts, bytes) ← receive_words i words; pure (sts, bytes, none))
    | none ↦ (do report_failure logged active; pure (negsuc 2, none, active))
  ]

-- memcpy(fragment.headerAddress(), &tmpHdr, ...)
unfoldable pub put_header_words : RawFragmentHeader → Fragment → Fragment
put_header_words h f = with_vals (record (f.vals) { data_ = encode h f.vals.data_ }) f

-- What `Read` stored at `headerAddress() + num_words()`.
unfoldable pub put_data_words : Option (List ℕ) → (words : ℕ) → Fragment → Fragment
put_data_words none words f = f
put_data_words (some bytes) words f =
    with_vals (record (f.vals) { data_ = load_words words bytes num_words f.vals.data_ }) f

-- The end of `ReadFragment`, with the header. A fragment of an unknown version is not resized: that throws.
unfoldable pub fill_fragment :
    (logged : Bool)
    → (fresh : ℕ → ℕ) → RawFragmentHeader
    → Fragment
    → Active
    → M (Result (ℤ × Fragment) × Active)
fill_fragment logged fresh h f a = elim (resize_fragment fresh (sub64 h.word_count num_words) f) [
  | refused r ↦ pure (refused r, a)
  | done (_, f₁) ↦ (do
    (sts, bytes, a') ← read_fragment_data logged a (sub64 h.word_count num_words)
    pure (
      done (sts, put_data_words bytes (sub64 h.word_count num_words) (put_header_words h f₁)),
      a',
    ))
]

-- `ReadFragment`
unfoldable pub read_fragment :
    (logged : Bool) → (fresh : ℕ → ℕ) → Fragment → Active → M (Result (ℤ × Fragment) × Active)
read_fragment logged fresh f active = do
  (sts, header, a) ← read_fragment_header active
  elim header [ none ↦ pure (done (sts, f), a) | some h ↦ fill_fragment logged fresh h f a ]
