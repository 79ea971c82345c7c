-- ===== src/FragmentManager/Receiving.antt =====
-- What `ReadFragmentHeader` and `ReadFragmentData` of artdaq-core/Core/SharedMemoryFragmentManager.cc read
-- from a buffer that holds words.
use artdaq_core.Prelude.{
  Bool, ℕ, ◌+◌, ◌-◌, ◌*◌, ◌^◌, ◌<◌, ◌≤◌, ◌≡◌, refl, true, false, arith, ◌∙◌, sym, ap, ap₂, some,
  none, List, ◌++◌,
}
use native.Mathlib.Nat.{zero-add}
use artdaq_core.Prelude.Int.{pos}
use artdaq_core.Prelude.Words.{w64, mul64}
use artdaq_core.Prelude.Bytes.{
  bytes_of, bytes_of-append, length-bytes_of, load_words, loaded_inside,
}
use artdaq_core.Header.{decode, num_words}
use artdaq_core.SharedMemory.State.{reading, World, ok}
use artdaq_core.SharedMemory.Reset.Drift.{IsReady}
use artdaq_core.SharedMemory.Access.Take.{check_ok}
use artdaq_core.SharedMemory.Marks.{check_buffer_of, mark_buffer_empty}
use artdaq_core.SharedMemory.Marks.Effects.{with_buffer_in}
use artdaq_core.SharedMemory.Marks.Release.{Released, mark_buffer_empty-Released}
use artdaq_core.SharedMemory.Reading.{get_buffer_for_reading}
use artdaq_core.SharedMemory.Reading.Grant.{get_buffer_for_reading-Lent}
use artdaq_core.SharedMemory.Transfer.{copy_in, copy_out, read}
use artdaq_core.SharedMemory.Transfer.Bytes.{copy_out_first, copy_out_second}
use artdaq_core.SharedMemory.Transfer.Effects.{ReadOut, read_form}
use artdaq_core.Fragment.Layout.{decode_same}
use artdaq_core.FragmentManager.{
  Active, read_fragment_header, check_active, readable_buffer, read_fragment_data, receive_words,
}

-- The buffer holds the bytes of the first `n` of the words `source`, the header's among them.
pub record Stores (i : ℕ) (source : ℕ → ℕ) (n : ℕ) (w : World) : Type 0 where
  pub memory : ℕ → ℕ
  pub bytes : w.shm.bytes ≡ copy_in (i * w.shm.buffer_size) (bytes_of source 0 n) memory
  pub room : 8 * n ≤ w.shm.buffer_size
  pub word : w.shm.buffer_size < w64
  pub whole : num_words ≤ n

-- The bytes of the header, and those behind it.
abbrev head : (ℕ → ℕ) → List ℕ
head source = bytes_of source 0 num_words

abbrev pub rest : (ℕ → ℕ) → ℕ → List ℕ
rest source n = bytes_of source num_words (n - num_words)

split :
    (source : ℕ → ℕ) (n : ℕ) → num_words ≤ n → bytes_of source 0 n ≡ head source ++ rest source n
split source n le =
    ap (bytes_of source 0) (whole n le) ∙ bytes_of-append source 0 num_words (n - num_words)
  where
    whole : (n : ℕ) → num_words ≤ n → n ≡ num_words + (n - num_words)
    whole n le = omega arith

head_out :
    (i : ℕ) (source : ℕ → ℕ) (n r : ℕ) (w : World)
    → Stores i source n w
    → r ≡ 0
    → copy_out (i * w.shm.buffer_size + r) 32 w.shm.bytes ≡ head source
head_out i source n r w s e =
    ap₂ (λ a m. copy_out a 32 m) (omega (arith, e))
      (s.bytes ∙ ap (λ b. copy_in (i * w.shm.buffer_size) b s.memory) (split source n s.whole))
    ∙ ap
        (λ k.
          copy_out (i * w.shm.buffer_size) k
            (copy_in (i * w.shm.buffer_size) (head source ++ rest source n) s.memory))
        (sym (length-bytes_of source 0 num_words))
    ∙ copy_out_first (i * w.shm.buffer_size) (head source) (rest source n) s.memory

rest_out :
    (i : ℕ) (source : ℕ → ℕ) (n r k : ℕ) (w : World)
    → Stores i source n w
    → r ≡ 32
    → k ≡ 8 * (n - num_words)
    → copy_out (i * w.shm.buffer_size + r) k w.shm.bytes ≡ rest source n
rest_out i source n r k w s e e' =
    let l = length-bytes_of source 0 num_words in
    let l' = length-bytes_of source num_words (n - num_words) in
    ap (λ m. copy_out (i * w.shm.buffer_size + r) k m)
      (s.bytes ∙ ap (λ b. copy_in (i * w.shm.buffer_size) b s.memory) (split source n s.whole))
    ∙ ap₂
        (λ a q.
          copy_out a q (copy_in (i * w.shm.buffer_size) (head source ++ rest source n) s.memory))
        (ap (λ x. i * w.shm.buffer_size + x) (e ∙ sym l)) (e' ∙ sym l')
    ∙ copy_out_second (i * w.shm.buffer_size) (head source) (rest source n) s.memory

header_decoded :
    (source : ℕ → ℕ)
    → ((j : ℕ) → source j < 2 ^ 64)
    → decode (load_words num_words (head source) 0 (λ k. 0)) ≡ decode source
header_decoded source small =
    decode_same _ source
      (λ k lt. rw (zero-add k) at (loaded_inside num_words source 0 0 (λ k. 0) k small lt))

-- The header of buffer `i` was read, and what stands behind it is next.
pub record Started (i : ℕ) (source : ℕ → ℕ) (n : ℕ) (w : World) : Type 0 where
  pub attached : w.me.attached ≡ true
  pub within : i < w.shm.buffer_count
  pub sem : (w.shm.buffers i).sem ≡ reading
  pub mine : (w.shm.buffers i).sem_id ≡ w.me.manager_id
  pub read_pos : (w.shm.buffers i).read_pos ≡ 32
  pub stores : Stores i source n w

header_reads :
    (a : Active) (w u v : World) (i : ℕ) (bytes : List ℕ)
    → w.me.attached ≡ true
    → get_buffer_for_reading w ≡ (ok (some i), u)
    → read i 32 u ≡ (ok (true, bytes), v)
    → read_fragment_header a w
      ≡ (ok (pos 0, some (decode (load_words num_words bytes 0 (λ k. 0))), some i), v)
unfolding read_fragment_header
header_reads a w u v i bytes attached granted e = simp attached (rw (granted, e) refl)

pub data_reads :
    (logged : Bool) (w u v : World) (i words n : ℕ) (bytes : List ℕ)
    → w.me.attached ≡ true
    → check_buffer_of i reading w ≡ (ok true, w)
    → mul64 words 8 ≡ n
    → read i n w ≡ (ok (true, bytes), u)
    → mark_buffer_empty i false true u ≡ (ok tt, v)
    → read_fragment_data logged (some i) words w ≡ (ok (pos 0, some bytes, none), v)
unfolding read_fragment_data receive_words readable_buffer check_active
data_reads logged w u v i words n bytes attached checked k e e' =
    simp attached (rw (checked, k, e, e') refl)

pub checks :
    (w : World) (i : ℕ)
    → w.me.attached ≡ true
    → i < w.shm.buffer_count
    → (w.shm.buffers i).sem ≡ reading
    → (w.shm.buffers i).sem_id ≡ w.me.manager_id
    → check_buffer_of i reading w ≡ (ok true, w)
unfolding check_buffer_of
checks w i attached within sem mine =
    with_buffer_in w i attached false _ within ∙ check_ok i w reading sem mine

-- `ReadFragmentHeader` by a ready manager to whom `GetBufferForReading` gives a buffer that holds words of 64
-- bits, a header's at least, returns 0 with the header that the words spell; the buffer is the active one.
pub read_fragment_header_form :
    (a : Active) (w : World) (i : ℕ) (u : World) (source : ℕ → ℕ) (n : ℕ)
    → IsReady w
    → get_buffer_for_reading w ≡ (ok (some i), u)
    → Stores i source n u
    → ((j : ℕ) → source j < 2 ^ 64)
    → (v : World) × (read_fragment_header a w ≡ (ok (pos 0, some (decode source), some i), v))
      × Started i source n v
read_fragment_header_form a w i u source n ready granted s small =
    let l = get_buffer_for_reading-Lent w i u ready granted in
    let within : i < u.shm.buffer_count = omega (arith, l.within, l.buffer_count) in
    let attached = l.attached ∙ ready.attached in
    let mine = l.sem_id ∙ sym l.manager_id in
    let (v, e, r) =
      read_form u i attached within mine 32 l.sem
        (omega (arith, l.read_pos, s.room, s.word, s.whole)) in
    let bytes = head_out i source n (u.shm.buffers i).read_pos u s l.read_pos in
    (
      v,
      header_reads a w u v i _ ready.attached granted e
          ∙ ap (λ h. (ok (pos 0, some h, some i), v))
              (ap (λ b. decode (load_words num_words b 0 (λ k. 0))) bytes
                ∙ header_decoded source small),
      record {
        attached = ap (λ m. m.attached) r.me ∙ attached;
        within = omega (arith, within, r.buffer_count);
        sem = r.sem ∙ l.sem;
        mine = r.sem_id ∙ mine ∙ sym (ap (λ m. m.manager_id) r.me);
        read_pos = omega (arith, r.read_pos, l.read_pos);
        stores = record {
          memory = s.memory;
          bytes =
              r.bytes
              ∙ s.bytes
              ∙ ap (λ b. copy_in (i * b) (bytes_of source 0 n) s.memory) (sym r.buffer_size);
          room = omega (arith, s.room, r.buffer_size);
          word = omega (arith, s.word, r.buffer_size);
          whole = s.whole;
        };
      },
    )

-- Then `ReadFragmentData` of the rest of the words returns 0 with exactly their bytes, and gives the buffer
-- back; no buffer is active.
pub read_fragment_data_form :
    (logged : Bool) (w : World) (i : ℕ) (source : ℕ → ℕ) (n : ℕ)
    → Started i source n w
    → (u v : World) × (read_fragment_data logged (some i) (n - num_words) w
        ≡ (ok (pos 0, some (rest source n), none), v))
      × ReadOut i (8 * (n - num_words)) w u
      × Released i u v
read_fragment_data_form logged w i source n t =
    let s = t.stores in
    let k : mul64 (n - num_words) 8 ≡ 8 * (n - num_words) = omega (arith, s.room, s.word) in
    let (u, e, r) =
      read_form w i t.attached t.within t.mine (8 * (n - num_words)) t.sem
        (omega (arith, t.read_pos, s.room, s.word, s.whole)) in
    let bytes =
      rest_out i source n (w.shm.buffers i).read_pos (8 * (n - num_words)) w s t.read_pos refl in
    let (v, e', q) =
      mark_buffer_empty-Released u i true (ap (λ m. m.attached) r.me ∙ t.attached)
        (omega (arith, t.within, r.buffer_count)) (r.sem ∙ t.sem)
        (r.sem_id ∙ t.mine ∙ sym (ap (λ m. m.manager_id) r.me)) in
    (
      u,
      v,
      data_reads logged w u v i (n - num_words) (8 * (n - num_words)) _ t.attached
            (checks w i t.attached t.within t.sem t.mine) k e e'
          ∙ ap (λ b. (ok (pos 0, some b, none), v)) bytes,
      r,
      q,
    )
