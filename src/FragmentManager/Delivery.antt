-- ===== src/FragmentManager/Delivery.antt =====
-- A fragment's way from `WriteFragment` to `ReadFragment`, artdaq-core/Core/SharedMemoryFragmentManager.cc.
use artdaq_core.Prelude.{
  Bool, ℕ, ◌+◌, ◌-◌, ◌^◌, ◌<◌, ◌≤◌, ◌≡◌, ◌⊎◌, inl, inr, refl, arith, ◌∙◌, sym, ap, subst, some,
  none, List, Bool-cases, ltb,
}
use artdaq_core.Prelude.Int.{pos}
use artdaq_core.Prelude.Words.{w32, sub64}
use artdaq_core.Prelude.Bytes.{load_words, loaded_inside, loaded_outside}
use artdaq_core.Header.{RawFragmentHeader, decode, encode, num_words}
use artdaq_core.Header.Bits.{encode-decode}
use artdaq_core.SharedMemory.State.{World, ok}
use artdaq_core.SharedMemory.Reset.Drift.{IsReady}
use artdaq_core.SharedMemory.Reading.{get_buffer_for_reading}
use artdaq_core.Fragment.{Fragment, done, resize_fragment}
use artdaq_core.Fragment.Layout.{IsCurrent}
use artdaq_core.Fragment.Resizing.{resize_fragment-Reshaped}
use artdaq_core.FragmentManager.{
  Active, read_fragment_header, read_fragment_data, fill_fragment, read_fragment, put_header_words,
  put_data_words,
}
use artdaq_core.FragmentManager.Receiving.{
  Stores, rest, read_fragment_header_form, read_fragment_data_form,
}

-- The first `n` words of the fragment are those of `source`, and it has no others.
pub record Equals (source : ℕ → ℕ) (n : ℕ) (g : Fragment) : Type 0 where
  pub size : g.vals.size ≡ n
  pub words : (k : ℕ) → k < n → g.vals.data_ k ≡ source k

-- The fragment that `ReadFragment` leaves, from one that was resized.
abbrev received : (ℕ → ℕ) → ℕ → Fragment → Fragment
received source n f =
    put_data_words (some (rest source n)) (n - num_words) (put_header_words (decode source) f)

encode_inside :
    (h : RawFragmentHeader) (d e : ℕ → ℕ) (k : ℕ) → k < num_words → encode h d k ≡ encode h e k
unfolding encode
encode_inside h d e k lt = ground arith

below_cases : (k : ℕ) → (k < num_words) ⊎ ((m : ℕ) × (k ≡ num_words + m))
below_cases k = elim (Bool-cases (ltb k num_words)) [
  | inl e ↦ inl (ground arith)
  | inr e ↦ inr (k - num_words, ground arith)
]

header_there :
    (source : ℕ → ℕ) (n : ℕ) (f : Fragment) (k : ℕ)
    → ((j : ℕ) → source j < 2 ^ 64)
    → k < num_words
    → (received source n f).vals.data_ k ≡ source k
unfolding put_data_words put_header_words
header_there source n f k small lt =
    loaded_outside (n - num_words) (rest source n) num_words (encode (decode source) f.vals.data_) k
      (inl lt)
    ∙ encode_inside (decode source) f.vals.data_ source k lt
    ∙ encode-decode source k (small 0) (small 1) (small 2) (small 3)

received-Equals :
    (source : ℕ → ℕ) (n : ℕ) (f : Fragment)
    → ((j : ℕ) → source j < 2 ^ 64)
    → num_words ≤ n
    → f.vals.size ≡ n
    → Equals source n (received source n f)
unfolding put_data_words put_header_words
received-Equals source n f small whole size = record {
  size = size;
  words = λ k lt. elim (below_cases k) [
    | inl le ↦ header_there source n f k small le
    | inr (m, e) ↦
        subst
          (λ x.
            load_words (n - num_words) (rest source n) num_words
              ((put_header_words (decode source) f).vals.data_) x
            ≡ source x)
          (sym e) (loaded_inside (n - num_words) source num_words num_words _ m small (omega arith))
  ];
}

fragment_reads :
    (logged : Bool) (fresh : ℕ → ℕ) (g f₁ : Fragment) (a : Active) (w u v : World) (i : ℕ)
    (h : RawFragmentHeader) (bytes : List ℕ)
    → read_fragment_header a w ≡ (ok (pos 0, some h, some i), u)
    → resize_fragment fresh (sub64 h.word_count num_words) g ≡ done (tt, f₁)
    → read_fragment_data logged (some i) (sub64 h.word_count num_words) u
      ≡ (ok (pos 0, some bytes, none), v)
    → read_fragment logged fresh g a w ≡ (
      ok (
        done (
          pos 0,
          put_data_words (some bytes) (sub64 h.word_count num_words) (put_header_words h f₁),
        ),
        none,
      ),
      v,
    )
unfolding read_fragment fill_fragment
fragment_reads logged fresh g f₁ a w u v i h bytes e resized e' =
    rw e (rw (fill_fragment, resized, e') refl)

-- `ReadFragment` by a ready manager to whom `GetBufferForReading` gives a buffer that holds `n` words of 64
-- bits, which begin with a header that counts `n` words, into a fragment of the current version without
-- metadata, returns 0; no buffer is active then, and the fragment has exactly these words.
pub read_fragment-Equals :
    (logged : Bool) (fresh : ℕ → ℕ) (g : Fragment) (a : Active) (w : World) (i : ℕ) (u : World)
    (source : ℕ → ℕ) (n : ℕ)
    → IsCurrent g
    → (decode g.vals.data_).metadata_word_count ≡ 0
    → IsReady w
    → get_buffer_for_reading w ≡ (ok (some i), u)
    → Stores i source n u
    → ((j : ℕ) → source j < 2 ^ 64)
    → (decode source).word_count ≡ n
    → n < w32
    → (g' : Fragment) × (v : World) × (read_fragment logged fresh g a w
        ≡ (ok (done (pos 0, g'), none), v))
      × Equals source n g'
read_fragment-Equals logged fresh g a w i u source n cur bare ready granted s small counts few =
    let (u₁, e₁, t) = read_fragment_header_form a w i u source n ready granted s small in
    let (f₁, e₂, r) = resize_fragment-Reshaped fresh (n - num_words) g cur (omega (arith, bare)) in
    let (u₂, v, e₃, _, _) = read_fragment_data_form logged u₁ i source n t in
    let k : sub64 (decode source).word_count num_words ≡ n - num_words =
      omega (arith, counts, few, s.whole) in
    (
      received source n f₁,
      v,
      fragment_reads logged fresh g f₁ a w u₁ v i (decode source) (rest source n) e₁
            (ap (λ m. resize_fragment fresh m g) k ∙ e₂)
            (ap (λ m. read_fragment_data logged (some i) m u₁) k ∙ e₃)
          ∙ ap
              (λ m. (
                ok (
                  done (
                    pos 0,
                    put_data_words (some (rest source n)) m (put_header_words (decode source) f₁),
                  ),
                  none,
                ),
                v,
              ))
              k,
      received-Equals source n f₁ small s.whole (omega (arith, r.size, bare, s.whole)),
    )
