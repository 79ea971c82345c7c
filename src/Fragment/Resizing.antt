-- ===== src/Fragment/Resizing.antt =====
-- The operations of artdaq-core/Data/Fragment.hh that change the size of the data.
use artdaq_core.Prelude.{ℕ, ◌+◌, ◌-◌, ◌*◌, ◌/◌, ◌<◌, ◌≤◌, ◌≡◌, refl, arith, true, some, leb}
use artdaq_core.Prelude.Words.{w32, add64}
use artdaq_core.QuickVec.{QuickVec, resize, resize_with_cushion, erase, shift_down}
use artdaq_core.QuickVec.Contents.{resize_form, resize_with_cushion_form}
use artdaq_core.Header.{decode, num_words}
use artdaq_core.Fragment.{
  Fragment, done, resize_fragment, resize_bytes, resize_bytes_with_cushion, words_of_bytes,
  erase_from, clear, with_vals,
}
use artdaq_core.Fragment.Layout.{IsCurrent, Reshaped, data_begin_form, counted-Reshaped}

-- Resizing a fragment of the current version, to a number of words that a 32-bit count can hold in all,
-- succeeds: the header counts all words and is otherwise unchanged, `dataSize` is the size asked for,
-- and the words of metadata and data that fit are kept.
pub resize_fragment-Reshaped :
    (fresh : ℕ → ℕ) (n : ℕ) (f : Fragment)
    → IsCurrent f
    → n + (num_words + (decode f.vals.data_).metadata_word_count) < w32
    → (f' : Fragment) × (resize_fragment fresh n f ≡ done (tt, f')) × Reshaped n f f'
unfolding resize_fragment
resize_fragment-Reshaped fresh n f cur small =
    let total : ℕ = n + (num_words + (decode f.vals.data_).metadata_word_count) in
    let sum : add64 n (num_words + (decode f.vals.data_).metadata_word_count) ≡ total =
      omega arith in
    let (size, valid, same) = resize_form fresh total f.vals small cur.valid in
    let v = resize fresh total f.vals in
    let (e, r) =
      counted-Reshaped f cur n v valid size (λ k lt own. same k (omega (arith, size)) own) in
    (_, rw (data_begin_form f cur.own, sum) e, r)

-- Resizing a fragment of the current version to a size in bytes, such that a 32-bit count can hold
-- all words, succeeds as resizing to that size rounded up to words does: the header counts all words
-- and is otherwise unchanged, and the words that fit are kept.
pub resize_bytes-Reshaped :
    (fresh : ℕ → ℕ) (n : ℕ) (f : Fragment)
    → IsCurrent f
    → n + 8 * (num_words + (decode f.vals.data_).metadata_word_count) + 8 < 8 * w32
    → (f' : Fragment) × (m : ℕ) × (resize_bytes fresh n f ≡ done (tt, f'))
      × Reshaped m f f'
      × (n ≤ 8 * m)
      × (8 * m < n + 8)
unfolding resize_bytes words_of_bytes
resize_bytes-Reshaped fresh n f cur small =
    let (f', e, r) = resize_fragment-Reshaped fresh ((n + 7) / 8) f cur (omega arith) in
    (f', (n + 7) / 8, e, r, omega arith, omega arith)

-- The same with a cushion, for a size in bytes that is a number of words.
pub resize_bytes_with_cushion-Reshaped :
    (fresh later : ℕ → ℕ) (grown : ℕ → ℕ) (n : ℕ) (f : Fragment)
    → IsCurrent f
    → n + (num_words + (decode f.vals.data_).metadata_word_count) + 4096 < w32
    → grown f.vals.capacity + 4096 < w32
    → (f' : Fragment) × (resize_bytes_with_cushion fresh later grown (8 * n) f ≡ done (tt, f'))
      × Reshaped n f f'
unfolding resize_bytes_with_cushion words_of_bytes
resize_bytes_with_cushion-Reshaped fresh later grown n f cur small room =
    let total : ℕ = n + (num_words + (decode f.vals.data_).metadata_word_count) in
    let sum : add64 ((8 * n + 7) / 8) (num_words + (decode f.vals.data_).metadata_word_count)
        ≡ total =
      omega arith in
    let (size, valid, same) =
      resize_with_cushion_form fresh later grown total f.vals (omega arith) room small cur.valid in
    let v = resize_with_cushion fresh later grown total f.vals in
    let (e, r) =
      counted-Reshaped f cur n v valid size (λ k lt own. same k (omega (arith, size)) own) in
    (_, rw (data_begin_form f cur.own, sum) e, r)

-- The first words of a vector.
abbrev cut : ℕ → QuickVec ℕ → QuickVec ℕ
cut n v = record v { size = n }

shift_none : (d : ℕ → ℕ) (dst src n : ℕ) → n ≡ 0 → shift_down d dst src n ≡ d
unfolding shift_down
shift_none d dst src n e = rw e refl

erase_end :
    (start : ℕ) (v : QuickVec ℕ) → start ≤ v.size → erase start v.size v ≡ some (cut start v)
unfolding erase
erase_end start v le =
    rw (erase, whole, shift_none v.data_ start v.size (v.size - v.size) (omega arith), left) refl
  where
    whole : leb v.size v.size ≡ true
    whole = ground arith

    left : v.size - (v.size - start) ≡ start
    left = omega arith

erase_from_form :
    (start : ℕ) (f : Fragment)
    → start ≤ f.vals.size
    → erase_from start f ≡ done (tt, with_vals (cut start f.vals) f)
unfolding erase_from
erase_from_form start f le = rw (erase_from, erase_end start f.vals le) refl

-- Clearing a fragment of the current version succeeds: no data is left, and the header, which then counts
-- only itself and the metadata, and the metadata are kept.
pub clear-Reshaped :
    (f : Fragment) → IsCurrent f → (f' : Fragment) × (clear f ≡ done (tt, f')) × Reshaped 0 f f'
unfolding clear
clear-Reshaped f cur =
    let start : ℕ = num_words + (decode f.vals.data_).metadata_word_count in
    let (e, r) =
      counted-Reshaped f cur 0 (cut start f.vals) (omega (arith, cur.room, cur.valid), cur.valid.1)
        (omega arith) (λ k lt own. refl) in
    (_, rw (data_begin_form f cur.own, erase_from_form start f cur.room) e, r)
