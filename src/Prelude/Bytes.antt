-- ===== src/Prelude/Bytes.antt =====
-- Words of 64 bits as eight bytes each, the lowest first, as x86-64 keeps them.
use Prim.Native.Nat.{ℕ, zero, suc, ◌+◌, ◌*◌, ◌/◌, ◌%◌, ◌^◌, ◌<◌, ◌≤◌}
use mathlib.Core.Path.{◌≡◌, refl, ap, ap₂, ◌∙◌, sym}
use mathlib.Core.List.{List, [], ◌∷◌, ◌++◌, append_assoc}
use mathlib.Core.Logic.{◌⊎◌, inl}
use native.Mathlib.Omega.{arith}
use artdaq_core.Prelude.Lists.{length, get_or, drop}
use artdaq_core.Prelude.Memory.{put_at}

unfoldable pub bytes_of_word : ℕ → List ℕ
bytes_of_word x =
    x % 2 ^ 8
    ∷ x / 2 ^ 8 % 2 ^ 8
    ∷ x / 2 ^ 16 % 2 ^ 8
    ∷ x / 2 ^ 24 % 2 ^ 8
    ∷ x / 2 ^ 32 % 2 ^ 8
    ∷ x / 2 ^ 40 % 2 ^ 8
    ∷ x / 2 ^ 48 % 2 ^ 8
    ∷ x / 2 ^ 56 % 2 ^ 8
    ∷ []

unfoldable pub word_of_bytes : List ℕ → ℕ
word_of_bytes bs =
    get_or bs 0 0
    + 2 ^ 8 * get_or bs 1 0
    + 2 ^ 16 * get_or bs 2 0
    + 2 ^ 24 * get_or bs 3 0
    + 2 ^ 32 * get_or bs 4 0
    + 2 ^ 40 * get_or bs 5 0
    + 2 ^ 48 * get_or bs 6 0
    + 2 ^ 56 * get_or bs 7 0

-- The bytes of `n` words from `start` on.
unfoldable pub bytes_of : (ℕ → ℕ) → ℕ → ℕ → List ℕ
bytes_of words start zero = []
bytes_of words start (suc n) = bytes_of_word (words start) ++ bytes_of words (start + 1) n

-- A copy of bytes to `n` words of memory, from `dest` on.
unfoldable pub load_words : ℕ → List ℕ → ℕ → (ℕ → ℕ) → ℕ → ℕ
load_words zero bs dest words = words
load_words (suc n) bs dest words =
    load_words n (drop 8 bs) (dest + 1) (put_at words dest (word_of_bytes bs))

word_of_bytes_of_word :
    (x : ℕ) (rest : List ℕ) → x < 2 ^ 64 → word_of_bytes (bytes_of_word x ++ rest) ≡ x
unfolding word_of_bytes bytes_of_word
word_of_bytes_of_word x rest lt = omega arith

drop_word : (x : ℕ) (rest : List ℕ) → drop 8 (bytes_of_word x ++ rest) ≡ rest
unfolding bytes_of_word
drop_word x rest = refl

pub length-bytes_of : (words : ℕ → ℕ) (start n : ℕ) → length (bytes_of words start n) ≡ 8 * n
unfolding bytes_of bytes_of_word
length-bytes_of words start zero = refl
length-bytes_of words start (suc n) = omega (arith, length-bytes_of words (start + 1) n)

over : (start m : ℕ) → start + 1 + m ≡ start + suc m
over start m = omega arith

shift : (m n : ℕ) → suc m + n ≡ suc (m + n)
shift m n = omega arith

pub bytes_of-append :
    (words : ℕ → ℕ) (start m n : ℕ)
    → bytes_of words start (m + n) ≡ bytes_of words start m ++ bytes_of words (start + m) n
unfolding bytes_of
bytes_of-append words start zero n = ap₂ (λ s k. bytes_of words s k) (omega arith) (omega arith)
bytes_of-append words start (suc m) n =
    ap (bytes_of words start) (shift m n)
    ∙ ap (λ r. bytes_of_word (words start) ++ r)
        (bytes_of-append words (start + 1) m n
          ∙ ap (λ s. bytes_of words (start + 1) m ++ bytes_of words s n) (over start m))
    ∙ sym (append_assoc (bytes_of_word (words start)) (bytes_of words (start + 1) m) _)

pub loaded_outside :
    (n : ℕ) (bs : List ℕ) (dest : ℕ) (words : ℕ → ℕ) (k : ℕ)
    → (k < dest) ⊎ (dest + n ≤ k)
    → load_words n bs dest words k ≡ words k
unfolding load_words
loaded_outside zero bs dest words k h = refl
loaded_outside (suc n) bs dest words k h =
    loaded_outside n (drop 8 bs) (dest + 1) (put_at words dest (word_of_bytes bs)) k (ground arith)
    ∙ ground arith

first_word :
    (x : ℕ) (rest : List ℕ) (dest : ℕ) (words : ℕ → ℕ)
    → x < 2 ^ 64
    → put_at words dest (word_of_bytes (bytes_of_word x ++ rest)) (dest + 0) ≡ x
first_word x rest dest words lt = ground (arith, word_of_bytes_of_word x rest lt)

-- The words whose bytes were copied.
pub loaded_inside :
    (n : ℕ) (source : ℕ → ℕ) (start dest : ℕ) (words : ℕ → ℕ) (k : ℕ)
    → ((j : ℕ) → source j < 2 ^ 64)
    → k < n
    → load_words n (bytes_of source start n) dest words (dest + k) ≡ source (start + k)
unfolding load_words bytes_of
loaded_inside zero source start dest words k small lt = absurd (omega arith)
loaded_inside (suc n) source start dest words zero small lt =
    loaded_outside n (drop 8 (bytes_of source start (suc n))) (dest + 1)
      (put_at words dest (word_of_bytes (bytes_of source start (suc n)))) (dest + 0)
      (inl (omega arith))
    ∙ first_word (source start) (bytes_of source (start + 1) n) dest words (small start)
    ∙ ap source (omega arith)
loaded_inside (suc n) source start dest words (suc k) small lt =
    let at : dest + suc k ≡ dest + 1 + k = omega arith in
    let from : start + suc k ≡ start + 1 + k = omega arith in
    rw (drop_word (source start) (bytes_of source (start + 1) n), at, from)
      (loaded_inside n source (start + 1) (dest + 1)
        (put_at words dest (word_of_bytes (bytes_of source start (suc n)))) k small (omega arith))
