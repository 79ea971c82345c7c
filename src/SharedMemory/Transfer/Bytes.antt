-- ===== src/SharedMemory/Transfer/Bytes.antt =====
-- `memcpy` into the segment and out of it.
use artdaq_core.Prelude.{
  ℕ, zero, suc, ◌+◌, ◌<◌, ◌≤◌, ◌≡◌, ◌⊎◌, inl, refl, ap, ap₂, List, [], ◌∷◌, ◌++◌, length, arith,
  ◌∙◌,
}
use artdaq_core.SharedMemory.State.{put_at}
use artdaq_core.SharedMemory.Transfer.{copy_in, copy_out}

-- A copy leaves the bytes on both sides alone.
pub copy_in_outside :
    (a : ℕ) (xs : List ℕ) (m : ℕ → ℕ) (p : ℕ)
    → (p < a) ⊎ (a + length xs ≤ p)
    → copy_in a xs m p ≡ m p
unfolding copy_in
copy_in_outside a [] m p h = refl
copy_in_outside a (x ∷ xs) m p h =
    copy_in_outside (a + 1) xs (put_at m a x) p (ground arith) ∙ ground arith

-- What was copied in comes out.
pub copy_out-copy_in :
    (a : ℕ) (xs : List ℕ) (m : ℕ → ℕ) → copy_out a (length xs) (copy_in a xs m) ≡ xs
unfolding copy_out copy_in
copy_out-copy_in a [] m = refl
copy_out-copy_in a (x ∷ xs) m = ground (
  arith,
  copy_in_outside (a + 1) xs (put_at m a x) a (inl (omega arith)),
  copy_out-copy_in (a + 1) xs (put_at m a x),
)

copy_out_same :
    (a n : ℕ) (m m' : ℕ → ℕ)
    → ((p : ℕ) → a ≤ p → p < a + n → m p ≡ m' p)
    → copy_out a n m ≡ copy_out a n m'
unfolding copy_out
copy_out_same a zero m m' same = refl
copy_out_same a (suc n) m m' same =
    ap₂ ◌∷◌ (same a (omega arith) (omega arith))
      (copy_out_same (a + 1) n m m' (λ p le lt. same p (omega arith) (omega arith)))

copy_in-append :
    (a : ℕ) (xs ys : List ℕ) (m : ℕ → ℕ)
    → copy_in a (xs ++ ys) m ≡ copy_in (a + length xs) ys (copy_in a xs m)
unfolding copy_in
copy_in-append a [] ys m = ap (λ b. copy_in b ys m) (omega arith)
copy_in-append a (x ∷ xs) ys m =
    copy_in-append (a + 1) xs ys (put_at m a x)
    ∙ ap (λ b. copy_in b ys (copy_in (a + 1) xs (put_at m a x))) (omega arith)

-- What was copied in comes out in two parts.
pub copy_out_first :
    (a : ℕ) (xs ys : List ℕ) (m : ℕ → ℕ) → copy_out a (length xs) (copy_in a (xs ++ ys) m) ≡ xs
copy_out_first a xs ys m =
    ap (copy_out a (length xs)) (copy_in-append a xs ys m)
    ∙ copy_out_same a (length xs) _ (copy_in a xs m)
        (λ p le lt. copy_in_outside (a + length xs) ys (copy_in a xs m) p (inl lt))
    ∙ copy_out-copy_in a xs m

pub copy_out_second :
    (a : ℕ) (xs ys : List ℕ) (m : ℕ → ℕ)
    → copy_out (a + length xs) (length ys) (copy_in a (xs ++ ys) m) ≡ ys
copy_out_second a xs ys m =
    ap (copy_out (a + length xs) (length ys)) (copy_in-append a xs ys m)
    ∙ copy_out-copy_in (a + length xs) ys (copy_in a xs m)
