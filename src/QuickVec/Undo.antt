-- ===== src/QuickVec/Undo.antt =====
-- `erase` of artdaq-core/Core/QuickVec.hh undoes `insert`.
use artdaq_core.Prelude.{
  ℕ, zero, suc, ◌+◌, ◌<◌, ◌≤◌, ◌≡◌, refl, ap, ap₂, arith, ◌∙◌, List, [], ◌∷◌, ◌++◌, length, take,
  drop, replicate, some,
}
use artdaq_core.Prelude.{
  length-append, length-take, length-drop, length-replicate, take-append-drop,
}
use native.Mathlib.Nat.{zero-add}
use artdaq_core.Prelude.Memory.{length-elements}
use artdaq_core.Prelude.Words.{w32}
use artdaq_core.QuickVec.{QuickVec, to_list, insert, erase}
use artdaq_core.QuickVec.Contents.{IsValid}
use artdaq_core.QuickVec.Editing.{to_list-insert, to_list-erase}

module _ {ℓ} {A : Type ℓ} where
  length-to_list : (v : QuickVec A) → length (to_list v) ≡ v.size
  unfolding to_list
  length-to_list v = length-elements v.data_ 0 v.size

  take-spliced : (o : ℕ) (xs ys : List A) → o ≤ length xs → take o (take o xs ++ ys) ≡ take o xs
  take-spliced zero xs ys h = refl
  take-spliced (suc o) [] ys h = absurd (omega arith)
  take-spliced (suc o) (x ∷ xs) ys h = ap (◌∷◌ x) (take-spliced o xs ys (omega arith))

  drop-replicate : (n : ℕ) (a : A) (ys : List A) → drop n (replicate n a ++ ys) ≡ ys
  drop-replicate zero a ys = refl
  drop-replicate (suc n) a ys = drop-replicate n a ys

  drop-spliced :
      (o n : ℕ) (a : A) (xs ys : List A)
      → o ≤ length xs
      → drop (o + n) (take o xs ++ (replicate n a ++ ys)) ≡ ys
  drop-spliced zero n a xs ys h = rw (zero-add n) (drop-replicate n a ys)
  drop-spliced (suc o) n a [] ys h = absurd (omega arith)
  drop-spliced (suc o) n a (x ∷ xs) ys h = rw next (drop-spliced o n a xs ys (omega arith))
    where
      next : suc o + n ≡ suc (o + n)
      next = omega arith

  size_after :
      (o n : ℕ) (a : A) (xs : List A)
      → o ≤ length xs
      → length (take o xs ++ (replicate n a ++ drop o xs)) ≡ length xs + n
  size_after o n a xs h = omega (
    arith,
    length-append (take o xs) (replicate n a ++ drop o xs),
    length-append (replicate n a) (drop o xs),
    length-take o xs,
    length-replicate n a,
    length-drop o xs,
  )

  -- Inserting copies of a value into a valid vector, at a position within it and with room for the new size
  -- in 32 bits, and erasing them again succeeds and restores the list.
  pub erase-insert :
      (fresh : ℕ → A) (offset nn : ℕ) (val : A) (v : QuickVec A)
      → offset ≤ v.size
      → v.size + nn < w32
      → IsValid v
      → (v₁ v₂ : QuickVec A) × (insert fresh offset nn val v ≡ some v₁)
        × (erase offset (offset + nn) v₁ ≡ some v₂)
        × (to_list v₂ ≡ to_list v)
        × IsValid v₂
  erase-insert fresh offset nn val v le small valid =
      let xs = to_list v in
      let h : offset ≤ length xs = omega (arith, length-to_list v) in
      let (v₁, e₁, l₁, valid₁) = to_list-insert fresh offset nn val v le small valid in
      let room : offset + nn ≤ v₁.size =
        omega (
          arith,
          length-to_list v₁,
          ap length l₁,
          size_after offset nn val xs h,
          length-to_list v,
        ) in
      let (v₂, e₂, l₂, valid₂) = to_list-erase offset (offset + nn) v₁ (omega arith) room valid₁ in
      (
        v₁,
        v₂,
        e₁,
        e₂,
        l₂
            ∙ ap₂ ◌++◌ (ap (take offset) l₁ ∙ take-spliced offset xs _ h)
                (ap (drop (offset + nn)) l₁ ∙ drop-spliced offset nn val xs (drop offset xs) h)
            ∙ take-append-drop offset xs,
        valid₂,
      )
