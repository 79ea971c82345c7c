-- ===== src/QuickVec/Editing.antt =====
-- What `insert` and `erase` of artdaq-core/Core/QuickVec.hh do to the list that the vector holds.
use artdaq_core.Prelude.{
  ℕ, ◌+◌, ◌-◌, ◌<◌, ◌≤◌, ◌≡◌, inl, inr, refl, ap₂, arith, ◌∙◌, ◌++◌, take, drop, replicate, some,
}
use artdaq_core.Prelude.Memory.{
  elements, elements_eq, elements-append, elements-replicate, take-elements, drop-elements,
}
use artdaq_core.Prelude.Words.{w32, add64}
use artdaq_core.QuickVec.{
  QuickVec, to_list, reserve, open_gap, insert, insert_range, erase, fill, copy_from, shift_down,
}
use artdaq_core.QuickVec.Loops.{
  fill_inside, fill_outside, copy_from_inside, copy_from_outside, shift_up_inside, shift_up_outside,
  shift_down_inside, shift_down_outside,
}
use artdaq_core.QuickVec.Contents.{IsValid, reserve_form}
use native.Mathlib.Nat.{zero-add}

module _ {ℓ} {A : Type ℓ} where
  -- An array that holds `d` up to `o`, then the elements of `mid`, then what stood in `d` from `o`.
  spliced :
      (D d mid : ℕ → A) (o first nn size : ℕ)
      → o ≤ size
      → ((j : ℕ) → j < o → D j ≡ d j)
      → ((k : ℕ) → k < nn → D (o + k) ≡ mid (first + k))
      → ((k : ℕ) → k < size - o → D (o + nn + k) ≡ d (o + k))
      → elements D 0 (size + nn)
        ≡ take o (elements d 0 size) ++ (elements mid first nn ++ drop o (elements d 0 size))
  spliced D d mid o first nn size le low middle high =
      rw
        (
          count,
          elements-append D 0 o (nn + (size - o)),
          zero-add,
          elements-append D o nn (size - o),
          take-elements d 0 o size le,
          drop-elements d 0 o size le,
          zero-add,
        )
        (ap₂ ◌++◌ (elements_eq D d 0 0 o (λ k lt. rw zero-add (low k lt))) (
          ap₂ ◌++◌ (elements_eq D mid o first nn middle)
            (elements_eq D d (o + nn) o (size - o) high)))
    where
      count : size + nn ≡ o + (nn + (size - o))
      count = omega arith

  pub open_gap_form :
      (fresh : ℕ → A) (o nn : ℕ) (v : QuickVec A)
      → o ≤ v.size
      → v.size + nn < w32
      → IsValid v
      → let g = open_gap fresh o nn v in
        (g.size ≡ v.size + nn)
        × IsValid g
        × ((j : ℕ) → j < o → g.data_ j ≡ v.data_ j)
        × ((k : ℕ) → k < v.size - o → g.data_ (o + nn + k) ≡ v.data_ (o + k))
  unfolding open_gap
  open_gap_form fresh o nn v le small valid =
      let R = reserve fresh (v.size + nn) v in
      let r = reserve_form fresh (v.size + nn) v small valid in
      rw (request, r.0)
        (
          ground arith,
          (ground arith, r.2.1),
          (λ j lt.
              shift_up_outside R.data_ (v.size + nn) v.size (v.size - o) j (omega arith)
                (omega arith) (inl (omega arith))
              ∙ r.3 j (omega arith)),
          (λ k lt.
              rw (high k, low k)
                (shift_up_inside R.data_ (v.size + nn) v.size (v.size - o) k (omega arith)
                    (omega arith) lt
                  ∙ r.3 _ (omega arith))),
        )
    where
      request : add64 v.size nn ≡ v.size + nn
      request = omega arith

      high : (k : ℕ) → o + nn + k ≡ v.size + nn - (v.size - o) + k
      high k = omega arith

      low : (k : ℕ) → o + k ≡ v.size - (v.size - o) + k
      low k = omega arith

  -- Inserting `nn` copies of a value into a valid vector, at a position that is not past its end and
  -- with a new size below 2 ^ 32, succeeds: the copies stand between what was before and after the
  -- position, and the vector is valid.
  pub to_list-insert :
      (fresh : ℕ → A) (offset nn : ℕ) (val : A) (v : QuickVec A)
      → offset ≤ v.size
      → v.size + nn < w32
      → IsValid v
      → (v' : QuickVec A) × (insert fresh offset nn val v ≡ some v')
        × (to_list v' ≡ take offset (to_list v) ++ (replicate nn val ++ drop offset (to_list v)))
        × IsValid v'
  unfolding insert to_list
  to_list-insert fresh offset nn val v le small valid =
      let g = open_gap fresh offset nn v in
      let f = open_gap_form fresh offset nn v le small valid in
      let D = fill g.data_ offset nn val in
      (
        record { size = g.size; data_ = D; capacity = g.capacity },
        ground arith,
        rw (f.0) (
            spliced D v.data_ (λ _. val) offset 0 nn v.size le
              (λ j lt. fill_outside g.data_ offset nn val j (inl lt) ∙ f.2 j lt)
              (fill_inside g.data_ offset nn val)
              (λ k lt. fill_outside g.data_ offset nn val _ (inr (omega arith)) ∙ f.3 k lt)
            ∙ rw (elements-replicate (λ _. val) val 0 nn (λ k lt. refl)) refl),
        f.1,
      )

  -- Inserting the elements `first` up to `last` of another array into a valid vector, at a position
  -- that is not past its end and with a new size below 2 ^ 32, succeeds: these elements stand
  -- between what was before and after the position, and the vector is valid.
  pub to_list-insert_range :
      (fresh : ℕ → A) (offset : ℕ) (other : ℕ → A) (first last : ℕ) (v : QuickVec A)
      → offset ≤ v.size
      → v.size + (last - first) < w32
      → IsValid v
      → (v' : QuickVec A) × (insert_range fresh offset other first last v ≡ some v')
        × (to_list v'
            ≡ take offset (to_list v)
              ++ (elements other first (last - first) ++ drop offset (to_list v)))
        × IsValid v'
  unfolding insert_range to_list
  to_list-insert_range fresh offset other first last v le small valid =
      let nn = last - first in
      let g = open_gap fresh offset nn v in
      let f = open_gap_form fresh offset nn v le small valid in
      let D = copy_from g.data_ other offset first nn in
      (
        record { size = g.size; data_ = D; capacity = g.capacity },
        ground arith,
        rw (f.0) (
            spliced D v.data_ other offset first nn v.size le
              (λ j lt. copy_from_outside g.data_ other offset first nn j (inl lt) ∙ f.2 j lt)
              (copy_from_inside g.data_ other offset first nn)
              (λ k lt.
                copy_from_outside g.data_ other offset first nn _ (inr (omega arith)) ∙ f.3 k lt)),
        f.1,
      )

  -- Erasing a range that lies within a valid vector succeeds: what stood before and after the range is
  -- left, in order, and the vector is valid.
  pub to_list-erase :
      (first last : ℕ) (v : QuickVec A)
      → first ≤ last
      → last ≤ v.size
      → IsValid v
      → (v' : QuickVec A) × (erase first last v ≡ some v')
        × (to_list v' ≡ take first (to_list v) ++ drop last (to_list v))
        × IsValid v'
  unfolding erase to_list
  to_list-erase first last v order le valid = (
    record { size = v.size - (last - first); data_ = D; capacity = v.capacity },
    ground arith,
    rw
        (
          count,
          elements-append D 0 first (v.size - last),
          zero-add,
          take-elements v.data_ 0 first v.size (omega arith),
          drop-elements v.data_ 0 last v.size le,
          zero-add,
        )
        (ap₂ ◌++◌
          (elements_eq D v.data_ 0 0 first (λ k lt.
            rw zero-add (shift_down_outside v.data_ first last (v.size - last) k (inl lt))))
          (elements_eq D v.data_ first last (v.size - last)
            (λ k lt. shift_down_inside v.data_ first last (v.size - last) k order lt))),
    (omega arith, valid.1),
  )
    where
      D : ℕ → A
      D = shift_down v.data_ first last (v.size - last)

      count : v.size - (last - first) ≡ first + (v.size - last)
      count = omega arith
