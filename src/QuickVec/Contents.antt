-- ===== src/QuickVec/Contents.antt =====
-- What the operations of artdaq-core/Core/QuickVec.hh that change the size at the end of the vector,
-- or only its memory, do to the list that it holds.
use artdaq_core.Prelude.{
  ℕ, true, false, ◌+◌, ◌/◌, ◌%◌, ◌<◌, ◌≤◌, ◌≡◌, ◌⊎◌, inl, inr, refl, ap, arith, ◌∙◌, if◌then◌else◌,
  ltb, [], ◌∷◌, ◌++◌, take,
}
use artdaq_core.Prelude.Memory.{elements, elements_eq, elements-append, take-elements}
use artdaq_core.Prelude.Words.{w32, add32}
use artdaq_core.QuickVec.{
  QuickVec, to_list, memcpy, reserve, resize, resize_with_cushion, resize_fill, cushion, widen,
  make_room, push_back,
}
use native.Mathlib.Nat.{zero-add}

-- What holds between operations: the elements lie within the block, whose size fits its field.
abbrev pub IsValid {ℓ} : {A : Type ℓ} → QuickVec A → Type 0
IsValid v = (v.size ≤ v.capacity) × (v.capacity < w32)

pub small_mod : (n : ℕ) → n < w32 → n % w32 ≡ n
small_mod n h = omega arith

pub cushion_enough : (n : ℕ) → (n ≤ cushion n) × (512 ≤ cushion n) × (cushion n ≤ n + 4096)
unfolding cushion
cushion_enough n = ground arith

ltb_cases : (a b : ℕ) → (a < b) ⊎ (b ≤ a)
ltb_cases a b = ground arith

module _ {ℓ} {A : Type ℓ} where
  -- A vector of valid fields that holds `n` elements, of which the first are those of `v`.
  abbrev pub Resized : ℕ → QuickVec A → QuickVec A → Type ℓ
  Resized n v v' =
      (v'.size ≡ n) × IsValid v' × ((k : ℕ) → k < n → k < v.size → v'.data_ k ≡ v.data_ k)

  pub reserve_form :
      (fresh : ℕ → A) (n : ℕ) (v : QuickVec A)
      → n < w32
      → IsValid v
      → ((reserve fresh n v).size ≡ v.size)
        × (n ≤ (reserve fresh n v).capacity)
        × IsValid (reserve fresh n v)
        × ((k : ℕ) → k < v.size → (reserve fresh n v).data_ k ≡ v.data_ k)
  unfolding reserve memcpy
  reserve_form fresh n v small valid =
      (ground arith, ground arith, (ground arith, ground arith), (λ k lt. ground arith))

  -- Reserving memory for fewer than 2 ^ 32 elements leaves the list that a valid vector holds as it
  -- is, whether the block moves or not.
  pub to_list-reserve :
      (fresh : ℕ → A) (n : ℕ) (v : QuickVec A)
      → n < w32
      → IsValid v
      → to_list (reserve fresh n v) ≡ to_list v
  unfolding to_list
  to_list-reserve fresh n v small valid =
      let r = reserve_form fresh n v small valid in
      rw (r.0) (elements_eq _ _ 0 0 v.size (λ k lt. rw (zero-add) (r.3 k lt)))

  pub resize_form :
      (fresh : ℕ → A) (n : ℕ) (v : QuickVec A)
      → n < w32
      → IsValid v
      → Resized n v (resize fresh n v)
  unfolding resize memcpy
  resize_form fresh n v small valid =
      (ground arith, (ground arith, ground arith), (λ k lt own. ground arith))

  shorter_cuts :
      (n : ℕ) (v v' : QuickVec A) → n ≤ v.size → Resized n v v' → to_list v' ≡ take n (to_list v)
  unfolding to_list
  shorter_cuts n v v' le (e, valid, same) =
      rw (e, take-elements v.data_ 0 n v.size le)
        (elements_eq v'.data_ v.data_ 0 0 n (λ k lt. rw zero-add (same k lt (omega arith))))

  longer_keeps :
      (n : ℕ) (v v' : QuickVec A)
      → v.size ≤ n
      → Resized n v v'
      → take v.size (to_list v') ≡ to_list v
  unfolding to_list
  longer_keeps n v v' le (e, valid, same) =
      rw (e, take-elements v'.data_ 0 v.size n le)
        (elements_eq v'.data_ v.data_ 0 0 v.size (λ k lt. rw zero-add (same k (omega arith) lt)))

  -- What a vector of `n` elements keeps of the list: its beginning, or all of it as the beginning.
  abbrev pub KeepsPrefix : ℕ → QuickVec A → QuickVec A → Type ℓ
  KeepsPrefix n v v' =
      ((n ≤ v.size) × (to_list v' ≡ take n (to_list v)))
      ⊎ ((v.size < n) × (take v.size (to_list v') ≡ to_list v))

  Resized-KeepsPrefix : (n : ℕ) (v v' : QuickVec A) → Resized n v v' → KeepsPrefix n v v'
  Resized-KeepsPrefix n v v' r = elim (ltb_cases v.size n) [
    | inl lt ↦ inr (lt, longer_keeps n v v' (omega arith) r)
    | inr le ↦ inl (le, shorter_cuts n v v' le r)
  ]

  -- Resizing a valid vector to a size below 2 ^ 32 yields a valid vector of that size. A smaller size
  -- cuts the list off, a larger one keeps it as the first elements, whether the memory moves or not.
  pub to_list-resize :
      (fresh : ℕ → A) (n : ℕ) (v : QuickVec A)
      → n < w32
      → IsValid v
      → ((resize fresh n v).size ≡ n)
        × IsValid (resize fresh n v)
        × KeepsPrefix n v (resize fresh n v)
  to_list-resize fresh n v small valid =
      let r = resize_form fresh n v small valid in
      (r.0, r.1, Resized-KeepsPrefix n v (resize fresh n v) r)

  -- Resizing with a value for the new elements never stores that value: it is plain resizing.
  pub resize_fill_ignores :
      (fresh : ℕ → A) (n : ℕ) (val : A) (v : QuickVec A)
      → resize_fill fresh n val v ≡ resize fresh n v
  unfolding resize_fill
  resize_fill_ignores fresh n val v = ground arith

  pub make_room_form :
      (fresh : ℕ → A) (v : QuickVec A)
      → v.size + v.size / 10 + 1 < w32
      → IsValid v
      → ((make_room fresh v).size ≡ v.size)
        × (v.size < (make_room fresh v).capacity)
        × ((make_room fresh v).capacity < w32)
        × ((k : ℕ) → k < v.size → (make_room fresh v).data_ k ≡ v.data_ k)
  unfolding make_room reserve memcpy
  make_room_form fresh v small valid =
      rw request (ground arith, ground arith, ground arith, (λ k lt. ground arith))
    where
      request : add32 (add32 v.size (v.size / 10)) 1 ≡ v.size + v.size / 10 + 1
      request = omega arith

  push_back_form :
      (fresh : ℕ → A) (val : A) (v : QuickVec A)
      → v.size + v.size / 10 + 1 < w32
      → IsValid v
      → ((push_back fresh val v).size ≡ v.size + 1)
        × IsValid (push_back fresh val v)
        × ((k : ℕ) → k < v.size → (push_back fresh val v).data_ k ≡ v.data_ k)
        × ((push_back fresh val v).data_ v.size ≡ val)
  unfolding push_back
  push_back_form fresh val v small valid =
      let m = make_room_form fresh v small valid in
      (
        ground arith,
        (ground arith, m.2),
        (λ k lt. rw (m.0) (ground (arith, m.3 k lt))),
        rw (m.0) (ground arith),
      )

  -- Pushing a value on a valid vector appends it to the list and leaves the vector valid, whether or
  -- not the block is full, as long as the size to reserve stays below 2 ^ 32.
  pub to_list-push_back :
      (fresh : ℕ → A) (val : A) (v : QuickVec A)
      → v.size + v.size / 10 + 1 < w32
      → IsValid v
      → (to_list (push_back fresh val v) ≡ to_list v ++ val ∷ []) × IsValid (push_back fresh val v)
  unfolding to_list elements
  to_list-push_back fresh val v small valid =
      let p = push_back_form fresh val v small valid in
      (
        rw (p.0, elements-append (push_back fresh val v).data_ 0 v.size 1, zero-add, p.3)
            (ap (λ xs. xs ++ val ∷ [])
              (elements_eq _ _ 0 0 v.size (λ k lt. rw zero-add (p.2 k lt)))),
        p.1,
      )

  widen_form :
      (fresh : ℕ → A) (grown : ℕ → ℕ) (n : ℕ) (v : QuickVec A)
      → grown v.capacity + 4096 < w32
      → n + 4096 < w32
      → IsValid v
      → let u = widen fresh grown n v in
        (u.size ≡ v.size)
        × (n ≤ u.capacity)
        × IsValid u
        × ((k : ℕ) → k < v.size → u.data_ k ≡ v.data_ k)
        × ((n ≤ v.capacity) ⊎ (512 ≤ u.capacity))
  unfolding widen
  widen_form fresh grown n v room near valid =
      let more = if ltb (grown v.capacity) n then n else grown v.capacity in
      let c = cushion_enough more in
      elim (ltb_cases v.capacity n) [
        | inl lt ↦
            let r = reserve_form fresh (cushion more) v (ground arith) valid in
            rw (ltb_true lt) (r.0, ground arith, r.2, r.3, inr (ground arith))
        | inr le ↦ rw (ltb_false le) (refl, le, valid, (λ k h. refl), inl le)
      ]
    where
      ltb_true : {a b : ℕ} → a < b → ltb a b ≡ true
      ltb_true h = ground arith

      ltb_false : {a b : ℕ} → b ≤ a → ltb a b ≡ false
      ltb_false h = ground arith

  resize_within :
      (fresh : ℕ → A) (n : ℕ) (v : QuickVec A)
      → n ≤ v.capacity
      → (resize fresh n v).capacity ≡ v.capacity
  unfolding resize
  resize_within fresh n v le = ground arith

  pub resize_with_cushion_form :
      (fresh later : ℕ → A) (grown : ℕ → ℕ) (n : ℕ) (v : QuickVec A)
      → n < w32
      → grown v.capacity + 4096 < w32
      → n + 4096 < w32
      → IsValid v
      → Resized n v (resize_with_cushion fresh later grown n v)
  unfolding resize_with_cushion
  resize_with_cushion_form fresh later grown n v small room near valid =
      let u = widen fresh grown n v in
      let f = widen_form fresh grown n v room near valid in
      let r = resize_form later n u small (f.2) in
      (r.0, r.1, (λ k lt own. r.2 k lt (rw (f.0) own) ∙ f.3 k own))

  -- Resizing a valid vector with a cushion, where the size and the size grown by the factor stay
  -- 4096 below 2 ^ 32, does what resizing does: the result is valid and of that size, a smaller size
  -- cuts the list off and a larger one keeps it. A vector that had to grow has room for at least 512
  -- elements afterwards.
  pub to_list-resize_with_cushion :
      (fresh later : ℕ → A) (grown : ℕ → ℕ) (n : ℕ) (v : QuickVec A)
      → n < w32
      → grown v.capacity + 4096 < w32
      → n + 4096 < w32
      → IsValid v
      → let v' = resize_with_cushion fresh later grown n v in
        (v'.size ≡ n) × IsValid v' × KeepsPrefix n v v' × ((n ≤ v.capacity) ⊎ (512 ≤ v'.capacity))
  unfolding resize_with_cushion
  to_list-resize_with_cushion fresh later grown n v small room near valid =
      let u = widen fresh grown n v in
      let f = widen_form fresh grown n v room near valid in
      let r = resize_with_cushion_form fresh later grown n v small room near valid in
      (
        r.0,
        r.1,
        Resized-KeepsPrefix n v (resize later n u) r,
        rw (resize_within later n u (f.1)) (f.4),
      )
