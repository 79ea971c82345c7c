-- ===== src/Container/Walk.antt =====
-- `create_index_` of artdaq-core/Data/ContainerFragment.hh, over fragments that stand one behind the other.
use artdaq_core.Prelude.{
  ℕ, zero, suc, ◌+◌, ◌-◌, ◌*◌, ◌%◌, ◌^◌, ◌<◌, ◌≤◌, ◌≡◌, refl, sym, ap, ap₂, arith, ◌∙◌, some,
  get_elem?,
}
use artdaq_core.Prelude.Words.{w32, add64, mul64}
use artdaq_core.Container.{container_magic, walk}

-- The words `d` hold `count` fragments, of which the one at `k` stands from `ends k` on, counted from `start`,
-- and its header counts the words up to `ends (k + 1)`.
pub record Stands (count start : ℕ) (ends d : ℕ → ℕ) : Type 0 where
  pub first : ends 0 ≡ 0
  pub order : (k : ℕ) → k < count → (ends k ≤ ends (k + 1)) × (ends (k + 1) ≤ ends count)
  pub counted : (k : ℕ) → k < count → d (start + ends k) % 2 ^ 32 ≡ ends (k + 1) - ends k
  pub small : ends count < w32

module _ (count start : ℕ) (ends d : ℕ → ℕ) (s : Stands count start ends d) where
  step :
      (left i : ℕ)
      → suc left + i ≡ count
      → (start + ends i + d (start + ends i) % 2 ^ 32 ≡ start + ends (i + 1))
        × (add64 (8 * ends i) (mul64 (d (start + ends i) % 2 ^ 32) 8) ≡ 8 * ends (i + 1))
  step left i e =
      let c = s.counted i (omega arith) in
      let (a, b) = s.order i (omega arith) in (omega (arith, c, a), omega (arith, c, a, b, s.small))

  walk_from :
      (left i j : ℕ)
      → left + i ≡ count
      → j < left
      → get_elem? (walk d left (start + ends i) (8 * ends i)) j ≡ some (8 * ends (i + j + 1))
  unfolding walk
  walk_from zero i j e lt = absurd (omega arith)
  walk_from (suc left) i zero e lt =
      ap some ((step left i e).1 ∙ ap (λ n. 8 * ends (n + 1)) (omega arith))
  walk_from (suc left) i (suc j) e lt =
      let (here, end) = step left i e in
      ap₂ (λ p o. get_elem? (walk d left p o) j) here end
      ∙ walk_from left (i + 1) j (omega arith) (omega arith)
      ∙ ap (λ n. some (8 * ends (n + 1))) (omega arith)

  walk_last :
      (left i : ℕ)
      → left + i ≡ count
      → get_elem? (walk d left (start + ends i) (8 * ends i)) left ≡ some container_magic
  unfolding walk
  walk_last zero i e = refl
  walk_last (suc left) i e =
      let (here, end) = step left i e in
      ap₂ (λ p o. get_elem? (walk d left p o) left) here end ∙ walk_last left (i + 1) (omega arith)

  begins : (start + ends 0 ≡ start) × (8 * ends 0 ≡ 0)
  begins = (omega (arith, s.first), omega (arith, s.first))

  -- The index has the end of each fragment in bytes, and then the magic word.
  pub walk-Stands :
      ((k : ℕ) → k < count → get_elem? (walk d count start 0) k ≡ some (8 * ends (k + 1)))
      × (get_elem? (walk d count start 0) count ≡ some container_magic)
  walk-Stands =
      let (p, o) = begins in
      (
        λ k lt.
            ap₂ (λ x y. get_elem? (walk d count x y) k) (sym p) (sym o)
            ∙ walk_from count 0 k (omega arith) lt
            ∙ ap (λ n. some (8 * ends (n + 1))) (omega arith),
        ap₂ (λ x y. get_elem? (walk d count x y) count) (sym p) (sym o)
            ∙ walk_last count 0 (omega arith),
      )
