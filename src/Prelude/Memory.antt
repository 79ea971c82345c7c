-- ===== src/Prelude/Memory.antt =====
-- Arrays and memory as functions from an index, and the lists that stand in them.
use Prim.Native.Nat.{ℕ, zero, suc, ◌+◌, ◌-◌, ◌<◌, ◌≤◌}
use mathlib.Core.Path.{◌≡◌, refl, ap, ap₂}
use mathlib.Core.List.{List, [], ◌∷◌, ◌++◌}
use native.Mathlib.Omega.{arith}
use native.Mathlib.Numerals.{unary_clauses}
use native.Mathlib.Nat.{add-zero, zero-add}
use artdaq_core.Prelude.Tests.{◌==◌, if◌then◌else◌}
use artdaq_core.Prelude.Lists.{length, take, drop, replicate}

abbrev pub put_at {ℓ} : {A : Type ℓ} → (ℕ → A) → ℕ → A → ℕ → A
put_at f i a j = if i == j then a else f j

module _ {ℓ} {A : Type ℓ} where
  -- The `n` elements from `start` on.
  unfoldable pub elements : (ℕ → A) → ℕ → ℕ → List A
  elements f start zero = []
  elements f start (suc n) = f start ∷ elements f (start + 1) n

  pub length-elements : (f : ℕ → A) (start n : ℕ) → length (elements f start n) ≡ n
  unfolding elements
  length-elements f start zero = refl
  length-elements f start (suc n) = ap suc (length-elements f (start + 1) n)

  -- Two arrays that agree on a range, one of them shifted, hold the same list there.
  pub elements_eq :
      (f g : ℕ → A) (s t n : ℕ)
      → ((k : ℕ) → k < n → f (s + k) ≡ g (t + k))
      → elements f s n ≡ elements g t n
  unfolding elements
  elements_eq f g s t zero h = refl
  elements_eq f g s t (suc n) h = ap₂ ◌∷◌ (simp add-zero at (h 0 (omega arith))) (
      elements_eq f g (s + 1) (t + 1) n
        (λ k lt. rw (← shift s k, ← shift t k) (h (suc k) (omega arith))))
    where
      shift : (a k : ℕ) → a + suc k ≡ a + 1 + k
      shift a k = omega arith

  pub elements-replicate :
      (f : ℕ → A) (a : A) (s n : ℕ)
      → ((k : ℕ) → k < n → f (s + k) ≡ a)
      → elements f s n ≡ replicate n a
  unfolding elements
  elements-replicate f a s zero h = refl
  elements-replicate f a s (suc n) h =
      ap₂ ◌∷◌ (rw add-zero at (h 0 (omega arith)))
        (elements-replicate f a (s + 1) n (λ k lt. rw (← shift k) (h (suc k) (omega arith))))
    where
      shift : (k : ℕ) → s + suc k ≡ s + 1 + k
      shift k = omega arith

  pub elements-append :
      (f : ℕ → A) (s m n : ℕ) → elements f s (m + n) ≡ elements f s m ++ elements f (s + m) n
  unfolding elements
  elements-append f s zero n = simp (zero-add, add-zero)
  elements-append f s (suc m) n =
      rw (add_suc, shift) (ap (◌∷◌ (f s)) (elements-append f (s + 1) m n))
    where
      add_suc : suc m + n ≡ suc (m + n)
      add_suc = omega arith

      shift : s + suc m ≡ s + 1 + m
      shift = omega arith

  pub take-elements : (f : ℕ → A) (s m n : ℕ) → m ≤ n → take m (elements f s n) ≡ elements f s m
  unfolding elements
  take-elements f s zero n h = refl
  take-elements f s (suc m) zero h = absurd (omega arith)
  take-elements f s (suc m) (suc n) h = ap (◌∷◌ (f s)) (take-elements f (s + 1) m n (omega arith))

  pub drop-elements :
      (f : ℕ → A) (s m n : ℕ) → m ≤ n → drop m (elements f s n) ≡ elements f (s + m) (n - m)
  unfolding elements
  drop-elements f s zero n h = rw add-zero (simp unary_clauses refl)
  drop-elements f s (suc m) zero h = absurd (omega arith)
  drop-elements f s (suc m) (suc n) h = rw (shift, less) (drop-elements f (s + 1) m n (omega arith))
    where
      shift : s + suc m ≡ s + 1 + m
      shift = omega arith

      less : suc n - suc m ≡ n - m
      less = omega arith
