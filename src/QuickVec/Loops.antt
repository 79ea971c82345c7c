-- ===== src/QuickVec/Loops.antt =====
-- The copying loops of artdaq-core/Core/QuickVec.hh: which cell holds what afterwards.
use artdaq_core.Prelude.{ℕ, zero, suc, ◌+◌, ◌-◌, ◌<◌, ◌≤◌, ◌≡◌, ◌⊎◌, inl, inr, refl, arith, ◌∙◌}
use artdaq_core.Prelude.Memory.{put_at}
use artdaq_core.QuickVec.{fill, shift_up, shift_down, copy_from}

module _ {ℓ} {A : Type ℓ} where
  pub fill_outside :
      (d : ℕ → A) (start n : ℕ) (val : A) (j : ℕ)
      → (j < start) ⊎ (start + n ≤ j)
      → fill d start n val j ≡ d j
  unfolding fill
  fill_outside d start zero val j h = refl
  fill_outside d start (suc n) val j h =
      fill_outside (put_at d start val) (start + 1) n val j (ground arith) ∙ ground arith

  pub fill_inside :
      (d : ℕ → A) (start n : ℕ) (val : A) (k : ℕ) → k < n → fill d start n val (start + k) ≡ val
  unfolding fill
  fill_inside d start zero val k h = absurd (omega arith)
  fill_inside d start (suc n) val zero h =
      fill_outside (put_at d start val) (start + 1) n val (start + 0) (ground arith) ∙ ground arith
  fill_inside d start (suc n) val (suc k) h =
      rw shift (fill_inside (put_at d start val) (start + 1) n val k (omega arith))
    where
      shift : start + suc k ≡ start + 1 + k
      shift = omega arith

  pub copy_from_outside :
      (d other : ℕ → A) (dst first n j : ℕ)
      → (j < dst) ⊎ (dst + n ≤ j)
      → copy_from d other dst first n j ≡ d j
  unfolding copy_from
  copy_from_outside d other dst first zero j h = refl
  copy_from_outside d other dst first (suc n) j h =
      copy_from_outside (put_at d dst (other first)) other (dst + 1) (first + 1) n j (ground arith)
      ∙ ground arith

  pub copy_from_inside :
      (d other : ℕ → A) (dst first n k : ℕ)
      → k < n
      → copy_from d other dst first n (dst + k) ≡ other (first + k)
  unfolding copy_from
  copy_from_inside d other dst first zero k h = absurd (omega arith)
  copy_from_inside d other dst first (suc n) zero h =
      copy_from_outside (put_at d dst (other first)) other (dst + 1) (first + 1) n (dst + 0)
        (ground arith)
      ∙ ground arith
  copy_from_inside d other dst first (suc n) (suc k) h =
      rw (shift dst, shift first)
        (copy_from_inside (put_at d dst (other first)) other (dst + 1) (first + 1) n k
          (omega arith))
    where
      shift : (a : ℕ) → a + suc k ≡ a + 1 + k
      shift a = omega arith

  pub shift_down_outside :
      (d : ℕ → A) (dst src n j : ℕ) → (j < dst) ⊎ (dst + n ≤ j) → shift_down d dst src n j ≡ d j
  unfolding shift_down
  shift_down_outside d dst src zero j h = refl
  shift_down_outside d dst src (suc n) j h =
      shift_down_outside (put_at d dst (d src)) (dst + 1) (src + 1) n j (ground arith)
      ∙ ground arith

  -- Moving down reads each cell before it is written, since the target lies below.
  pub shift_down_inside :
      (d : ℕ → A) (dst src n k : ℕ)
      → dst ≤ src
      → k < n
      → shift_down d dst src n (dst + k) ≡ d (src + k)
  unfolding shift_down
  shift_down_inside d dst src zero k le h = absurd (omega arith)
  shift_down_inside d dst src (suc n) zero le h =
      shift_down_outside (put_at d dst (d src)) (dst + 1) (src + 1) n (dst + 0) (ground arith)
      ∙ ground arith
  shift_down_inside d dst src (suc n) (suc k) le h =
      rw (shift dst, shift src)
        (shift_down_inside (put_at d dst (d src)) (dst + 1) (src + 1) n k (omega arith)
            (omega arith)
          ∙ ground arith)
    where
      shift : (a : ℕ) → a + suc k ≡ a + 1 + k
      shift a = omega arith

  pub shift_up_outside :
      (d : ℕ → A) (dst src n j : ℕ)
      → n ≤ src
      → src ≤ dst
      → (j < dst - n) ⊎ (dst ≤ j)
      → shift_up d dst src n j ≡ d j
  unfolding shift_up
  shift_up_outside d dst src zero j le up h = refl
  shift_up_outside d dst src (suc n) j le up h =
      shift_up_outside (put_at d (dst - 1) (d (src - 1))) (dst - 1) (src - 1) n j (omega arith)
        (omega arith) (ground arith)
      ∙ ground arith

  -- Moving up starts at the far end, so that it too reads each cell before it is written.
  pub shift_up_inside :
      (d : ℕ → A) (dst src n k : ℕ)
      → n ≤ src
      → src ≤ dst
      → k < n
      → shift_up d dst src n (dst - n + k) ≡ d (src - n + k)
  unfolding shift_up
  shift_up_inside d dst src zero k le up h = absurd (omega arith)
  shift_up_inside d dst src (suc n) k le up h = elim split [
    | inl lt ↦
        rw (shift dst (omega arith), shift src (omega arith))
          (shift_up_inside d' (dst - 1) (src - 1) n k (omega arith) (omega arith) lt ∙ ground arith)
    | inr e ↦
        rw (last dst (omega arith) e, last src (omega arith) e)
          (shift_up_outside d' (dst - 1) (src - 1) n (dst - 1) (omega arith) (omega arith)
              (inr (omega arith))
            ∙ ground arith)
  ]
    where
      d' : ℕ → A
      d' = put_at d (dst - 1) (d (src - 1))

      split : (k < n) ⊎ (k ≡ n)
      split = ground arith

      shift : (a : ℕ) → suc n ≤ a → a - suc n + k ≡ a - 1 - n + k
      shift a h = omega arith

      last : (a : ℕ) → suc n ≤ a → k ≡ n → a - suc n + k ≡ a - 1
      last a h e = omega arith
