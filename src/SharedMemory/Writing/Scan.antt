-- ===== src/SharedMemory/Writing/Scan.antt =====
-- The scans of `GetBufferForWriting`.
use artdaq_core.Prelude.{
  ℕ, zero, suc, ◌+◌, ◌%◌, ◌<◌, ◌≡◌, refl, inl, inr, true, false, Bool, Option, none, some, arith,
  ◌∙◌, Bool-cases, subst, ◌^◌, ◌-◌,
}
use native.Mathlib.Nat.{add-zero, add-mod_right, mod-eq_of_lt}
use native.Mathlib.Decide.{dec_lt}
use artdaq_core.Prelude.Words.{w32}
use artdaq_core.Prelude.Int.{ℤ}
use artdaq_core.SharedMemory.State.{BufferSemaphoreFlags, World, ok, deref_ok}
use artdaq_core.SharedMemory.Access.Range.{get_buffer_info_in}
use artdaq_core.SharedMemory.Reset.Drift.{
  IsReady, Drifts, Drifts-refl, Drifts-trans, Drifts-IsReady, reset_buffer-Drifts,
}
use artdaq_core.SharedMemory.Writing.{scan_for_writing, scan_index}
use artdaq_core.SharedMemory.Writing.Claim.{Claimed, claim_ok, claim_refused}

pub scan_index_in : (ii start count : ℕ) → 0 < count → scan_index ii start count < count
unfolding scan_index
scan_index_in ii start count h = grind arith

-- Every buffer has its turn.
pub scan_index_reaches :
    (j start count : ℕ)
    → count < 2 ^ 31
    → j < count
    → start < count
    → (k : ℕ) × (k < count) × (scan_index (0 + k) start count ≡ j)
unfolding scan_index
scan_index_reaches j start count small hj hs = elim (dec_lt j start) [
  | yes h ↦ (j + count - start, omega arith, wrapped (j + count - start) h (omega arith))
  | no h ↦ (j - start, omega arith, direct (j - start) h (omega arith))
]
  where
    wrapped : (k : ℕ) → j < start → k + start ≡ j + count → (0 + k + start) % w32 % count ≡ j
    wrapped k h e =
        let sum : (0 + k + start) % w32 ≡ j + count = omega arith in
        rw sum (add-mod_right j count ∙ mod-eq_of_lt hj)

    direct : (k : ℕ) → ¬ (j < start) → k + start ≡ j → (0 + k + start) % w32 % count ≡ j
    direct k h e = let sum : (0 + k + start) % w32 ≡ j = omega arith in rw sum (mod-eq_of_lt hj)

module _ (test : BufferSemaphoreFlags → ℤ → Bool) where
  abbrev pub Passes : World → ℕ → Bool → Type 0
  Passes w i b = test (w.shm.buffers i).sem (w.shm.buffers i).sem_id ≡ b

  -- The scan took buffer `i`, which passed the test when its turn came.
  abbrev pub Took : World → ℕ → World → Type 0
  Took w i v = (u : World) × Drifts w u × (i < w.shm.buffer_count) × Passes u i true × Claimed i u v

  -- The scan took none: each buffer in turn failed the test.
  abbrev pub Missed : ℕ → ℕ → ℕ → World → World → Type 0
  Missed left ii wp w v =
      Drifts w v
      × ((k : ℕ)
          → k < left
          → (u : World) × Drifts w u
            × Drifts u v
            × Passes u (scan_index (ii + k) wp w.shm.buffer_count) false)

  abbrev pub Scanned : ℕ → ℕ → ℕ → World → Option ℕ → World → Type 0
  Scanned left ii wp w none v = Missed left ii wp w v
  Scanned left ii wp w (some i) v = Took w i v

  step_past :
      (left ii wp : ℕ) (w u v : World)
      → Drifts w u
      → Passes u (scan_index ii wp w.shm.buffer_count) false
      → Missed left (ii + 1) wp u v
      → Missed (suc left) ii wp w v
  step_past left ii wp w u v d failed (d', each) = (Drifts-trans w u v d d', later)
    where
      shift : (k : ℕ) → ii + suc k ≡ ii + 1 + k
      shift k = omega arith

      later :
          (k : ℕ)
          → k < suc left
          → (x : World) × Drifts w x
            × Drifts x v
            × Passes x (scan_index (ii + k) wp w.shm.buffer_count) false
      later zero h = (u, d, d', rw add-zero failed)
      later (suc k) h =
          let (x, p, q, r) = each k (omega arith) in
          (
            x,
            Drifts-trans w u x d p,
            q,
            rw (shift k)
                (subst (λ c. Passes x (scan_index (ii + 1 + k) wp c) false) d.buffer_count r),
          )

  step_onto : (w u : World) (i : ℕ) (v : World) → Drifts w u → Took u i v → Took w i v
  step_onto w u i v d (x, p, h, passed, c) = (x, Drifts-trans w u x d p, ground arith, passed, c)

  Scanned-step :
      (left ii wp : ℕ) (w u : World) (r : Option ℕ) (v : World)
      → Drifts w u
      → Passes u (scan_index ii wp w.shm.buffer_count) false
      → Scanned left (ii + 1) wp u r v
      → Scanned (suc left) ii wp w r v
  Scanned-step left ii wp w u none v d failed s = step_past left ii wp w u v d failed s
  Scanned-step left ii wp w u (some i) v d failed s = step_onto w u i v d s

  -- A scan ends with a result, of either kind.
  pub scan_total :
      (left ii wp : ℕ) (w : World)
      → IsReady w
      → (r : Option ℕ) × (v : World) × (scan_for_writing test left ii wp w ≡ (ok r, v))
        × Scanned left ii wp w r v
  unfolding scan_for_writing
  scan_total zero ii wp w ready = (none, w, refl, (Drifts-refl w, λ k h. elim h [ ]))
  scan_total (suc left) ii wp w ready =
      let n = w.shm.buffer_count in
      let i = scan_index ii wp n in
      let within : i < n = scan_index_in ii wp n (omega (arith, ready.writer_in)) in
      let (b, u, p, d) = reset_buffer-Drifts w i ready.attached within in
      let ready' = Drifts-IsReady w u d ready in
      let within' : i < u.shm.buffer_count = ground arith in
      let found = get_buffer_info_in u i ready'.attached within' in
      elim (Bool-cases (test (u.shm.buffers i).sem (u.shm.buffers i).sem_id)) [
        | inl e ↦
            let (v, q, c) = claim_ok test i u ready' e in
            (
              some i,
              v,
              rw (deref_ok (λ s. s.buffer_count) w ready.attached, p, found, q),
              (u, d, within, e, c),
            )
        | inr e ↦
            let (r, v, q, s) = scan_total left (ii + 1) wp u ready' in
            (
              r,
              v,
              rw (
                deref_ok (λ s. s.buffer_count) w ready.attached,
                p,
                found,
                claim_refused test i u e,
                q,
              ),
              Scanned-step left ii wp w u r v d e s,
            )
      ]
