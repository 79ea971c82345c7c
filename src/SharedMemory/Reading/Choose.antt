-- ===== src/SharedMemory/Reading/Choose.antt =====
-- The scan of `GetBufferForReading` for the readable buffer with the lowest sequence id.
use artdaq_core.Prelude.{
  ℕ, zero, suc, ◌+◌, ◌<◌, ◌≤◌, ◌≡◌, ◌≢◌, refl, ◌⊎◌, inl, inr, true, false, Bool, Option, none, some,
  arith, ◌∙◌, Bool-cases, subst, ◌&&◌, ltb, ◌==◌, ==_iff,
}
use native.Mathlib.Nat.{add-zero}
use artdaq_core.SharedMemory.State.{World, ok, deref_ok}
use artdaq_core.SharedMemory.Access.Range.{get_buffer_info_in}
use artdaq_core.SharedMemory.Access.Take.{touch_form, stamp}
use artdaq_core.SharedMemory.Reset.Drift.{
  IsReady, Drifts, Drifts-refl, Drifts-trans, Drifts-IsReady, reset_buffer-Drifts,
}
use artdaq_core.SharedMemory.Writing.{scan_index}
use artdaq_core.SharedMemory.Writing.Scan.{scan_index_in}
use artdaq_core.SharedMemory.Reading.{is_readable, next_turn, consider, scan_for_reading}

pub stamp-Drifts : (i t n : ℕ) (w : World) → Drifts w (stamp i t n w)
stamp-Drifts i t n w = record {
  me = refl;
  writer_pos = refl;
  buffer_count = refl;
  buffer_size = refl;
  next_sequence_id = refl;
  lowest_seq_id_read = refl;
  destructive_read_mode = refl;
  reader_count = refl;
  reader_pos = inl refl;
  writer_count = refl;
  bytes = refl;
  buffers = λ j. ground arith;
}

pub Drifts-next_turn : (w v : World) → Drifts w v → next_turn v ≡ next_turn w
unfolding next_turn
Drifts-next_turn w v d = ground arith

-- The buffer that replaces the best one so far.
abbrev IsBetter : World → ℕ → ℕ → Bool → Type 0
IsBetter w i seq_id b =
    is_readable w (w.shm.buffers i) && ltb (w.shm.buffers i).sequence_id seq_id ≡ b

consider_better :
    (i : ℕ) (best : Option ℕ) (seq_id : ℕ) (w : World)
    → IsBetter w i seq_id true
    → (v : World) × (consider i best seq_id w ≡ (
      ok (some i, (w.shm.buffers i).sequence_id, (w.shm.buffers i).sequence_id == next_turn w),
      v,
    ))
      × Drifts w v
unfolding consider
consider_better i best seq_id w h =
    let (t, n, p) = touch_form i w in
    (
      stamp i t n w,
      rw (h, p, Drifts-next_turn w (stamp i t n w) (stamp-Drifts i t n w)),
      stamp-Drifts i t n w,
    )

consider_same :
    (i : ℕ) (best : Option ℕ) (seq_id : ℕ) (w : World)
    → IsBetter w i seq_id false
    → consider i best seq_id w ≡ (ok (best, seq_id, false), w)
unfolding consider
consider_same i best seq_id w h = rw h

-- A buffer that could be read when its turn came, with the sequence id that it had.
abbrev pub IsCandidate : World → ℕ → ℕ → World → Type 0
IsCandidate w i seq_id v =
    (u : World) × Drifts w u
    × Drifts u v
    × (i < w.shm.buffer_count)
    × (is_readable u (u.shm.buffers i) ≡ true)
    × ((u.shm.buffers i).sequence_id ≡ seq_id)

-- The scan ends with what it began with, or with a candidate of a lower sequence id.
abbrev pub Improves : World → Option ℕ → ℕ → Option ℕ → ℕ → World → Type 0
Improves w best seq_id best' seq_id' v =
    ((best' ≡ best) × (seq_id' ≡ seq_id))
    ⊎ ((i : ℕ) × (best' ≡ some i) × (seq_id' < seq_id) × IsCandidate w i seq_id' v)

-- It broke off at this reader's turn, or no buffer that could be read has a lower id.
abbrev pub IsLowest : ℕ → ℕ → ℕ → World → Option ℕ → ℕ → World → Type 0
IsLowest left ii rp w best seq_id v =
    ((best ≢ none) × (seq_id ≡ next_turn w))
    ⊎ ((k : ℕ)
        → k < left
        → (u : World) × Drifts w u
          × Drifts u v
          × (is_readable u (u.shm.buffers (scan_index (ii + k) rp w.shm.buffer_count)) ≡ true
              → seq_id ≤ (u.shm.buffers (scan_index (ii + k) rp w.shm.buffer_count)).sequence_id))

some_ne_none : (i : ℕ) → ◌≢◌ {A = Option ℕ} (some i) none
some_ne_none i e = cc

abbrev pub Chooses : ℕ → ℕ → ℕ → Option ℕ → ℕ → World → Option ℕ → ℕ → World → Type 0
Chooses left ii rp best seq_id w best' seq_id' v =
    Drifts w v × Improves w best seq_id best' seq_id' v × IsLowest left ii rp w best' seq_id' v

Improves-le :
    (w : World) (best : Option ℕ) (seq_id : ℕ) (best' : Option ℕ) (seq_id' : ℕ) (v : World)
    → Improves w best seq_id best' seq_id' v
    → seq_id' ≤ seq_id
Improves-le w best seq_id best' seq_id' v (inl (e, e')) = omega arith
Improves-le w best seq_id best' seq_id' v (inr (i, e, lt, c)) = omega arith

-- A later step of the scan counts for the whole.
Improves-earlier :
    (w u : World) (best : Option ℕ) (seq_id : ℕ) (best' : Option ℕ) (seq_id' : ℕ) (v : World)
    → Drifts w u
    → Improves u best seq_id best' seq_id' v
    → Improves w best seq_id best' seq_id' v
Improves-earlier w u best seq_id best' seq_id' v d (inl same) = inl same
Improves-earlier w u best seq_id best' seq_id' v d (inr (i, e, lt, (x, p, q, h, r, s))) =
    inr (i, e, lt, (x, Drifts-trans w u x d p, q, ground arith, r, s))

-- A better buffer replaces the best one, and may be replaced in turn.
Improves-replaced :
    (w u x : World) (i : ℕ) (best : Option ℕ) (seq_id : ℕ) (best' : Option ℕ) (seq_id' : ℕ)
    (v : World)
    → Drifts w u
    → Drifts u x
    → Drifts x v
    → i < w.shm.buffer_count
    → IsBetter u i seq_id true
    → Improves x (some i) (u.shm.buffers i).sequence_id best' seq_id' v
    → Improves w best seq_id best' seq_id' v
Improves-replaced w u x i best seq_id best' seq_id' v d d' d'' h b (inl (e, e')) =
    inr (i, e, ground arith, (u, d, Drifts-trans u x v d' d'', h, ground arith, ground arith))
Improves-replaced w u x i best seq_id best' seq_id' v d d' d'' h b
      (inr (j, e, lt, (y, p, q, k, r, s))) =
    inr (
      j,
      e,
      ground arith,
      (y, Drifts-trans w x y (Drifts-trans w u x d d') p, q, ground arith, r, s),
    )

IsLowest-step :
    (left ii rp : ℕ) (w u x : World) (best : Option ℕ) (seq_id : ℕ) (v : World)
    → Drifts w u
    → Drifts u x
    → Drifts x v
    → (is_readable u (u.shm.buffers (scan_index ii rp w.shm.buffer_count)) ≡ true
        → seq_id ≤ (u.shm.buffers (scan_index ii rp w.shm.buffer_count)).sequence_id)
    → IsLowest left (ii + 1) rp x best seq_id v
    → IsLowest (suc left) ii rp w best seq_id v
IsLowest-step left ii rp w u x best seq_id v d d' d'' here (inl (found, turn)) =
    inl (found, turn ∙ Drifts-next_turn w x (Drifts-trans w u x d d'))
IsLowest-step left ii rp w u x best seq_id v d d' d'' here (inr each) = inr later
  where
    shift : (k : ℕ) → ii + suc k ≡ ii + 1 + k
    shift k = omega arith

    whole : Drifts w x
    whole = Drifts-trans w u x d d'

    later :
        (k : ℕ)
        → k < suc left
        → (y : World) × Drifts w y
          × Drifts y v
          × (is_readable y (y.shm.buffers (scan_index (ii + k) rp w.shm.buffer_count)) ≡ true
              → seq_id ≤ (y.shm.buffers (scan_index (ii + k) rp w.shm.buffer_count)).sequence_id)
    later zero h = (u, d, Drifts-trans u x v d' d'', rw add-zero here)
    later (suc k) h =
        let (y, p, q, r) = each k (omega arith) in
        (
          y,
          Drifts-trans w x y whole p,
          q,
          rw (shift k) (
              subst
                (λ c.
                  is_readable y (y.shm.buffers (scan_index (ii + 1 + k) rp c)) ≡ true
                  → seq_id ≤ (y.shm.buffers (scan_index (ii + 1 + k) rp c)).sequence_id)
                whole.buffer_count r),
        )

-- The scan ends with a result, and chooses the lowest sequence id.
pub scan_for_reading_form :
    (left ii rp : ℕ) (best : Option ℕ) (seq_id : ℕ) (w : World)
    → IsReady w
    → (best' : Option ℕ) × (seq_id' : ℕ) × (v : World) × (scan_for_reading left ii rp best seq_id w
        ≡ (ok (best', seq_id'), v))
      × Chooses left ii rp best seq_id w best' seq_id' v
unfolding scan_for_reading
scan_for_reading_form zero ii rp best seq_id w ready =
    (best, seq_id, w, refl, (Drifts-refl w, inl (refl, refl), inr (λ k h. elim h [ ])))
scan_for_reading_form (suc left) ii rp best seq_id w ready =
    let n = w.shm.buffer_count in
    let i = scan_index ii rp n in
    let within : i < n = scan_index_in ii rp n (omega (arith, ready.writer_in)) in
    let (b, u, p, d) = reset_buffer-Drifts w i ready.attached within in
    let ready' = Drifts-IsReady w u d ready in
    let count = deref_ok (λ s. s.buffer_count) w ready.attached in
    let found = get_buffer_info_in u i ready'.attached (ground arith) in
    elim (Bool-cases
      (is_readable u (u.shm.buffers i) && ltb (u.shm.buffers i).sequence_id seq_id)) [
        | inl e ↦
            let s : ℕ = (u.shm.buffers i).sequence_id in
            let (x, q, d') = consider_better i best seq_id u e in
            elim (Bool-cases (s == next_turn u)) [
              | inl turn ↦ (
                some i,
                s,
                x,
                rw (count, p, found, q, turn),
                (
                  Drifts-trans w u x d d',
                  Improves-replaced w u x i best seq_id (some i) s x d d' (Drifts-refl x) within e
                      (inl (refl, refl)),
                  inl (some_ne_none i, (==_iff s (next_turn u)).0 turn ∙ Drifts-next_turn w u d),
                ),
              )
              | inr other ↦
                  let (best', seq', v, r, (d'', im, low)) =
                    scan_for_reading_form left (ii + 1) rp (some i) s x
                      (Drifts-IsReady u x d' ready') in
                  let le : seq' ≤ s = Improves-le x (some i) s best' seq' v im in
                  (
                    best',
                    seq',
                    v,
                    rw (count, p, found, q, other, r),
                    (
                      Drifts-trans w x v (Drifts-trans w u x d d') d'',
                      Improves-replaced w u x i best seq_id best' seq' v d d' d'' within e im,
                      IsLowest-step left ii rp w u x best' seq' v d d' d'' (λ r. le) low,
                    ),
                  )
            ]
        | inr e ↦
            let (best', seq', v, q, (d', im, low)) =
              scan_for_reading_form left (ii + 1) rp best seq_id u ready' in
            let le : seq' ≤ seq_id = Improves-le u best seq_id best' seq' v im in
            (
              best',
              seq',
              v,
              rw (count, p, found, consider_same i best seq_id u e, q),
              (
                Drifts-trans w u v d d',
                Improves-earlier w u best seq_id best' seq' v d im,
                IsLowest-step left ii rp w u u best' seq' v d (Drifts-refl u) d' (λ r. ground arith)
                    low,
              ),
            )
      ]
