-- ===== src/SharedMemory/Reading/Rounds.antt =====
-- The rounds of `GetBufferForReading`: scan, and take what the scan has chosen.
use artdaq_core.Prelude.{
  ℕ, zero, suc, ◌-◌, ◌<◌, ◌≡◌, ◌⊎◌, inl, inr, refl, true, false, not, ◌&&◌, ◌||◌, Option, none,
  some, arith, Bool-cases, if◌then◌else◌,
}
use artdaq_core.Prelude.Int.{pos, minus_one, eqb_ℤ, ◌+ℤ◌}
use artdaq_core.Prelude.Words.{w64}
use artdaq_core.SharedMemory.State.{full, sem_eq, World, ok, ok_unique, deref_ok}
use artdaq_core.SharedMemory.Reset.Drift.{
  IsReady, Drifts, Drifts-refl, Drifts-trans, Drifts-IsReady,
}
use artdaq_core.SharedMemory.Reading.{
  skips_turn, retry_reading, scan_for_reading, register_reader, get_buffer_for_reading,
}
use artdaq_core.SharedMemory.Reading.Choose.{Chooses, scan_for_reading_form}
use artdaq_core.SharedMemory.Reading.Acquire.{Acquired, IsDue, acquire_refused, acquire_ok}

-- One round's scan.
abbrev pub Scans : ℕ → World → Option ℕ → ℕ → World → Type 0
Scans rp x best seq_id u = Chooses x.shm.buffer_count 0 rp none (w64 - 1) x best seq_id u

-- The round that began at `x` found nothing, or nothing that was due.
abbrev pub Fails : ℕ → World → World → Type 0
Fails rp x u =
    (best : Option ℕ) × (seq_id : ℕ) × Scans rp x best seq_id u
    × ((best ≡ none) ⊎ ((i : ℕ) × (best ≡ some i) × IsDue u i false))

abbrev pub Succeeds : ℕ → World → ℕ → World → Type 0
Succeeds rp w i v =
    (x : World) × (u : World) × (seq_id : ℕ) × Drifts w x
    × Scans rp x (some i) seq_id u
    × IsDue u i true
    × Acquired i u v

abbrev pub Reads : ℕ → ℕ → World → Option ℕ → World → Type 0
Reads left rp w none v = Drifts w v × (0 < left → (u : World) × Fails rp w u × Drifts u v)
Reads left rp w (some i) v = Succeeds rp w i v

Reads-later :
    (left rp : ℕ) (w u : World) (r : Option ℕ) (v : World)
    → Fails rp w u
    → Drifts w u
    → Reads left rp u r v
    → Reads (suc left) rp w r v
Reads-later left rp w u none v f d (d', _) = (Drifts-trans w u v d d', λ _. (u, f, d'))
Reads-later left rp w u (some i) v f d (x, y, s, d', c, due, a) =
    (x, y, s, Drifts-trans w u x d d', c, due, a)

abbrev Retries : ℕ → ℕ → World → Type 0
Retries left rp w =
    (r : Option ℕ) × (v : World) × (retry_reading left rp w ≡ (ok r, v)) × Reads left rp w r v

-- One round, by what its scan has found.
round_form :
    (left rp : ℕ) (w : World) (best : Option ℕ) (s : ℕ) (u : World)
    → IsReady w
    → ((u : World) → IsReady u → Retries left rp u)
    → scan_for_reading w.shm.buffer_count 0 rp none (w64 - 1) w ≡ (ok (best, s), u)
    → Scans rp w best s u
    → Retries (suc left) rp w
unfolding retry_reading
round_form left rp w none s u ready later p c =
    let (r, v, q, reads) = later u (Drifts-IsReady w u c.0 ready) in
    (
      r,
      v,
      rw (deref_ok (λ s. s.buffer_count) w ready.attached, p, q),
      Reads-later left rp w u r v (none, s, c, inl refl) c.0 reads,
    )
round_form left rp w (some i) s u ready later p c =
    let count = deref_ok (λ s. s.buffer_count) w ready.attached in
    let ready' = Drifts-IsReady w u c.0 ready in
    elim (Bool-cases (
      not (skips_turn u (u.shm.buffers i).sequence_id)
      && ((eqb_ℤ (u.shm.buffers i).sem_id minus_one
            || eqb_ℤ (u.shm.buffers i).sem_id u.me.manager_id)
          && sem_eq (u.shm.buffers i).sem full))) [
            | inl due ↦
                let (v, q, a) = acquire_ok i u ready' due in
                (some i, v, rw (count, p, q), (w, u, s, Drifts-refl w, c, due, a))
            | inr due ↦
                let (r, v, q, reads) = later u ready' in
                (
                  r,
                  v,
                  rw (count, p, acquire_refused i u due, q),
                  Reads-later left rp w u r v (some i, s, c, inr (i, refl, due)) c.0 reads,
                )
          ]

retry_reading_form : (left rp : ℕ) (w : World) → IsReady w → Retries left rp w
unfolding retry_reading
retry_reading_form zero rp w ready = (none, w, refl, (Drifts-refl w, λ h. elim h [ ]))
retry_reading_form (suc left) rp w ready =
    let (best, s, u, p, c) = scan_for_reading_form w.shm.buffer_count 0 rp none (w64 - 1) w ready in
    round_form left rp w best s u ready (retry_reading_form left rp) p c

-- The world after `register_reader`.
abbrev pub enrolled : World → World
enrolled w = record w {
  shm = record (w.shm) {
    reader_count =
        if w.me.registered_reader then w.shm.reader_count else w.shm.reader_count +ℤ pos 1;
  };
  me = record (w.me) { registered_reader = true };
}

register_reader_ok : (w : World) → w.me.attached ≡ true → register_reader w ≡ (ok tt, enrolled w)
unfolding register_reader
register_reader_ok w h = ground (arith, deref_ok (λ s. s.reader_count) w h)

pub get_buffer_for_reading_form :
    (w : World)
    → IsReady w
    → (r : Option ℕ) × (v : World) × (get_buffer_for_reading w ≡ (ok r, v))
      × Reads 5 w.shm.reader_pos (enrolled w) r v
unfolding get_buffer_for_reading
get_buffer_for_reading_form w ready =
    let e : World = enrolled w in
    let ready' : IsReady e = record {
      attached = ready.attached;
      small = ready.small;
      writer_in = ready.writer_in;
      owner = ready.owner;
      named = ready.named;
    } in
    let (r, v, q, reads) = retry_reading_form 5 w.shm.reader_pos e ready' in
    (
      r,
      v,
      rw (register_reader_ok w ready.attached, deref_ok (λ s. s.reader_pos) e ready.attached) q,
      reads,
    )

pub result_of :
    (w : World) (r : Option ℕ) (v : World)
    → IsReady w
    → get_buffer_for_reading w ≡ (ok r, v)
    → Reads 5 w.shm.reader_pos (enrolled w) r v
result_of w r v ready e =
    let (r', v', q, reads) = get_buffer_for_reading_form w ready in
    ok_unique (Reads 5 w.shm.reader_pos (enrolled w)) _ q e reads
