-- ===== src/SharedMemory/Counting/Agreement.antt =====
-- `ReadyForRead` and `ReadyForWrite` of SharedMemoryManager.cc agree with the calls that grant buffers.
use artdaq_core.Prelude.{
  ℕ, zero, suc, ◌+◌, ◌<◌, ◌≡◌, refl, sym, subst, arith, ◌∙◌, some, Bool, true, false,
}
use artdaq_core.Prelude.Int.{minus_one, eqb_ℤ_iff}
use artdaq_core.SharedMemory.State.{empty, World, M, ok, deref_ok}
use artdaq_core.SharedMemory.Access.Range.{get_buffer_info_in}
use artdaq_core.SharedMemory.Reset.Drift.{
  IsReady, Drifts, Drifts-refl, Drifts-trans, Drifts-IsReady, reset_buffer-Drifts,
}
use artdaq_core.SharedMemory.Writing.{scan_index, get_buffer_for_writing}
use artdaq_core.SharedMemory.Writing.Scan.{scan_index_in}
use artdaq_core.SharedMemory.Writing.Grant.{get_buffer_for_writing_finds}
use artdaq_core.SharedMemory.Counting.{
  is_writable, probe_write, visit, any_from, if_valid, ready_for_write,
}

-- What a probe that says yes has seen.
abbrev pub Seen : (World → ℕ → Type 0) → Bool → World → ℕ → Type 0
Seen P true v i = P v i
Seen P false v i = Unit {0}

-- A probe that answers, and changes no more than a scan may.
abbrev pub IsProbe : (ℕ → M Bool) → (World → ℕ → Type 0) → Type 0
IsProbe probe P =
    (w : World) (i : ℕ)
    → IsReady w
    → i < w.shm.buffer_count
    → (b : Bool) × (v : World) × (probe i w ≡ (ok b, v)) × Drifts w v × Seen P b v i

module _ (probe : ℕ → M Bool) (P : World → ℕ → Type 0) (is_probe : IsProbe probe P) where
  visit_form : IsProbe (visit probe) P
  unfolding visit
  visit_form w i ready h =
      let (b, u, e, d) = reset_buffer-Drifts w i ready.attached h in
      let ready' = Drifts-IsReady w u d ready in
      let h' : i < u.shm.buffer_count = subst (λ n. i < n) (sym d.buffer_count) h in
      let (c, v, e', d', seen) = is_probe u i ready' h' in
      (
        c,
        v,
        rw e (rw (get_buffer_info_in u i ready'.attached h') e'),
        Drifts-trans w u v d d',
        seen,
      )

  -- Where a search for a first buffer ends.
  abbrev Found : Bool → World → Type 0
  Found r v = Seen (λ x _. (i : ℕ) × (i < x.shm.buffer_count) × P x i) r v 0

  abbrev Searches : ℕ → ℕ → ℕ → World → Type 0
  Searches left ii start w =
      (r : Bool) × (v : World) × (any_from probe left ii start w ≡ (ok r, v))
      × Drifts w v
      × Found r v

  any_from_step :
      (left ii start : ℕ) (w u : World) (b : Bool)
      → w.me.attached ≡ true
      → scan_index ii start w.shm.buffer_count < w.shm.buffer_count
      → visit probe (scan_index ii start w.shm.buffer_count) w ≡ (ok b, u)
      → Drifts w u
      → Seen P b u (scan_index ii start w.shm.buffer_count)
      → Searches left (ii + 1) start u
      → Searches (suc left) ii start w
  unfolding any_from
  any_from_step left ii start w u true a h e d seen later = (
    true,
    u,
    rw (deref_ok (λ s. s.buffer_count) w a) (rw e refl),
    d,
    (_, subst (λ n. scan_index ii start w.shm.buffer_count < n) (sym d.buffer_count) h, seen),
  )
  any_from_step left ii start w u false a h e d seen (r, v, e', d', found) =
      (r, v, rw (deref_ok (λ s. s.buffer_count) w a) (rw e e'), Drifts-trans w u v d d', found)

  any_from_form : (left ii start : ℕ) (w : World) → IsReady w → Searches left ii start w
  unfolding any_from
  any_from_form zero ii start w ready = (false, w, refl, Drifts-refl w, tt)
  any_from_form (suc left) ii start w ready =
      let h : scan_index ii start w.shm.buffer_count < w.shm.buffer_count =
        scan_index_in ii start w.shm.buffer_count (omega (arith, ready.writer_in)) in
      let (b, u, e, d, seen) = visit_form w (scan_index ii start w.shm.buffer_count) ready h in
      any_from_step left ii start w u b ready.attached h e d seen
        (any_from_form left (ii + 1) start u (Drifts-IsReady w u d ready))

if_valid_ok :
    {A : Type 0} (a : A) (m : M A) (w : World) → w.me.attached ≡ true → if_valid a m w ≡ m w
unfolding if_valid
if_valid_ok a m w h = ground arith

-- A buffer that is empty and unowned.
abbrev pub IsVacant : World → ℕ → Type 0
IsVacant w i = ((w.shm.buffers i).sem ≡ empty) × ((w.shm.buffers i).sem_id ≡ minus_one)

writable-Seen :
    (b : Bool) (w : World) (i : ℕ) → is_writable false (w.shm.buffers i) ≡ b → Seen IsVacant b w i
unfolding is_writable
writable-Seen true w i e = ground (arith, eqb_ℤ_iff (w.shm.buffers i).sem_id minus_one)
writable-Seen false w i e = tt

probe_write-IsProbe : IsProbe (probe_write false) IsVacant
unfolding probe_write
probe_write-IsProbe w i ready h = (
  is_writable false (w.shm.buffers i),
  w,
  refl,
  Drifts-refl w,
  writable-Seen (is_writable false (w.shm.buffers i)) w i refl,
)

-- What a positive answer is worth.
abbrev pub Keeps : Bool → World → Type 0
Keeps true v = (i : ℕ) × (u : World) × (get_buffer_for_writing false v ≡ (ok (some i), u))
Keeps false v = Unit {0}

kept :
    (r : Bool) (v : World)
    → IsReady v
    → Found (probe_write false) IsVacant probe_write-IsProbe r v
    → Keeps r v
kept true v ready (i, h, (e, n)) = get_buffer_for_writing_finds false v i ready h e n
kept false v ready found = tt

-- `ReadyForWrite` without overwriting returns for a ready manager, takes stale buffers back at most,
-- and keeps its word: where it answers true, `GetBufferForWriting`, called next, returns a buffer.
pub ready_for_write-Keeps :
    (w : World)
    → IsReady w
    → (r : Bool) × (v : World) × (ready_for_write false w ≡ (ok r, v)) × Drifts w v × Keeps r v
unfolding ready_for_write
ready_for_write-Keeps w ready =
    let (r, v, e, d, found) =
      any_from_form (probe_write false) IsVacant probe_write-IsProbe w.shm.buffer_count 0
        w.shm.writer_pos w ready in
    (
      r,
      v,
      if_valid_ok false _ w ready.attached
          ∙ rw
              (
                deref_ok (λ s. s.writer_pos) w ready.attached,
                deref_ok (λ s. s.buffer_count) w ready.attached,
              )
              e,
      d,
      kept r v (Drifts-IsReady w v d ready) found,
    )
