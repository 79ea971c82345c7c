-- ===== src/SharedMemory/Reading/Grant.antt =====
-- What `GetBufferForReading` promises.
use artdaq_core.Prelude.{
  ℕ, ◌<◌, ◌≡◌, ◌≢◌, ◌⊎◌, inl, inr, sym, subst, true, false, some, arith, ◌∙◌, ap, Bool-cases,
}
use artdaq_core.Prelude.Int.{minus_one, eqb_ℤ_iff}
use artdaq_core.SharedMemory.State.{full, reading, ShmBuffer, World, ok, IsOk}
use artdaq_core.SharedMemory.Reset.Drift.{IsReady, Drifts, Drifts-trans, Decays}
use artdaq_core.SharedMemory.Reading.{is_readable, get_buffer_for_reading}
use artdaq_core.SharedMemory.Reading.Choose.{IsCandidate}
use artdaq_core.SharedMemory.Reading.Acquire.{IsDue}
use artdaq_core.SharedMemory.Reading.Rounds.{
  Scans, Succeeds, enrolled, get_buffer_for_reading_form, result_of,
}

-- A ready manager gets an answer from `GetBufferForReading`: no exception, no null pointer.
pub get_buffer_for_reading_total : (w : World) → IsReady w → IsOk (get_buffer_for_reading w).0
get_buffer_for_reading_total w ready =
    let (r, v, q, reads) = get_buffer_for_reading_form w ready in rw q tt

-- What a scan that starts at `w` has chosen when it ends at `v`.
pub chosen :
    (rp : ℕ) (w : World) (i s : ℕ) (v : World) → Scans rp w (some i) s v → IsCandidate w i s v
chosen rp w i s v (d, inl (e, _), low) = cc
chosen rp w i s v (d, inr (j, e, lt, c), low) = subst (λ k. IsCandidate w k s v) (ground arith) c

-- A buffer that is due was full, or being read by another manager, and keeps its data.
due_before :
    (w x u : World) (i : ℕ)
    → Drifts w x
    → Drifts x u
    → IsDue u i true
    → ((((w.shm.buffers i).sem ≡ full)
          × (((w.shm.buffers i).sem_id ≡ minus_one) ⊎ ((w.shm.buffers i).sem_id ≡ w.me.manager_id)))
        ⊎ (((w.shm.buffers i).sem ≡ reading) × ((w.shm.buffers i).sem_id ≢ w.me.manager_id)))
      × ((u.shm.buffers i).write_pos ≡ (w.shm.buffers i).write_pos)
      × ((u.shm.buffers i).sequence_id ≡ (w.shm.buffers i).sequence_id)
due_before w x u i d d' due =
    let all : Drifts w u = Drifts-trans w x u d d' in
    let decay : Decays w (w.shm.buffers i) (u.shm.buffers i) = all.buffers i in
    ground (
      arith,
      all.me,
      eqb_ℤ_iff (u.shm.buffers i).sem_id minus_one,
      eqb_ℤ_iff (u.shm.buffers i).sem_id u.me.manager_id,
    )

-- The sequence id of a buffer does not decay.
pub Decays-sequence_id :
    (w : World) (b c : ShmBuffer) → Decays w b c → c.sequence_id ≡ b.sequence_id
Decays-sequence_id w b c d = ground arith

candidate_fresh :
    (w : World) (i s : ℕ) (v : World)
    → IsCandidate w i s v
    → w.shm.destructive_read_mode ≡ false
    → w.me.last_seen_id < (w.shm.buffers i).sequence_id
unfolding is_readable
candidate_fresh w i s v (u, d, d', h, r, e) mode = ground (
  arith,
  d.me,
  d.destructive_read_mode,
  Decays-sequence_id w (w.shm.buffers i) (u.shm.buffers i) (d.buffers i),
)

-- What the caller holds when buffer `i` was returned, by the world before the call.
pub record Lent (i : ℕ) (w v : World) : Type 0 where
  pub within : i < w.shm.buffer_count
  pub sem : (v.shm.buffers i).sem ≡ reading
  pub sem_id : (v.shm.buffers i).sem_id ≡ w.me.manager_id
  pub read_pos : (v.shm.buffers i).read_pos ≡ 0
  pub write_pos : (v.shm.buffers i).write_pos ≡ (w.shm.buffers i).write_pos
  pub sequence_id : (v.shm.buffers i).sequence_id ≡ (w.shm.buffers i).sequence_id
  pub last_seen_id : v.me.last_seen_id ≡ (w.shm.buffers i).sequence_id
  pub taken_from :
      (((w.shm.buffers i).sem ≡ full)
        × (((w.shm.buffers i).sem_id ≡ minus_one) ⊎ ((w.shm.buffers i).sem_id ≡ w.me.manager_id)))
      ⊎ (((w.shm.buffers i).sem ≡ reading) × ((w.shm.buffers i).sem_id ≢ w.me.manager_id))
  pub fresh :
      (w.shm.destructive_read_mode ≡ true) ⊎ (w.me.last_seen_id < (w.shm.buffers i).sequence_id)
  pub others : (j : ℕ) → j ≢ i → Decays w (w.shm.buffers j) (v.shm.buffers j)
  pub bytes : v.shm.bytes ≡ w.shm.bytes
  pub attached : v.me.attached ≡ w.me.attached
  pub manager_id : v.me.manager_id ≡ w.me.manager_id
  pub buffer_count : v.shm.buffer_count ≡ w.shm.buffer_count
  pub buffer_size : v.shm.buffer_size ≡ w.shm.buffer_size

pub Lent-of : (i : ℕ) (w v : World) → Succeeds w.shm.reader_pos (enrolled w) i v → Lent i w v
Lent-of i w v (x, u, s, d, c, due, a) =
    let d' : Drifts x u = c.0 in
    let all : Drifts (enrolled w) u = Drifts-trans (enrolled w) x u d d' in
    let cand = chosen w.shm.reader_pos x i s u c in
    let before = due_before (enrolled w) x u i d d' due in
    record {
      within = within_of cand;
      sem = a.sem;
      sem_id = ground (arith, a.sem_id, all.me);
      read_pos = a.read_pos;
      write_pos = a.write_pos ∙ before.1;
      sequence_id = a.sequence_id ∙ before.2;
      last_seen_id = a.last_seen_id ∙ before.2;
      taken_from = before.0;
      fresh = fresh_or cand (Bool-cases w.shm.destructive_read_mode);
      others = λ j ne. subst (Decays w (w.shm.buffers j)) (sym (a.others j ne)) (all.buffers j);
      bytes = a.bytes ∙ all.bytes;
      attached = a.attached ∙ ap (λ m. m.attached) all.me;
      manager_id = a.manager_id ∙ ap (λ m. m.manager_id) all.me;
      buffer_count = a.buffer_count ∙ all.buffer_count;
      buffer_size = a.buffer_size ∙ all.buffer_size;
    }
  where
    within_of : IsCandidate x i s u → i < w.shm.buffer_count
    within_of (y, p, q, h, r, e) = subst (λ n. i < n) d.buffer_count h

    fresh_of :
        IsCandidate x i s u
        → w.shm.destructive_read_mode ≡ false
        → w.me.last_seen_id < (w.shm.buffers i).sequence_id
    fresh_of cand mode =
        let f = candidate_fresh x i s u cand (d.destructive_read_mode ∙ mode) in
        ground (
          arith,
          d.me,
          Decays-sequence_id (enrolled w) (w.shm.buffers i) (x.shm.buffers i) (d.buffers i),
        )

    fresh_or :
        IsCandidate x i s u
        → (w.shm.destructive_read_mode ≡ true) ⊎ (w.shm.destructive_read_mode ≡ false)
        → (w.shm.destructive_read_mode ≡ true) ⊎ (w.me.last_seen_id < (w.shm.buffers i).sequence_id)
    fresh_or cand (inl e) = inl e
    fresh_or cand (inr e) = inr (fresh_of cand e)

-- When `GetBufferForReading` returns a buffer to a ready manager, the buffer exists, was full and
-- for everyone or for this manager (or was being read by another and was taken back as stale), and
-- is now this manager's, in state Reading, with read position 0 and its data, sequence id and bytes
-- as they were. In broadcast mode its sequence id is above the last one seen, and it becomes the
-- last one seen in either mode. Every other buffer is as it was or was taken back as stale.
pub get_buffer_for_reading-Lent :
    (w : World) (i : ℕ) (v : World)
    → IsReady w
    → get_buffer_for_reading w ≡ (ok (some i), v)
    → Lent i w v
get_buffer_for_reading-Lent w i v ready e = Lent-of i w v (result_of w (some i) v ready e)
