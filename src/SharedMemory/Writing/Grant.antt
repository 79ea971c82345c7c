-- ===== src/SharedMemory/Writing/Grant.antt =====
-- What `GetBufferForWriting` promises.
use artdaq_core.Prelude.{
  ℕ, ◌<◌, ◌≡◌, ◌≢◌, refl, sym, ◌⊎◌, inl, inr, ap, true, false, Bool, Option, none, some, arith, ◌∙◌,
  subst, if◌then◌else◌,
}
use artdaq_core.Prelude.Int.{pos, minus_one, ◌+ℤ◌, eqb_ℤ_iff, eqb_refl}
use artdaq_core.Prelude.Words.{add64}
use artdaq_core.SharedMemory.State.{
  empty, writing, full, reading, ShmBuffer, World, ok, Outcome, IsOk, ok_unique, deref_ok, pure,
  choose◌then◌else◌,
}
use artdaq_core.SharedMemory.Access.{next_pos}
use artdaq_core.SharedMemory.Reset.Drift.{
  IsReady, Drifts, Drifts-refl, Drifts-trans, Drifts-IsReady, Decays, Expired,
}
use artdaq_core.SharedMemory.Writing.{
  scan_for_writing, is_free, is_unread, is_being_read, register_writer, get_buffer_for_writing,
  or_scan, overwrite_scans,
}
use artdaq_core.SharedMemory.Writing.Claim.{Claimed}
use artdaq_core.SharedMemory.Writing.Scan.{Passes, Missed, Scanned, scan_total, scan_index_reaches}

-- The world after `register_writer`.
abbrev pub enrolled : World → World
enrolled w = record w {
  shm = record (w.shm) {
    writer_count =
        if w.me.registered_writer then w.shm.writer_count else w.shm.writer_count +ℤ pos 1;
  };
  me = record (w.me) { registered_writer = true };
}

register_writer_ok : (w : World) → w.me.attached ≡ true → register_writer w ≡ (ok tt, enrolled w)
unfolding register_writer
register_writer_ok w h = ground (arith, deref_ok (λ s. s.writer_count) w h)

-- A buffer that passed its test was claimed.
abbrev Claims : (World → ℕ → Type 0) → World → ℕ → World → Type 0
Claims P w i v = (u : World) × Drifts w u × (i < w.shm.buffer_count) × P u i × Claimed i u v

abbrev IsOverwritable : World → ℕ → Type 0
IsOverwritable u i = Passes is_unread u i true ⊎ Passes is_being_read u i true

abbrev Overwrites : World → Option ℕ → World → Type 0
Overwrites w none v = Drifts w v
Overwrites w (some i) v = Claims IsOverwritable w i v

Overwrites-being_read :
    (w u : World) (r : Option ℕ) (v : World)
    → Drifts w u
    → Scanned is_being_read w.shm.buffer_count 0 w.shm.writer_pos u r v
    → Overwrites w r v
Overwrites-being_read w u none v d s = Drifts-trans w u v d s.0
Overwrites-being_read w u (some i) v d (x, d', h, p, c) =
    (x, Drifts-trans w u x d d', ground arith, inr p, c)

overwrite_cases :
    (w : World) (r : Option ℕ) (v : World)
    → IsReady w
    → scan_for_writing is_unread w.shm.buffer_count 0 w.shm.writer_pos w ≡ (ok r, v)
    → Scanned is_unread w.shm.buffer_count 0 w.shm.writer_pos w r v
    → (r' : Option ℕ) × (v' : World) × (overwrite_scans w.shm.buffer_count w.shm.writer_pos w
        ≡ (ok r', v'))
      × Overwrites w r' v'
unfolding overwrite_scans
overwrite_cases w (some i) v ready e (u, d, h, p, c) = (some i, v, rw e, (u, d, h, inl p, c))
overwrite_cases w none v ready e s =
    let (r', v', e', s') =
      scan_total is_being_read w.shm.buffer_count 0 w.shm.writer_pos v
        (Drifts-IsReady w v s.0 ready) in
    (r', v', rw (e, e'), Overwrites-being_read w v r' v' s.0 s')

overwrite_scans_total :
    (w : World)
    → IsReady w
    → (r : Option ℕ) × (v : World) × (overwrite_scans w.shm.buffer_count w.shm.writer_pos w
        ≡ (ok r, v))
      × Overwrites w r v
overwrite_scans_total w ready =
    let (r, v, e, s) = scan_total is_unread w.shm.buffer_count 0 w.shm.writer_pos w ready in
    overwrite_cases w r v ready e s

-- The buffer passes the test of one of the scans that are made.
abbrev IsTakeable : Bool → World → ℕ → Type 0
IsTakeable overwrite u i = Passes is_free u i true ⊎ ((overwrite ≡ true) × IsOverwritable u i)

abbrev pub Granted : Bool → World → Option ℕ → World → Type 0
Granted overwrite w none v =
    (u : World) × Missed is_free w.shm.buffer_count 0 w.shm.writer_pos w u × Drifts u v
Granted overwrite w (some i) v = Claims (IsTakeable overwrite) w i v

-- The part of `GetBufferForWriting` after its registration.
abbrev scans : Bool → World → Outcome (Option ℕ) × World
scans overwrite w =
    or_scan (scan_for_writing is_free w.shm.buffer_count 0 w.shm.writer_pos)
      (choose overwrite then overwrite_scans w.shm.buffer_count w.shm.writer_pos else pure none) w

abbrev Grants : Bool → World → Type 0
Grants overwrite w =
    (r : Option ℕ) × (v : World) × (scans overwrite w ≡ (ok r, v)) × Granted overwrite w r v

Granted-overwrite :
    (w u : World) (r : Option ℕ) (v : World)
    → Missed is_free w.shm.buffer_count 0 w.shm.writer_pos w u
    → Overwrites u r v
    → Granted true w r v
Granted-overwrite w u none v m d = (u, m, d)
Granted-overwrite w u (some i) v m (x, d, h, p, c) =
    let first : Drifts w u = m.0 in (x, Drifts-trans w u x first d, ground arith, inr (refl, p), c)

scans_cases :
    (overwrite : Bool) (w : World) (r : Option ℕ) (v : World)
    → IsReady w
    → scan_for_writing is_free w.shm.buffer_count 0 w.shm.writer_pos w ≡ (ok r, v)
    → Scanned is_free w.shm.buffer_count 0 w.shm.writer_pos w r v
    → Grants overwrite w
scans_cases overwrite w (some i) v ready e (u, d, h, p, c) = (some i, v, rw e, (u, d, h, inl p, c))
scans_cases false w none v ready e s = (none, v, rw e, (v, s, Drifts-refl v))
scans_cases true w none v ready e s =
    let first : Drifts w v = s.0 in
    let (r', v', e', o) = overwrite_scans_total v (Drifts-IsReady w v first ready) in
    let q : overwrite_scans w.shm.buffer_count w.shm.writer_pos v ≡ (ok r', v') =
      rw (← first.buffer_count, ← first.writer_pos) e' in
    (r', v', rw (e, q), Granted-overwrite w v r' v' s o)

enrolled-IsReady : (w : World) → IsReady w → IsReady (enrolled w)
enrolled-IsReady w ready = record {
  attached = ready.attached;
  small = ready.small;
  writer_in = ready.writer_in;
  owner = ready.owner;
  named = ready.named;
}

pub get_buffer_for_writing_form :
    (overwrite : Bool) (w : World)
    → IsReady w
    → (r : Option ℕ) × (v : World) × (get_buffer_for_writing overwrite w ≡ (ok r, v))
      × Granted overwrite (enrolled w) r v
unfolding get_buffer_for_writing
get_buffer_for_writing_form overwrite w ready =
    let e : World = enrolled w in
    let ready' = enrolled-IsReady w ready in
    let (r, v, q, s) = scan_total is_free w.shm.buffer_count 0 w.shm.writer_pos e ready' in
    let (r', v', q', g) = scans_cases overwrite e r v ready' q s in
    (
      r',
      v',
      rw
          (
            register_writer_ok w ready.attached,
            deref_ok (λ s. s.writer_pos) e ready.attached,
            deref_ok (λ s. s.buffer_count) e ready.attached,
          )
          q',
      g,
    )

free_before :
    (w : World) (b c : ShmBuffer)
    → Decays w b c
    → is_free c.sem c.sem_id ≡ true
    → ((b.sem ≡ empty) × (b.sem_id ≡ minus_one)) ⊎ Expired w b c
unfolding is_free
free_before w b c d h = ground (arith, eqb_ℤ_iff c.sem_id minus_one)

not_writing :
    (w : World) (b c : ShmBuffer)
    → Decays w b c
    → (is_free c.sem c.sem_id ≡ true)
      ⊎ ((is_unread c.sem c.sem_id ≡ true) ⊎ (is_being_read c.sem c.sem_id ≡ true))
    → b.sem ≢ writing
unfolding is_free is_unread is_being_read
not_writing w b c d h = ground arith

IsTakeable-any :
    (overwrite : Bool) (u : World) (i : ℕ)
    → IsTakeable overwrite u i
    → Passes is_free u i true ⊎ (Passes is_unread u i true ⊎ Passes is_being_read u i true)
IsTakeable-any overwrite u i (inl p) = inl p
IsTakeable-any overwrite u i (inr (e, p)) = inr p

-- What the caller holds when buffer `i` was granted, by the world before the call.
pub record Holds (i : ℕ) (w v : World) : Type 0 where
  pub within : i < w.shm.buffer_count
  pub sem : (v.shm.buffers i).sem ≡ writing
  pub sem_id : (v.shm.buffers i).sem_id ≡ w.me.manager_id
  pub write_pos : (v.shm.buffers i).write_pos ≡ 0
  pub sequence_id : (v.shm.buffers i).sequence_id ≡ add64 w.shm.next_sequence_id 1
  pub next_sequence_id : v.shm.next_sequence_id ≡ add64 w.shm.next_sequence_id 1
  pub writer_pos : v.shm.writer_pos ≡ next_pos i w.shm.buffer_count
  pub taken_from : (w.shm.buffers i).sem ≢ writing
  pub others : (j : ℕ) → j ≢ i → Decays w (w.shm.buffers j) (v.shm.buffers j)
  pub bytes : v.shm.bytes ≡ w.shm.bytes
  pub attached : v.me.attached ≡ w.me.attached
  pub manager_id : v.me.manager_id ≡ w.me.manager_id
  pub buffer_count : v.shm.buffer_count ≡ w.shm.buffer_count
  pub buffer_size : v.shm.buffer_size ≡ w.shm.buffer_size
  pub reader_pos : (v.shm.reader_pos ≡ w.shm.reader_pos) ⊎ (w.shm.destructive_read_mode ≡ false)
  pub destructive_read_mode : v.shm.destructive_read_mode ≡ w.shm.destructive_read_mode

pub Holds-of :
    (overwrite : Bool) (i : ℕ) (w v : World)
    → Granted overwrite (enrolled w) (some i) v
    → Holds i w v
Holds-of overwrite i w v (u, d, h, p, c) = record {
  within = h;
  sem = c.sem;
  sem_id = ground arith;
  write_pos = c.write_pos;
  sequence_id = ground arith;
  next_sequence_id = ground arith;
  writer_pos = ground arith;
  taken_from =
      not_writing (enrolled w) (w.shm.buffers i) (u.shm.buffers i) (d.buffers i)
        (IsTakeable-any overwrite u i p);
  others = λ j ne. subst (Decays w (w.shm.buffers j)) (sym (c.others j ne)) (d.buffers j);
  bytes = c.bytes ∙ d.bytes;
  attached = ap (λ m. m.attached) (c.me ∙ d.me);
  manager_id = ap (λ m. m.manager_id) (c.me ∙ d.me);
  buffer_count = c.buffer_count ∙ d.buffer_count;
  buffer_size = c.buffer_size ∙ d.buffer_size;
  reader_pos = ground (arith, c.reader_pos, d.reader_pos);
  destructive_read_mode = c.destructive_read_mode ∙ d.destructive_read_mode;
}

pub grant_of :
    (overwrite : Bool) (w : World) (r : Option ℕ) (v : World)
    → IsReady w
    → get_buffer_for_writing overwrite w ≡ (ok r, v)
    → Granted overwrite (enrolled w) r v
grant_of overwrite w r v ready e =
    let (r', v', q, g) = get_buffer_for_writing_form overwrite w ready in
    ok_unique (Granted overwrite (enrolled w)) _ q e g

reliable_cases :
    (w : World) (i : ℕ) (u : World)
    → Drifts (enrolled w) u
    → IsTakeable false u i
    → (((w.shm.buffers i).sem ≡ empty) × ((w.shm.buffers i).sem_id ≡ minus_one))
      ⊎ ((w.shm.destructive_read_mode ≡ false)
          × (w.me.manager_id ≡ pos 0)
          × (((w.shm.buffers i).sem ≡ full)
              ⊎ (((w.shm.buffers i).sem ≡ reading) × ((w.shm.buffers i).sem_id ≢ w.me.manager_id))))
reliable_cases w i u d (inl p) =
    ground (arith, free_before (enrolled w) (w.shm.buffers i) (u.shm.buffers i) (d.buffers i) p)
reliable_cases w i u d (inr (e, p)) = cc

-- An empty buffer does not decay.
free_stays :
    (w : World) (b c : ShmBuffer)
    → Decays w b c
    → b.sem ≡ empty
    → b.sem_id ≡ minus_one
    → is_free c.sem c.sem_id ≡ true
unfolding is_free
free_stays w b c d e n = ground (arith, eqb_refl minus_one)

finds_cases :
    (overwrite : Bool) (w : World) (j : ℕ) (r : Option ℕ) (v : World)
    → IsReady w
    → j < w.shm.buffer_count
    → (w.shm.buffers j).sem ≡ empty
    → (w.shm.buffers j).sem_id ≡ minus_one
    → get_buffer_for_writing overwrite w ≡ (ok r, v)
    → Granted overwrite (enrolled w) r v
    → (i : ℕ) × (v' : World) × (get_buffer_for_writing overwrite w ≡ (ok (some i), v'))
finds_cases overwrite w j (some i) v ready h e n q g = (i, v, q)
finds_cases overwrite w j none v ready h e n q (u, m, d) =
    let (k, k_lt, at) =
      scan_index_reaches j w.shm.writer_pos w.shm.buffer_count ready.small h ready.writer_in in
    let (x, p, p', failed) = m.1 k k_lt in
    let passed = free_stays (enrolled w) (w.shm.buffers j) (x.shm.buffers j) (p.buffers j) e n in
    let failed' : Passes is_free x j false = subst (λ i. Passes is_free x i false) at failed in
    absurd (ground arith)

-- A ready manager gets an answer from `GetBufferForWriting`: no exception, no null pointer. Ready is
-- one that is attached, with an id that fits an int16_t and is not -1, to a segment of fewer than 2
-- ^ 31 buffers with the writer position among them.
pub get_buffer_for_writing_total :
    (overwrite : Bool) (w : World) → IsReady w → IsOk (get_buffer_for_writing overwrite w).0
get_buffer_for_writing_total overwrite w ready =
    let (r, v, q, g) = get_buffer_for_writing_form overwrite w ready in rw q tt

-- When `GetBufferForWriting` returns a buffer to a ready manager, the buffer exists, was not being
-- written, and is now this manager's, in state Writing, with write position 0 and the next sequence
-- id; the writer position stands behind it, no byte has changed, and every other buffer is as it was
-- or was taken back as stale.
pub get_buffer_for_writing-Holds :
    (overwrite : Bool) (w : World) (i : ℕ) (v : World)
    → IsReady w
    → get_buffer_for_writing overwrite w ≡ (ok (some i), v)
    → Holds i w v
get_buffer_for_writing-Holds overwrite w i v ready e =
    Holds-of overwrite i w v (grant_of overwrite w (some i) v ready e)

-- Without `overwrite` the buffer that `GetBufferForWriting` returns to a ready manager was empty and
-- unowned, unless the manager is the owner in broadcast mode: then it may be a full buffer, or one
-- that another manager was reading, which was taken back as stale.
pub get_buffer_for_writing_reliable :
    (w : World) (i : ℕ) (v : World)
    → IsReady w
    → get_buffer_for_writing false w ≡ (ok (some i), v)
    → (((w.shm.buffers i).sem ≡ empty) × ((w.shm.buffers i).sem_id ≡ minus_one))
      ⊎ ((w.shm.destructive_read_mode ≡ false)
          × (w.me.manager_id ≡ pos 0)
          × (((w.shm.buffers i).sem ≡ full)
              ⊎ (((w.shm.buffers i).sem ≡ reading) × ((w.shm.buffers i).sem_id ≢ w.me.manager_id))))
get_buffer_for_writing_reliable w i v ready e =
    let (u, d, h, p, c) = grant_of false w (some i) v ready e in reliable_cases w i u d p

-- With or without overwriting, `GetBufferForWriting` of a ready manager fails only if no buffer is
-- empty and unowned: where there is one, it returns a buffer.
pub get_buffer_for_writing_finds :
    (overwrite : Bool) (w : World) (j : ℕ)
    → IsReady w
    → j < w.shm.buffer_count
    → (w.shm.buffers j).sem ≡ empty
    → (w.shm.buffers j).sem_id ≡ minus_one
    → (i : ℕ) × (v : World) × (get_buffer_for_writing overwrite w ≡ (ok (some i), v))
get_buffer_for_writing_finds overwrite w j ready h e n =
    let (r, v, q, g) = get_buffer_for_writing_form overwrite w ready in
    finds_cases overwrite w j r v ready h e n q g
