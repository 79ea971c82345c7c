-- ===== src/SharedMemory/Reading/Order.antt =====
-- In which order `GetBufferForReading` returns buffers, and when it returns one.
use artdaq_core.Prelude.{
  ℕ, ◌+◌, ◌-◌, ◌<◌, ◌≤◌, ◌≡◌, ◌≢◌, ◌⊎◌, inl, inr, refl, sym, subst, true, false, Option, none, some,
  arith, ◌∙◌,
}
use artdaq_core.Prelude.Int.{pos, minus_one, eqb_refl, ltb_ℤ}
use artdaq_core.Prelude.Words.{w64}
use artdaq_core.SharedMemory.State.{ShmBuffer, World, ok}
use artdaq_core.SharedMemory.Reset.Drift.{IsReady, Drifts, Drifts-refl, Drifts-trans, Decays}
use artdaq_core.SharedMemory.Writing.{scan_index}
use artdaq_core.SharedMemory.Writing.Scan.{scan_index_reaches}
use artdaq_core.SharedMemory.Reading.{is_readable, next_turn, skips_turn, get_buffer_for_reading}
use artdaq_core.SharedMemory.Reading.Choose.{Improves, IsLowest, IsCandidate, Drifts-next_turn}
use artdaq_core.SharedMemory.Reading.Acquire.{IsDue}
use artdaq_core.SharedMemory.Reading.Rounds.{
  Fails, Succeeds, Reads, enrolled, get_buffer_for_reading_form, result_of,
}
use artdaq_core.SharedMemory.Reading.Grant.{chosen, Decays-sequence_id}

-- The manager takes no full buffer back: only the owner does, in broadcast mode.
abbrev pub KeepsFull : World → Type 0
KeepsFull w = (w.shm.destructive_read_mode ≡ true) ⊎ (w.me.manager_id ≢ pos 0)

stays_readable :
    (w x : World) (j : ℕ)
    → Drifts w x
    → KeepsFull w
    → is_readable w (w.shm.buffers j) ≡ true
    → is_readable x (x.shm.buffers j) ≡ true
unfolding is_readable
stays_readable w x j d keeps h =
    let decay : Decays w (w.shm.buffers j) (x.shm.buffers j) = d.buffers j in
    ground (arith, d.me, d.destructive_read_mode, eqb_refl minus_one)

is_readable-enrolled : (w : World) (b : ShmBuffer) → is_readable (enrolled w) b ≡ is_readable w b
unfolding is_readable
is_readable-enrolled w b = refl

-- A scan that ends with sequence id `s` ended at this reader's turn, or saw no readable buffer with a
-- lower id.
scan_lowest :
    (w x : World) (best : Option ℕ) (s : ℕ) (u : World) (j : ℕ)
    → IsReady w
    → w.shm.reader_pos < w.shm.buffer_count
    → Drifts w x
    → IsLowest x.shm.buffer_count 0 w.shm.reader_pos x best s u
    → j < w.shm.buffer_count
    → is_readable w (w.shm.buffers j) ≡ true
    → KeepsFull w
    → ((best ≢ none) × (s ≡ next_turn w)) ⊎ (s ≤ (w.shm.buffers j).sequence_id)
scan_lowest w x best s u j ready rp d (inl (found, turn)) h r keeps =
    inl (found, turn ∙ Drifts-next_turn w x d)
scan_lowest w x best s u j ready rp d (inr each) h r keeps =
    let (k, k_lt, at) = scan_index_reaches j w.shm.reader_pos w.shm.buffer_count ready.small h rp in
    let (y, p, q, low) = each k (subst (λ n. k < n) (sym d.buffer_count) k_lt) in
    let all : Drifts w y = Drifts-trans w x y d p in
    let low' : is_readable y (y.shm.buffers j) ≡ true → s ≤ (y.shm.buffers j).sequence_id =
      subst (λ i. is_readable y (y.shm.buffers i) ≡ true → s ≤ (y.shm.buffers i).sequence_id)
        (subst (λ n. scan_index (0 + k) w.shm.reader_pos n ≡ j) (sym d.buffer_count) at) low in
    inr (
      subst (λ n. s ≤ n) (Decays-sequence_id w (w.shm.buffers j) (y.shm.buffers j) (all.buffers j))
        (low' (stays_readable w y j all keeps r)))

candidate_id :
    (w x : World) (i s : ℕ) (u : World)
    → Drifts w x
    → IsCandidate x i s u
    → s ≡ (w.shm.buffers i).sequence_id
candidate_id w x i s u d (y, p, q, h, r, e) =
    sym e
    ∙ Decays-sequence_id x (x.shm.buffers i) (y.shm.buffers i) (p.buffers i)
    ∙ Decays-sequence_id w (w.shm.buffers i) (x.shm.buffers i) (d.buffers i)

lowest_of :
    (w : World) (i : ℕ) (v : World) (j : ℕ)
    → IsReady w
    → w.shm.reader_pos < w.shm.buffer_count
    → Succeeds w.shm.reader_pos w i v
    → j < w.shm.buffer_count
    → is_readable w (w.shm.buffers j) ≡ true
    → KeepsFull w
    → ((w.shm.buffers i).sequence_id ≡ next_turn w)
      ⊎ ((w.shm.buffers i).sequence_id ≤ (w.shm.buffers j).sequence_id)
lowest_of w i v j ready rp (x, u, s, d, c, due, a) h r keeps =
    let id = candidate_id w x i s u d (chosen w.shm.reader_pos x i s u c) in
    let low = scan_lowest w x (some i) s u j ready rp d c.2 h r keeps in ground (arith, id, low)

enrolled-IsReady : (w : World) → IsReady w → IsReady (enrolled w)
enrolled-IsReady w ready = record {
  attached = ready.attached;
  small = ready.small;
  writer_in = ready.writer_in;
  owner = ready.owner;
  named = ready.named;
}

-- `GetBufferForReading` returns buffers in the order of their sequence ids: the id of the buffer
-- that it returns is this reader's turn in the round robin, or no higher than the id of any buffer
-- that could be read when the call began. This holds for every ready manager that does not empty
-- full buffers itself, which only the owner does, in broadcast mode, where the reader position is
-- among the buffers.
pub get_buffer_for_reading_lowest :
    (w : World) (i : ℕ) (v : World) (j : ℕ)
    → IsReady w
    → w.shm.reader_pos < w.shm.buffer_count
    → KeepsFull w
    → get_buffer_for_reading w ≡ (ok (some i), v)
    → j < w.shm.buffer_count
    → is_readable w (w.shm.buffers j) ≡ true
    → ((w.shm.buffers i).sequence_id ≡ next_turn (enrolled w))
      ⊎ ((w.shm.buffers i).sequence_id ≤ (w.shm.buffers j).sequence_id)
get_buffer_for_reading_lowest w i v j ready rp keeps e h r =
    lowest_of (enrolled w) i v j (enrolled-IsReady w ready) rp (result_of w (some i) v ready e) h
      (is_readable-enrolled w (w.shm.buffers j) ∙ r) keeps

-- The round robin leaves no buffer for another reader.
abbrev pub IsAlone : World → Type 0
IsAlone w =
    (w.shm.destructive_read_mode ≡ false)
    ⊎ ((w.me.last_seen_id ≡ 0) ⊎ (ltb_ℤ (pos 1) w.shm.reader_count ≡ false))

alone-IsDue :
    (w u : World) (i : ℕ)
    → Drifts w u
    → IsAlone w
    → is_readable u (u.shm.buffers i) ≡ true
    → IsDue u i true
unfolding is_readable skips_turn
alone-IsDue w u i d alone r = ground (arith, d.me, d.destructive_read_mode, d.reader_count)

KeepsFull-Drifts : (w v : World) → Drifts w v → KeepsFull w → KeepsFull v
KeepsFull-Drifts w v d k = ground arith

-- A readable buffer makes the round that began at `w` succeed.
no_failure :
    (w : World) (u : World) (j : ℕ)
    → IsReady w
    → w.shm.reader_pos < w.shm.buffer_count
    → KeepsFull w
    → IsAlone w
    → j < w.shm.buffer_count
    → is_readable w (w.shm.buffers j) ≡ true
    → (w.shm.buffers j).sequence_id < w64 - 1
    → ¬ Fails w.shm.reader_pos w u
no_failure w u j ready rp keeps alone h r small (best, s, (d, im, low), why) =
    contradiction im why (scan_lowest w w best s u j ready rp (Drifts-refl w) low h r keeps)
  where
    contradiction :
        Improves w none (w64 - 1) best s u
        → ((best ≡ none) ⊎ ((i : ℕ) × (best ≡ some i) × IsDue u i false))
        → ((best ≢ none) × (s ≡ next_turn w)) ⊎ (s ≤ (w.shm.buffers j).sequence_id)
        → ⊥
    contradiction (inl (e, e')) why (inl (found, turn)) = found e
    contradiction (inl (e, e')) why (inr le) = omega arith
    contradiction (inr (i, e, lt, c)) (inl e') l = cc
    contradiction (inr (i, e, lt, (y, p, q, h', r', id))) (inr (i', e', due)) l =
        let same : i ≡ i' = ground arith in
        let still : is_readable u (u.shm.buffers i) ≡ true =
          stays_readable y u i q (KeepsFull-Drifts w y p keeps) r' in
        let due' : IsDue u i' true =
          subst (λ k. IsDue u k true) same
            (alone-IsDue w u i (Drifts-trans w y u p q) alone still) in
        absurd (ground (arith, due'))

finds_cases :
    (w : World) (j : ℕ) (r : Option ℕ) (v : World)
    → ¬ ((u : World) × Fails w.shm.reader_pos (enrolled w) u × Drifts u v)
    → get_buffer_for_reading w ≡ (ok r, v)
    → Reads 5 w.shm.reader_pos (enrolled w) r v
    → (i : ℕ) × (v' : World) × (get_buffer_for_reading w ≡ (ok (some i), v'))
finds_cases w j (some i) v no_fail q reads = (i, v, q)
finds_cases w j none v no_fail q (d, failed) = absurd (no_fail (failed (omega arith)))

-- `GetBufferForReading` of a ready manager returns a buffer if there is one that could be read when
-- the call began, with a sequence id below 2 ^ 64 - 1, and the round robin is off: in broadcast
-- mode, before the first read, or with at most one reader registered. The manager is not the owner
-- in broadcast mode, and the reader position is among the buffers.
pub get_buffer_for_reading_finds :
    (w : World) (j : ℕ)
    → IsReady w
    → w.shm.reader_pos < w.shm.buffer_count
    → KeepsFull w
    → IsAlone (enrolled w)
    → j < w.shm.buffer_count
    → is_readable w (w.shm.buffers j) ≡ true
    → (w.shm.buffers j).sequence_id < w64 - 1
    → (i : ℕ) × (v : World) × (get_buffer_for_reading w ≡ (ok (some i), v))
get_buffer_for_reading_finds w j ready rp keeps alone h r small =
    let (res, v, q, reads) = get_buffer_for_reading_form w ready in
    finds_cases w j res v none_fails q reads
  where
    none_fails : {v : World} → ¬ ((u : World) × Fails w.shm.reader_pos (enrolled w) u × Drifts u v)
    none_fails (u, f, d) =
        no_failure (enrolled w) u j (enrolled-IsReady w ready) rp keeps alone h
          (is_readable-enrolled w (w.shm.buffers j) ∙ r) small f
