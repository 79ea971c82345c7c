-- ===== src/FragmentManager/Sending.antt =====
-- What `WriteFragment` of artdaq-core/Core/SharedMemoryFragmentManager.cc does with a fragment, when there
-- is a buffer for it.
use artdaq_core.Prelude.{
  ℕ, zero, suc, ◌*◌, ◌<◌, ◌≤◌, ◌≡◌, ◌≢◌, ◌⊎◌, refl, true, false, Bool, arith, ◌∙◌, sym, ap, ap₂,
  subst, some, none, length, ◌==◌,
}
use native.Mathlib.Nat.{mod-lt}
use artdaq_core.Prelude.Int.{pos, minus_one, to_int16_fits}
use artdaq_core.Prelude.Words.{w64, mul64, add32, add64}
use artdaq_core.Prelude.Bytes.{bytes_of, length-bytes_of}
use artdaq_core.SharedMemory.State.{empty, writing, full, World, ok}
use artdaq_core.SharedMemory.Reset.Drift.{IsReady, Decays}
use artdaq_core.SharedMemory.Access.{next_pos}
use artdaq_core.SharedMemory.Writing.{get_buffer_for_writing}
use artdaq_core.SharedMemory.Writing.Grant.{
  Holds, get_buffer_for_writing_finds, get_buffer_for_writing-Holds,
}
use artdaq_core.SharedMemory.Marks.Effects.{mark_buffer_full_mine}
use artdaq_core.SharedMemory.Transfer.{copy_in}
use artdaq_core.SharedMemory.Transfer.Effects.{write_form}
use artdaq_core.SharedMemory.Attach.{is_end_of_data}
use artdaq_core.Fragment.{Fragment, done}
use artdaq_core.Fragment.Layout.{IsCurrent, fragment_header_form}
use artdaq_core.FragmentManager.{
  Surroundings, ready_for_write, spin, reconnect, send_words, send_fragment, wait_for_buffer,
  write_fragment,
}

-- Buffer `i` is full, for everyone, and holds the first `n` of the words `source`.
pub record Loaded (i : ℕ) (source : ℕ → ℕ) (n : ℕ) (w v : World) : Type 0 where
  pub sem : (v.shm.buffers i).sem ≡ full
  pub sem_id : (v.shm.buffers i).sem_id ≡ minus_one
  pub write_pos : (v.shm.buffers i).write_pos ≡ 8 * n
  pub sequence_id : (v.shm.buffers i).sequence_id ≡ (w.shm.buffers i).sequence_id
  pub bytes : v.shm.bytes ≡ copy_in (i * w.shm.buffer_size) (bytes_of source 0 n) w.shm.bytes
  pub others : (j : ℕ) → j ≢ i → v.shm.buffers j ≡ w.shm.buffers j
  pub buffer_count : v.shm.buffer_count ≡ w.shm.buffer_count
  pub buffer_size : v.shm.buffer_size ≡ w.shm.buffer_size
  pub reader_pos : v.shm.reader_pos ≡ w.shm.reader_pos
  pub destructive_read_mode : v.shm.destructive_read_mode ≡ w.shm.destructive_read_mode
  pub writer_pos : v.shm.writer_pos ≡ w.shm.writer_pos

module _ (w : World) (i : ℕ) (attached : w.me.attached ≡ true) (h : i < w.shm.buffer_count)
    (state : (w.shm.buffers i).sem ≡ writing) (mine : (w.shm.buffers i).sem_id ≡ w.me.manager_id)
    (unwritten : (w.shm.buffers i).write_pos ≡ 0) (word : w.shm.buffer_size < w64) where
  pub send_words-Loaded :
      (source : ℕ → ℕ) (n : ℕ)
      → 8 * n ≤ w.shm.buffer_size
      → (v : World) × (send_words i source n w ≡ (ok (pos 0), v)) × Loaded i source n w v
  unfolding send_words
  send_words-Loaded source n fits =
      let len = length-bytes_of source 0 n in
      let (v₁, e₁, f) =
        write_form w i attached h mine (bytes_of source 0 n) state
          (omega (arith, len, unwritten)) in
      let (v₂, e₂, m) =
        mark_buffer_full_mine v₁ i minus_one (f.attached ∙ attached)
          (subst (λ k. i < k) (sym f.buffer_count) h) (f.sem_id ∙ mine ∙ sym f.manager_id) in
      let all_sent : (length (bytes_of source 0 n) == mul64 n 8) ≡ true = ground (arith, len) in
      (
        v₂,
        rw (e₁, all_sent, e₂) refl,
        record {
          sem = m.sem;
          sem_id = m.sem_id ∙ to_int16_fits minus_one (omega arith, omega arith);
          write_pos = omega (arith, m.write_pos, f.write_pos, unwritten, len);
          sequence_id = m.sequence_id ∙ f.sequence_id;
          bytes =
              m.bytes
              ∙ f.bytes
              ∙ ap (λ a. copy_in a (bytes_of source 0 n) w.shm.bytes) (omega (arith, unwritten));
          others = λ j ne. m.others j ne ∙ f.others j ne;
          buffer_count = m.buffer_count ∙ f.buffer_count;
          buffer_size = m.buffer_size ∙ f.buffer_size;
          reader_pos = m.reader_pos ∙ f.reader_pos;
          destructive_read_mode = m.destructive_read_mode ∙ f.destructive_read_mode;
          writer_pos = m.writer_pos ∙ f.writer_pos;
        },
      )

-- The world after `WriteFragment` has handed the fragment on in buffer `i`, by the world before.
pub record Handed (f : Fragment) (i : ℕ) (w v : World) : Type 0 where
  pub within : i < w.shm.buffer_count
  pub sem : (v.shm.buffers i).sem ≡ full
  pub sem_id : (v.shm.buffers i).sem_id ≡ minus_one
  pub write_pos : (v.shm.buffers i).write_pos ≡ 8 * f.vals.size
  pub sequence_id : (v.shm.buffers i).sequence_id ≡ add64 w.shm.next_sequence_id 1
  pub bytes :
      v.shm.bytes
      ≡ copy_in (i * w.shm.buffer_size) (bytes_of f.vals.data_ 0 f.vals.size) w.shm.bytes
  pub taken_from : (w.shm.buffers i).sem ≢ writing
  pub others : (j : ℕ) → j ≢ i → Decays w (w.shm.buffers j) (v.shm.buffers j)
  pub buffer_count : v.shm.buffer_count ≡ w.shm.buffer_count
  pub buffer_size : v.shm.buffer_size ≡ w.shm.buffer_size
  pub reader_pos : (v.shm.reader_pos ≡ w.shm.reader_pos) ⊎ (w.shm.destructive_read_mode ≡ false)
  pub destructive_read_mode : v.shm.destructive_read_mode ≡ w.shm.destructive_read_mode
  pub writer_in : v.shm.writer_pos < w.shm.buffer_count

next_pos_in : {p : ℕ} (i count : ℕ) → i < count → p ≡ next_pos i count → p < count
unfolding next_pos
next_pos_in i count lt e = subst (λ x. x < count) (sym e) (mod-lt (add32 i 1) (omega arith))

send_fragment-Handed :
    (f : Fragment) (i : ℕ) (w u : World)
    → IsCurrent f
    → w.me.attached ≡ true
    → Holds i w u
    → 8 * f.vals.size ≤ w.shm.buffer_size
    → w.shm.buffer_size < w64
    → (v : World) × (send_fragment i f u ≡ (ok (done (pos 0), none), v)) × Handed f i w v
unfolding send_fragment
send_fragment-Handed f i w u cur attached h fits word =
    let (v, e, l) =
      send_words-Loaded u i (h.attached ∙ attached) (omega (arith, h.within, h.buffer_count)) h.sem
        (h.sem_id ∙ sym h.manager_id) h.write_pos (omega (arith, h.buffer_size)) f.vals.data_
        f.vals.size (omega (arith, h.buffer_size)) in
    (
      v,
      rw (send_fragment, fragment_header_form f cur.own, cur.word_count) (rw e refl),
      record {
        within = h.within;
        sem = l.sem;
        sem_id = l.sem_id;
        write_pos = l.write_pos;
        sequence_id = l.sequence_id ∙ h.sequence_id;
        bytes =
            l.bytes
            ∙ ap₂ (λ a b. copy_in (i * a) (bytes_of f.vals.data_ 0 f.vals.size) b) h.buffer_size
                h.bytes;
        taken_from = h.taken_from;
        others = λ j ne. subst (Decays w (w.shm.buffers j)) (sym (l.others j ne)) (h.others j ne);
        buffer_count = l.buffer_count ∙ h.buffer_count;
        buffer_size = l.buffer_size ∙ h.buffer_size;
        reader_pos = ground (arith, l.reader_pos, h.reader_pos);
        destructive_read_mode = l.destructive_read_mode ∙ h.destructive_read_mode;
        writer_in = next_pos_in i w.shm.buffer_count h.within (l.writer_pos ∙ h.writer_pos);
      },
    )

-- The segment is there, and not marked for destruction.
pub record IsConnected (s : Surroundings) (w : World) : Type 0 where
  pub attached : w.me.attached ≡ true
  pub stat : s.os.stat ≡ true
  pub kept : w.destroyed ≡ false

reconnect_connected :
    (s : Surroundings) (timeout_us : ℕ) (w : World)
    → IsConnected s w
    → reconnect s.os timeout_us w ≡ (ok true, w)
unfolding reconnect is_end_of_data
reconnect_connected s timeout_us w c = ground (arith, c.attached, c.stat, c.kept)

spin_found :
    (overwrite : Bool) (spins i : ℕ) (w u : World)
    → get_buffer_for_writing overwrite w ≡ (ok (some i), u)
    → spin overwrite spins none w ≡ (ok (some i), u)
unfolding spin ready_for_write
spin_found overwrite zero i w u e = e
spin_found overwrite (suc n) i w u e = rw e refl

module _ (s : Surroundings) (rounds : ℕ) (f : Fragment) (overwrite : Bool) (timeout_us : ℕ)
    (w : World) where
  write_fragment_found :
      (i : ℕ) (u : World)
      → IsConnected s w
      → get_buffer_for_writing overwrite w ≡ (ok (some i), u)
      → write_fragment s rounds f overwrite timeout_us none w ≡ send_fragment i f u
  unfolding write_fragment wait_for_buffer ready_for_write
  write_fragment_found i u c e =
      rw (reconnect_connected s timeout_us w c, spin_found overwrite s.spins i w u e) refl

  -- `WriteFragment` by a ready manager, connected to a segment that is not marked for destruction, without
  -- an active buffer, of a fragment of the current version whose words fit the segment's buffers, when some
  -- buffer is empty and unowned, returns 0 at once, however long it may wait. It leaves no active buffer; one
  -- buffer that was not being written is full, for everyone, with the next sequence id and exactly the
  -- fragment's words, and every other buffer is as it was or was taken back as stale.
  pub write_fragment-Handed :
      (j : ℕ)
      → IsReady w
      → IsConnected s w
      → IsCurrent f
      → 8 * f.vals.size ≤ w.shm.buffer_size
      → w.shm.buffer_size < w64
      → j < w.shm.buffer_count
      → (w.shm.buffers j).sem ≡ empty
      → (w.shm.buffers j).sem_id ≡ minus_one
      → (i : ℕ) × (v : World) × (write_fragment s rounds f overwrite timeout_us none w
          ≡ (ok (done (pos 0), none), v))
        × Handed f i w v
  write_fragment-Handed j ready c cur fits word within free unowned =
      let (i, u, e) = get_buffer_for_writing_finds overwrite w j ready within free unowned in
      let h = get_buffer_for_writing-Holds overwrite w i u ready e in
      let (v, e', d) = send_fragment-Handed f i w u cur ready.attached h fits word in
      (i, v, write_fragment_found i u c e ∙ e', d)
