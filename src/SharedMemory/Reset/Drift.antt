-- ===== src/SharedMemory/Reset/Drift.antt =====
-- What `ResetBuffer`, and so any number of scans, may do to the segment.
use artdaq_core.Prelude.{ℕ, ◌<◌, ◌^◌, ◌≡◌, ◌≢◌, refl, ◌⊎◌, inl, Bool, true, false, arith, ◌∙◌}
use artdaq_core.Prelude.Int.{ℤ, pos, minus_one, eqb_ℤ_iff, FitsInt16}
use artdaq_core.SharedMemory.State.{
  empty, full, reading, ShmBuffer, World, ok, Outcome, IsOk, ok_of_IsOk,
}
use artdaq_core.SharedMemory.Access.Range.{check_range_in, get_buffer_info_in}
use artdaq_core.SharedMemory.Reset.{reset_found, reset_buffer}

-- The header of a buffer, but for the time of the last touch.
abbrev pub SameHeader : ShmBuffer → ShmBuffer → Type 0
SameHeader b c =
    (c.write_pos ≡ b.write_pos)
    × (c.read_pos ≡ b.read_pos)
    × (c.sem ≡ b.sem)
    × (c.sem_id ≡ b.sem_id)
    × (c.sequence_id ≡ b.sequence_id)

-- A buffer that another manager was reading is full again, for everyone.
abbrev pub Returned : ℤ → ShmBuffer → ShmBuffer → Type 0
Returned me b c =
    (b.sem ≡ reading)
    × (b.sem_id ≢ me)
    × (c.sem ≡ full)
    × (c.sem_id ≡ minus_one)
    × (c.write_pos ≡ b.write_pos)
    × (c.read_pos ≡ 0)
    × (c.sequence_id ≡ b.sequence_id)

-- In broadcast mode the owner of the segment has emptied a full buffer.
abbrev pub Expired : World → ShmBuffer → ShmBuffer → Type 0
Expired w b c =
    (w.shm.destructive_read_mode ≡ false)
    × (w.me.manager_id ≡ pos 0)
    × ((b.sem ≡ full) ⊎ ((b.sem ≡ reading) × (b.sem_id ≢ w.me.manager_id)))
    × (c.sem ≡ empty)
    × (c.sem_id ≡ minus_one)
    × (c.write_pos ≡ 0)
    × (c.sequence_id ≡ b.sequence_id)

abbrev pub Decays : World → ShmBuffer → ShmBuffer → Type 0
Decays w b c = SameHeader b c ⊎ (Returned w.me.manager_id b c ⊎ Expired w b c)

pub record Drifts (w v : World) : Type 0 where
  pub me : v.me ≡ w.me
  pub writer_pos : v.shm.writer_pos ≡ w.shm.writer_pos
  pub buffer_count : v.shm.buffer_count ≡ w.shm.buffer_count
  pub buffer_size : v.shm.buffer_size ≡ w.shm.buffer_size
  pub next_sequence_id : v.shm.next_sequence_id ≡ w.shm.next_sequence_id
  pub lowest_seq_id_read : v.shm.lowest_seq_id_read ≡ w.shm.lowest_seq_id_read
  pub destructive_read_mode : v.shm.destructive_read_mode ≡ w.shm.destructive_read_mode
  pub reader_count : v.shm.reader_count ≡ w.shm.reader_count
  pub reader_pos : (v.shm.reader_pos ≡ w.shm.reader_pos) ⊎ (w.shm.destructive_read_mode ≡ false)
  pub writer_count : v.shm.writer_count ≡ w.shm.writer_count
  pub bytes : v.shm.bytes ≡ w.shm.bytes
  pub buffers : (j : ℕ) → Decays w (w.shm.buffers j) (v.shm.buffers j)

pub Drifts-refl : (w : World) → Drifts w w
Drifts-refl w = record {
  me = refl;
  writer_pos = refl;
  buffer_count = refl;
  buffer_size = refl;
  next_sequence_id = refl;
  lowest_seq_id_read = refl;
  destructive_read_mode = refl;
  reader_count = refl;
  reader_pos = inl refl;
  writer_count = refl;
  bytes = refl;
  buffers = λ j. inl (refl, refl, refl, refl, refl);
}

Decays-trans :
    (w v : World) (b c d : ShmBuffer)
    → v.me ≡ w.me
    → v.shm.destructive_read_mode ≡ w.shm.destructive_read_mode
    → Decays w b c
    → Decays v c d
    → Decays w b d
Decays-trans w v b c d em ed p q = ground arith

pub Drifts-trans : (u v w : World) → Drifts u v → Drifts v w → Drifts u w
Drifts-trans u v w p q = record {
  me = q.me ∙ p.me;
  writer_pos = q.writer_pos ∙ p.writer_pos;
  buffer_count = q.buffer_count ∙ p.buffer_count;
  buffer_size = q.buffer_size ∙ p.buffer_size;
  next_sequence_id = q.next_sequence_id ∙ p.next_sequence_id;
  lowest_seq_id_read = q.lowest_seq_id_read ∙ p.lowest_seq_id_read;
  destructive_read_mode = q.destructive_read_mode ∙ p.destructive_read_mode;
  reader_count = q.reader_count ∙ p.reader_count;
  reader_pos = ground (arith, p.reader_pos, q.reader_pos, p.destructive_read_mode);
  writer_count = q.writer_count ∙ p.writer_count;
  bytes = q.bytes ∙ p.bytes;
  buffers = λ j.
      Decays-trans u v (u.shm.buffers j) (v.shm.buffers j) (w.shm.buffers j) p.me
        p.destructive_read_mode (p.buffers j) (q.buffers j);
}

-- The header of a buffer after a call.
abbrev pub header : {A : Type 0} → Outcome A × World → ℕ → ShmBuffer
header (r, v) j = v.shm.buffers j

reset_found-Decays : (w : World) (i j : ℕ) → Decays w (w.shm.buffers j) (header (reset_found i w) j)
unfolding reset_found
reset_found-Decays w i j =
    ground
      (arith, eqb_ℤ_iff (w.shm.buffers i).sem_id w.me.manager_id, eqb_ℤ_iff w.me.manager_id (pos 0))

reset_found-Drifts : (w : World) (i : ℕ) → Drifts w (reset_found i w).1
unfolding reset_found
reset_found-Drifts w i = record {
  me = ground arith;
  writer_pos = ground arith;
  buffer_count = ground arith;
  buffer_size = ground arith;
  next_sequence_id = ground arith;
  lowest_seq_id_read = ground arith;
  destructive_read_mode = ground arith;
  reader_count = ground arith;
  reader_pos = ground arith;
  writer_count = ground arith;
  bytes = ground arith;
  buffers = λ j. reset_found-Decays w i j;
}

reset_found_total : (w : World) (i : ℕ) → IsOk (reset_found i w).0
unfolding reset_found
reset_found_total w i = ground arith

-- A manager that is attached to a segment of `buffer_count` buffers, one at least, and that an
-- int16_t can name.
pub record IsReady (w : World) : Type 0 where
  pub attached : w.me.attached ≡ true
  pub small : w.shm.buffer_count < 2 ^ 31
  pub writer_in : w.shm.writer_pos < w.shm.buffer_count
  pub owner : FitsInt16 w.me.manager_id
  pub named : w.me.manager_id ≢ minus_one

pub Drifts-IsReady : (w v : World) → Drifts w v → IsReady w → IsReady v
Drifts-IsReady w v d h = record {
  attached = ground arith;
  small = ground arith;
  writer_in = ground arith;
  owner = ground arith;
  named = ground arith;
}

-- `ResetBuffer` on a buffer of the segment.
pub reset_buffer_in_range :
    (w : World) (i : ℕ)
    → w.me.attached ≡ true
    → i < w.shm.buffer_count
    → reset_buffer i w ≡ reset_found i w
unfolding reset_buffer
reset_buffer_in_range w i a h = rw (check_range_in w i a h, get_buffer_info_in w i a h)

-- `ResetBuffer` on a buffer of an attached segment returns, and may only take buffers back: one that
-- another manager was reading becomes full with its data, and in broadcast mode the owner empties one
-- that was full, or that another manager was reading. Every other header, but for the time of the last touch, stays as it was, and so do the
-- bytes and the counters of the segment.
pub reset_buffer-Drifts :
    (w : World) (i : ℕ)
    → w.me.attached ≡ true
    → i < w.shm.buffer_count
    → (b : Bool) × (v : World) × (reset_buffer i w ≡ (ok b, v)) × Drifts w v
reset_buffer-Drifts w i a h =
    let (b, e) = ok_of_IsOk _ (reset_found_total w i) in
    (b, (reset_found i w).1, ground (arith, reset_buffer_in_range w i a h), reset_found-Drifts w i)
