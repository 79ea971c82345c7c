-- ===== src/SharedMemory/Isolation.antt =====
-- A buffer that is being written is its writer's alone: what other managers' searches for buffers in
-- SharedMemoryManager.cc do not touch.
use artdaq_core.Prelude.{ℕ, ◌≡◌, ◌≢◌, subst, arith, Option, none, some, Bool}
use artdaq_core.SharedMemory.State.{writing, ShmBuffer, World, ok}
use artdaq_core.SharedMemory.Reset.Drift.{IsReady, SameHeader, Decays, Drifts, Drifts-trans}
use artdaq_core.SharedMemory.Writing.{get_buffer_for_writing}
use artdaq_core.SharedMemory.Writing.Grant.{
  enrolled as as_writer, Granted, get_buffer_for_writing_form, Holds-of,
}
use artdaq_core.SharedMemory.Reading.{get_buffer_for_reading}
use artdaq_core.SharedMemory.Reading.Grant.{Lent, Lent-of}
use artdaq_core.SharedMemory.Reading.Rounds.{
  enrolled as as_reader, Reads, get_buffer_for_reading_form,
}

-- The header of buffer `j`, but for the time of its last touch, and all bytes are as they were.
abbrev pub Undisturbed : ℕ → World → World → Type 0
Undisturbed j w v = SameHeader (w.shm.buffers j) (v.shm.buffers j) × (v.shm.bytes ≡ w.shm.bytes)

-- A buffer that is being written does not decay.
written_stays : (w : World) (b c : ShmBuffer) → b.sem ≡ writing → Decays w b c → SameHeader b c
written_stays w b c e d = ground arith

writer_elsewhere :
    (overwrite : Bool) (w : World) (r : Option ℕ) (v : World) (j : ℕ)
    → (w.shm.buffers j).sem ≡ writing
    → Granted overwrite (as_writer w) r v
    → Undisturbed j w v
writer_elsewhere overwrite w none v j s (u, m, d) =
    let d' : Drifts (as_writer w) v = Drifts-trans (as_writer w) u v m.0 d in
    (written_stays (as_writer w) (w.shm.buffers j) (v.shm.buffers j) s (d'.buffers j), d'.bytes)
writer_elsewhere overwrite w (some i) v j s g =
    let h = Holds-of overwrite i w v g in
    (
      written_stays w (w.shm.buffers j) (v.shm.buffers j) s
          (h.others j (λ e. h.taken_from (subst (λ k. (w.shm.buffers k).sem ≡ writing) e s))),
      h.bytes,
    )

-- A buffer that is being written, by whomever, survives any call of `GetBufferForWriting` of a ready
-- manager, with and without overwriting: the call returns, and leaves the header, but for the time
-- of the last touch, and every byte as they were.
pub writing_leaves_written :
    (overwrite : Bool) (w : World) (j : ℕ)
    → IsReady w
    → (w.shm.buffers j).sem ≡ writing
    → (r : Option ℕ) × (v : World) × (get_buffer_for_writing overwrite w ≡ (ok r, v))
      × Undisturbed j w v
writing_leaves_written overwrite w j ready s =
    let (r, v, e, g) = get_buffer_for_writing_form overwrite w ready in
    (r, v, e, writer_elsewhere overwrite w r v j s g)

other_buffer : (w v : World) (i j : ℕ) → (w.shm.buffers j).sem ≡ writing → Lent i w v → j ≢ i
other_buffer w v i j s l e =
    let s' : (w.shm.buffers i).sem ≡ writing = subst (λ k. (w.shm.buffers k).sem ≡ writing) e s in
    absurd (ground (arith, l.taken_from))

reader_elsewhere :
    (w : World) (r : Option ℕ) (v : World) (j : ℕ)
    → (w.shm.buffers j).sem ≡ writing
    → Reads 5 w.shm.reader_pos (as_reader w) r v
    → Undisturbed j w v
reader_elsewhere w none v j s (d, _) =
    (written_stays (as_reader w) (w.shm.buffers j) (v.shm.buffers j) s (d.buffers j), d.bytes)
reader_elsewhere w (some i) v j s g =
    let l = Lent-of i w v g in
    (
      written_stays w (w.shm.buffers j) (v.shm.buffers j) s (l.others j (other_buffer w v i j s l)),
      l.bytes,
    )

-- A buffer that is being written, by whomever, survives any call of `GetBufferForReading` of a ready
-- manager: the call returns, and leaves the header, but for the time of the last touch, and every
-- byte as they were.
pub reading_leaves_written :
    (w : World) (j : ℕ)
    → IsReady w
    → (w.shm.buffers j).sem ≡ writing
    → (r : Option ℕ) × (v : World) × (get_buffer_for_reading w ≡ (ok r, v)) × Undisturbed j w v
reading_leaves_written w j ready s =
    let (r, v, e, g) = get_buffer_for_reading_form w ready in
    (r, v, e, reader_elsewhere w r v j s g)
