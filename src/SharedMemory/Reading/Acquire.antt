-- ===== src/SharedMemory/Reading/Acquire.antt =====
-- How `GetBufferForReading` takes the buffer that its scan has chosen.
use artdaq_core.Prelude.{
  ℕ, ◌≡◌, ◌≢◌, refl, true, false, Bool, not, ◌&&◌, ◌||◌, arith, if◌then◌else◌,
}
use artdaq_core.Prelude.Int.{minus_one, eqb_ℤ}
use artdaq_core.SharedMemory.State.{full, reading, sem_eq, World, ok, put_buffer}
use artdaq_core.SharedMemory.Access.{next_pos}
use artdaq_core.SharedMemory.Access.Take.{touch_form, stamp, take_form, taken, check_ok}
use artdaq_core.SharedMemory.Reset.Drift.{IsReady}
use artdaq_core.SharedMemory.Reading.{skips_turn, record_read, finish_acquire, acquire_for_reading}

-- The world after a buffer is taken for reading, by the world before.
pub record Acquired (i : ℕ) (w v : World) : Type 0 where
  pub sem : (v.shm.buffers i).sem ≡ reading
  pub sem_id : (v.shm.buffers i).sem_id ≡ w.me.manager_id
  pub read_pos : (v.shm.buffers i).read_pos ≡ 0
  pub write_pos : (v.shm.buffers i).write_pos ≡ (w.shm.buffers i).write_pos
  pub sequence_id : (v.shm.buffers i).sequence_id ≡ (w.shm.buffers i).sequence_id
  pub last_seen_id : v.me.last_seen_id ≡ (w.shm.buffers i).sequence_id
  pub manager_id : v.me.manager_id ≡ w.me.manager_id
  pub reader_pos :
      v.shm.reader_pos
      ≡ (if w.shm.destructive_read_mode then next_pos i w.shm.buffer_count else w.shm.reader_pos)
  pub others : (j : ℕ) → j ≢ i → v.shm.buffers j ≡ w.shm.buffers j
  pub attached : v.me.attached ≡ w.me.attached
  pub buffer_count : v.shm.buffer_count ≡ w.shm.buffer_count
  pub buffer_size : v.shm.buffer_size ≡ w.shm.buffer_size
  pub bytes : v.shm.bytes ≡ w.shm.bytes

-- A full buffer for everyone or for this manager, that is not left for another reader.
abbrev pub IsDue : World → ℕ → Bool → Type 0
IsDue w i b =
    not (skips_turn w (w.shm.buffers i).sequence_id)
      && ((eqb_ℤ (w.shm.buffers i).sem_id minus_one
            || eqb_ℤ (w.shm.buffers i).sem_id w.me.manager_id)
          && sem_eq (w.shm.buffers i).sem full)
    ≡ b

pub acquire_refused :
    (i : ℕ) (w : World) → IsDue w i false → acquire_for_reading i w ≡ (ok false, w)
unfolding acquire_for_reading
acquire_refused i w h = ground arith

abbrev opened : ℕ → World → World
opened i w = put_buffer i (record (w.shm.buffers i) { read_pos = 0 }) w

Acquired-record_read :
    (i t n s d : ℕ) (w : World)
    → Acquired i w (
        record_read i
          (w.shm.buffers i).sequence_id
          (stamp i t n (opened i (taken i s d reading w))))
unfolding record_read
Acquired-record_read i t n s d w = record {
  sem = ground arith;
  sem_id = ground arith;
  read_pos = ground arith;
  write_pos = ground arith;
  sequence_id = ground arith;
  last_seen_id = refl;
  manager_id = refl;
  reader_pos = refl;
  others = λ j ne. ground arith;
  attached = refl;
  buffer_count = refl;
  buffer_size = refl;
  bytes = refl;
}

-- A buffer that is due is taken.
pub acquire_ok :
    (i : ℕ) (w : World)
    → IsReady w
    → IsDue w i true
    → (v : World) × (acquire_for_reading i w ≡ (ok true, v)) × Acquired i w v
unfolding acquire_for_reading finish_acquire
acquire_ok i w ready h =
    let (s, d, p) = take_form i reading w ready.owner in
    let w₁ : World = opened i (taken i s d reading w) in
    let (t, n, q) = touch_form i w₁ in
    let w₂ : World = stamp i t n w₁ in
    let turn : skips_turn w (w.shm.buffers i).sequence_id ≡ false = ground arith in
    let due : (eqb_ℤ (w.shm.buffers i).sem_id minus_one
            || eqb_ℤ (w.shm.buffers i).sem_id w.me.manager_id)
          && sem_eq (w.shm.buffers i).sem full
        ≡ true =
      ground arith in
    (
      record_read i (w.shm.buffers i).sequence_id w₂,
      rw (turn, due, p, q, check_ok i w₂ reading (ground arith) (ground arith)),
      Acquired-record_read i t n s d w,
    )
