-- ===== src/SharedMemory/Writing/Claim.antt =====
-- One buffer of a scan of `GetBufferForWriting`.
use artdaq_core.Prelude.{ℕ, ◌≡◌, ◌≢◌, refl, true, false, Bool, arith, ◌∙◌}
use artdaq_core.Prelude.Int.{ℤ}
use artdaq_core.Prelude.Words.{add64}
use artdaq_core.SharedMemory.State.{BufferSemaphoreFlags, writing, World, ok}
use artdaq_core.SharedMemory.Access.{next_pos}
use artdaq_core.SharedMemory.Access.Take.{check_ok, touch_form, stamp, take_form, taken}
use artdaq_core.SharedMemory.Reset.Drift.{IsReady}
use artdaq_core.SharedMemory.Writing.{claim_for_writing, finish_claim, start_writing}

-- The world after a claim, by the world before.
pub record Claimed (i : ℕ) (w v : World) : Type 0 where
  pub sem : (v.shm.buffers i).sem ≡ writing
  pub sem_id : (v.shm.buffers i).sem_id ≡ w.me.manager_id
  pub write_pos : (v.shm.buffers i).write_pos ≡ 0
  pub sequence_id : (v.shm.buffers i).sequence_id ≡ add64 w.shm.next_sequence_id 1
  pub next_sequence_id : v.shm.next_sequence_id ≡ add64 w.shm.next_sequence_id 1
  pub writer_pos : v.shm.writer_pos ≡ next_pos i w.shm.buffer_count
  pub others : (j : ℕ) → j ≢ i → v.shm.buffers j ≡ w.shm.buffers j
  pub me : v.me ≡ w.me
  pub buffer_count : v.shm.buffer_count ≡ w.shm.buffer_count
  pub buffer_size : v.shm.buffer_size ≡ w.shm.buffer_size
  pub reader_pos : v.shm.reader_pos ≡ w.shm.reader_pos
  pub destructive_read_mode : v.shm.destructive_read_mode ≡ w.shm.destructive_read_mode
  pub reader_count : v.shm.reader_count ≡ w.shm.reader_count
  pub bytes : v.shm.bytes ≡ w.shm.bytes

pub claim_refused :
    (test : BufferSemaphoreFlags → ℤ → Bool) (i : ℕ) (w : World)
    → test (w.shm.buffers i).sem (w.shm.buffers i).sem_id ≡ false
    → claim_for_writing test i w ≡ (ok false, w)
unfolding claim_for_writing
claim_refused test i w h = ground arith

module _ (i t n : ℕ) (w : World) (hs : (w.shm.buffers i).sem ≡ writing)
    (hi : (w.shm.buffers i).sem_id ≡ w.me.manager_id) where
  start_writing-Claimed : Claimed i w (stamp i t n (start_writing i w))
  unfolding start_writing
  start_writing-Claimed = record {
    sem = ground arith;
    sem_id = ground arith;
    write_pos = ground arith;
    sequence_id = ground arith;
    next_sequence_id = ground arith;
    writer_pos = ground arith;
    others = λ j ne. ground arith;
    me = refl;
    buffer_count = refl;
    buffer_size = refl;
    reader_pos = refl;
    destructive_read_mode = refl;
    reader_count = refl;
    bytes = refl;
  }

  start_writing_sem : ((start_writing i w).shm.buffers i).sem ≡ writing
  unfolding start_writing
  start_writing_sem = ground arith

  start_writing_sem_id :
      ((start_writing i w).shm.buffers i).sem_id ≡ (start_writing i w).me.manager_id
  unfolding start_writing
  start_writing_sem_id = ground arith

-- The end of a claim, on a buffer whose semaphores are taken.
finish_ok :
    (i : ℕ) (w : World)
    → (w.shm.buffers i).sem ≡ writing
    → (w.shm.buffers i).sem_id ≡ w.me.manager_id
    → (v : World) × (finish_claim i w ≡ (ok true, v)) × Claimed i w v
unfolding finish_claim
finish_ok i w hs hi =
    let w₁ : World = start_writing i w in
    let (t, n, p) = touch_form i w₁ in
    (
      stamp i t n w₁,
      rw (
        check_ok i w₁ writing (start_writing_sem i t n w hs hi)
            (start_writing_sem_id i t n w hs hi),
        p,
      ),
      start_writing-Claimed i t n w hs hi,
    )

Claimed-taken : (i t n : ℕ) (w v : World) → Claimed i (taken i t n writing w) v → Claimed i w v
Claimed-taken i t n w v c = record {
  sem = c.sem;
  sem_id = c.sem_id;
  write_pos = c.write_pos;
  sequence_id = c.sequence_id;
  next_sequence_id = c.next_sequence_id;
  writer_pos = c.writer_pos;
  others = λ j ne. c.others j ne ∙ ground arith;
  me = c.me;
  buffer_count = c.buffer_count;
  buffer_size = c.buffer_size;
  reader_pos = c.reader_pos;
  destructive_read_mode = c.destructive_read_mode;
  reader_count = c.reader_count;
  bytes = c.bytes;
}

-- A buffer that passes the test of the scan is claimed.
pub claim_ok :
    (test : BufferSemaphoreFlags → ℤ → Bool) (i : ℕ) (w : World)
    → IsReady w
    → test (w.shm.buffers i).sem (w.shm.buffers i).sem_id ≡ true
    → (v : World) × (claim_for_writing test i w ≡ (ok true, v)) × Claimed i w v
unfolding claim_for_writing
claim_ok test i w ready h =
    let (t, n, p) = take_form i writing w ready.owner in
    let w₁ : World = taken i t n writing w in
    let (v, q, c) = finish_ok i w₁ (ground arith) (ground arith) in
    (v, rw (h, p, q), Claimed-taken i t n w v c)
