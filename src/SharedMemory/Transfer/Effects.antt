-- ===== src/SharedMemory/Transfer/Effects.antt =====
-- `Write` and `Read` on a buffer of the segment that the manager holds.
use artdaq_core.Prelude.{
  ℕ, ◌+◌, ◌-◌, ◌*◌, ◌<◌, ◌≤◌, ◌≡◌, ◌≢◌, refl, true, false, Bool, arith, ap, if◌then◌else◌, List, [],
  length, some, ltb,
}
use artdaq_core.Prelude.Words.{w64, add64}
use artdaq_core.SharedMemory.State.{writing, reading, ShmBuffer, World, ok, put_buffer}
use artdaq_core.SharedMemory.Access.Range.{get_buffer_info_in}
use artdaq_core.SharedMemory.Access.Take.{touch_form, stamp, check_mine, check_ok}
use artdaq_core.SharedMemory.Marks.Effects.{with_buffer_in, pair_eq}
use artdaq_core.SharedMemory.Transfer.{
  copy_in, copy_out, buffer_start, get_pos, write, read, settle_write, settle_read, store_bytes,
}

module _ (w : World) (i : ℕ) (attached : w.me.attached ≡ true) (h : i < w.shm.buffer_count) where
  buffer_start_in : buffer_start i w ≡ (ok (some (i * w.shm.buffer_size)), w)
  unfolding buffer_start
  buffer_start_in = ground arith

  get_pos_in :
      (field : ShmBuffer → ℕ)
      → get_pos field i w ≡ (ok (some (i * w.shm.buffer_size + field (w.shm.buffers i))), w)
  unfolding get_pos
  get_pos_in field = rw (get_buffer_info_in w i attached h, buffer_start_in)

-- The world after `Write`, by the world before.
pub record Written (i : ℕ) (source : List ℕ) (w v : World) : Type 0 where
  pub write_pos : (v.shm.buffers i).write_pos ≡ add64 (w.shm.buffers i).write_pos (length source)
  pub read_pos : (v.shm.buffers i).read_pos ≡ (w.shm.buffers i).read_pos
  pub sem : (v.shm.buffers i).sem ≡ (w.shm.buffers i).sem
  pub sem_id : (v.shm.buffers i).sem_id ≡ (w.shm.buffers i).sem_id
  pub sequence_id : (v.shm.buffers i).sequence_id ≡ (w.shm.buffers i).sequence_id
  pub bytes :
      v.shm.bytes ≡ copy_in (i * w.shm.buffer_size + (w.shm.buffers i).write_pos) source w.shm.bytes
  pub last_seen_id : v.me.last_seen_id ≡ (
      if ltb w.me.last_seen_id (w.shm.buffers i).sequence_id
      then (w.shm.buffers i).sequence_id
      else w.me.last_seen_id)
  pub attached : v.me.attached ≡ w.me.attached
  pub manager_id : v.me.manager_id ≡ w.me.manager_id
  pub others : (j : ℕ) → j ≢ i → v.shm.buffers j ≡ w.shm.buffers j
  pub buffer_count : v.shm.buffer_count ≡ w.shm.buffer_count
  pub buffer_size : v.shm.buffer_size ≡ w.shm.buffer_size
  pub reader_pos : v.shm.reader_pos ≡ w.shm.reader_pos
  pub destructive_read_mode : v.shm.destructive_read_mode ≡ w.shm.destructive_read_mode
  pub reader_count : v.shm.reader_count ≡ w.shm.reader_count
  pub writer_pos : v.shm.writer_pos ≡ w.shm.writer_pos

settle_write-Written :
    (i : ℕ) (source : List ℕ) (a t n s m : ℕ) (w : World)
    → a ≡ i * w.shm.buffer_size + (w.shm.buffers i).write_pos
    → ((settle_write i (length source) (stamp i t n (store_bytes a source (stamp i s m w)))).0
        ≡ ok (length source))
      × Written i source w
          (settle_write i (length source) (stamp i t n (store_bytes a source (stamp i s m w)))).1
unfolding settle_write
settle_write-Written i source a t n s m w e = (
  refl,
  record {
    write_pos = ground arith;
    read_pos = ground arith;
    sem = ground arith;
    sem_id = ground arith;
    sequence_id = ground arith;
    bytes = ap (λ b. copy_in b source w.shm.bytes) e;
    last_seen_id = ground arith;
    attached = refl;
    manager_id = refl;
    others = λ j ne. ground arith;
    buffer_count = refl;
    buffer_size = refl;
    reader_pos = refl;
    destructive_read_mode = refl;
    reader_count = refl;
    writer_pos = refl;
  },
)

-- The world after `Read`, by the world before.
pub record ReadOut (i size : ℕ) (w v : World) : Type 0 where
  pub read_pos : (v.shm.buffers i).read_pos ≡ add64 (w.shm.buffers i).read_pos size
  pub write_pos : (v.shm.buffers i).write_pos ≡ (w.shm.buffers i).write_pos
  pub sem : (v.shm.buffers i).sem ≡ (w.shm.buffers i).sem
  pub sem_id : (v.shm.buffers i).sem_id ≡ (w.shm.buffers i).sem_id
  pub others : (j : ℕ) → j ≢ i → v.shm.buffers j ≡ w.shm.buffers j
  pub bytes : v.shm.bytes ≡ w.shm.bytes
  pub me : v.me ≡ w.me
  pub buffer_count : v.shm.buffer_count ≡ w.shm.buffer_count
  pub buffer_size : v.shm.buffer_size ≡ w.shm.buffer_size

ReadOut-stamps :
    (i size t n s m : ℕ) (w : World)
    → let u : World = stamp i s m w in
      ReadOut i size w (
        stamp i t n (
          put_buffer i
            (record (u.shm.buffers i) { read_pos = add64 (u.shm.buffers i).read_pos size })
            u))
ReadOut-stamps i size t n s m w = record {
  read_pos = ground arith;
  write_pos = ground arith;
  sem = ground arith;
  sem_id = ground arith;
  others = λ j ne. ground arith;
  bytes = refl;
  me = refl;
  buffer_count = refl;
  buffer_size = refl;
}

module _ (w : World) (i : ℕ) (attached : w.me.attached ≡ true) (h : i < w.shm.buffer_count)
    (mine : (w.shm.buffers i).sem_id ≡ w.me.manager_id) where
  pub write_form :
      (source : List ℕ)
      → (w.shm.buffers i).sem ≡ writing
      → add64 (w.shm.buffers i).write_pos (length source) ≤ w.shm.buffer_size
      → (v : World) × (write i source w ≡ (ok (length source), v)) × Written i source w v
  unfolding write
  write_form source state fits =
      let (s, m, p) = touch_form i w in
      let w₁ : World = stamp i s m w in
      let a : ℕ = i * w.shm.buffer_size + (w₁.shm.buffers i).write_pos in
      let w₂ : World = store_bytes a source w₁ in
      let (t, n, q) = touch_form i w₂ in
      let w₃ : World = stamp i t n w₂ in
      let short : ltb w.shm.buffer_size (add64 (w₁.shm.buffers i).write_pos (length source))
          ≡ false =
        ground arith in
      let (e, facts) = settle_write-Written i source a t n s m w (ground arith) in
      (
        (settle_write i (length source) w₃).1,
        rw
            (
              with_buffer_in w i attached (w64 - 1) _ h,
              check_mine i w writing state mine,
              p,
              short,
              get_pos_in w₁ i attached h (λ b. b.write_pos),
              q,
            )
            (pair_eq e),
        facts,
      )

  pub read_form :
      (size : ℕ)
      → (w.shm.buffers i).sem ≡ reading
      → add64 (w.shm.buffers i).read_pos size ≤ w.shm.buffer_size
      → (v : World) × (read i size w ≡ (
        ok (true, copy_out (i * w.shm.buffer_size + (w.shm.buffers i).read_pos) size w.shm.bytes),
        v,
      ))
        × ReadOut i size w v
  unfolding read settle_read
  read_form size state fits =
      let (s, m, p) = touch_form i w in
      let u : World = stamp i s m w in
      let x : World =
        put_buffer i (record (u.shm.buffers i) { read_pos = add64 (u.shm.buffers i).read_pos size })
          u in
      let (t, n, q) = touch_form i x in
      let short : ltb w.shm.buffer_size (add64 (u.shm.buffers i).read_pos size) ≡ false =
        ground arith in
      let same : (u.shm.buffers i).read_pos ≡ (w.shm.buffers i).read_pos = ground arith in
      (
        stamp i t n x,
        rw
            (
              with_buffer_in w i attached {A = Bool × List ℕ} (false, []) _ h,
              check_mine i w reading state mine,
              p,
              short,
              get_pos_in u i attached h (λ b. b.read_pos),
              check_ok i u reading (ground arith) (ground arith),
              q,
            )
            (ap
              (λ r.
                (ok (true, copy_out (i * w.shm.buffer_size + r) size w.shm.bytes), stamp i t n x))
              same),
        ReadOut-stamps i size t n s m w,
      )
