-- ===== src/SharedMemory/Marks/Release.antt =====
-- What `MarkBufferEmpty` and `IncrementWritePos` of SharedMemoryManager.cc do to a buffer that the
-- manager holds.
use artdaq_core.Prelude.{
  ℕ, ◌+◌, ◌<◌, ◌≤◌, ◌≡◌, ◌≢◌, ◌⊎◌, inl, inr, refl, ap, ◌∙◌, true, false, Bool, Bool-cases, arith,
  ltb, ◌==◌,
}
use artdaq_core.Prelude.Int.{minus_one}
use artdaq_core.Prelude.Words.{w64, add64}
use artdaq_core.SharedMemory.State.{
  empty, writing, full, reading, World, ok, Outcome, throw, logic_error, put_buffer,
}
use artdaq_core.SharedMemory.Access.{fail, detach_world}
use artdaq_core.SharedMemory.Access.Detach.{detach_world-Detached}
use artdaq_core.SharedMemory.Access.Take.{touch_form, stamp, check_ok, check_mine}
use artdaq_core.SharedMemory.Marks.{
  mark_buffer_empty, set_empty, empties, increment_write_pos, advance_write,
}
use artdaq_core.SharedMemory.Marks.Effects.{with_buffer_in, pair_eq}

-- The world after `MarkBufferEmpty` by the reader of buffer `i`, by the world before.
pub record Released (i : ℕ) (w v : World) : Type 0 where
  pub sem :
      ((w.shm.destructive_read_mode ≡ true)
        × ((v.shm.buffers i).sem ≡ empty)
        × ((v.shm.buffers i).write_pos ≡ 0))
      ⊎ ((w.shm.destructive_read_mode ≡ false)
          × ((v.shm.buffers i).sem ≡ full)
          × ((v.shm.buffers i).write_pos ≡ (w.shm.buffers i).write_pos))
  pub sem_id : (v.shm.buffers i).sem_id ≡ minus_one
  pub read_pos : (v.shm.buffers i).read_pos ≡ 0
  pub sequence_id : (v.shm.buffers i).sequence_id ≡ (w.shm.buffers i).sequence_id
  pub others : (j : ℕ) → j ≢ i → v.shm.buffers j ≡ w.shm.buffers j
  pub reader_pos : v.shm.reader_pos ≡ w.shm.reader_pos
  pub bytes : v.shm.bytes ≡ w.shm.bytes
  pub me : v.me ≡ w.me

set_empty-Released :
    (w u : World) (i t n : ℕ)
    → u ≡ stamp i t n w
    → ((set_empty false i u).0 ≡ ok tt) × Released i w (set_empty false i u).1
unfolding set_empty empties
set_empty-Released w u i t n e = rw e (
  ground arith,
  record {
    sem = ground arith;
    sem_id = ground arith;
    read_pos = ground arith;
    sequence_id = ground arith;
    others = λ j ne. ground arith;
    reader_pos = ground arith;
    bytes = ground arith;
    me = ground arith;
  },
)

-- `MarkBufferEmpty`, not forced, by an attached manager of a buffer that it reads returns and gives
-- the buffer back: empty where reading is destructive, and full for the other readers, with its
-- data, where it is not. Nobody owns it then, and no other buffer and no byte changes.
pub mark_buffer_empty-Released :
    (w : World) (i : ℕ) (detach_on_exception : Bool)
    → w.me.attached ≡ true
    → i < w.shm.buffer_count
    → (w.shm.buffers i).sem ≡ reading
    → (w.shm.buffers i).sem_id ≡ w.me.manager_id
    → (v : World) × (mark_buffer_empty i false detach_on_exception w ≡ (ok tt, v)) × Released i w v
unfolding mark_buffer_empty
mark_buffer_empty-Released w i true attached h s mine =
    let (t, n, p) = touch_form i w in
    let u : World = stamp i t n w in
    let (e, r) = set_empty-Released w u i t n refl in
    (
      (set_empty false i u).1,
      rw (with_buffer_in w i attached tt _ h, check_mine i w reading s mine, p) (pair_eq e),
      r,
    )
mark_buffer_empty-Released w i false attached h s mine =
    let (t, n, p) = touch_form i w in
    let u : World = stamp i t n w in
    let (e, r) = set_empty-Released w u i t n refl in
    (
      (set_empty false i u).1,
      rw (with_buffer_in w i attached tt _ h, check_ok i w reading s mine, p) (pair_eq e),
      r,
    )

-- The world after `IncrementWritePos`, by the world before.
pub record Advanced (i written : ℕ) (w v : World) : Type 0 where
  pub write_pos : (v.shm.buffers i).write_pos ≡ (w.shm.buffers i).write_pos + written
  pub within : (v.shm.buffers i).write_pos ≤ w.shm.buffer_size
  pub sem : (v.shm.buffers i).sem ≡ (w.shm.buffers i).sem
  pub sem_id : (v.shm.buffers i).sem_id ≡ (w.shm.buffers i).sem_id
  pub others : (j : ℕ) → j ≢ i → v.shm.buffers j ≡ w.shm.buffers j
  pub bytes : v.shm.bytes ≡ w.shm.bytes
  pub me : v.me ≡ w.me

-- How `IncrementWritePos` ends, once the buffer is touched.
abbrev pub Ends : ℕ → ℕ → World → Outcome Bool × World → Type 0
Ends i written w x =
    ((w.shm.buffer_size < (w.shm.buffers i).write_pos + written)
      × (x.0 ≡ ok false)
      × ((x.1.shm.buffers i).write_pos ≡ (w.shm.buffers i).write_pos))
    ⊎ (((written ≡ 0) × (x.0 ≡ throw logic_error) × (x.1.me.attached ≡ false))
        ⊎ ((written ≢ 0) × (x.0 ≡ ok true) × Advanced i written w x.1))

advance_write-Advanced :
    (w u : World) (i written t n : ℕ)
    → u ≡ stamp i t n w
    → (w.shm.buffers i).write_pos + written < w64
    → (w.shm.buffers i).write_pos + written ≤ w.shm.buffer_size
    → written ≢ 0
    → ((advance_write i written u).0 ≡ ok true) × Advanced i written w (advance_write i written u).1
unfolding advance_write fail
advance_write-Advanced w u i written t n e small fits some_written = rw e (
  ground arith,
  record {
    write_pos = ground arith;
    within = ground arith;
    sem = ground arith;
    sem_id = ground arith;
    others = λ j ne. ground arith;
    bytes = ground arith;
    me = ground arith;
  },
)

-- The buffer with the position moved on.
abbrev moved : ℕ → ℕ → World → World
moved i written u =
    put_buffer i
      (record (u.shm.buffers i) { write_pos = add64 (u.shm.buffers i).write_pos written }) u

advance_write_zero :
    (u : World) (i written : ℕ)
    → ltb u.shm.buffer_size (add64 (u.shm.buffers i).write_pos written) ≡ false
    → written ≡ 0
    → advance_write i written u ≡ (throw logic_error, detach_world false (moved i written u))
unfolding advance_write fail
advance_write_zero u i written fits z = ground arith

module _ (w : World) (i written : ℕ) (attached : w.me.attached ≡ true) (h : i < w.shm.buffer_count)
    (s : (w.shm.buffers i).sem ≡ writing) (mine : (w.shm.buffers i).sem_id ≡ w.me.manager_id)
    (small : (w.shm.buffers i).write_pos + written < w64) where
  advances : (t n : ℕ) → Ends i written w (advance_write i written (stamp i t n w))
  unfolding advance_write fail
  advances t n =
      let u : World = stamp i t n w in
      elim (Bool-cases (ltb w.shm.buffer_size ((w.shm.buffers i).write_pos + written))) [
        | inl long ↦ inl (ground arith, ground arith, ground arith)
        | inr short ↦ elim (Bool-cases (written == 0)) [
          | inl none_written ↦
              let e = advance_write_zero u i written (ground arith) (ground arith) in
              let left = detach_world-Detached false (moved i written u) attached in
              inr (inl (ground arith, ap (λ x. x.0) e, ap (λ x. x.1.me.attached) e ∙ left.attached))
          | inr some_written ↦
              let (e, a) =
                advance_write-Advanced w u i written t n refl small (ground arith) (ground arith) in
              inr (inr (ground arith, e, a))
        ]
      ]

  -- On a buffer that an attached manager is writing, with a sum below 2 ^ 64, `IncrementWritePos`
  -- refuses to move the write position past the size of a buffer and leaves it; it throws and
  -- detaches for a step of 0, and otherwise moves the position on, within the buffer, and changes no
  -- other buffer and no byte.
  pub increment_write_pos_cases : Ends i written w (increment_write_pos i written w)
  unfolding increment_write_pos
  increment_write_pos_cases =
      let (t, n, p) = touch_form i w in
      rw (with_buffer_in w i attached false _ h, check_mine i w writing s mine, p) (advances t n)
