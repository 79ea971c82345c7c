-- ===== src/SharedMemory/Transfer/Cases.antt =====
-- Every way in which `Write` can end on a buffer of the segment, and which bytes it may change.
use artdaq_core.Prelude.{
  ℕ, suc, ◌+◌, ◌*◌, ◌-◌, ◌<◌, ◌≤◌, ◌≡◌, ◌≢◌, ◌⊎◌, inl, inr, true, false, List, length, arith, ◌∙◌,
  sym, ap, ltb, Bool-cases,
}
use artdaq_core.Prelude.Int.{ℤ_cases}
use artdaq_core.Prelude.Words.{w64, add64}
use artdaq_core.SharedMemory.State.{
  writing, World, ok, throw, sem_cases, ok_unique, state_access_violation, owner_access_violation,
  shared_memory_write,
}
use artdaq_core.SharedMemory.Access.{detach_world, fail}
use artdaq_core.SharedMemory.Access.Take.{
  touch_form, stamp, check_mine, check_wrong_state, check_wrong_owner,
}
use artdaq_core.SharedMemory.Marks.Effects.{with_buffer_in}
use artdaq_core.SharedMemory.Transfer.{write}
use artdaq_core.SharedMemory.Transfer.Bytes.{copy_in_outside}
use artdaq_core.SharedMemory.Transfer.Effects.{Written, write_form}

outside_source :
    (i size pos n p : ℕ)
    → pos + n < w64
    → add64 pos n ≤ size
    → (p < i * size) ⊎ (suc i * size ≤ p)
    → (p < i * size + pos) ⊎ (i * size + pos + n ≤ p)
outside_source i size pos n p word fits (inl before) = inl (omega arith)
outside_source i size pos n p word fits (inr behind) = inr (grind arith)

module _ (w : World) (i : ℕ) (source : List ℕ) where
  -- The buffer is not in state Writing, or is another manager's.
  abbrev pub RefusesState : Type 0
  RefusesState =
      ((w.shm.buffers i).sem ≢ writing)
      × (write i source w ≡ (throw state_access_violation, detach_world false w))

  abbrev pub RefusesOwner : Type 0
  RefusesOwner =
      ((w.shm.buffers i).sem ≡ writing)
      × ((w.shm.buffers i).sem_id ≢ w.me.manager_id)
      × (write i source w ≡ (throw owner_access_violation, detach_world false w))

  -- The sum, as a size_t, is more than a buffer holds.
  abbrev pub RefusesLength : Type 0
  RefusesLength =
      ((w.shm.buffers i).sem ≡ writing)
      × ((w.shm.buffers i).sem_id ≡ w.me.manager_id)
      × (w.shm.buffer_size < add64 (w.shm.buffers i).write_pos (length source))
      × (t n : ℕ) × (write i source w
          ≡ (throw shared_memory_write, detach_world false (stamp i t n w)))

  abbrev pub Accepts : Type 0
  Accepts =
      ((w.shm.buffers i).sem ≡ writing)
      × ((w.shm.buffers i).sem_id ≡ w.me.manager_id)
      × (add64 (w.shm.buffers i).write_pos (length source) ≤ w.shm.buffer_size)
      × (v : World) × (write i source w ≡ (ok (length source), v))
      × Written i source w v

  module _ (attached : w.me.attached ≡ true) (h : i < w.shm.buffer_count) where
    wrong_state : (w.shm.buffers i).sem ≢ writing → RefusesState
    unfolding write
    wrong_state s =
        (s, rw (with_buffer_in w i attached (w64 - 1) _ h, check_wrong_state i w writing s))

    wrong_owner :
        (w.shm.buffers i).sem ≡ writing → (w.shm.buffers i).sem_id ≢ w.me.manager_id → RefusesOwner
    unfolding write
    wrong_owner s m =
        (s, m, rw (with_buffer_in w i attached (w64 - 1) _ h, check_wrong_owner i w writing s m))

    by_length :
        (w.shm.buffers i).sem ≡ writing
        → (w.shm.buffers i).sem_id ≡ w.me.manager_id
        → RefusesLength ⊎ Accepts
    unfolding write fail
    by_length s m =
        let sum : ℕ = add64 (w.shm.buffers i).write_pos (length source) in
        elim (Bool-cases (ltb w.shm.buffer_size sum)) [
          | inl long ↦
              let (t, n, p) = touch_form i w in
              let long' : ltb w.shm.buffer_size
                    (add64 ((stamp i t n w).shm.buffers i).write_pos (length source))
                  ≡ true =
                ground arith in
              inl (
                s,
                m,
                ground arith,
                t,
                n,
                rw (
                  with_buffer_in w i attached (w64 - 1) _ h,
                  check_mine i w writing s m,
                  p,
                  long',
                ),
              )
          | inr short ↦
              let fits : sum ≤ w.shm.buffer_size = ground arith in
              let (v, e, f) = write_form w i attached h m source s fits in inr (s, m, fits, v, e, f)
        ]

    -- On a buffer of the segment, `Write` of an attached manager throws and detaches if the buffer
    -- is not in state Writing, if it is another manager's, or if the write position and the size add
    -- up, as a size_t, to more than the size of a buffer; otherwise it returns the size, copies the
    -- bytes behind the write position and moves that on.
    pub write_cases : RefusesState ⊎ (RefusesOwner ⊎ (RefusesLength ⊎ Accepts))
    write_cases = elim (sem_cases (w.shm.buffers i).sem writing) [
      | inr s ↦ inl (wrong_state s)
      | inl s ↦ elim (ℤ_cases (w.shm.buffers i).sem_id w.me.manager_id) [
        | inr m ↦ inr (inl (wrong_owner s m))
        | inl m ↦ inr (inr (by_length s m))
      ]
    ]

    -- A write that succeeds, of a size that does not wrap, changes no byte of another buffer, and
    -- leaves the write position within the buffer.
    pub write_isolated :
        (n : ℕ) (v : World) (p : ℕ)
        → write i source w ≡ (ok n, v)
        → (w.shm.buffers i).write_pos + length source < w64
        → (p < i * w.shm.buffer_size) ⊎ (suc i * w.shm.buffer_size ≤ p)
        → (v.shm.bytes p ≡ w.shm.bytes p) × ((v.shm.buffers i).write_pos ≤ w.shm.buffer_size)
    write_isolated n v p e word outside = elim write_cases [
      | inl (_, e') ↦ absurd (ground (arith, sym e ∙ e'))
      | inr (inl (_, _, e')) ↦ absurd (ground (arith, sym e ∙ e'))
      | inr (inr (inl (_, _, _, _, _, e'))) ↦ absurd (ground (arith, sym e ∙ e'))
      | inr (inr (inr (_, _, fits, u, e', f))) ↦
          let g : Written i source w v = ok_unique (λ _ x. Written i source w x) _ e' e f in
          (
            ap (λ b. b p) g.bytes
                ∙ copy_in_outside (i * w.shm.buffer_size + (w.shm.buffers i).write_pos) source
                    w.shm.bytes p
                    (outside_source i w.shm.buffer_size (w.shm.buffers i).write_pos (length source)
                      p word fits outside),
            omega (arith, g.write_pos, fits),
          )
    ]
