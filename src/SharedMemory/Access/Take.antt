-- ===== src/SharedMemory/Access/Take.antt =====
-- Taking a buffer's semaphores where nobody interferes.
use artdaq_core.Prelude.{
  ℕ, ◌≡◌, ◌≢◌, inl, inr, true, false, arith, fun_ext, ◌+◌, Bool, not, ◌&&◌, Bool-cases, ap,
}
use artdaq_core.Prelude.Int.{
  ℤ, FitsInt16, minus_one, to_int16, to_int16_fits, eqb_refl, eqb_false, eqb_ℤ,
}
use artdaq_core.SharedMemory.State.{
  BufferSemaphoreFlags, ShmBuffer, World, ok, throw, state_access_violation, owner_access_violation,
  put_at, put_buffer,
}
use artdaq_core.SharedMemory.Access.{
  touch_buffer, take_semaphores, cas_sem_id, cas_sem, check_buffer, detach_world,
}

-- Buffer `i` touched at time `t`, after `n` reads of the clock.
abbrev pub stamp : ℕ → ℕ → ℕ → World → World
stamp i t n w = record (put_buffer i (record (w.shm.buffers i) { last_touch_time = t }) w) {
  ticks = n;
}

put_at_self : {A : Type 0} (f : ℕ → A) (i : ℕ) → put_at f i (f i) ≡ f
put_at_self f i = fun_ext λ j. ground arith

-- A touch changes nothing but the time of the last touch.
pub touch_form : (i : ℕ) (w : World) → (t n : ℕ) × (touch_buffer i w ≡ (ok tt, stamp i t n w))
unfolding touch_buffer
touch_form i w = elim (Bool-cases skipped) [
  | inl e ↦
      ((w.shm.buffers i).last_touch_time, w.ticks, ground (arith, put_at_self w.shm.buffers i))
  | inr e ↦ (w.clock w.ticks, w.ticks + 1, ground arith)
]
  where
    skipped : Bool
    skipped =
        not (eqb_ℤ (w.shm.buffers i).sem_id minus_one)
        && not (eqb_ℤ (w.shm.buffers i).sem_id w.me.manager_id)

module _ (i : ℕ) (w : World) where
  cas_sem_id_ok :
      (e : ℤ)
      → (w.shm.buffers i).sem_id ≡ e
      → cas_sem_id i e w
        ≡ (ok true, put_buffer i (record (w.shm.buffers i) { sem_id = to_int16 w.me.manager_id }) w)
  unfolding cas_sem_id
  cas_sem_id_ok e h = ground (arith, eqb_refl e)

  cas_sem_ok :
      (s d : BufferSemaphoreFlags)
      → (w.shm.buffers i).sem ≡ s
      → cas_sem i s d w ≡ (ok true, put_buffer i (record (w.shm.buffers i) { sem = d }) w)
  unfolding cas_sem
  cas_sem_ok s d h = ground arith

  pub check_ok :
      (s : BufferSemaphoreFlags)
      → (w.shm.buffers i).sem ≡ s
      → (w.shm.buffers i).sem_id ≡ w.me.manager_id
      → check_buffer i s false w ≡ (ok true, w)
  unfolding check_buffer
  check_ok s h k = ground (arith, eqb_refl w.me.manager_id)

  pub check_mine :
      (s : BufferSemaphoreFlags)
      → (w.shm.buffers i).sem ≡ s
      → (w.shm.buffers i).sem_id ≡ w.me.manager_id
      → check_buffer i s true w ≡ (ok true, w)
  unfolding check_buffer
  check_mine s h k = ground (arith, eqb_refl w.me.manager_id)

  -- Where it may throw, `checkBuffer_` detaches on a wrong state first.
  pub check_wrong_state :
      (s : BufferSemaphoreFlags)
      → (w.shm.buffers i).sem ≢ s
      → check_buffer i s true w ≡ (throw state_access_violation, detach_world false w)
  unfolding check_buffer
  check_wrong_state s h = ground arith

  pub check_wrong_owner :
      (s : BufferSemaphoreFlags)
      → (w.shm.buffers i).sem ≡ s
      → (w.shm.buffers i).sem_id ≢ w.me.manager_id
      → check_buffer i s true w ≡ (throw owner_access_violation, detach_world false w)
  unfolding check_buffer
  check_wrong_owner s h k = ground (arith, eqb_false (w.shm.buffers i).sem_id w.me.manager_id k)

-- Buffer `i` taken, with its semaphore at `d`.
abbrev pub taken : ℕ → ℕ → ℕ → BufferSemaphoreFlags → World → World
taken i t n d w =
    record (put_buffer i
      (record (w.shm.buffers i) { last_touch_time = t; sem = d; sem_id = w.me.manager_id }) w) {
        ticks = n;
      }

-- It succeeds if the semaphores still are what was loaded.
pub take_form :
    (i : ℕ) (d : BufferSemaphoreFlags) (w : World)
    → FitsInt16 w.me.manager_id
    → (t n : ℕ) × (take_semaphores i (w.shm.buffers i).sem_id (w.shm.buffers i).sem d w
        ≡ (ok true, taken i t n d w))
unfolding take_semaphores
take_form i d w fits =
    let (t, n, p) = touch_form i w in
    let w₁ : World = stamp i t n w in
    let w₂ : World =
      put_buffer i (record (w₁.shm.buffers i) { sem_id = to_int16 w.me.manager_id }) w₁ in
    let w₃ : World = put_buffer i (record (w₂.shm.buffers i) { sem = d }) w₂ in
    let b : ShmBuffer = record (w.shm.buffers i) {
      last_touch_time = t;
      sem = d;
      sem_id = w.me.manager_id;
    } in
    let same : w₃.shm.buffers ≡ put_at w.shm.buffers i b =
      fun_ext λ j. ground (arith, to_int16_fits w.me.manager_id fits) in
    (
      t,
      n,
      rw
          (
            p,
            cas_sem_id_ok i w₁ (w.shm.buffers i).sem_id (ground arith),
            cas_sem_ok i w₂ (w.shm.buffers i).sem d (ground arith),
            check_ok i w₃ d (ground arith) (ground (arith, to_int16_fits w.me.manager_id fits)),
          )
          (ap (λ f. (ok true, record w₃ { shm = record (w₃.shm) { buffers = f } })) same),
    )
