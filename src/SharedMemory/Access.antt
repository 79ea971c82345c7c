-- ===== src/SharedMemory/Access.antt =====
-- What every operation of SharedMemoryManager.cc goes through: the lookup of a buffer's header, the
-- two semaphores, `touchBuffer_`, `checkBuffer_`, `Detach` and `ResetBuffer`.
pub mod Range
pub mod Take
pub mod Detach
use artdaq_core.Prelude.{
  ℕ, zero, suc, ◌+◌, ◌%◌, Bool, true, false, not, ◌&&◌, ◌||◌, Option, none, some, List, [], ◌∷◌,
  leb, ◌==◌, if◌then◌else◌,
}
use artdaq_core.Prelude.Int.{ℤ, pos, minus_one, eqb_ℤ, leb_ℤ, to_int16, ◌-ℤ◌}
use artdaq_core.Prelude.Words.{add32}
use artdaq_core.SharedMemory.State.{
  BufferSemaphoreFlags, empty, writing, full, reading, sem_eq, ShmBuffer, World, Category,
  argument_out_of_range, state_access_violation, owner_access_violation, M, pure, choose◌then◌else◌,
  ok, throw, ◌>>=◌, ◌>>◌, ◌&&>◌, gets, deref, gettimeofday_us, when, put_buffer, update_buffer,
}

-- `size()`
unfoldable pub size : World → ℕ
size w = if w.me.attached then w.shm.buffer_count else 0

-- The loop of `GetBuffersOwnedByManager`, from `ii` on. The index is below `buffer_count`, so that
-- `getBufferInfo_` finds the header.
unfoldable pub owned_from : ℕ → ℕ → World → List ℕ
owned_from zero ii w = []
owned_from (suc left) ii w =
    let rest = owned_from left (ii + 1) w in
    if eqb_ℤ (w.shm.buffers ii).sem_id w.me.manager_id then ii ∷ rest else rest

-- `GetBuffersOwnedByManager`
unfoldable pub get_buffers_owned_by_manager : World → List ℕ
unfolding owned_from size
get_buffers_owned_by_manager w =
    if not w.me.attached || size w == 0 then [] else owned_from (size w) 0 w

-- What `Detach` does with the header of a buffer that it owns.
unfoldable pub release_buffer : ShmBuffer → ShmBuffer
release_buffer b =
    if sem_eq b.sem writing
    then record b { sem = empty; sem_id = minus_one }
    else if sem_eq b.sem reading
    then record b { sem = full; sem_id = minus_one }
    else record b { sem_id = minus_one }

unfoldable pub release_all : List ℕ → World → World
release_all [] w = w
release_all (i ∷ is) w = release_all is (put_buffer i (release_buffer (w.shm.buffers i)) w)

-- The part of `Detach` that takes the manager off the lists of readers and writers.
unfoldable pub unregister : World → World
unfolding ◌-ℤ◌
unregister w = record w {
  shm = record shm {
    reader_count = if me.registered_reader then shm.reader_count -ℤ pos 1 else shm.reader_count;
    writer_count = if me.registered_writer then shm.writer_count -ℤ pos 1 else shm.writer_count;
  };
  me = record me { registered_reader = false; registered_writer = false };
}
  where
    open w use {shm, me}

-- The part of `Detach` from `shmdt` on.
unfoldable pub leave_segment : Bool → World → World
leave_segment force w =
    if (force || eqb_ℤ me.manager_id (pos 0)) && leb_ℤ (pos 0) me.shm_segment_id
    then record w {
      me = record me { attached = false; shm_segment_id = minus_one; manager_id = minus_one };
      destroyed = true;
    }
    else record w { me = record me { attached = false; manager_id = minus_one } }
  where
    open w use {me}

-- `Detach`, without the exception.
unfoldable pub detach_world : Bool → World → World
detach_world force w =
    leave_segment force
      (if w.me.attached then unregister (release_all (get_buffers_owned_by_manager w) w) else w)

-- `Detach`: every call with a category has a message too.
unfoldable pub detach : Bool → Option Category → Bool → M (Unit {0})
detach throw_exception none force w = (ok tt, detach_world force w)
detach throw_exception (some c) force w =
    (if throw_exception then throw c else ok tt, detach_world force w)

-- `Detach(true, category, message)`
unfoldable pub fail : Category → M (Unit {0})
unfolding detach
fail c = detach true (some c) false

-- The test with which the operations begin: `buffer >= shm_ptr_->buffer_count`.
unfoldable pub check_range : ℕ → M (Unit {0})
unfolding fail
check_range buffer = do when (leb (← deref λ s. s.buffer_count) buffer) (fail argument_out_of_range)

-- `getBufferInfo_`; the pointer into the table is the index.
unfoldable pub get_buffer_info : ℕ → M (Option ℕ)
unfolding fail
get_buffer_info buffer = do
  attached ← gets λ w. w.me.attached
  out ← gets λ w. leb w.me.requested.buffer_count buffer && leb w.shm.buffer_count buffer
  choose attached then (do when out (fail argument_out_of_range); pure (some buffer)) else pure none

-- `touchBuffer_`
unfoldable pub touch_buffer : ℕ → M (Unit {0})
touch_buffer i = do
  me ← gets λ w. w.me.manager_id
  owner ← gets λ w. (w.shm.buffers i).sem_id
  choose not (eqb_ℤ owner minus_one) && not (eqb_ℤ owner me)
      then pure tt
      else (do now ← gettimeofday_us; update_buffer i (λ b. record b { last_touch_time = now }))

-- The value of `checkBuffer_` for a manager and a buffer.
unfoldable pub buffer_is : ℤ → BufferSemaphoreFlags → ShmBuffer → Bool
buffer_is me flags b =
    (eqb_ℤ b.sem_id me || eqb_ℤ b.sem_id minus_one && (sem_eq flags full || sem_eq flags empty))
    && sem_eq b.sem flags

-- `checkBuffer_` on a header that is there.
unfoldable pub check_buffer : ℕ → BufferSemaphoreFlags → Bool → M Bool
unfolding fail buffer_is
check_buffer i flags exceptions = do
  b ← gets λ w. w.shm.buffers i
  me ← gets λ w. w.me.manager_id
  when (exceptions && not (sem_eq b.sem flags)) (fail state_access_violation)
  when (exceptions && not (eqb_ℤ b.sem_id me)) (fail owner_access_violation)
  gets λ w. buffer_is w.me.manager_id flags (w.shm.buffers i)

-- `sem_id.compare_exchange_strong(expected, manager_id_)`
unfoldable pub cas_sem_id : ℕ → ℤ → M Bool
cas_sem_id i expected w =
    if eqb_ℤ (w.shm.buffers i).sem_id expected
    then (ok true, put_buffer i (record (w.shm.buffers i) { sem_id = to_int16 w.me.manager_id }) w)
    else (ok false, w)

-- `sem.compare_exchange_strong(expected, desired)`
unfoldable pub cas_sem : ℕ → BufferSemaphoreFlags → BufferSemaphoreFlags → M Bool
cas_sem i expected desired w =
    if sem_eq (w.shm.buffers i).sem expected
    then (ok true, put_buffer i (record (w.shm.buffers i) { sem = desired }) w)
    else (ok false, w)

-- How a buffer is taken for writing or for reading, by what was loaded from its semaphores: touch it,
-- exchange both, and look whether it is still this manager's.
unfoldable pub take_semaphores : ℕ → ℤ → BufferSemaphoreFlags → BufferSemaphoreFlags → M Bool
take_semaphores i sem_id sem desired =
    (touch_buffer i >> cas_sem_id i sem_id)
    &&> cas_sem i sem desired
    &&> check_buffer i desired false

-- `(buffer + 1) % shm_ptr_->buffer_count`, of an unsigned `buffer`.
unfoldable pub next_pos : ℕ → ℕ → ℕ
next_pos buffer count = add32 buffer 1 % count
