-- ===== src/SharedMemory/Tests.antt =====
-- A segment of three buffers of eight bytes, a manager that writes and one that reads: the operations
-- of SharedMemoryManager.cc run on it.
use artdaq_core.Prelude.{
  ℕ, ◌<◌, ◌≤◌, ◌≡◌, ◌≢◌, ◌⊎◌, inl, inr, refl, Bool, true, false, some, List, [], ◌∷◌, arith,
}
use artdaq_core.Prelude.Int.{pos, minus_one, eqb_ℤ, ◌+ℤ◌, to_int16}
use artdaq_core.SharedMemory.State.{
  empty, writing, full, reading, ShmBuffer, World, ok, IsOk, deref, put_buffer,
}
use artdaq_core.SharedMemory.Access.{
  detach_world, check_range, get_buffer_info, touch_buffer, buffer_is, check_buffer, cas_sem_id,
  cas_sem, take_semaphores, next_pos,
}
use artdaq_core.SharedMemory.Access.Detach.{Detached, detach_world-Detached}
use artdaq_core.SharedMemory.Reset.{
  reset_reading, expire_full, reset_stale, reset_found, reset_buffer,
}
use artdaq_core.SharedMemory.Reset.Drift.{IsReady, Drifts, reset_buffer-Drifts}
use artdaq_core.SharedMemory.Writing.{
  scan_index, is_free, start_writing, finish_claim, claim_for_writing, scan_for_writing,
  register_writer, overwrite_scans, get_buffer_for_writing,
}
use artdaq_core.SharedMemory.Writing.Grant.{
  Holds, get_buffer_for_writing-Holds, get_buffer_for_writing_reliable,
  get_buffer_for_writing_finds,
}
use artdaq_core.SharedMemory.Reading.{
  is_readable, next_turn, consider, scan_for_reading, skips_turn, record_read, finish_acquire,
  acquire_for_reading, retry_reading, register_reader, get_buffer_for_reading,
}
use artdaq_core.SharedMemory.Reading.Grant.{
  Lent, get_buffer_for_reading_total, get_buffer_for_reading-Lent,
}
use artdaq_core.SharedMemory.Reading.Order.{
  get_buffer_for_reading_lowest, get_buffer_for_reading_finds,
}
use artdaq_core.SharedMemory.Reading.Rounds.{enrolled}
use artdaq_core.SharedMemory.Marks.{with_buffer, set_full, mark_buffer_full}
use artdaq_core.SharedMemory.Transfer.{buffer_start, get_pos, see, settle_write, write}
use artdaq_core.SharedMemory.Transfer.Roundtrip.{IsBegun, hand_to}
use artdaq_core.SharedMemory.Transfer.Cases.{
  RefusesState, RefusesOwner, RefusesLength, Accepts, write_cases,
}
use artdaq_core.SharedMemory.Samples.{start, start-IsReady, manager}

-- `GetBufferForWriting` on the idle segment.
abbrev claimed : World
claimed = (get_buffer_for_writing false start).1

granted : get_buffer_for_writing false start ≡ (ok (some 0), claimed)
unfolding get_buffer_for_writing deref register_writer scan_for_writing claim_for_writing scan_index
    is_free start_writing finish_claim overwrite_scans reset_buffer reset_found reset_stale
    reset_reading expire_full check_range get_buffer_info touch_buffer buffer_is take_semaphores
    cas_sem cas_sem_id next_pos eqb_ℤ ◌+ℤ◌ check_buffer to_int16
granted = refl

get_buffer_for_writing-Holds_example : Holds 0 start claimed
get_buffer_for_writing-Holds_example =
    get_buffer_for_writing-Holds false start 0 claimed start-IsReady granted

get_buffer_for_writing_reliable_example :
    (((start.shm.buffers 0).sem ≡ empty) × ((start.shm.buffers 0).sem_id ≡ minus_one))
    ⊎ ((start.shm.destructive_read_mode ≡ false)
        × (start.me.manager_id ≡ pos 0)
        × (((start.shm.buffers 0).sem ≡ full)
            ⊎ (((start.shm.buffers 0).sem ≡ reading)
                × ((start.shm.buffers 0).sem_id ≢ start.me.manager_id))))
get_buffer_for_writing_reliable_example =
    get_buffer_for_writing_reliable start 0 claimed start-IsReady granted

get_buffer_for_writing_finds_example :
    (i : ℕ) × (v : World) × (get_buffer_for_writing false start ≡ (ok (some i), v))
get_buffer_for_writing_finds_example =
    get_buffer_for_writing_finds false start 2 start-IsReady (omega arith) refl refl

-- The segment in which the manager holds buffer 0 for writing.
abbrev writing_world : World
writing_world =
    put_buffer 0
      (record {
        write_pos = 0;
        read_pos = 0;
        sem = writing;
        sem_id = pos 1;
        sequence_id = 1;
        last_touch_time = 1000;
      })
      start

abbrev message : List ℕ
message = 11 ∷ 22 ∷ 33 ∷ []

abbrev filled : World
filled = (write 0 message writing_world).1

stored : write 0 message writing_world ≡ (ok 3, filled)
unfolding write with_buffer check_range deref get_buffer_info check_buffer eqb_ℤ touch_buffer
    get_pos buffer_start settle_write
stored = refl

abbrev marked : World
marked = (mark_buffer_full 0 minus_one filled).1

published : mark_buffer_full 0 minus_one filled ≡ (ok tt, marked)
unfolding mark_buffer_full set_full write with_buffer check_range deref get_buffer_info check_buffer
    eqb_ℤ touch_buffer get_pos buffer_start settle_write
published = refl

abbrev reader_world : World
reader_world = hand_to (manager 2) marked

abbrev lent : World
lent = (get_buffer_for_reading reader_world).1

borrowed : get_buffer_for_reading reader_world ≡ (ok (some 0), lent)
unfolding get_buffer_for_reading register_reader retry_reading scan_for_reading reset_buffer
    to_int16 ◌+ℤ◌ buffer_is cas_sem cas_sem_id next_pos take_semaphores acquire_for_reading consider
    finish_acquire is_readable next_turn record_read skips_turn expire_full reset_found
    reset_reading reset_stale see scan_index mark_buffer_full set_full write with_buffer check_range
    deref get_buffer_info check_buffer eqb_ℤ touch_buffer get_pos buffer_start settle_write
borrowed = refl

reader_world-IsReady : IsReady reader_world
unfolding mark_buffer_full set_full write with_buffer check_range deref get_buffer_info check_buffer
    eqb_ℤ touch_buffer get_pos buffer_start settle_write
reader_world-IsReady = record {
  attached = refl;
  small = omega arith;
  writer_in = omega arith;
  owner = ground arith;
  named = ground arith;
}

get_buffer_for_reading_total_example : IsOk (get_buffer_for_reading reader_world).0
get_buffer_for_reading_total_example =
    get_buffer_for_reading_total reader_world reader_world-IsReady

get_buffer_for_reading-Lent_example : Lent 0 reader_world lent
get_buffer_for_reading-Lent_example =
    get_buffer_for_reading-Lent reader_world 0 lent reader_world-IsReady borrowed

writing_world-IsBegun : IsBegun writing_world 0
writing_world-IsBegun = record {
  attached = refl;
  within = omega arith;
  sem = refl;
  mine = refl;
  write_pos = refl;
  word = omega arith;
}

write_cases_example :
    RefusesState writing_world 0 message
    ⊎ (RefusesOwner writing_world 0 message
        ⊎ (RefusesLength writing_world 0 message ⊎ Accepts writing_world 0 message))
write_cases_example = write_cases writing_world 0 message refl (omega arith)

detach_world-Detached_example : Detached false writing_world (detach_world false writing_world)
detach_world-Detached_example = detach_world-Detached false writing_world refl

abbrev full_buffer : ℕ → ShmBuffer
full_buffer id = record {
  write_pos = 3;
  read_pos = 0;
  sem = full;
  sem_id = minus_one;
  sequence_id = id;
  last_touch_time = 1000;
}

-- Two full buffers, the older one behind.
abbrev two_full : World
two_full = hand_to (manager 2) (put_buffer 0 (full_buffer 5) (put_buffer 1 (full_buffer 4) start))

abbrev older : World
older = (get_buffer_for_reading two_full).1

takes_older : get_buffer_for_reading two_full ≡ (ok (some 1), older)
unfolding get_buffer_for_reading register_reader retry_reading scan_for_reading reset_buffer
    to_int16 ◌+ℤ◌ buffer_is cas_sem cas_sem_id next_pos take_semaphores acquire_for_reading consider
    finish_acquire is_readable next_turn record_read skips_turn expire_full reset_found
    reset_reading reset_stale see scan_index check_range deref get_buffer_info check_buffer eqb_ℤ
    touch_buffer
takes_older = refl

two_full-IsReady : IsReady two_full
two_full-IsReady = record {
  attached = refl;
  small = omega arith;
  writer_in = omega arith;
  owner = ground arith;
  named = ground arith;
}

readable : (i : ℕ) → i < 2 → is_readable two_full (two_full.shm.buffers i) ≡ true
unfolding is_readable eqb_ℤ
readable i h = ground arith

get_buffer_for_reading_lowest_example :
    ((two_full.shm.buffers 1).sequence_id ≡ next_turn (enrolled two_full))
    ⊎ ((two_full.shm.buffers 1).sequence_id ≤ (two_full.shm.buffers 0).sequence_id)
get_buffer_for_reading_lowest_example =
    get_buffer_for_reading_lowest two_full 1 older 0 two_full-IsReady (omega arith) (inl refl)
      takes_older (omega arith) (readable 0 (omega arith))

get_buffer_for_reading_finds_example :
    (i : ℕ) × (v : World) × (get_buffer_for_reading two_full ≡ (ok (some i), v))
get_buffer_for_reading_finds_example =
    get_buffer_for_reading_finds two_full 0 two_full-IsReady (omega arith) (inl refl)
      (inr (inl refl)) (omega arith) (readable 0 (omega arith)) (omega arith)

reset_buffer-Drifts_example :
    (b : Bool) × (v : World) × (reset_buffer 0 two_full ≡ (ok b, v)) × Drifts two_full v
reset_buffer-Drifts_example = reset_buffer-Drifts two_full 0 refl (omega arith)
