-- ===== src/FragmentManager/Tests.antt =====
-- A fragment of two words of data, written by one process into a segment of three buffers of 64 bytes, and
-- read by another.
use artdaq_core.Prelude.{
  ℕ, ◌+◌, ◌*◌, ◌^◌, ◌<◌, ◌≡◌, ◌⊎◌, refl, true, false, some, none, arith, if◌then◌else◌, ◌==◌,
}
use artdaq_core.Prelude.Int.{pos}
use artdaq_core.Header.{decode}
use artdaq_core.SharedMemory.State.{World, ok, reading}
use artdaq_core.SharedMemory.Samples.{segment, start, manager, idle_buffer}
use artdaq_core.SharedMemory.Reset.Drift.{IsReady}
use artdaq_core.SharedMemory.Transfer.Roundtrip.{hand_to}
use artdaq_core.SharedMemory.Attach.Owner.{IsIdle}
use artdaq_core.Fragment.{Fragment, done}
use artdaq_core.Fragment.Layout.{IsCurrent}
use artdaq_core.FragmentManager.{Surroundings, write_fragment, read_fragment}
use artdaq_core.FragmentManager.Sending.{Handed, IsConnected, write_fragment-Handed}
use artdaq_core.FragmentManager.Endings.{
  RefusesCall, RefusesBuffer, Overruns, Receives, read_fragment_data_cases,
}
use artdaq_core.FragmentManager.Delivery.{Equals}
use artdaq_core.FragmentManager.Passing.{IsIdleSegment, IsFreshReader, read_fragment-write_fragment}

abbrev wide : World
wide = record start { shm = record segment { buffer_size = 64 } }

wide-IsReady : IsReady wide
wide-IsReady = record {
  attached = refl;
  small = omega arith;
  writer_in = omega arith;
  owner = ground arith;
  named = ground arith;
}

abbrev quiet : Surroundings
quiet = record {
  os = record {
    find = λ k. some 7;
    tries = λ t. 5;
    create = none;
    created = segment;
    maps = true;
    stat = true;
    attached_count = 2;
  };
  spins = 2;
  meanwhile = λ k w. w;
}

wide-IsConnected : IsConnected quiet wide
wide-IsConnected = record { attached = refl; stat = refl; kept = refl }

-- The header of the current version, without metadata, and the data 14 and 15.
abbrev sample : ℕ → Fragment
sample n = record {
  vals = record {
    size = 4 + n;
    data_ = λ i. if i == 0 then 4 + n + 2 * 2 ^ 32 + 226 * 2 ^ 48 else (if i == 4 then 14 else 15);
    capacity = 4 + n;
  };
  upgraded_header = none;
}

sample-IsCurrent : IsCurrent (sample 2)
unfolding decode
sample-IsCurrent = record {
  own = record { upgraded_header = refl; version = refl };
  valid = (omega arith, omega arith);
  word_count = refl;
  room = omega arith;
}

bare-IsCurrent : IsCurrent (sample 0)
unfolding decode
bare-IsCurrent = record {
  own = record { upgraded_header = refl; version = refl };
  valid = (omega arith, omega arith);
  word_count = refl;
  room = omega arith;
}

bare : (decode (sample 0).vals.data_).metadata_word_count ≡ 0
unfolding decode
bare = refl

small : (k : ℕ) → (sample 2).vals.data_ k < 2 ^ 64
small k = ground arith

idle : (k : ℕ) → k < 3 → IsIdle idle_buffer
idle k lt = record { sem = refl; sem_id = refl; write_pos = refl; read_pos = refl }

write_fragment-Handed_example :
    (i : ℕ) × (v : World) × (write_fragment quiet 3 (sample 2) false 5000 none wide
      ≡ (ok (done (pos 0), none), v))
    × Handed (sample 2) i wide v
write_fragment-Handed_example =
    write_fragment-Handed quiet 3 (sample 2) false 5000 wide 0 wide-IsReady wide-IsConnected
      sample-IsCurrent (omega arith) (omega arith) (omega arith) refl refl

wide-IsIdleSegment : IsIdleSegment wide
wide-IsIdleSegment = record {
  idle = idle;
  destructive = refl;
  reader_in = omega arith;
  early = omega arith;
  word = omega arith;
}

reader-IsFreshReader : IsFreshReader (manager 2)
reader-IsFreshReader = record {
  attached = refl;
  owner = ground arith;
  named = ground arith;
  unread = refl;
}

read_fragment-write_fragment_example :
    (v : World) × (g' : Fragment) × (v' : World) × (write_fragment quiet 3
        (sample 2)
        false
        5000
        none
        wide
      ≡ (ok (done (pos 0), none), v))
    × (read_fragment true (λ i. 99) (sample 0) none (hand_to (manager 2) v)
        ≡ (ok (done (pos 0, g'), none), v'))
    × Equals (sample 2).vals.data_ (sample 2).vals.size g'
read_fragment-write_fragment_example =
    read_fragment-write_fragment quiet 3 (sample 2) false 5000 wide (manager 2) true (λ i. 99)
      (sample 0) none wide-IsReady wide-IsConnected wide-IsIdleSegment sample-IsCurrent
      (omega arith) small reader-IsFreshReader bare-IsCurrent bare

-- The buffer 1 was given to the manager, with 32 bytes left to read.
abbrev lent : World
lent = record wide {
  shm = record segment {
    buffer_size = 64;
    buffers = λ i.
        if i == 1
        then record idle_buffer { sem = reading; sem_id = (manager 1).manager_id; read_pos = 32 }
        else idle_buffer;
  };
  me = manager 1;
}

one_in : (i : ℕ) → some 1 ≡ some i → i < lent.shm.buffer_count
one_in i e = ground (arith, e)

read_fragment_data_cases_example :
    RefusesCall true 2 lent (some 1)
    ⊎ ((i : ℕ) × (some 1 ≡ some i)
        × (RefusesBuffer true 2 lent i ⊎ (Overruns true 2 lent i ⊎ Receives true 2 lent i)))
read_fragment_data_cases_example =
    read_fragment_data_cases true 2 lent (some 1) one_in (omega arith)
