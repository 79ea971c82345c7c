-- ===== src/SharedMemory/Attach/Tests.antt =====
-- A manager that sets a segment up, and one that joins it.
use artdaq_core.Prelude.{
  ℕ, ◌≡◌, inl, inr, refl, arith, true, false, some, none, if◌then◌else◌, ◌==◌,
}
use artdaq_core.Prelude.Int.{minus_one}
use artdaq_core.SharedMemory.State.{Manager, World, ok}
use artdaq_core.SharedMemory.Samples.{segment, start, manager}
use artdaq_core.SharedMemory.Writing.{get_buffer_for_writing}
use artdaq_core.SharedMemory.Writing.Grant.{Holds}
use artdaq_core.SharedMemory.Attach.{Os, magic, attach}
use artdaq_core.SharedMemory.Attach.Owner.{
  IsOwning, IsFound, SetUp, attach-SetUp, get_buffer_for_writing-attach,
}
use artdaq_core.SharedMemory.Attach.Joining.{IsJoining, IsReachable, joined, attach-joined}

-- The segment 7 appears at the third call; until then it can be created.
abbrev system : Os
system = record {
  find = λ k. if k == 2 then some 7 else none;
  tries = λ t. 5;
  create = some 7;
  created = segment;
  maps = true;
  stat = true;
  attached_count = 1;
}

abbrev unattached : Manager
unattached = record (manager 1) {
  attached = false;
  manager_id = minus_one;
  shm_segment_id = minus_one;
}

abbrev first : World
first = record start { me = unattached }

first-IsOwning : IsOwning first
first-IsOwning = record {
  unattached = refl;
  manager_id = refl;
  buffers = omega arith;
  few = omega arith;
  room = omega arith;
}

created : IsFound system
created = (7, inr (refl, refl))

attach-SetUp_example :
    (v : World) × (attach system 0 first ≡ (ok true, v)) × SetUp unattached.requested 0 v
attach-SetUp_example = attach-SetUp system 0 first first-IsOwning created refl

get_buffer_for_writing-attach_example :
    (v : World) × (i : ℕ) × (v' : World) × (attach system 0 first ≡ (ok true, v))
    × (get_buffer_for_writing false v ≡ (ok (some i), v'))
    × Holds i v v'
get_buffer_for_writing-attach_example =
    get_buffer_for_writing-attach system 0 false first first-IsOwning created refl

abbrev second : World
second = record start {
  shm = record segment { ready_magic = magic };
  me = record unattached {
    requested = record (unattached.requested) { buffer_count = 0; buffer_size = 0 };
  };
}

second-IsJoining : IsJoining second
second-IsJoining = record { unattached = refl; manager_id = refl; asks_none = inl refl }

found : IsReachable system 0
found = (2, 7, omega arith, refl)

attach-joined_example : (id : ℕ) × (attach system 0 second ≡ (ok true, joined id second))
attach-joined_example = attach-joined system 0 second second-IsJoining found refl refl
