-- ===== src/SharedMemory/Samples.antt =====
-- A segment of three buffers of eight bytes, and managers that are attached to it.
use artdaq_core.Prelude.{ℕ, ◌+◌, refl, true, false, arith}
use artdaq_core.Prelude.Int.{pos, minus_one}
use artdaq_core.SharedMemory.State.{empty, ShmBuffer, ShmStruct, Manager, World}
use artdaq_core.SharedMemory.Reset.Drift.{IsReady}

abbrev pub idle_buffer : ShmBuffer
idle_buffer = record {
  write_pos = 0;
  read_pos = 0;
  sem = empty;
  sem_id = minus_one;
  sequence_id = 0;
  last_touch_time = 0;
}

abbrev pub segment : ShmStruct
segment = record {
  reader_pos = 0;
  writer_pos = 0;
  buffer_count = 3;
  buffer_size = 8;
  buffer_timeout_us = 100;
  next_sequence_id = 0;
  lowest_seq_id_read = 0;
  destructive_read_mode = true;
  writer_count = pos 0;
  reader_count = pos 0;
  next_id = 3;
  rank = pos 0;
  ready_magic = 0;
  buffers = λ i. idle_buffer;
  bytes = λ p. 0;
}

abbrev pub manager : ℕ → Manager
manager n = record {
  requested = record {
    buffer_count = 3;
    buffer_size = 8;
    buffer_timeout_us = 100;
    destructive_read_mode = true;
  };
  shm_segment_id = pos 7;
  attached = true;
  manager_id = pos n;
  last_seen_id = 0;
  registered_reader = false;
  registered_writer = false;
  min_write_size = 0;
}

abbrev pub start : World
start = record {
  shm = segment;
  me = manager 1;
  destroyed = false;
  clock = λ n. 1000 + n;
  ticks = 0;
}

pub start-IsReady : IsReady start
start-IsReady = record {
  attached = refl;
  small = omega arith;
  writer_in = omega arith;
  owner = ground arith;
  named = ground arith;
}
