-- ===== src/SharedMemory/Holding.antt =====
-- The operations on a buffer that a manager holds, run on one that it writes or reads.
use artdaq_core.Prelude.{ℕ, ◌≡◌, refl, true, false, Bool, Option, arith}
use artdaq_core.Prelude.Int.{pos}
use artdaq_core.SharedMemory.State.{writing, reading, World, ok, put_buffer}
use artdaq_core.SharedMemory.Marks.{mark_buffer_empty, increment_write_pos}
use artdaq_core.SharedMemory.Marks.Release.{
  Released, Ends, mark_buffer_empty-Released, increment_write_pos_cases,
}
use artdaq_core.SharedMemory.Transfer.Roundtrip.{hand_to}
use artdaq_core.SharedMemory.Reset.Drift.{IsReady}
use artdaq_core.SharedMemory.Writing.{get_buffer_for_writing}
use artdaq_core.SharedMemory.Reading.{get_buffer_for_reading}
use artdaq_core.SharedMemory.Isolation.{Undisturbed, writing_leaves_written, reading_leaves_written}
use artdaq_core.SharedMemory.Reset.Drift.{Drifts}
use artdaq_core.SharedMemory.Counting.{ready_for_write}
use artdaq_core.SharedMemory.Counting.Agreement.{Keeps, ready_for_write-Keeps}
use artdaq_core.SharedMemory.Samples.{start, start-IsReady, manager}

abbrev being_read : World
being_read =
    put_buffer 2
      (record {
        write_pos = 5;
        read_pos = 3;
        sem = reading;
        sem_id = pos 1;
        sequence_id = 4;
        last_touch_time = 1000;
      })
      start

mark_buffer_empty-Released_example :
    (v : World) × (mark_buffer_empty 2 false true being_read ≡ (ok tt, v)) × Released 2 being_read v
mark_buffer_empty-Released_example =
    mark_buffer_empty-Released being_read 2 true refl (omega arith) refl refl

abbrev being_written : World
being_written =
    put_buffer 1
      (record {
        write_pos = 5;
        read_pos = 0;
        sem = writing;
        sem_id = pos 1;
        sequence_id = 4;
        last_touch_time = 1000;
      })
      start

increment_write_pos_cases_example : Ends 1 3 being_written (increment_write_pos 1 3 being_written)
increment_write_pos_cases_example =
    increment_write_pos_cases being_written 1 3 refl (omega arith) refl refl (omega arith)

-- Another manager searches while buffer 1 is being written.
abbrev other : World
other = hand_to (manager 2) being_written

other-IsReady : IsReady other
other-IsReady = record {
  attached = refl;
  small = omega arith;
  writer_in = omega arith;
  owner = ground arith;
  named = ground arith;
}

writing_leaves_written_example :
    (r : Option ℕ) × (v : World) × (get_buffer_for_writing true other ≡ (ok r, v))
    × Undisturbed 1 other v
writing_leaves_written_example = writing_leaves_written true other 1 other-IsReady refl

reading_leaves_written_example :
    (r : Option ℕ) × (v : World) × (get_buffer_for_reading other ≡ (ok r, v))
    × Undisturbed 1 other v
reading_leaves_written_example = reading_leaves_written other 1 other-IsReady refl

ready_for_write-Keeps_example :
    (r : Bool) × (v : World) × (ready_for_write false start ≡ (ok r, v))
    × Drifts start v
    × Keeps r v
ready_for_write-Keeps_example = ready_for_write-Keeps start start-IsReady
