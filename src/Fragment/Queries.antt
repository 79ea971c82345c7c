-- ===== src/Fragment/Queries.antt =====
-- What artdaq-core/Data/Fragment.hh reads from the header of a fragment; an older header is upgraded first.
use artdaq_core.Prelude.{ℕ, Bool, ltb}
use artdaq_core.Header.{Timespec, atime}
use artdaq_core.Fragment.{Fragment, done, F, give, after, fragment_header, ◌>>=◌}

unfoldable pub fragment_type : F ℕ
fragment_type = do h ← fragment_header; give h.type_

unfoldable pub fragment_size : F ℕ
fragment_size = do h ← fragment_header; give h.word_count

unfoldable pub sequence_id_of : F ℕ
sequence_id_of = do h ← fragment_header; give h.sequence_id

unfoldable pub fragment_id_of : F ℕ
fragment_id_of = do h ← fragment_header; give h.fragment_id

unfoldable pub timestamp_of : F ℕ
timestamp_of = do h ← fragment_header; give h.timestamp

unfoldable pub atime_of : F Timespec
atime_of = do h ← fragment_header; give (atime h)

-- `fragmentSequenceIDCompare`, of two fragments.
unfoldable pub fragment_sequence_id_compare : Fragment → F Bool
fragment_sequence_id_compare i j =
    after (λ a i'. after (λ b j'. done (ltb a b, j')) (sequence_id_of j)) (sequence_id_of i)
