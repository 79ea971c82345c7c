-- ===== src/Header/Tests.antt =====
-- A header, and words that hold older ones.
use artdaq_core.Prelude.{ℕ, ◌+◌, ◌%◌, ◌^◌, ◌≡◌, arith}
use artdaq_core.Header.{RawFragmentHeader, Timespec, decode, encode, upgrade_v0, upgrade_v1}
use artdaq_core.Header.Bits.{FitsBits, decode-encode}
use artdaq_core.Header.Types.{Upgrades, upgrade_cases}

abbrev header : RawFragmentHeader
header = record {
  word_count = 6;
  version = 2;
  type_ = 226;
  metadata_word_count = 0;
  sequence_id = 17;
  fragment_id = 3;
  timestamp = 1000;
  valid = 1;
  complete = 1;
  atime_ns = 5;
  atime_s = 9;
}

abbrev zeros : ℕ → ℕ
zeros j = 0

header-FitsBits : FitsBits header
header-FitsBits = record {
  word_count = omega arith;
  version = omega arith;
  type_ = omega arith;
  metadata_word_count = omega arith;
  sequence_id = omega arith;
  fragment_id = omega arith;
  timestamp = omega arith;
  valid = omega arith;
  complete = omega arith;
  atime_ns = omega arith;
  atime_s = omega arith;
}

decode-encode_example : decode (encode header zeros) ≡ header
decode-encode_example = decode-encode header zeros header-FitsBits

abbrev words : ℕ → ℕ
words j = 2 ^ 63 + j

abbrev data_type : ℕ
data_type = 226

upgrade_cases_example :
    (Upgrades (decode words) (upgrade_v0 words)
      × ((upgrade_v0 words).timestamp ≡ (decode words).timestamp % 2 ^ 32)
      × (decode (encode (upgrade_v0 words) zeros) ≡ upgrade_v0 words))
    × (Upgrades (decode words) (upgrade_v1 words)
        × ((upgrade_v1 words).timestamp ≡ (decode words).timestamp)
        × (decode (encode (upgrade_v1 words) zeros) ≡ upgrade_v1 words))
upgrade_cases_example = upgrade_cases words zeros

abbrev earlier : Timespec
earlier = record { tv_sec = 10; tv_nsec = 999999999 }

abbrev later : Timespec
later = record { tv_sec = 12; tv_nsec = 1 }
