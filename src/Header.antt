-- ===== src/Header.antt =====
-- artdaq-core/Data/detail/RawFragmentHeader.hh, RawFragmentHeaderV0.hh and RawFragmentHeaderV1.hh: the
-- header at the beginning of a fragment. Its bit fields lie in 64-bit words, the first field of a word
-- in the lowest bits, as the ABI of the platform lays them out.
use artdaq_core.Prelude.{
  ℕ, ◌+◌, ◌-◌, ◌*◌, ◌/◌, ◌%◌, ◌^◌, Bool, true, false, Option, none, some, ltb, leb, ◌==◌, ◌&&◌,
  ◌||◌, if◌then◌else◌,
}
use artdaq_core.Prelude.Memory.{put_at}
use artdaq_core.Prelude.Words.{w32, w64, sub64}
pub mod Bits
pub mod Types
pub mod Latency
mod Tests

-- `RawFragmentHeader`
pub record RawFragmentHeader : Type 0 where
  pub word_count : ℕ
  pub version : ℕ
  pub type_ : ℕ
  pub metadata_word_count : ℕ
  pub sequence_id : ℕ
  pub fragment_id : ℕ
  pub timestamp : ℕ
  pub valid : ℕ
  pub complete : ℕ
  pub atime_ns : ℕ
  pub atime_s : ℕ

abbrev pub first_user_type : ℕ
first_user_type = 1

abbrev pub last_user_type : ℕ
last_user_type = 224

abbrev pub first_system_type : ℕ
first_system_type = 225

abbrev pub invalid_version : ℕ
invalid_version = 0xFFFF

abbrev pub current_version : ℕ
current_version = 2

abbrev pub invalid_sequence_id : ℕ
invalid_sequence_id = 0xFFFFFFFFFFFF

abbrev pub invalid_fragment_id : ℕ
invalid_fragment_id = 0xFFFF

abbrev pub invalid_timestamp : ℕ
invalid_timestamp = w64 - 1

-- `num_words()` of the current header, and of the two older ones.
abbrev pub num_words : ℕ
num_words = 4

abbrev pub num_words_old : ℕ
num_words_old = 3

-- The header that the words hold.
unfoldable pub decode : (ℕ → ℕ) → RawFragmentHeader
decode d = record {
  word_count = d 0 % 2 ^ 32;
  version = d 0 / 2 ^ 32 % 2 ^ 16;
  type_ = d 0 / 2 ^ 48 % 2 ^ 8;
  metadata_word_count = d 0 / 2 ^ 56 % 2 ^ 8;
  sequence_id = d 1 % 2 ^ 48;
  fragment_id = d 1 / 2 ^ 48 % 2 ^ 16;
  timestamp = d 2 % 2 ^ 64;
  valid = d 3 % 2;
  complete = d 3 / 2 % 2;
  atime_ns = d 3 / 4 % 2 ^ 30;
  atime_s = d 3 / 2 ^ 32 % 2 ^ 32;
}

-- The words that hold a header; each field keeps the bits that it has room for.
unfoldable pub word : RawFragmentHeader → ℕ → ℕ
word h j =
    if j == 0
    then h.word_count % 2 ^ 32
      + h.version % 2 ^ 16 * 2 ^ 32
      + h.type_ % 2 ^ 8 * 2 ^ 48
      + h.metadata_word_count % 2 ^ 8 * 2 ^ 56
    else if j == 1
    then h.sequence_id % 2 ^ 48 + h.fragment_id % 2 ^ 16 * 2 ^ 48
    else if j == 2
    then h.timestamp % 2 ^ 64
    else h.valid % 2 + h.complete % 2 * 2 + h.atime_ns % 2 ^ 30 * 4 + h.atime_s % 2 ^ 32 * 2 ^ 32

-- The header stored at the beginning of an array of words.
unfoldable pub encode : RawFragmentHeader → (ℕ → ℕ) → ℕ → ℕ
encode h d j = if ltb j num_words then word h j else d j

-- `RawFragmentHeaderV1::upgrade`, on the words of a header of version 1.
unfoldable pub upgrade_v1 : (ℕ → ℕ) → RawFragmentHeader
upgrade_v1 d = record {
  word_count = d 0 % 2 ^ 32;
  version = current_version;
  type_ = d 0 / 2 ^ 48 % 2 ^ 8;
  metadata_word_count = d 0 / 2 ^ 56 % 2 ^ 8;
  sequence_id = d 1 % 2 ^ 48;
  fragment_id = d 1 / 2 ^ 48 % 2 ^ 16;
  timestamp = d 2 % 2 ^ 64;
  valid = 1;
  complete = 1;
  atime_ns = 0;
  atime_s = 0;
}

-- `RawFragmentHeaderV0::upgrade`, whose timestamp has 32 bits.
unfoldable pub upgrade_v0 : (ℕ → ℕ) → RawFragmentHeader
upgrade_v0 d = record {
  word_count = d 0 % 2 ^ 32;
  version = current_version;
  type_ = d 0 / 2 ^ 48 % 2 ^ 8;
  metadata_word_count = d 0 / 2 ^ 56 % 2 ^ 8;
  sequence_id = d 1 % 2 ^ 48;
  fragment_id = d 1 / 2 ^ 48 % 2 ^ 16;
  timestamp = d 2 % 2 ^ 32;
  valid = 1;
  complete = 1;
  atime_ns = 0;
  atime_s = 0;
}

-- `setUserType` and `setSystemType`; `none` is the exception InvalidValue.
unfoldable pub set_user_type : ℕ → RawFragmentHeader → Option RawFragmentHeader
set_user_type utype h =
    if ltb utype first_user_type || ltb last_user_type utype
    then none
    else some (record h { type_ = utype })

unfoldable pub set_system_type : ℕ → RawFragmentHeader → Option RawFragmentHeader
set_system_type stype h =
    if ltb stype first_system_type then none else some (record h { type_ = stype })

-- `struct timespec`
pub record Timespec : Type 0 where
  pub tv_sec : ℕ
  pub tv_nsec : ℕ

-- `touch`, at the time that the real-time clock shows.
unfoldable pub touch : Timespec → RawFragmentHeader → RawFragmentHeader
touch time h = record h { atime_ns = time.tv_nsec % 2 ^ 30; atime_s = time.tv_sec % 2 ^ 32 }

unfoldable pub atime : RawFragmentHeader → Timespec
atime h = record { tv_sec = h.atime_s; tv_nsec = h.atime_ns }

-- `getLatency`; seconds are a signed 64-bit number, taken here modulo 2 ^ 64.
unfoldable pub get_latency : Timespec → RawFragmentHeader → Timespec
unfolding atime
get_latency time h =
    let sec = sub64 time.tv_sec h.atime_s in
    if ltb time.tv_nsec h.atime_ns
    then record { tv_sec = sub64 sec 1; tv_nsec = 1000000000 + time.tv_nsec - h.atime_ns }
    else record { tv_sec = sec; tv_nsec = time.tv_nsec - h.atime_ns }

-- `getLatency(touch)`, with what it leaves of the header.
unfoldable pub latency_and_touch :
    Bool → Timespec → RawFragmentHeader → Timespec × RawFragmentHeader
unfolding get_latency touch
latency_and_touch again time h = (get_latency time h, if again then touch time h else h)
