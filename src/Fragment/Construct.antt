-- ===== src/Fragment/Construct.antt =====
-- The constructors of artdaq-core/Data/Fragment.cc, and `dataFrag` and `eodFrag`.
use artdaq_core.Prelude.{ℕ, ◌+◌, ◌-◌, ◌%◌, ◌^◌, none, ◌==◌, if◌then◌else◌}
use artdaq_core.Prelude.Words.{w64, add64}
use artdaq_core.QuickVec.{fill, copy_from, construct, construct_with}
use artdaq_core.Header.{
  num_words, current_version, invalid_sequence_id, invalid_fragment_id, invalid_timestamp,
  first_system_type, Timespec,
}
use artdaq_core.Fragment.{
  Result, Fragment, F, after, changes, with_vals, store_header, update_fragment_header_wc,
  set_user_type_of, set_system_type_of, touch_fragment, data_begin, resize_fragment, ◌>>=◌, ◌>>◌,
}

-- The constructors. `now` is the time of their `touch`, and -1 is stored into every word of the header
-- first, so that its version is the invalid one until it is set.
abbrev pub all_ones : ℕ
all_ones = w64 - 1

-- `Fragment()`
unfoldable pub construct_empty : (ℕ → ℕ) → Timespec → Result (Unit {0} × Fragment)
construct_empty fresh now =
    (do
      store_header λ h. record h { version = current_version }
      update_fragment_header_wc
      store_header λ h. record h { type_ = 0 }
      store_header λ h. record h { metadata_word_count = 0 }
      touch_fragment now)
      (record { vals = construct_with fresh num_words all_ones; upgraded_header = none })

-- The memory of a fragment of `n` words of data, with the header set to -1.
unfoldable pub blank : (ℕ → ℕ) → ℕ → Fragment
blank fresh n =
    let v = construct fresh (add64 n num_words) in
    record { vals = record v { data_ = fill v.data_ 0 num_words all_ones }; upgraded_header = none }

-- `Fragment(n)`
unfoldable pub construct_sized : (ℕ → ℕ) → ℕ → Timespec → Result (Unit {0} × Fragment)
construct_sized fresh n now =
    (do
      store_header λ h. record h { version = current_version }
      update_fragment_header_wc
      store_header λ h. record h { type_ = 0 }
      store_header λ h. record h { sequence_id = invalid_sequence_id }
      store_header λ h. record h { fragment_id = invalid_fragment_id }
      store_header λ h. record h { timestamp = invalid_timestamp }
      store_header λ h. record h { metadata_word_count = 0 }
      touch_fragment now)
      (blank fresh n)

abbrev pub data_fragment_type : ℕ
data_fragment_type = first_system_type + 1

-- `Fragment(sequenceID, fragID, type, timestamp)`
unfoldable pub construct_typed : (ℕ → ℕ) → ℕ → ℕ → ℕ → ℕ → Timespec → Result (Unit {0} × Fragment)
construct_typed fresh seq frag type timestamp now =
    (do
      store_header λ h. record h { version = current_version }
      update_fragment_header_wc
      (if type == data_fragment_type then set_system_type_of type else set_user_type_of type)
      store_header λ h. record h { sequence_id = seq % 2 ^ 48 }
      store_header λ h. record h { fragment_id = frag % 2 ^ 16 }
      store_header λ h. record h { timestamp = timestamp % 2 ^ 64 }
      store_header λ h. record h { metadata_word_count = 0 }
      touch_fragment now)
      (record { vals = construct_with fresh num_words all_ones; upgraded_header = none })

-- `memcpy(dataAddress(), dataPtr, dataSize * sizeof(RawDataType))`
unfoldable pub copy_data : (ℕ → ℕ) → ℕ → F (Unit {0})
copy_data source n = do
  start ← data_begin
  changes λ f. with_vals (record (f.vals) { data_ = copy_from f.vals.data_ source start 0 n }) f

-- `dataFrag` of `n` words from memory.
unfoldable pub data_frag :
    (ℕ → ℕ) → (ℕ → ℕ) → ℕ → ℕ → (ℕ → ℕ) → ℕ → ℕ → Timespec → Result (Unit {0} × Fragment)
data_frag fresh later seq frag source n timestamp now =
    after (λ _. resize_fragment later n >> copy_data source n)
      (construct_typed fresh seq frag data_fragment_type timestamp now)

-- `eodFrag`: one word of data, the number of fragments to expect.
unfoldable pub eod_frag : (ℕ → ℕ) → ℕ → Timespec → Result (Unit {0} × Fragment)
eod_frag fresh n now =
    after (λ _. set_system_type_of first_system_type >> copy_data (λ _. n) 1)
      (construct_sized fresh 1 now)
