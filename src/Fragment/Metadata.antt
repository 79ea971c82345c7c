-- ===== src/Fragment/Metadata.antt =====
-- The metadata of a fragment, artdaq-core/Data/Fragment.hh, of a C++ type whose size is a number of whole
-- words: `md` is what its words hold, and `n` is their number, at least 1.
use artdaq_core.Prelude.{ℕ, ◌%◌, ◌^◌, Bool, none, some, ltb, ◌==◌, ◌&&◌, leb, if◌then◌else◌, List}
use artdaq_core.Prelude.Memory.{elements}
use artdaq_core.Prelude.Words.{add64, sub64}
use artdaq_core.QuickVec.{copy_from, insert}
use artdaq_core.Header.{
  current_version, first_user_type, last_user_type, first_system_type, Timespec,
}
use artdaq_core.Fragment.{
  Result, Fragment, F, give, refuse, refused, done, looks, changes, with_vals, invalid_request,
  failed_assertion, fragment_header, store_header, header_size_words, update_fragment_header_wc,
  touch_fragment, data_begin, ◌>>=◌, ◌>>◌,
}
use artdaq_core.Fragment.Construct.{blank}

unfoldable pub is_user_fragment_type : ℕ → Bool
is_user_fragment_type t = leb first_user_type t && leb t last_user_type

unfoldable pub is_system_fragment_type : ℕ → Bool
is_system_fragment_type t = leb first_system_type t

-- `validatedMetadataSize_`: the words that fit the 8 bits of their count.
unfoldable pub validated_metadata_size : ℕ → F ℕ
validated_metadata_size n = if ltb 255 n then refuse invalid_request else give n

unfoldable pub metadata_address : F ℕ
metadata_address = do
  h ← fragment_header
  if h.metadata_word_count == 0 then refuse invalid_request else header_size_words

-- memcpy(metadataAddress(), &metadata, sizeof(T))
unfoldable pub copy_metadata : (ℕ → ℕ) → ℕ → F (Unit {0})
copy_metadata md n = do
  at ← metadata_address
  changes λ f. with_vals (record (f.vals) { data_ = copy_from f.vals.data_ md at 0 n }) f

-- `metadata<T>()`: the words that the reference stands for. Its address is that of an element.
unfoldable pub metadata : ℕ → F (List ℕ)
metadata n = do at ← metadata_address; looks λ f. elements f.vals.data_ at n

-- `vals_.insert(dataBegin(), mdSize, 0)`
unfoldable pub insert_zeros : (ℕ → ℕ) → ℕ → F (Unit {0})
insert_zeros fresh n = do
  start ← data_begin
  λ f. elim (insert fresh start n 0 f.vals) [
    | none ↦ refused failed_assertion
    | some v ↦ done (tt, with_vals v f)
  ]

unfoldable pub set_metadata : (ℕ → ℕ) → (ℕ → ℕ) → ℕ → F (Unit {0})
set_metadata fresh md n = do
  h ← fragment_header
  if h.metadata_word_count == 0
      then (do
        size ← validated_metadata_size n
        insert_zeros fresh size
        update_fragment_header_wc
        store_header λ h. record h { metadata_word_count = size % 2 ^ 8 }
        copy_metadata md n)
      else refuse invalid_request

unfoldable pub update_metadata : (ℕ → ℕ) → ℕ → F (Unit {0})
update_metadata md n = do
  h ← fragment_header
  if h.metadata_word_count == 0 then refuse invalid_request else (do
    size ← validated_metadata_size n
    if h.metadata_word_count == size then copy_metadata md n else refuse invalid_request)

-- The constructor with metadata, for `payload` words of data. The type is stored as it is.
unfoldable pub construct_with_metadata :
    (ℕ → ℕ)
    → (payload seq frag type : ℕ) → (ℕ → ℕ)
    → ℕ
    → ℕ
    → Timespec
    → Result (Unit {0} × Fragment)
construct_with_metadata fresh payload seq frag type md n timestamp now =
    if ltb 255 n
    then refused invalid_request
    else (do
      store_header λ h. record h { version = current_version }
      update_fragment_header_wc
      store_header λ h. record h { sequence_id = seq % 2 ^ 48 }
      store_header λ h. record h { fragment_id = frag % 2 ^ 16 }
      store_header λ h. record h { timestamp = timestamp % 2 ^ 64 }
      store_header λ h. record h { type_ = type % 2 ^ 8 }
      touch_fragment now
      size ← looks λ f. f.vals.size
      head ← header_size_words
      store_header λ h. record h { metadata_word_count = sub64 size (add64 head payload) % 2 ^ 8 }
      copy_metadata md n)
        (blank fresh (add64 n payload))
