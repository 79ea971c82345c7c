-- ===== src/Fragment.antt =====
-- artdaq-core/Data/Fragment.hh and Fragment.cc: a header, metadata and data in one vector of 64-bit
-- words. The header of an older version is not changed in place: its upgrade is kept beside the words.
use artdaq_core.Prelude.{
  ℕ, ◌+◌, ◌-◌, ◌*◌, ◌/◌, ◌%◌, ◌^◌, Bool, true, false, not, List, length, Option, none, some, ltb,
  leb, ◌==◌, ◌&&◌, ◌||◌, if◌then◌else◌,
}
use artdaq_core.Prelude.Words.{w32, w64, add64, sub64}
use artdaq_core.QuickVec.{
  QuickVec, fill, copy_from, construct, construct_with, reserve, resize, resize_with_cushion,
  resize_fill, erase,
}
use artdaq_core.Header.{
  RawFragmentHeader, num_words, num_words_old, current_version, invalid_version,
  invalid_sequence_id, invalid_fragment_id, invalid_timestamp, first_user_type, last_user_type,
  first_system_type, decode, encode, upgrade_v0, upgrade_v1, set_user_type, set_system_type,
  Timespec, touch, latency_and_touch,
}
pub mod Construct
pub mod Layout
pub mod Resizing
pub mod Storing
pub mod Sized
pub mod Building
pub mod Delivery
pub mod Queries
pub mod Metadata
pub mod Annotating
pub mod Copying
mod Tests

pub record Fragment : Type 0 where
  pub vals : QuickVec ℕ
  pub upgraded_header : Option RawFragmentHeader

-- The exceptions and the failed assertion with which an operation can end.
pub data Refusal : Type 0 where
  unknown_version invalid_value invalid_request failed_assertion : Refusal

pub data Result {ℓ} (A : Type ℓ) : Type ℓ where
  done : A → Result A
  refused : Refusal → Result A

-- An operation on a fragment.
abbrev pub F : Type 0 → Type 0
F A = Fragment → Result (A × Fragment)

abbrev pub give : {A : Type 0} → A → F A
give a f = done (a, f)

abbrev pub refuse : {A : Type 0} → Refusal → F A
refuse r f = refused r

abbrev pub after : {A B : Type 0} → (A → F B) → Result (A × Fragment) → Result (B × Fragment)
after k (done (a, f)) = k a f
after k (refused r) = refused r

infixl 5 ◌>>=◌ ◌>>◌
abbrev pub ◌>>=◌ : {A B : Type 0} → F A → (A → F B) → F B
◌>>=◌ m k f = after k (m f)

abbrev pub ◌>>◌ : {A B : Type 0} → F A → F B → F B
m >> k = m >>= λ _. k

abbrev pub looks : {A : Type 0} → (Fragment → A) → F A
looks g f = done (g f, f)

abbrev pub changes : (Fragment → Fragment) → F (Unit {0})
changes g f = done (tt, g f)

abbrev pub with_vals : QuickVec ℕ → Fragment → Fragment
with_vals v f = record f { vals = v }

-- `version()`: the bits of the words themselves.
unfoldable pub version : Fragment → ℕ
version f = (decode f.vals.data_).version

-- `fragmentHeaderPtr`, for its effect: an older header is upgraded, once.
unfoldable pub fragment_header_ptr : F (Unit {0})
unfolding version
fragment_header_ptr f = elim f.upgraded_header [
  | some h ↦ done (tt, f)
  | none ↦
      if version f == current_version
      then done (tt, f)
      else if version f == invalid_version
      then done (tt, f)
      else if version f == 0
      then done (tt, record f { upgraded_header = some (upgrade_v0 f.vals.data_) })
      else if version f == 1
      then done (tt, record f { upgraded_header = some (upgrade_v1 f.vals.data_) })
      else refused unknown_version
]

-- What stands behind that pointer, and a store through it.
unfoldable pub header_at : Fragment → RawFragmentHeader
header_at f = elim f.upgraded_header [ none ↦ decode f.vals.data_ | some h ↦ h ]

unfoldable pub put_header : RawFragmentHeader → Fragment → Fragment
put_header h f = elim f.upgraded_header [
  | none ↦ record f { vals = record (f.vals) { data_ = encode h f.vals.data_ } }
  | some _ ↦ record f { upgraded_header = some h }
]

-- `fragmentHeader()`
unfoldable pub fragment_header : F RawFragmentHeader
fragment_header = do fragment_header_ptr; looks header_at

unfoldable pub store_header : (RawFragmentHeader → RawFragmentHeader) → F (Unit {0})
store_header g = do h ← fragment_header; changes (put_header (g h))

-- `headerSizeWords`, by the version of the words.
unfoldable pub header_size_words : F ℕ
header_size_words f =
    if version f == current_version || version f == invalid_version
    then done (num_words, f)
    else if version f == 0 || version f == 1
    then done (num_words_old, f)
    else refused unknown_version

-- `updateFragmentHeaderWC_`; the size of the vector always fits the 32 bits.
unfoldable pub update_fragment_header_wc : F (Unit {0})
update_fragment_header_wc = do
  n ← looks λ f. f.vals.size
  store_header λ h. record h { word_count = n % 2 ^ 32 }

unfoldable pub set_user_type_of : ℕ → F (Unit {0})
set_user_type_of t = do
  h ← fragment_header
  elim (set_user_type (t % 2 ^ 8) h) [
    | none ↦ refuse invalid_value
    | some h' ↦ changes (put_header h')
  ]

unfoldable pub set_system_type_of : ℕ → F (Unit {0})
set_system_type_of t = do
  h ← fragment_header
  elim (set_system_type (t % 2 ^ 8) h) [
    | none ↦ refuse invalid_value
    | some h' ↦ changes (put_header h')
  ]

unfoldable pub set_sequence_id : ℕ → F (Unit {0})
set_sequence_id id =
    if leb id invalid_sequence_id
    then store_header (λ h. record h { sequence_id = id % 2 ^ 48 })
    else refuse failed_assertion

unfoldable pub set_fragment_id : ℕ → F (Unit {0})
set_fragment_id id = store_header λ h. record h { fragment_id = id % 2 ^ 16 }

unfoldable pub set_timestamp : ℕ → F (Unit {0})
set_timestamp t = store_header λ h. record h { timestamp = t % 2 ^ 64 }

unfoldable pub touch_fragment : Timespec → F (Unit {0})
touch_fragment now = store_header (touch now)

-- Where the data begins: `dataBegin` and `dataAddress`.
unfoldable pub data_begin : F ℕ
data_begin = do n ← header_size_words; h ← fragment_header; give (n + h.metadata_word_count)

-- `dataSize`, a difference of size_t values.
unfoldable pub data_size : F ℕ
data_size = do start ← data_begin; n ← looks λ f. f.vals.size; give (sub64 n start)

unfoldable pub has_metadata : F Bool
has_metadata = do h ← fragment_header; give (not (h.metadata_word_count == 0))

-- `resize(sz)`; `fresh` is what a new block of memory holds.
unfoldable pub resize_fragment : (ℕ → ℕ) → ℕ → F (Unit {0})
resize_fragment fresh sz = do
  start ← data_begin
  changes λ f. with_vals (resize fresh (add64 sz start) f.vals) f
  update_fragment_header_wc

-- `resize(sz, v)`
unfoldable pub resize_fragment_fill : (ℕ → ℕ) → ℕ → ℕ → F (Unit {0})
resize_fragment_fill fresh sz v = do
  start ← data_begin
  changes λ f. with_vals (resize_fill fresh (add64 sz start) v f.vals) f
  update_fragment_header_wc

-- `ceil(szbytes / 8.0)`, which is exact for the sizes that a double can hold.
unfoldable pub words_of_bytes : ℕ → ℕ
words_of_bytes n = (n + 7) / 8

unfoldable pub resize_bytes : (ℕ → ℕ) → ℕ → F (Unit {0})
resize_bytes fresh szbytes = resize_fragment fresh (words_of_bytes szbytes)

unfoldable pub resize_bytes_with_cushion : (ℕ → ℕ) → (ℕ → ℕ) → (grown : ℕ → ℕ) → ℕ → F (Unit {0})
resize_bytes_with_cushion fresh later grown szbytes = do
  start ← data_begin
  changes λ f.
      with_vals
        (resize_with_cushion fresh later grown (add64 (words_of_bytes szbytes) start) f.vals) f
  update_fragment_header_wc

-- `autoResize`
unfoldable pub auto_resize : (ℕ → ℕ) → F (Unit {0})
auto_resize fresh = do
  h ← fragment_header
  changes λ f. with_vals (resize fresh h.word_count f.vals) f
  update_fragment_header_wc

-- `vals_.erase(dataBegin(), dataEnd())`
unfoldable pub erase_from : ℕ → F (Unit {0})
erase_from start f = elim (erase start f.vals.size f.vals) [
  | none ↦ refused failed_assertion
  | some v ↦ done (tt, with_vals v f)
]

-- `clear`: everything from `dataBegin` on is erased.
unfoldable pub clear : F (Unit {0})
clear = do start ← data_begin; erase_from start; update_fragment_header_wc

unfoldable pub is_empty : F Bool
is_empty = do n ← data_size; give (n == 0)

unfoldable pub reserve_fragment : (ℕ → ℕ) → ℕ → F (Unit {0})
reserve_fragment fresh cap = do
  start ← data_begin
  changes λ f. with_vals (reserve fresh (add64 cap start) f.vals) f

unfoldable pub get_latency_of : Bool → Timespec → F Timespec
get_latency_of again now = do
  h ← fragment_header
  let r = latency_and_touch again now h
  changes (λ f. if again then put_header (r.1) f else f)
  give (r.0)
