-- ===== src/Container.antt =====
-- artdaq-core/Data/ContainerFragment.hh: a fragment whose data is other fragments, with an index behind them.
-- Fragments are whole words, and so are the offsets in an index that the loader makes: an offset that is not
-- a multiple of 8 bytes, which a foreign container might have, ends the model of a call as `misaligned`.
pub mod Loader
pub mod Walk
pub mod Storing
pub mod Indexing
pub mod Closing
pub mod Adding
pub mod Room
pub mod Growing
pub mod Delivery
pub mod Passing
pub mod Founding
pub mod Copying
pub mod Several
pub mod Reading
pub mod Single
mod Tests
use artdaq_core.Prelude.{
  ℕ, zero, suc, ◌+◌, ◌-◌, ◌*◌, ◌/◌, ◌%◌, ◌^◌, Bool, true, false, not, ◌&&◌, ◌||◌, Option, none,
  some, List, [], ◌∷◌, ltb, leb, ◌==◌, if◌then◌else◌,
}
use artdaq_core.Prelude.Words.{w64, add64, sub64, mul64}
use artdaq_core.QuickVec.{copy_from}
use artdaq_core.Header.{num_words, Timespec}
use artdaq_core.Fragment.{Refusal, Fragment, F, with_vals, header_size_words, data_begin, data_size}
use artdaq_core.Fragment as Fragment
use artdaq_core.Fragment.Queries.{fragment_size}
use artdaq_core.Fragment.Metadata.{metadata_address}
use artdaq_core.Fragment.Construct.{construct_empty, construct_sized}

abbrev pub container_magic : ℕ
container_magic = 0x00BADDEED5B1BEE5

-- `Metadata`; `unused` is all the bits of the first word that have no use.
pub record Metadata : Type 0 where
  pub block_count : ℕ
  pub fragment_type : ℕ
  pub version : ℕ
  pub missing_data : ℕ
  pub has_index : ℕ
  pub unused : ℕ
  pub index_offset : ℕ

-- The two words of the metadata, from `a` on.
unfoldable pub decode_metadata : (ℕ → ℕ) → ℕ → Metadata
decode_metadata d a = record {
  block_count = d a % 2 ^ 16;
  fragment_type = d a / 2 ^ 16 % 2 ^ 8;
  version = d a / 2 ^ 24 % 2 ^ 4;
  missing_data = d a / 2 ^ 28 % 2;
  has_index = d a / 2 ^ 29 % 2;
  unused = d a / 2 ^ 30 % 2 ^ 34;
  index_offset = d (a + 1) % 2 ^ 64;
}

-- `MetadataV0` has a word of bit fields and the index, 101 words; `UpgradeMetadata` keeps the index there. The
-- words that it leaves uninitialised, `unused` and `index_offset`, are not read when there is an index.
abbrev pub words_v0 : ℕ
words_v0 = 101

unfoldable pub upgrade_metadata : (ℕ → ℕ) → ℕ → Metadata
upgrade_metadata d a = record {
  block_count = d a % 2 ^ 55 % 2 ^ 16;
  fragment_type = d a / 2 ^ 55 % 2 ^ 8;
  version = 0;
  missing_data = d a / 2 ^ 63 % 2;
  has_index = 0;
  unused = 0;
  index_offset = 0;
}

-- `index_ptr_`: null, into the data, so many words after its beginning, or into the metadata.
pub data Index : Type 0 where
  no_index in_metadata : Index
  in_data : ℕ → Index

pub record Container : Type 0 where
  pub fragment : Fragment
  pub index : Index
  pub upgraded : Option Metadata

pub data Trouble : Type 0 where
  argument_out_of_range invalid_index wrong_fragment_type invalid_fragment : Trouble
  failed_assertion out_of_bounds misaligned : Trouble
  of_fragment : Refusal → Trouble

pub data Result {ℓ} (A : Type ℓ) : Type ℓ where
  done : A → Result A
  stopped : Trouble → Result A

-- An operation on a container.
abbrev pub C : Type 0 → Type 0
C A = Container → Result (A × Container)

abbrev pub give : {A : Type 0} → A → C A
give a c = done (a, c)

abbrev pub stop : {A : Type 0} → Trouble → C A
stop t c = stopped t

abbrev pub next : {A B : Type 0} → (A → C B) → Result (A × Container) → Result (B × Container)
next k (done (a, c)) = k a c
next k (stopped t) = stopped t

infixl 5 ◌>>=◌ ◌>>◌
abbrev pub ◌>>=◌ : {A B : Type 0} → C A → (A → C B) → C B
◌>>=◌ m k c = next k (m c)

abbrev pub ◌>>◌ : {A B : Type 0} → C A → C B → C B
m >> k = m >>= λ _. k

abbrev pub looks : {A : Type 0} → (Container → A) → C A
looks g c = done (g c, c)

abbrev pub changes : (Container → Container) → C (Unit {0})
changes g c = done (tt, g c)

-- An operation on the fragment.
abbrev pub put_back :
    {A : Type 0} → Container → Fragment.Result (A × Fragment) → Result (A × Container)
put_back c (Fragment.done (a, f)) = done (a, record c { fragment = f })
put_back c (Fragment.refused r) = stopped (of_fragment r)

abbrev pub lift : {A : Type 0} → F A → C A
lift m c = put_back c (m c.fragment)

abbrev pub word_at : ℕ → C ℕ
word_at k = looks λ c. c.fragment.vals.data_ k

-- An offset in bytes, as words.
unfoldable pub aligned : ℕ → C ℕ
aligned offset = if offset % 8 == 0 then give (offset / 8) else stop misaligned

unfoldable pub construct_container : Fragment → Container
construct_container f = record { fragment = f; index = no_index; upgraded = none }

-- `metadata()`
unfoldable pub upgrade : C Metadata
upgrade = do
  at ← lift metadata_address
  m ← looks λ c. upgrade_metadata c.fragment.vals.data_ at
  changes λ c. record c { upgraded = some m; index = in_metadata }
  give m

unfoldable pub read_metadata : C Metadata
read_metadata = do
  size ← lift fragment_size
  payload ← lift data_size
  head ← lift header_size_words
  if sub64 (sub64 size payload) head == words_v0
      then upgrade
      else (do at ← lift metadata_address; looks λ c. decode_metadata c.fragment.vals.data_ at)

unfoldable pub container_metadata : C Metadata
container_metadata c = elim c.upgraded [ some m ↦ done (m, c) | none ↦ read_metadata c ]

unfoldable pub block_count : C ℕ
block_count = do m ← container_metadata; give m.block_count

unfoldable pub contained_type : C ℕ
contained_type = do m ← container_metadata; give m.fragment_type

unfoldable pub missing_data : C Bool
missing_data = do m ← container_metadata; give (not (m.missing_data == 0))

-- `reset_index_ptr_`: the index is the one that the metadata points to, if the magic word ends it.
unfoldable pub reset_index_ptr : C (Unit {0})
reset_index_ptr = do
  m ← container_metadata
  start ← lift data_begin
  o ← aligned m.index_offset
  check ← word_at (start + o + m.block_count)
  if not (m.has_index == 0) && check == container_magic
      then changes (λ c. record c { index = in_data o })
      else stop invalid_index

-- `get_index_`: the word at which the index begins.
unfoldable pub index_begin : C ℕ
index_begin c = elim c.index [
  | no_index ↦ stopped invalid_index
  | in_metadata ↦ next (λ at. give (at + 1)) (lift metadata_address c)
  | in_data o ↦ next (λ start. give (start + o)) (lift data_begin c)
]

unfoldable pub get_index : C ℕ
get_index c = elim c.index [
  | no_index ↦ next (λ _. index_begin) (reset_index_ptr c)
  | in_metadata ↦ index_begin c
  | in_data o ↦ index_begin c
]

unfoldable pub fragment_index : ℕ → C ℕ
fragment_index index = do
  count ← block_count
  if ltb count index
      then stop argument_out_of_range
      else (if index == 0 then give 0 else (do start ← get_index; word_at (start + (index - 1))))

unfoldable pub last_fragment_index : C ℕ
last_fragment_index = do count ← block_count; fragment_index count

unfoldable pub frag_size : ℕ → C ℕ
frag_size index = do
  count ← block_count
  if leb count index || count == 0 then stop argument_out_of_range else (do
    end ← fragment_index (index + 1)
    if index == 0 then give end else (do begin ← fragment_index index; give (sub64 end begin)))

abbrev pub hold : Fragment.Result (Unit {0} × Fragment) → C Fragment
hold (Fragment.done (_, f)) c = done (f, c)
hold (Fragment.refused r) c = stopped (of_fragment r)

-- The fragment that `at` allocates, for `size` bytes.
unfoldable pub allocate : (ℕ → ℕ) → ℕ → Timespec → C Fragment
allocate fresh size now =
    if ltb size (8 * num_words)
    then hold (construct_empty fresh now)
    else hold (construct_sized fresh (size / 8 - num_words) now)

-- `at` and `operator[]`
unfoldable pub at : (ℕ → ℕ) → ℕ → Timespec → C Fragment
at fresh index now = do
  count ← block_count
  if leb count index || count == 0 then stop argument_out_of_range else (do
    size ← frag_size index
    frag ← allocate fresh size now
    start ← lift data_begin
    offset ← fragment_index index
    o ← aligned offset
    n ← aligned size
    source ← looks λ c. c.fragment.vals.data_
    give (
        with_vals (record (frag.vals) { data_ = copy_from frag.vals.data_ source 0 (start + o) n })
          frag))

-- `create_index_`: the ends of the `left` fragments from the word `current` on, then the magic word.
unfoldable pub walk : (ℕ → ℕ) → (left current offset : ℕ) → List ℕ
walk d zero current offset = container_magic ∷ []
walk d (suc left) current offset =
    let n = d current % 2 ^ 32 in
    let end = add64 offset (mul64 n 8) in let rest = walk d left (current + n) end in end ∷ rest

unfoldable pub create_index : C (List ℕ)
create_index = do
  m ← container_metadata
  start ← lift data_begin
  looks λ c. walk c.fragment.vals.data_ m.block_count start 0
