-- ===== src/Container/Loader.antt =====
-- artdaq-core/Data/ContainerFragmentLoader.hh: fragments are added at the end of a container, and the index is
-- made again behind them. `fresh` is what new memory holds. A store outside the elements of the vector ends the
-- model of a call as `out_of_bounds`, and so does the read of the index before its first word.
use artdaq_core.Prelude.{
  ℕ, zero, suc, ◌+◌, ◌*◌, ◌/◌, ◌%◌, ◌^◌, Bool, not, ◌&&◌, Option, none, some, List, [], ◌∷◌, length,
  get_elem?, ltb, leb, ◌==◌, if◌then◌else◌,
}
use artdaq_core.Prelude.Words.{add64, sub64, mul64}
use artdaq_core.QuickVec.{copy_from}
use artdaq_core.Header.{RawFragmentHeader, num_words, current_version, word}
use artdaq_core.Fragment.{
  Fragment, F, with_vals, has_metadata, header_size_words, data_begin, data_size,
  set_system_type_of, resize_fragment, resize_bytes_with_cushion,
}
use artdaq_core.Fragment as Fragment
use artdaq_core.Fragment.Queries.{fragment_type, fragment_size, sequence_id_of, fragment_id_of}
use artdaq_core.Fragment.Metadata.{set_metadata}
use artdaq_core.Container.{
  container_magic, Metadata, decode_metadata, Container, C, Result, done, stopped,
  wrong_fragment_type, invalid_fragment, failed_assertion, out_of_bounds, of_fragment, give, stop,
  looks, changes, lift, word_at, aligned, construct_container, block_count, reset_index_ptr,
  fragment_index, last_fragment_index, create_index, ◌>>=◌, ◌>>◌,
}

abbrev pub empty_fragment_type : ℕ
empty_fragment_type = 231

abbrev pub container_fragment_type : ℕ
container_fragment_type = 232

abbrev pub container_version : ℕ
container_version = 1

-- The words of the metadata.
unfoldable pub metadata_word : Metadata → ℕ → ℕ
metadata_word m zero =
    m.block_count % 2 ^ 16
    + m.fragment_type % 2 ^ 8 * 2 ^ 16
    + m.version % 2 ^ 4 * 2 ^ 24
    + m.missing_data % 2 * 2 ^ 28
    + m.has_index % 2 * 2 ^ 29
    + m.unused % 2 ^ 34 * 2 ^ 30
metadata_word m (suc k) = m.index_offset % 2 ^ 64

-- Words of the vector; `n` words from `start` on must be elements.
abbrev pub with_words : (ℕ → ℕ) → Container → Container
with_words d c = record c {
  fragment = with_vals (record (c.fragment.vals) { data_ = d }) c.fragment;
}

unfoldable pub store_words : (ℕ → ℕ) → (start n : ℕ) → C (Unit {0})
store_words source start n c =
    if leb (start + n) c.fragment.vals.size
    then done (tt, with_words (copy_from c.fragment.vals.data_ source start 0 n) c)
    else stopped out_of_bounds

-- `metadata()` of the loader: the words themselves, and a store in them.
unfoldable pub metadata_position : C ℕ
metadata_position = do
  there ← lift has_metadata
  if there then lift header_size_words else stop failed_assertion

unfoldable pub loader_metadata : C Metadata
loader_metadata = do at ← metadata_position; looks λ c. decode_metadata c.fragment.vals.data_ at

unfoldable pub store_metadata : (Metadata → Metadata) → C (Unit {0})
store_metadata g = do
  at ← metadata_position
  m ← looks λ c. decode_metadata c.fragment.vals.data_ at
  changes λ c. with_words (copy_from c.fragment.vals.data_ (metadata_word (g m)) at 0 2) c

unfoldable pub set_fragment_type : ℕ → C (Unit {0})
set_fragment_type type = store_metadata λ m. record m { fragment_type = type % 2 ^ 8 }

unfoldable pub set_missing_data : Bool → C (Unit {0})
set_missing_data missing = store_metadata λ m. record m { missing_data = if missing then 1 else 0 }

unfoldable pub words_to_frag_words : ℕ → ℕ
words_to_frag_words n = if not (n % 8 == 0) then n / 8 + 1 else n / 8

abbrev pub metadata_bytes : ℕ
metadata_bytes = 16

-- The metadata of a new container; `unused` is what the uninitialised bits hold.
unfoldable pub first_metadata : (unused expected : ℕ) → Metadata
first_metadata unused expected = record {
  block_count = 0;
  fragment_type = expected % 2 ^ 8;
  version = container_version;
  missing_data = 0;
  has_index = 1;
  unused = unused;
  index_offset = 0;
}

unfoldable pub start_container : (ℕ → ℕ) → (unused expected : ℕ) → C (Unit {0})
start_container fresh unused expected = do
  lift (set_system_type_of container_fragment_type)
  lift (set_metadata fresh (metadata_word (first_metadata unused expected)) 2)
  size ← lift fragment_size
  if size == num_words + words_to_frag_words metadata_bytes
      then (do
        lift (resize_fragment fresh 1)
        start ← lift data_begin
        store_words (λ _. container_magic) start 1)
      else stop invalid_fragment

unfoldable pub construct_loader :
    (ℕ → ℕ) → (unused expected : ℕ) → Fragment → Result (Unit {0} × Container)
construct_loader fresh unused expected f =
    start_container fresh unused expected (construct_container f)

-- `dataEnd_`, as a word of the vector.
unfoldable pub data_end : C ℕ
data_end = do
  start ← lift data_begin
  offset ← last_fragment_index
  o ← aligned offset
  give (start + o)

unfoldable pub data_size_bytes : C ℕ
data_size_bytes = do n ← lift data_size; give (mul64 8 n)

-- The type of the first fragment becomes that of the container.
unfoldable pub accept_type : (allow : Bool) → ℕ → C (Unit {0})
accept_type allow type = do
  m ← loader_metadata
  if m.fragment_type == empty_fragment_type
      then set_fragment_type type
      else if not allow && not (type == m.fragment_type)
      then stop wrong_fragment_type
      else give tt

abbrev pub found : Option ℕ → C ℕ
found none = stop out_of_bounds
found (some o) = give o

-- The word of an index before `count`.
unfoldable pub end_of : List ℕ → (count : ℕ) → C ℕ
end_of index zero = stop out_of_bounds
end_of index (suc k) = found (get_elem? index k)

abbrev pub word_in : Option ℕ → ℕ
word_in none = 0
word_in (some o) = o

abbrev pub word_of : List ℕ → ℕ → ℕ
word_of index k = word_in (get_elem? index k)

-- `k` more blocks, and the index after them.
unfoldable pub close_index : ℕ → C (Unit {0})
close_index k = do
  store_metadata λ m. record m { has_index = 0 }
  store_metadata λ m. record m { block_count = (m.block_count + k) % 2 ^ 16 }
  index ← create_index
  m ← loader_metadata
  offset ← end_of index m.block_count
  store_metadata λ m. record m { index_offset = offset }
  start ← lift data_begin
  o ← aligned offset
  store_words (word_of index) (start + o) (m.block_count + 1)
  store_metadata λ m. record m { has_index = 1 }
  reset_index_ptr

-- What another fragment answers.
abbrev pub hear : {A : Type 0} → Fragment.Result (A × Fragment) → C A
hear (Fragment.done (a, _)) c = done (a, c)
hear (Fragment.refused r) c = stopped (of_fragment r)

abbrev pub ask : {A : Type 0} → F A → Fragment → C A
ask q f = hear (q f)

-- `total_size`
unfoldable pub total_size : List Fragment → C ℕ
total_size [] = give 0
total_size (frag ∷ frags) = do
  n ← ask fragment_size frag
  rest ← total_size frags
  give (add64 (mul64 8 n) rest)

-- The loop that copies, from the word `to` on.
unfoldable pub copy_all : List Fragment → (allow : Bool) → (to : ℕ) → C (Unit {0})
copy_all [] allow to = give tt
copy_all (frag ∷ frags) allow to = do
  type ← ask fragment_type frag
  accept_type allow type
  n ← ask fragment_size frag
  store_words frag.vals.data_ to n
  copy_all frags allow (to + n)

-- `lastFragmentHeader`: the word at which it stands.
unfoldable pub last_fragment_header : C ℕ
last_fragment_header = do
  start ← lift data_begin
  count ← block_count
  offset ← fragment_index (sub64 count 1)
  o ← aligned offset
  give (start + o)

module _ (fresh later : ℕ → ℕ) (grown : ℕ → ℕ) where
  -- `addSpace_`
  unfoldable pub add_space : ℕ → C (Unit {0})
  add_space bytes = do
    size ← data_size_bytes
    lift (resize_bytes_with_cushion fresh later grown (add64 bytes size))
    reset_index_ptr

  -- Room for `bytes` more of fragments, and for an index of `words` words more than there are blocks.
  unfoldable pub make_space : (bytes words : ℕ) → C (Unit {0})
  make_space bytes words = do
    have ← data_size_bytes
    end ← last_fragment_index
    m ← loader_metadata
    let need = add64 (add64 end bytes) (mul64 8 (m.block_count + words)) in
        if ltb have need then add_space (sub64 need have) else give tt

  unfoldable pub add_fragment : Fragment → (allow : Bool) → C (Unit {0})
  add_fragment frag allow = do
    type ← ask fragment_type frag
    accept_type allow type
    n ← ask fragment_size frag
    make_space (mul64 8 n) 2
    end ← data_end
    store_words frag.vals.data_ end n
    close_index 1

  unfoldable pub add_fragments : List Fragment → (allow : Bool) → C (Unit {0})
  add_fragments frags allow = do
    total ← total_size frags
    make_space total (1 + length frags)
    end ← data_end
    copy_all frags allow end
    close_index (length frags)

  -- `hdr` is the header before its fields are set.
  unfoldable pub append_fragment : RawFragmentHeader → (nwords : ℕ) → C ℕ
  append_fragment hdr nwords = do
    make_space (mul64 8 (add64 nwords num_words)) 2
    seq ← lift sequence_id_of
    m ← loader_metadata
    id ← lift fragment_id_of
    end ← data_end
    store_words
        (word (record hdr {
          sequence_id = seq;
          type_ = m.fragment_type;
          word_count = add64 nwords num_words % 2 ^ 32;
          fragment_id = id;
          version = current_version;
        }))
        end num_words
    close_index 1
    last_fragment_header

  unfoldable pub resize_last_fragment : (nwords : ℕ) → C (Unit {0})
  resize_last_fragment nwords = do
    at ← last_fragment_header
    first ← word_at at
    let current = sub64 (first % 2 ^ 32) num_words in
        (do
          store_words (λ _. first / 2 ^ 32 * 2 ^ 32 + add64 nwords num_words % 2 ^ 32) at 1
          if ltb current nwords then add_space (mul64 (sub64 nwords current) 8) else give tt
          close_index 0)
