-- ===== src/Container/Reading.antt =====
-- Reading a container, artdaq-core/Data/ContainerFragment.hh, whose index is where its metadata says.
use artdaq_core.Prelude.{
  ℕ, ◌+◌, ◌-◌, ◌*◌, ◌%◌, ◌<◌, ◌≤◌, ◌≡◌, ◌⊎◌, inl, inr, refl, ap, arith, ◌∙◌, sym, subst, true,
  false, none, ltb, ◌==◌,
}
use artdaq_core.Prelude.Words.{sub64}
use artdaq_core.Header.{decode, num_words}
use artdaq_core.Fragment.{
  Fragment, F, header_size_words, data_begin, data_size, version, after, with_vals,
}
use artdaq_core.Fragment as Fragment
use artdaq_core.Fragment.Queries.{fragment_size}
use artdaq_core.Fragment.Layout.{IsCurrent, fragment_header_form, data_begin_form, data_size_form}
use artdaq_core.Fragment.Metadata.{metadata_address}
use artdaq_core.Container.{
  container_magic, words_v0, Metadata, decode_metadata, Container, Index, no_index, in_data, done,
  next, read_metadata, container_metadata, block_count, reset_index_ptr, index_begin, get_index,
  aligned, fragment_index,
}

abbrev pub metadata_words : ℕ
metadata_words = 2

-- Where the fragments begin.
abbrev pub data_start : ℕ
data_start = 6

-- A container whose fragment is of the current version and has the two words of metadata.
pub record IsContainer (c : Container) : Type 0 where
  pub current : IsCurrent c.fragment
  pub metadata_words : (decode c.fragment.vals.data_).metadata_word_count ≡ 2
  pub upgraded : c.upgraded ≡ none

abbrev pub metadata_of : Container → Metadata
metadata_of c = decode_metadata c.fragment.vals.data_ num_words

-- `count` fragments, of which the one at `k` stands from the word `ends k` of the data on and ends before
-- the word `ends (k + 1)`; behind them is the index, with these ends in bytes and the magic word.
pub record Indexed (count : ℕ) (ends : ℕ → ℕ) (c : Container) : Type 0 where
  pub container : IsContainer c
  pub block_count : (metadata_of c).block_count ≡ count
  pub has_index : (metadata_of c).has_index ≡ 1
  pub index_offset : (metadata_of c).index_offset ≡ 8 * ends count
  pub first : ends 0 ≡ 0
  pub order : (k : ℕ) → k < count → (ends k ≤ ends (k + 1)) × (ends (k + 1) ≤ ends count)
  pub ends_at :
      (k : ℕ) → k < count → c.fragment.vals.data_ (data_start + ends count + k) ≡ 8 * ends (k + 1)
  pub magic : c.fragment.vals.data_ (data_start + ends count + count) ≡ container_magic
  pub room : data_start + ends count + count < c.fragment.vals.size
  pub index : (c.index ≡ no_index) ⊎ (c.index ≡ in_data (ends count))

module _ (c : Container) (is : IsContainer c) where
  abbrev f : Fragment
  f = c.fragment

  pub begin_form : data_begin f ≡ Fragment.done (data_start, f)
  begin_form = rw (data_begin_form f is.current.own, is.metadata_words) refl

  size_form : fragment_size f ≡ Fragment.done (f.vals.size, f)
  unfolding fragment_size
  size_form = rw (fragment_header_form f is.current.own, is.current.word_count) refl

  head_form : header_size_words f ≡ Fragment.done (num_words, f)
  unfolding header_size_words version
  head_form = rw is.current.own.version refl

  pub address_is : metadata_address f ≡ Fragment.done (num_words, f)
  unfolding metadata_address
  address_is = rw (fragment_header_form f is.current.own) (rw (after, is.metadata_words) head_form)

  pub payload_form : data_size f ≡ Fragment.done (f.vals.size - data_start, f)
  payload_form =
      rw (data_size_form f is.current.own, is.metadata_words)
        (ap (λ n. Fragment.done (n, f))
          (omega (arith, is.current.room, is.metadata_words, is.current.valid)))

  pub metadata_form : container_metadata c ≡ done (metadata_of c, c)
  unfolding container_metadata read_metadata
  metadata_form =
      let plain : (sub64 (sub64 f.vals.size (f.vals.size - data_start)) num_words == words_v0)
          ≡ false =
        ground (arith, is.current.room, is.metadata_words, is.current.valid) in
      rw is.upgraded (
        rw size_form
          (rw (next, payload_form) (rw (next, head_form) (rw (next, plain) (rw address_is refl)))))

  pub block_count_form : block_count c ≡ done ((metadata_of c).block_count, c)
  unfolding block_count
  block_count_form = rw metadata_form refl

pub aligned_form : (w : ℕ) (c : Container) → aligned (8 * w) c ≡ done (w, c)
unfolding aligned
aligned_form w c =
    let exact : (8 * w % 8 == 0) ≡ true = ground arith in
    rw exact (ap (λ n. done (n, c)) (omega arith))

-- The container, once its index was looked up.
abbrev pub looked_up : ℕ → (ℕ → ℕ) → Container → Container
looked_up count ends c = record c { index = in_data (ends count) }

module _ (count : ℕ) (ends : ℕ → ℕ) where
  pub looked_up-IsContainer : (c : Container) → IsContainer c → IsContainer (looked_up count ends c)
  looked_up-IsContainer c is = record {
    current = is.current;
    metadata_words = is.metadata_words;
    upgraded = is.upgraded;
  }

  pub looked_up-Indexed :
      (c : Container) → Indexed count ends c → Indexed count ends (looked_up count ends c)
  looked_up-Indexed c x = record {
    container = looked_up-IsContainer c x.container;
    block_count = x.block_count;
    has_index = x.has_index;
    index_offset = x.index_offset;
    first = x.first;
    order = x.order;
    ends_at = x.ends_at;
    magic = x.magic;
    room = x.room;
    index = inr refl;
  }

  -- What `reset_index_ptr_` needs.
  pub reset_form :
      (c : Container)
      → IsContainer c
      → (metadata_of c).block_count ≡ count
      → (metadata_of c).has_index ≡ 1
      → (metadata_of c).index_offset ≡ 8 * ends count
      → c.fragment.vals.data_ (data_start + ends count + count) ≡ container_magic
      → reset_index_ptr c ≡ done (tt, looked_up count ends c)
  unfolding reset_index_ptr
  reset_form c is blocks has offset magic = rw (metadata_form c is) (
      rw (next, begin_form c is)
        (rw (next, offset, aligned_form (ends count) c) (rw (next, blocks, magic, has) refl)))

  module _ (c : Container) (x : Indexed count ends c) where
    abbrev c' : Container
    c' = looked_up count ends c

    index_begin_form : index_begin c' ≡ done (data_start + ends count, c')
    unfolding index_begin
    index_begin_form = rw (begin_form c x.container) refl

    abbrev Got : Index → Type 0
    Got i = get_index (record c { index = i }) ≡ done (data_start + ends count, c')

    Got-none : Got no_index
    unfolding get_index
    Got-none =
        ap (next (λ _. index_begin)) (
          reset_form (record c { index = no_index })
            (record {
              current = x.container.current;
              metadata_words = x.container.metadata_words;
              upgraded = x.container.upgraded;
            })
            x.block_count x.has_index x.index_offset x.magic)
        ∙ index_begin_form

    Got-there : Got (in_data (ends count))
    unfolding get_index
    Got-there = index_begin_form

    get_index_form : get_index c ≡ done (data_start + ends count, c')
    get_index_form = elim x.index [
      | inl e ↦ subst Got (sym e) Got-none
      | inr e ↦ subst Got (sym e) Got-there
    ]

    pub fragment_index_form :
        (k : ℕ) → k < count → fragment_index (k + 1) c ≡ done (8 * ends (k + 1), c')
    unfolding fragment_index
    fragment_index_form k lt =
        let there : ltb count (k + 1) ≡ false = ground arith in
        let later : (k + 1 == 0) ≡ false = ground arith in
        let before : k + 1 - 1 ≡ k = omega arith in
        rw (block_count_form c x.container) (
          rw (next, x.block_count, there, later, get_index_form)
            (rw (next, before, x.ends_at k lt) refl))
