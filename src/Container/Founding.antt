-- ===== src/Container/Founding.antt =====
-- What the constructor of artdaq-core/Data/ContainerFragmentLoader.hh makes of an empty fragment.
use artdaq_core.Prelude.{ℕ, ◌%◌, ◌^◌, ◌<◌, ◌≡◌, inl, refl, ap, arith, ◌∙◌}
use artdaq_core.Header.{RawFragmentHeader, decode, set_system_type, num_words}
use artdaq_core.Header.Bits.{FitsBits, decode-encode}
use artdaq_core.Fragment.{Fragment, after, set_system_type_of, put_header, resize_fragment}
use artdaq_core.Fragment as Fragment
use artdaq_core.Fragment.Layout.{IsCurrent, Reshaped, decode-FitsBits, fragment_header_form, stored}
use artdaq_core.Fragment.Queries.{fragment_size}
use artdaq_core.Fragment.Resizing.{resize_fragment-Reshaped}
use artdaq_core.Fragment.Metadata.{set_metadata}
use artdaq_core.Fragment.Annotating.{Annotated}
use artdaq_core.Fragment.Annotating.Setting.{metadata-set_metadata}
use artdaq_core.Container.{
  container_magic, Container, done, next, construct_container, decode_metadata,
}
use artdaq_core.Container.Loader.{
  container_fragment_type, first_metadata, metadata_word, words_to_frag_words, store_words,
  start_container, construct_loader,
}
use artdaq_core.Container.Reading.{IsContainer, metadata_of, data_start, begin_form}
use artdaq_core.Container.Storing.{
  FitsMetadata, decode_metadata-metadata_word, Filled, store_words-Filled,
}
use artdaq_core.Container.Adding.{Contains}

-- The header of a container.
abbrev contained : RawFragmentHeader → RawFragmentHeader
contained h = record h { type_ = container_fragment_type }

contained-FitsBits : (h : RawFragmentHeader) → FitsBits h → FitsBits (contained h)
contained-FitsBits h b = record {
  word_count = b.word_count;
  version = b.version;
  type_ = ground arith;
  metadata_word_count = b.metadata_word_count;
  sequence_id = b.sequence_id;
  fragment_id = b.fragment_id;
  timestamp = b.timestamp;
  valid = b.valid;
  complete = b.complete;
  atime_ns = b.atime_ns;
  atime_s = b.atime_s;
}

module _ (f : Fragment) (cur : IsCurrent f) where
  abbrev h : RawFragmentHeader
  h = decode f.vals.data_

  abbrev named : Fragment
  named = stored f cur.own (contained h)

  named_header : decode named.vals.data_ ≡ contained h
  named_header =
      decode-encode (contained h) f.vals.data_ (contained-FitsBits h (decode-FitsBits f.vals.data_))

  names : set_system_type_of container_fragment_type f ≡ Fragment.done (tt, named)
  unfolding set_system_type_of set_system_type put_header
  names = rw (fragment_header_form f cur.own) (rw (after, cur.own.upgraded_header) refl)

  named-IsCurrent : IsCurrent named
  named-IsCurrent = record {
    own = record {
      upgraded_header = cur.own.upgraded_header;
      version = ap (λ x. x.version) named_header ∙ cur.own.version;
    };
    valid = cur.valid;
    word_count = ap (λ x. x.word_count) named_header ∙ cur.word_count;
    room = rw named_header cur.room;
  }

first_metadata-FitsMetadata :
    (unused expected : ℕ) → unused < 2 ^ 34 → FitsMetadata (first_metadata unused expected)
unfolding first_metadata
first_metadata-FitsMetadata unused expected lt = record {
  block_count = ground arith;
  fragment_type = omega arith;
  version = ground arith;
  missing_data = ground arith;
  has_index = ground arith;
  unused = lt;
  index_offset = ground arith;
}

module _ (fresh : ℕ → ℕ) (unused expected : ℕ) where
  abbrev md : ℕ → ℕ
  md = metadata_word (first_metadata unused expected)

  start_step :
      (f f₁ f₂ f₃ : Fragment) (c : Container)
      → set_system_type_of container_fragment_type f ≡ Fragment.done (tt, f₁)
      → set_metadata fresh md 2 f₁ ≡ Fragment.done (tt, f₂)
      → fragment_size f₂ ≡ Fragment.done (6, f₂)
      → resize_fragment fresh 1 f₂ ≡ Fragment.done (tt, f₃)
      → Fragment.data_begin f₃ ≡ Fragment.done (data_start, f₃)
      → store_words (λ _. container_magic) data_start 1 (construct_container f₃) ≡ done (tt, c)
      → construct_loader fresh unused expected f ≡ done (tt, c)
  unfolding construct_loader start_container construct_container words_to_frag_words
  start_step f f₁ f₂ f₃ c e₁ e₂ e₃ e₄ e₅ e₆ =
      rw e₁ (rw (next, e₂) (rw (next, e₃) (rw (next, e₄) (rw (next, e₅) e₆))))

  -- The resized fragment, with the metadata.
  module _ (f₁ f₂ f₃ : Fragment) (cur : IsCurrent f₁) (alone : f₁.vals.size ≡ num_words)
      (a : Annotated md 2 f₁ f₂) (r : Reshaped 1 f₂ f₃) where
    counted : fragment_size f₂ ≡ Fragment.done (6, f₂)
    unfolding fragment_size
    counted = rw (fragment_header_form f₂ a.current.own, a.current.word_count, a.size, alone) refl

    few : (decode f₂.vals.data_).metadata_word_count ≡ 2
    few = ap (λ h. h.metadata_word_count) a.header

    resized-IsContainer : IsContainer (construct_container f₃)
    unfolding construct_container
    resized-IsContainer = record {
      current = r.current;
      metadata_words = ap (λ h. h.metadata_word_count) r.header ∙ few;
      upgraded = refl;
    }

    resized_size : f₃.vals.size ≡ 7
    resized_size = omega (arith, r.size, few)

    resized_metadata :
        unused < 2 ^ 34 → decode_metadata f₃.vals.data_ num_words ≡ first_metadata unused expected
    resized_metadata lt =
        decode_metadata-metadata_word f₃.vals.data_ num_words (first_metadata unused expected)
          (first_metadata-FitsMetadata unused expected lt)
          (r.words 4 (omega arith) (omega (arith, resized_size)) (omega (arith, a.size, alone))
            ∙ a.words 0 (omega arith))
          (r.words 5 (omega arith) (omega (arith, resized_size)) (omega (arith, a.size, alone))
            ∙ a.words 1 (omega arith))

    founded-Contains :
        (c : Container)
        → unused < 2 ^ 34
        → Filled (λ _. container_magic) data_start 1 (construct_container f₃) c
        → Contains 0 (λ _. 0) c
    unfolding first_metadata construct_container
    founded-Contains c lt q =
        let m = q.metadata ∙ resized_metadata lt in
        record {
          index = record {
            container = q.container;
            block_count = ap (λ m. m.block_count) m;
            has_index = ap (λ m. m.has_index) m;
            index_offset = ap (λ m. m.index_offset) m;
            first = refl;
            order = λ k below. absurd (omega (arith, below));
            ends_at = λ k below. absurd (omega (arith, below));
            magic = q.inside 0 (omega arith);
            room = omega (arith, q.size, resized_size);
            index = inl q.index;
          };
          stands = record {
            first = refl;
            order = λ k below. absurd (omega (arith, below));
            counted = λ k below. absurd (omega (arith, below));
            small = ground arith;
          };
          sized = λ k below. absurd (omega (arith, below));
        }

  -- On a fragment of the current version that is a header without metadata and data, the constructor
  -- succeeds: it makes a container of no fragment, whose index is valid, and which has the type that was
  -- expected, whatever the unused bits of the metadata hold.
  pub construct_loader-Contains :
      (f : Fragment)
      → IsCurrent f
      → f.vals.size ≡ num_words
      → (decode f.vals.data_).metadata_word_count ≡ 0
      → unused < 2 ^ 34
      → (c : Container) × (construct_loader fresh unused expected f ≡ done (tt, c))
        × Contains 0 (λ _. 0) c
        × ((metadata_of c).fragment_type ≡ expected % 2 ^ 8)
        × ((metadata_of c).missing_data ≡ 0)
  unfolding first_metadata construct_container
  construct_loader-Contains f cur alone bare lt =
      let f₁ = named f cur in
      let cur₁ = named-IsCurrent f cur in
      let (f₂, e₂, a) =
        metadata-set_metadata fresh md 2 f₁ cur₁
          (ap (λ h. h.metadata_word_count) (named_header f cur) ∙ bare) (omega arith) (omega arith)
          (omega (arith, alone)) in
      let (f₃, e₃, r) =
        resize_fragment-Reshaped fresh 1 f₂ a.current
          (omega (arith, ap (λ h. h.metadata_word_count) a.header)) in
      let is = resized-IsContainer f₁ f₂ f₃ cur₁ alone a r in
      let size = resized_size f₁ f₂ f₃ cur₁ alone a r in
      let (c, e₄, q) =
        store_words-Filled (λ _. container_magic) data_start 1 (construct_container f₃) is
          (omega arith) (omega (arith, size)) in
      let m = q.metadata ∙ resized_metadata f₁ f₂ f₃ cur₁ alone a r lt in
      (
        c,
        start_step f f₁ f₂ f₃ c (names f cur) e₂ (counted f₁ f₂ f₃ cur₁ alone a r) e₃
            (begin_form (construct_container f₃) is) e₄,
        founded-Contains f₁ f₂ f₃ cur₁ alone a r c lt q,
        ap (λ m. m.fragment_type) m,
        ap (λ m. m.missing_data) m,
      )
