-- ===== src/Container/Storing.antt =====
-- What the stores of artdaq-core/Data/ContainerFragmentLoader.hh change: the metadata, or words of the data.
use artdaq_core.Prelude.{
  ℕ, ◌+◌, ◌*◌, ◌/◌, ◌%◌, ◌^◌, ◌<◌, ◌≤◌, ◌≡◌, ◌⊎◌, inl, inr, refl, ap, arith, ◌∙◌, true, leb,
}
use artdaq_core.QuickVec.{copy_from}
use artdaq_core.QuickVec.Loops.{copy_from_inside, copy_from_outside}
use artdaq_core.Header.{decode, num_words}
use artdaq_core.Fragment.{has_metadata, header_size_words, version, after}
use artdaq_core.Fragment.Layout.{fragment_header_form, decode_same}
use artdaq_core.Container.{Metadata, decode_metadata, Container, done, next}
use artdaq_core.Container.Loader.{
  metadata_word, with_words, store_words, metadata_position, loader_metadata, store_metadata,
}
use artdaq_core.Container.Reading.{IsContainer, metadata_of, data_start}

-- Every field of the metadata fits its bits.
pub record FitsMetadata (m : Metadata) : Type 0 where
  pub block_count : m.block_count < 2 ^ 16
  pub fragment_type : m.fragment_type < 2 ^ 8
  pub version : m.version < 2 ^ 4
  pub missing_data : m.missing_data < 2
  pub has_index : m.has_index < 2
  pub unused : m.unused < 2 ^ 34
  pub index_offset : m.index_offset < 2 ^ 64

fields :
    (a b c e f g : ℕ)
    → a < 2 ^ 16
    → b < 2 ^ 8
    → c < 2 ^ 4
    → e < 2
    → f < 2
    → g < 2 ^ 34
    → let w =
        a % 2 ^ 16
        + b % 2 ^ 8 * 2 ^ 16
        + c % 2 ^ 4 * 2 ^ 24
        + e % 2 * 2 ^ 28
        + f % 2 * 2 ^ 29
        + g % 2 ^ 34 * 2 ^ 30 in
      (w % 2 ^ 16 ≡ a)
      × (w / 2 ^ 16 % 2 ^ 8 ≡ b)
      × (w / 2 ^ 24 % 2 ^ 4 ≡ c)
      × (w / 2 ^ 28 % 2 ≡ e)
      × (w / 2 ^ 29 % 2 ≡ f)
      × (w / 2 ^ 30 % 2 ^ 34 ≡ g)
fields a b c e f g ha hb hc he hf hg =
    (omega arith, omega arith, omega arith, omega arith, omega arith, omega arith)

-- Metadata whose fields fit their bits is read back from its words.
pub decode_metadata-metadata_word :
    (d : ℕ → ℕ) (at : ℕ) (m : Metadata)
    → FitsMetadata m
    → d at ≡ metadata_word m 0
    → d (at + 1) ≡ metadata_word m 1
    → decode_metadata d at ≡ m
unfolding decode_metadata metadata_word
decode_metadata-metadata_word d at m fits e₀ e₁ =
    let (a, b, c, e, f, g) =
      fields m.block_count m.fragment_type m.version m.missing_data m.has_index m.unused
        fits.block_count fits.fragment_type fits.version fits.missing_data fits.has_index
        fits.unused in
    let o : m.index_offset % 2 ^ 64 % 2 ^ 64 ≡ m.index_offset = omega (arith, fits.index_offset) in
    rw (e₀, e₁) (rw (a, b, c, e, f, g, o) refl)

pub decode_metadata-FitsMetadata : (d : ℕ → ℕ) (at : ℕ) → FitsMetadata (decode_metadata d at)
unfolding decode_metadata
decode_metadata-FitsMetadata d at = record {
  block_count = omega arith;
  fragment_type = omega arith;
  version = omega arith;
  missing_data = omega arith;
  has_index = omega arith;
  unused = omega arith;
  index_offset = omega arith;
}

pub decode_metadata_same :
    (d e : ℕ → ℕ) (at : ℕ)
    → d at ≡ e at
    → d (at + 1) ≡ e (at + 1)
    → decode_metadata d at ≡ decode_metadata e at
unfolding decode_metadata
decode_metadata_same d e at p q = rw (p, q) refl

-- Words that differ from those of a container only behind its header.
pub with_words-IsContainer :
    (d : ℕ → ℕ) (c : Container)
    → IsContainer c
    → ((k : ℕ) → k < num_words → d k ≡ c.fragment.vals.data_ k)
    → IsContainer (with_words d c)
with_words-IsContainer d c is same =
    let e : decode d ≡ decode c.fragment.vals.data_ = decode_same d c.fragment.vals.data_ same in
    record {
      current = record {
        own = record {
          upgraded_header = is.current.own.upgraded_header;
          version = ap (λ h. h.version) e ∙ is.current.own.version;
        };
        valid = is.current.valid;
        word_count = ap (λ h. h.word_count) e ∙ is.current.word_count;
        room = rw e is.current.room;
      };
      metadata_words = ap (λ h. h.metadata_word_count) e ∙ is.metadata_words;
      upgraded = is.upgraded;
    }

module _ (c : Container) (is : IsContainer c) where
  position_form : metadata_position c ≡ done (num_words, c)
  unfolding metadata_position has_metadata header_size_words version
  position_form =
      rw (fragment_header_form c.fragment is.current.own)
        (rw (after, is.metadata_words) (rw (next, is.current.own.version) refl))

  pub loader_metadata_form : loader_metadata c ≡ done (metadata_of c, c)
  unfolding loader_metadata
  loader_metadata_form = rw position_form refl

  module _ (g : Metadata → Metadata) where
    abbrev pub stored_words : ℕ → ℕ
    stored_words = copy_from c.fragment.vals.data_ (metadata_word (g (metadata_of c))) num_words 0 2

    abbrev pub stored : Container
    stored = with_words stored_words c

    pub store_metadata_form : store_metadata g c ≡ done (tt, stored)
    unfolding store_metadata
    store_metadata_form = rw position_form refl

    pub stored-IsContainer : IsContainer stored
    stored-IsContainer =
        with_words-IsContainer stored_words c is
          (λ k lt. copy_from_outside c.fragment.vals.data_ _ num_words 0 2 k (inl lt))

    pub stored_data : (k : ℕ) → data_start ≤ k → stored_words k ≡ c.fragment.vals.data_ k
    stored_data k le = copy_from_outside c.fragment.vals.data_ _ num_words 0 2 k (inr le)

    pub stored_metadata : FitsMetadata (g (metadata_of c)) → metadata_of stored ≡ g (metadata_of c)
    stored_metadata fits =
        let m = g (metadata_of c) in
        decode_metadata-metadata_word stored_words num_words m fits
          (copy_from_inside c.fragment.vals.data_ (metadata_word m) num_words 0 2 0 (omega arith))
          (copy_from_inside c.fragment.vals.data_ (metadata_word m) num_words 0 2 1 (omega arith))

-- The container `c'` has the metadata `m`, and otherwise is `c`.
pub record Marked (m : Metadata) (c c' : Container) : Type 0 where
  pub container : IsContainer c'
  pub metadata : metadata_of c' ≡ m
  pub size : c'.fragment.vals.size ≡ c.fragment.vals.size
  pub capacity : c'.fragment.vals.capacity ≡ c.fragment.vals.capacity
  pub index : c'.index ≡ c.index
  pub kept : (k : ℕ) → data_start ≤ k → c'.fragment.vals.data_ k ≡ c.fragment.vals.data_ k

pub store_metadata-Marked :
    (g : Metadata → Metadata) (c : Container)
    → IsContainer c
    → FitsMetadata (g (metadata_of c))
    → (c' : Container) × (store_metadata g c ≡ done (tt, c')) × Marked (g (metadata_of c)) c c'
store_metadata-Marked g c is fits = (
  stored c is g,
  store_metadata_form c is g,
  record {
    container = stored-IsContainer c is g;
    metadata = stored_metadata c is g fits;
    size = refl;
    capacity = refl;
    index = refl;
    kept = stored_data c is g;
  },
)

-- The container `c'` has `n` of the words of `source` from `start` on, and otherwise is `c`.
pub record Filled (source : ℕ → ℕ) (start n : ℕ) (c c' : Container) : Type 0 where
  pub container : IsContainer c'
  pub metadata : metadata_of c' ≡ metadata_of c
  pub size : c'.fragment.vals.size ≡ c.fragment.vals.size
  pub index : c'.index ≡ c.index
  pub inside : (k : ℕ) → k < n → c'.fragment.vals.data_ (start + k) ≡ source k
  pub outside :
      (k : ℕ) → (k < start) ⊎ (start + n ≤ k) → c'.fragment.vals.data_ k ≡ c.fragment.vals.data_ k

pub store_words-Filled :
    (source : ℕ → ℕ) (start n : ℕ) (c : Container)
    → IsContainer c
    → data_start ≤ start
    → start + n ≤ c.fragment.vals.size
    → (c' : Container) × (store_words source start n c ≡ done (tt, c')) × Filled source start n c c'
unfolding store_words
store_words-Filled source start n c is low high =
    let d = copy_from c.fragment.vals.data_ source start 0 n in
    let fits : leb (start + n) c.fragment.vals.size ≡ true = ground arith in
    let below = λ (k : ℕ) (lt : k < data_start).
      copy_from_outside c.fragment.vals.data_ source start 0 n k (inl (omega arith)) in
    (
      with_words d c,
      rw fits refl,
      record {
        container = with_words-IsContainer d c is (λ k lt. below k (omega arith));
        metadata =
            decode_metadata_same d c.fragment.vals.data_ num_words (below 4 (omega arith))
              (below 5 (omega arith));
        size = refl;
        index = refl;
        inside = λ k lt.
            copy_from_inside c.fragment.vals.data_ source start 0 n k lt ∙ ap source (omega arith);
        outside = λ k far. copy_from_outside c.fragment.vals.data_ source start 0 n k far;
      },
    )
