-- ===== src/Container/Indexing.antt =====
-- The index that artdaq-core/Data/ContainerFragmentLoader.hh makes, and the metadata around it.
use artdaq_core.Prelude.{
  ℕ, suc, ◌+◌, ◌*◌, ◌%◌, ◌^◌, ◌<◌, ◌≤◌, ◌≡◌, refl, ap, arith, ◌∙◌, sym, subst, some, List,
  get_elem?,
}
use artdaq_core.Container.{container_magic, Metadata, Container, done, next, walk, create_index}
use artdaq_core.Container.Walk.{Stands, walk-Stands}
use artdaq_core.Container.Loader.{store_metadata, end_of, found, word_in, word_of}
use artdaq_core.Container.Reading.{
  IsContainer, Indexed, metadata_of, data_start, begin_form, metadata_form,
}
use artdaq_core.Container.Storing.{
  FitsMetadata, decode_metadata-FitsMetadata, Marked, store_metadata-Marked,
}

-- What the metadata becomes.
abbrev pub unindexed : Metadata → Metadata
unindexed m = record m { has_index = 0 }

abbrev pub counting_blocks : ℕ → Metadata → Metadata
counting_blocks k m = record m { block_count = (m.block_count + k) % 2 ^ 16 }

abbrev pub indexing : ℕ → Metadata → Metadata
indexing offset m = record m { index_offset = offset }

abbrev pub indexed : Metadata → Metadata
indexed m = record m { has_index = 1 }

-- The container `c'` has an index of `count` fragments, which stand there as they stood in `c`.
pub record Closed (count : ℕ) (ends : ℕ → ℕ) (c c' : Container) : Type 0 where
  pub index : Indexed count ends c'
  pub size : c'.fragment.vals.size ≡ c.fragment.vals.size
  pub fragment_type : (metadata_of c').fragment_type ≡ (metadata_of c).fragment_type
  pub missing_data : (metadata_of c').missing_data ≡ (metadata_of c).missing_data
  pub kept :
      (k : ℕ)
      → k < ends count
      → c'.fragment.vals.data_ (data_start + k) ≡ c.fragment.vals.data_ (data_start + k)

pub Stands_same :
    (count start : ℕ) (ends d e : ℕ → ℕ)
    → ((k : ℕ) → start ≤ k → e k ≡ d k)
    → Stands count start ends d
    → Stands count start ends e
Stands_same count start ends d e same s = record {
  first = s.first;
  order = s.order;
  counted = λ k lt. ap (λ w. w % 2 ^ 32) (same (start + ends k) (omega arith)) ∙ s.counted k lt;
  small = s.small;
}

pub FitsMetadata-updated :
    (m : Metadata) (blocks has offset : ℕ)
    → FitsMetadata m
    → blocks < 2 ^ 16
    → has < 2
    → offset < 2 ^ 64
    → FitsMetadata (record m { block_count = blocks; has_index = has; index_offset = offset })
FitsMetadata-updated m blocks has offset fits lt lt' lt'' = record {
  block_count = lt;
  fragment_type = fits.fragment_type;
  version = fits.version;
  missing_data = fits.missing_data;
  has_index = lt';
  unused = fits.unused;
  index_offset = lt'';
}

pub metadata_of-FitsMetadata : (c : Container) → FitsMetadata (metadata_of c)
metadata_of-FitsMetadata c = decode_metadata-FitsMetadata c.fragment.vals.data_ 4

-- One more store in the metadata.
pub marks :
    (m : Metadata) (g : Metadata → Metadata) (c c₁ : Container)
    → Marked m c c₁
    → FitsMetadata (g m)
    → (c₂ : Container) × (store_metadata g c₁ ≡ done (tt, c₂)) × Marked (g m) c c₂
marks m g c c₁ r fits =
    let (c₂, e, q) =
      store_metadata-Marked g c₁ r.container
        (subst (λ x. FitsMetadata (g x)) (sym r.metadata) fits) in
    (
      c₂,
      e,
      record {
        container = q.container;
        metadata = q.metadata ∙ ap g r.metadata;
        size = q.size ∙ r.size;
        capacity = q.capacity ∙ r.capacity;
        index = q.index ∙ r.index;
        kept = λ k le. q.kept k le ∙ r.kept k le;
      },
    )

-- The index that is made has the ends of the fragments.
module _ (n : ℕ) (ends : ℕ → ℕ) (c : Container) (is : IsContainer c)
    (blocks : (metadata_of c).block_count ≡ suc n)
    (s : Stands (suc n) data_start ends c.fragment.vals.data_) where
  abbrev pub index : List ℕ
  index = walk c.fragment.vals.data_ (suc n) data_start 0

  pub create_index_form : create_index c ≡ done (index, c)
  unfolding create_index
  create_index_form = rw (metadata_form c is) (rw (next, begin_form c is, blocks) refl)

  abbrev listed :
      ((k : ℕ) → k < suc n → get_elem? index k ≡ some (8 * ends (k + 1)))
      × (get_elem? index (suc n) ≡ some container_magic)
  listed = walk-Stands (suc n) data_start ends c.fragment.vals.data_ s

  pub end_form : end_of index (suc n) c ≡ done (8 * ends (suc n), c)
  unfolding end_of
  end_form =
      ap (λ o. found o c) (listed.0 n (omega arith)) ∙ ap (λ k. done (8 * ends k, c)) (omega arith)

  pub word_form : (k : ℕ) → k < suc n → word_of index k ≡ 8 * ends (k + 1)
  word_form k lt = ap word_in (listed.0 k lt)

  pub last_form : word_of index (suc n) ≡ container_magic
  last_form = ap word_in (listed.1)
