-- ===== src/Container/Closing.antt =====
-- The end of the operations of artdaq-core/Data/ContainerFragmentLoader.hh that add fragments: the blocks are
-- counted, and the index is made and stored behind them.
use artdaq_core.Prelude.{
  ℕ, suc, ◌+◌, ◌*◌, ◌^◌, ◌<◌, ◌≡◌, inl, inr, refl, ap, arith, ◌∙◌, sym, subst,
}
use artdaq_core.Container.{Metadata, Container, done, next, walk}
use artdaq_core.Container.Walk.{Stands}
use artdaq_core.Container.Loader.{store_metadata, store_words, word_of, close_index}
use artdaq_core.Container.Reading.{
  IsContainer, Indexed, metadata_of, data_start, begin_form, aligned_form, reset_form, looked_up,
  looked_up-IsContainer,
}
use artdaq_core.Container.Storing.{
  FitsMetadata, loader_metadata_form, Marked, store_metadata-Marked, Filled, store_words-Filled,
}
use artdaq_core.Container.Indexing.{
  unindexed, counting_blocks, indexing, indexed, FitsMetadata-updated, metadata_of-FitsMetadata,
  marks, index, create_index_form, end_form, word_form, last_form, Closed, Stands_same,
}

module _ (k n : ℕ) (ends : ℕ → ℕ) (c : Container) (is : IsContainer c)
    (blocks : (metadata_of c).block_count + k ≡ suc n) (few : suc n < 2 ^ 16)
    (s : Stands (suc n) data_start ends c.fragment.vals.data_)
    (room : data_start + ends (suc n) + suc n < c.fragment.vals.size) where
  abbrev m : Metadata
  m = metadata_of c

  abbrev m₂ : Metadata
  m₂ = counting_blocks k (unindexed m)

  blocks_counted : m₂.block_count ≡ suc n
  blocks_counted = omega (arith, blocks, few)

  -- The blocks are counted.
  counts :
      (c₁ c₂ : Container) × (store_metadata unindexed c ≡ done (tt, c₁))
      × (store_metadata (counting_blocks k) c₁ ≡ done (tt, c₂))
      × Marked m₂ c c₂
  counts =
      let fits = metadata_of-FitsMetadata c in
      let fits₁ =
        FitsMetadata-updated m m.block_count 0 m.index_offset fits fits.block_count (ground arith)
          fits.index_offset in
      let (c₁, e₁, r₁) = store_metadata-Marked unindexed c is fits₁ in
      let (c₂, e₂, r₂) = marks (unindexed m) (counting_blocks k) c c₁ r₁ (
        FitsMetadata-updated m m₂.block_count 0 m.index_offset fits (omega arith) (ground arith)
          fits.index_offset) in
      (c₁, c₂, e₁, e₂, r₂)

  -- The index is stored.
  indexes :
      (c₂ : Container)
      → Marked m₂ c c₂
      → let offset = 8 * ends (suc n) in
        let list = walk c₂.fragment.vals.data_ (suc n) data_start 0 in
        (c₃ c₄ c₅ : Container) × (store_metadata (indexing offset) c₂ ≡ done (tt, c₃))
        × (store_words (word_of list) (data_start + ends (suc n)) (suc n + 1) c₃ ≡ done (tt, c₄))
        × (store_metadata indexed c₄ ≡ done (tt, c₅))
        × Marked (indexing offset m₂) c c₃
        × Filled (word_of list) (data_start + ends (suc n)) (suc n + 1) c₃ c₄
        × Marked (indexed (indexing offset m₂)) c₄ c₅
  indexes c₂ r₂ =
      let offset = 8 * ends (suc n) in
      let list = walk c₂.fragment.vals.data_ (suc n) data_start 0 in
      let fits = metadata_of-FitsMetadata c in
      let low : m₂.block_count < 2 ^ 16 = omega (arith, blocks_counted, few) in
      let short : offset < 2 ^ 64 = omega (arith, s.small) in
      let (c₃, e₃, r₃) =
        marks m₂ (indexing offset) c c₂ r₂
          (FitsMetadata-updated m m₂.block_count 0 offset fits low (ground arith) short) in
      let (c₄, e₄, r₄) =
        store_words-Filled (word_of list) (data_start + ends (suc n)) (suc n + 1) c₃ r₃.container
          (omega arith) (omega (arith, r₃.size, room)) in
      let (c₅, e₅, r₅) = store_metadata-Marked indexed c₄ r₄.container (
        subst (λ x. FitsMetadata (indexed x)) (sym (r₄.metadata ∙ r₃.metadata))
          (FitsMetadata-updated m m₂.block_count 1 offset fits low (ground arith) short)) in
      (
        c₃,
        c₄,
        c₅,
        e₃,
        e₄,
        e₅,
        r₃,
        r₄,
        subst (λ x. Marked x c₄ c₅) (ap indexed (r₄.metadata ∙ r₃.metadata)) r₅,
      )

  module _ (c₂ : Container) (r₂ : Marked m₂ c c₂) where
    blocks₂ : (metadata_of c₂).block_count ≡ suc n
    blocks₂ = ap (λ x. x.block_count) r₂.metadata ∙ blocks_counted

    stands₂ : Stands (suc n) data_start ends c₂.fragment.vals.data_
    stands₂ =
        Stands_same (suc n) data_start ends c.fragment.vals.data_ c₂.fragment.vals.data_ r₂.kept s

    module _ (c₃ c₄ c₅ : Container) (r₃ : Marked (indexing (8 * ends (suc n)) m₂) c c₃)
        (r₄ : Filled
          (word_of (index n ends c₂ r₂.container blocks₂ stands₂))
          (data_start + ends (suc n))
          (suc n + 1)
          c₃
          c₄)
        (r₅ : Marked (indexed (indexing (8 * ends (suc n)) m₂)) c₄ c₅) where
      result-Indexed : Indexed (suc n) ends (looked_up (suc n) ends c₅)
      result-Indexed = record {
        container = looked_up-IsContainer (suc n) ends c₅ r₅.container;
        block_count = ap (λ x. x.block_count) r₅.metadata ∙ blocks_counted;
        has_index = ap (λ x. x.has_index) r₅.metadata;
        index_offset = ap (λ x. x.index_offset) r₅.metadata;
        first = s.first;
        order = s.order;
        ends_at = λ j lt.
            r₅.kept (data_start + ends (suc n) + j) (omega arith)
            ∙ r₄.inside j (omega arith)
            ∙ word_form n ends c₂ r₂.container blocks₂ stands₂ j lt;
        magic =
            r₅.kept (data_start + ends (suc n) + suc n) (omega arith)
            ∙ r₄.inside (suc n) (omega arith)
            ∙ last_form n ends c₂ r₂.container blocks₂ stands₂;
        room = omega (arith, r₅.size, r₄.size, r₃.size, room);
        index = inr refl;
      }

      result-Closed : Closed (suc n) ends c (looked_up (suc n) ends c₅)
      result-Closed = record {
        index = result-Indexed;
        size = r₅.size ∙ r₄.size ∙ r₃.size;
        fragment_type = ap (λ x. x.fragment_type) r₅.metadata;
        missing_data = ap (λ x. x.missing_data) r₅.metadata;
        kept = λ j lt.
            r₅.kept (data_start + j) (omega arith)
            ∙ r₄.outside (data_start + j) (inl (omega arith))
            ∙ r₃.kept (data_start + j) (omega arith);
      }

      closes :
          (c₁ : Container)
          → store_metadata unindexed c ≡ done (tt, c₁)
          → store_metadata (counting_blocks k) c₁ ≡ done (tt, c₂)
          → store_metadata (indexing (8 * ends (suc n))) c₂ ≡ done (tt, c₃)
          → store_words
              (word_of (index n ends c₂ r₂.container blocks₂ stands₂))
              (data_start + ends (suc n))
              (suc n + 1)
              c₃
            ≡ done (tt, c₄)
          → store_metadata indexed c₄ ≡ done (tt, c₅)
          → close_index k c ≡ done (tt, looked_up (suc n) ends c₅)
      unfolding close_index
      closes c₁ e₁ e₂ e₃ e₄ e₅ = rw e₁ (
          rw (next, e₂)
            (rw (next, create_index_form n ends c₂ r₂.container blocks₂ stands₂)
              (rw (next, loader_metadata_form c₂ r₂.container)
                (rw (next, blocks₂, end_form n ends c₂ r₂.container blocks₂ stands₂)
                  (rw (next, e₃)
                    (rw (next, begin_form c₃ r₃.container)
                      (rw (next, aligned_form (ends (suc n)) c₃)
                        (rw (next, blocks₂, e₄)
                          (rw (next, e₅)
                            (reset_form (suc n) ends c₅ r₅.container result-Indexed.block_count
                              result-Indexed.has_index result-Indexed.index_offset
                              result-Indexed.magic))))))))))

  -- When the fragments stand behind one another and there is room for their index, at least one and fewer
  -- than 2 ^ 16 of them, the index is made, and the fragments, the type and the flag stay.
  pub close_index-Closed :
      (c' : Container) × (close_index k c ≡ done (tt, c')) × Closed (suc n) ends c c'
  close_index-Closed =
      let (c₁, c₂, e₁, e₂, r₂) = counts in
      let (c₃, c₄, c₅, e₃, e₄, e₅, r₃, r₄, r₅) = indexes c₂ r₂ in
      (
        looked_up (suc n) ends c₅,
        closes c₂ r₂ c₃ c₄ c₅ r₃ r₄ r₅ c₁ e₁ e₂ e₃ e₄ e₅,
        result-Closed c₂ r₂ c₃ c₄ c₅ r₃ r₄ r₅,
      )
