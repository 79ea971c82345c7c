-- ===== src/Container/Growing.antt =====
-- The type that artdaq-core/Data/ContainerFragmentLoader.hh accepts, and the fragments once one more stands
-- behind them.
use artdaq_core.Prelude.{
  ℕ, suc, ◌+◌, ◌-◌, ◌%◌, ◌^◌, ◌<◌, ◌≤◌, ◌≡◌, ◌≢◌, ◌⊎◌, inl, inr, refl, ap, ap₂, arith, ◌∙◌, sym,
  subst, Bool, true, false, not, ◌&&◌, ◌==◌, if◌then◌else◌,
}
use artdaq_core.Prelude.Memory.{put_at}
use artdaq_core.Prelude.Words.{w32}
use artdaq_core.Header.{num_words}
use artdaq_core.Container.{Container, Metadata, no_index, in_data, done, next}
use artdaq_core.Container.Walk.{Stands}
use artdaq_core.Container.Loader.{empty_fragment_type, set_fragment_type, accept_type}
use artdaq_core.Container.Reading.{IsContainer, metadata_of, data_start}
use artdaq_core.Container.Storing.{
  FitsMetadata, loader_metadata_form, Marked, store_metadata-Marked,
}
use artdaq_core.Container.Indexing.{Closed, metadata_of-FitsMetadata, Stands_same}
use artdaq_core.Container.Adding.{Contains}

-- The type of a container after a fragment of type `t` was added.
abbrev pub typed : ℕ → Metadata → Metadata
typed t m =
    if m.fragment_type == empty_fragment_type then record m { fragment_type = t % 2 ^ 8 } else m

-- A fragment of type `t` may be added.
abbrev pub Accepts : (allow : Bool) → ℕ → Metadata → Type 0
Accepts allow t m =
    (m.fragment_type ≡ empty_fragment_type)
    ⊎ ((m.fragment_type ≢ empty_fragment_type) × ((allow ≡ true) ⊎ (t ≡ m.fragment_type)))

FitsMetadata-type :
    (m : Metadata) (t : ℕ) → FitsMetadata m → FitsMetadata (record m { fragment_type = t % 2 ^ 8 })
FitsMetadata-type m t fits = record {
  block_count = fits.block_count;
  fragment_type = omega arith;
  version = fits.version;
  missing_data = fits.missing_data;
  has_index = fits.has_index;
  unused = fits.unused;
  index_offset = fits.index_offset;
}

passes : (allow : Bool) (t u : ℕ) → (allow ≡ true) ⊎ (t ≡ u) → (not allow && not (t == u)) ≡ false
passes true t u h = refl
passes false t u (inr e) = ground arith
passes false t u (inl e) = ground arith

pub accept_type-Marked :
    (allow : Bool) (t : ℕ) (c : Container)
    → IsContainer c
    → Accepts allow t (metadata_of c)
    → (c' : Container) × (accept_type allow t c ≡ done (tt, c'))
      × Marked (typed t (metadata_of c)) c c'
unfolding accept_type set_fragment_type
accept_type-Marked allow t c is (inl e) =
    let empty : ((metadata_of c).fragment_type == empty_fragment_type) ≡ true = ground arith in
    let (c', stores, r) =
      store_metadata-Marked (λ m. record m { fragment_type = t % 2 ^ 8 }) c is
        (FitsMetadata-type (metadata_of c) t (metadata_of-FitsMetadata c)) in
    (
      c',
      rw (loader_metadata_form c is) (rw (next, empty) stores),
      subst
          (λ b.
            Marked
              (if b then record (metadata_of c) { fragment_type = t % 2 ^ 8 } else metadata_of c) c
              c')
          (sym empty) r,
    )
accept_type-Marked allow t c is (inr (other, fine)) =
    let full : ((metadata_of c).fragment_type == empty_fragment_type) ≡ false = ground arith in
    (
      c,
      rw (loader_metadata_form c is)
          (rw (next, full, passes allow t (metadata_of c).fragment_type fine) refl),
      subst
          (λ b.
            Marked
              (if b then record (metadata_of c) { fragment_type = t % 2 ^ 8 } else metadata_of c) c
              c)
          (sym full)
          (record {
            container = is;
            metadata = refl;
            size = refl;
            capacity = refl;
            index = refl;
            kept = λ k le. refl;
          }),
    )

pub typed_rest :
    (t : ℕ) (m : Metadata)
    → ((typed t m).block_count ≡ m.block_count)
      × ((typed t m).has_index ≡ m.has_index)
      × ((typed t m).index_offset ≡ m.index_offset)
typed_rest t m = ground arith

-- The type does not matter for what is contained.
pub typed-Contains :
    (count : ℕ) (ends : ℕ → ℕ) (t : ℕ) (c c' : Container)
    → Contains count ends c
    → Marked (typed t (metadata_of c)) c c'
    → Contains count ends c'
typed-Contains count ends t c c' x r =
    let (a, b, o) = typed_rest t (metadata_of c) in
    record {
      index = record {
        container = r.container;
        block_count = ap (λ m. m.block_count) r.metadata ∙ a ∙ x.index.block_count;
        has_index = ap (λ m. m.has_index) r.metadata ∙ b ∙ x.index.has_index;
        index_offset = ap (λ m. m.index_offset) r.metadata ∙ o ∙ x.index.index_offset;
        first = x.index.first;
        order = x.index.order;
        ends_at = λ k lt. r.kept (data_start + ends count + k) (omega arith) ∙ x.index.ends_at k lt;
        magic = r.kept (data_start + ends count + count) (omega arith) ∙ x.index.magic;
        room = omega (arith, r.size, x.index.room);
        index =
            subst (λ i. (i ≡ no_index) ⊎ (i ≡ in_data (ends count))) (sym r.index) x.index.index;
      };
      stands =
          Stands_same count data_start ends c.fragment.vals.data_ c'.fragment.vals.data_ r.kept
            x.stands;
      sized = x.sized;
    }

-- The ends, with one more fragment of `n` words.
module _ (count : ℕ) (ends : ℕ → ℕ) (n : ℕ) where
  abbrev pub extended : ℕ → ℕ
  extended = put_at ends (suc count) (ends count + n)

  pub old_end : (k : ℕ) → k ≤ count → extended k ≡ ends k
  old_end k le = ground arith

  pub new_end : extended (suc count) ≡ ends count + n
  new_end = ground arith

  below : (k : ℕ) → k < suc count → (k < count) ⊎ (k ≡ count)
  below k lt = ground arith

  -- One more fragment stands behind the others.
  pub extended-Stands :
      (d e : ℕ → ℕ)
      → Stands count data_start ends d
      → ((k : ℕ) → k < count → e (data_start + ends k) ≡ d (data_start + ends k))
      → e (data_start + ends count) % 2 ^ 32 ≡ n
      → ends count + n < w32
      → Stands (suc count) data_start extended e
  extended-Stands d e s same header small = record {
    first = old_end 0 (omega arith) ∙ s.first;
    order = λ k lt. elim (below k lt) [
      | inl l ↦
          let a = old_end k (omega arith) in
          let b = old_end (k + 1) (omega arith) in
          (omega (arith, a, b, s.order k l), omega (arith, b, new_end, s.order k l))
      | inr q ↦
          let a = old_end k (omega arith) ∙ ap ends q in
          let b : extended (k + 1) ≡ ends count + n = ap extended (omega (arith, q)) ∙ new_end in
          (omega (arith, a, b), omega (arith, b, new_end))
    ];
    counted = λ k lt. elim (below k lt) [
      | inl l ↦
          let a = old_end k (omega arith) in
          let b = old_end (k + 1) (omega arith) in
          ap (λ w. e (data_start + w) % 2 ^ 32) a
          ∙ ap (λ w. w % 2 ^ 32) (same k l)
          ∙ s.counted k l
          ∙ ap₂ ◌-◌ (sym b) (sym a)
      | inr q ↦
          let a = old_end k (omega arith) ∙ ap ends q in
          let b : extended (k + 1) ≡ ends count + n = ap extended (omega (arith, q)) ∙ new_end in
          ap (λ w. e (data_start + w) % 2 ^ 32) a ∙ header ∙ omega (arith, a, b)
    ];
    small = omega (arith, new_end, small);
  }

  pub extended-sized :
      ((k : ℕ) → k < count → num_words ≤ ends (k + 1) - ends k)
      → num_words ≤ n
      → (k : ℕ) → k < suc count
      → num_words ≤ extended (k + 1) - extended k
  extended-sized sized enough k lt = elim (below k lt) [
    | inl l ↦ omega (arith, old_end k (omega arith), old_end (k + 1) (omega arith), sized k l)
    | inr q ↦
        let a : extended k ≡ ends count = old_end k (omega arith) ∙ ap ends q in
        let b : extended (k + 1) ≡ ends count + n = ap extended (omega (arith, q)) ∙ new_end in
        omega (arith, a, b, enough)
  ]

-- Once the index is made, the fragments that stand there are contained.
pub Closed-Contains :
    (n : ℕ) (ends : ℕ → ℕ) (c c' : Container)
    → Stands n data_start ends c.fragment.vals.data_
    → ((k : ℕ) → k < n → num_words ≤ ends (k + 1) - ends k)
    → Closed n ends c c'
    → Contains n ends c'
Closed-Contains n ends c c' s sized q = record {
  index = q.index;
  stands = record {
    first = s.first;
    order = s.order;
    counted = λ k lt.
        ap (λ w. w % 2 ^ 32) (q.kept (ends k) (omega (arith, s.order k lt, sized k lt)))
        ∙ s.counted k lt;
    small = s.small;
  };
  sized = sized;
}
