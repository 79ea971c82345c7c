-- ===== src/Fragment/Annotating.antt =====
-- What the metadata operations of artdaq-core/Data/Fragment.hh do to a fragment of the current version.
pub mod Setting
use artdaq_core.Prelude.{
  ℕ, ◌+◌, ◌-◌, ◌%◌, ◌^◌, ◌<◌, ◌≤◌, ◌≡◌, ◌≢◌, inl, inr, refl, ap, ap₂, arith, ◌∙◌, sym, subst, none,
  some, Bool, true, false, ltb, ◌==◌, if◌then◌else◌, List,
}
use artdaq_core.Prelude.Memory.{elements, elements_eq}
use artdaq_core.Prelude.Words.{w32, w64, sub64}
use artdaq_core.QuickVec.{QuickVec, copy_from, fill, insert, open_gap}
use artdaq_core.QuickVec.Contents.{IsValid}
use artdaq_core.QuickVec.Loops.{copy_from_inside, copy_from_outside, fill_outside}
use artdaq_core.QuickVec.Editing.{open_gap_form}
use artdaq_core.Header.{RawFragmentHeader, decode, encode, current_version, num_words}
use artdaq_core.Header.Bits.{FitsBits, decode-encode}
use artdaq_core.Fragment.{
  Fragment, done, refused, invalid_request, after, with_vals, fragment_header, store_header,
  header_size_words, update_fragment_header_wc, version, data_begin, data_size,
}
use artdaq_core.Fragment.Layout.{
  IsOwn, IsCurrent, decode_same, decode-FitsBits, fragment_header_form, stored, store_header_form,
  data_begin_form, data_size_form, counting, FitsBits-counting, encode_beyond,
}
use artdaq_core.Fragment.Metadata.{
  validated_metadata_size, metadata_address, copy_metadata, metadata, insert_zeros, set_metadata,
  update_metadata,
}

-- The gap that `insert` makes, cell by cell.
pub record Gapped (o n : ℕ) (v v' : QuickVec ℕ) : Type 0 where
  pub size : v'.size ≡ v.size + n
  pub valid : IsValid v'
  pub low : (j : ℕ) → j < o → v'.data_ j ≡ v.data_ j
  pub high : (k : ℕ) → k < v.size - o → v'.data_ (o + n + k) ≡ v.data_ (o + k)

insert-Gapped :
    (fresh : ℕ → ℕ) (o n : ℕ) (v : QuickVec ℕ)
    → o ≤ v.size
    → v.size + n < w32
    → IsValid v
    → (v' : QuickVec ℕ) × (insert fresh o n 0 v ≡ some v') × Gapped o n v v'
unfolding insert
insert-Gapped fresh o n v le small valid =
    let g = open_gap fresh o n v in
    let f = open_gap_form fresh o n v le small valid in
    (
      record { size = g.size; data_ = fill g.data_ o n 0; capacity = g.capacity },
      ground arith,
      record {
        size = f.0;
        valid = f.1;
        low = λ j lt. fill_outside g.data_ o n 0 j (inl lt) ∙ f.2 j lt;
        high = λ k lt. fill_outside g.data_ o n 0 _ (inr (omega arith)) ∙ f.3 k lt;
      },
    )

-- A fragment whose header is `h`, and whose other words are those of `f`.
pub record Reheaded (h : RawFragmentHeader) (f f' : Fragment) : Type 0 where
  pub own : IsOwn f'
  pub header : decode f'.vals.data_ ≡ h
  pub size : f'.vals.size ≡ f.vals.size
  pub capacity : f'.vals.capacity ≡ f.vals.capacity
  pub words : (k : ℕ) → num_words ≤ k → f'.vals.data_ k ≡ f.vals.data_ k

reheads :
    (g : RawFragmentHeader → RawFragmentHeader) (f : Fragment)
    → IsOwn f
    → FitsBits (g (decode f.vals.data_))
    → (g (decode f.vals.data_)).version ≡ current_version
    → (f' : Fragment) × (store_header g f ≡ done (tt, f')) × Reheaded (g (decode f.vals.data_)) f f'
reheads g f own fits version =
    let h = g (decode f.vals.data_) in
    let e = decode-encode h f.vals.data_ fits in
    (
      stored f own h,
      store_header_form f own g,
      record {
        own = record {
          upgraded_header = own.upgraded_header;
          version = ap (λ x. x.version) e ∙ version;
        };
        header = e;
        size = refl;
        capacity = refl;
        words = λ k le. encode_beyond h f.vals.data_ k le;
      },
    )

module _ (f : Fragment) (own : IsOwn f) where
  address_form :
      (decode f.vals.data_).metadata_word_count ≢ 0 → metadata_address f ≡ done (num_words, f)
  unfolding metadata_address header_size_words version
  address_form some_there =
      let test : ((decode f.vals.data_).metadata_word_count == 0) ≡ false = ground arith in
      rw (fragment_header_form f own) (rw (after, test, own.version) refl)

  abbrev pub noted : (ℕ → ℕ) → ℕ → Fragment
  noted md n = with_vals (record (f.vals) { data_ = copy_from f.vals.data_ md num_words 0 n }) f

  copy_metadata_form :
      (md : ℕ → ℕ) (n : ℕ)
      → (decode f.vals.data_).metadata_word_count ≢ 0
      → copy_metadata md n f ≡ done (tt, noted md n)
  unfolding copy_metadata
  copy_metadata_form md n some_there = rw (address_form some_there) refl

  noted_header : (md : ℕ → ℕ) (n : ℕ) → decode (noted md n).vals.data_ ≡ decode f.vals.data_
  noted_header md n =
      decode_same (noted md n).vals.data_ f.vals.data_
        (λ k lt. copy_from_outside f.vals.data_ md num_words 0 n k (inl lt))

  metadata_form :
      (n : ℕ)
      → (decode f.vals.data_).metadata_word_count ≢ 0
      → metadata n f ≡ done (elements f.vals.data_ num_words n, f)
  unfolding metadata
  metadata_form n some_there = rw (address_form some_there) refl

noted-IsOwn : (f : Fragment) (own : IsOwn f) (md : ℕ → ℕ) (n : ℕ) → IsOwn (noted f own md n)
noted-IsOwn f own md n = record {
  upgraded_header = own.upgraded_header;
  version = ap (λ x. x.version) (noted_header f own md n) ∙ own.version;
}

-- What `metadata` reads after `copy_metadata`.
noted_metadata :
    (f : Fragment) (own : IsOwn f) (md : ℕ → ℕ) (n : ℕ)
    → (decode f.vals.data_).metadata_word_count ≢ 0
    → metadata n (noted f own md n) ≡ done (elements md 0 n, noted f own md n)
noted_metadata f own md n some_there =
    metadata_form (noted f own md n) (noted-IsOwn f own md n) n
      (λ e. some_there (ap (λ x. x.metadata_word_count) (sym (noted_header f own md n)) ∙ e))
    ∙ ap (λ l. done (l, noted f own md n))
        (elements_eq (noted f own md n).vals.data_ md num_words 0 n
          (λ k lt. copy_from_inside f.vals.data_ md num_words 0 n k lt))

-- The header counts `n` words of metadata.
abbrev pub annotating : ℕ → RawFragmentHeader → RawFragmentHeader
annotating n h = record h { metadata_word_count = n }

FitsBits-annotating :
    (n : ℕ) (h : RawFragmentHeader) → n < 2 ^ 8 → FitsBits h → FitsBits (annotating n h)
FitsBits-annotating n h lt b = record {
  word_count = b.word_count;
  version = b.version;
  type_ = b.type_;
  metadata_word_count = omega arith;
  sequence_id = b.sequence_id;
  fragment_id = b.fragment_id;
  timestamp = b.timestamp;
  valid = b.valid;
  complete = b.complete;
  atime_ns = b.atime_ns;
  atime_s = b.atime_s;
}

-- Where the data stands, by the header in the words.
abbrev pub data_start : Fragment → ℕ
data_start f = num_words + (decode f.vals.data_).metadata_word_count

abbrev pub data_words : Fragment → ℕ
data_words f = f.vals.size - data_start f

-- The fragment `f'` has the header and the data of `f`, and the `n` words `md` as its metadata.
pub record Annotated (md : ℕ → ℕ) (n : ℕ) (f f' : Fragment) : Type 0 where
  pub current : IsCurrent f'
  pub size : f'.vals.size ≡ f.vals.size + n
  pub words : (k : ℕ) → k < n → f'.vals.data_ (num_words + k) ≡ md k
  pub header : decode f'.vals.data_ ≡ annotating n (counting f'.vals.size (decode f.vals.data_))
  pub metadata : metadata n f' ≡ done (elements md 0 n, f')
  pub data_size : data_size f' ≡ done (data_words f, f')
  pub data_kept :
      (k : ℕ)
      → k < data_words f
      → f'.vals.data_ (num_words + n + k) ≡ f.vals.data_ (data_start f + k)
