-- ===== src/Fragment/Annotating/Setting.antt =====
-- `setMetadata` and `updateMetadata` of artdaq-core/Data/Fragment.hh: what is set is read, and the data stays.
use artdaq_core.Prelude.{
  ℕ, ◌+◌, ◌%◌, ◌^◌, ◌<◌, ◌≤◌, ◌≡◌, ◌≢◌, inr, ap, ap₂, arith, ◌∙◌, sym, subst, true, false, ltb,
  ◌==◌,
}
use artdaq_core.Prelude.Memory.{elements}
use artdaq_core.Prelude.Words.{w32}
use artdaq_core.QuickVec.{QuickVec}
use artdaq_core.QuickVec.Loops.{copy_from_inside, copy_from_outside}
use artdaq_core.Header.{RawFragmentHeader, decode, num_words}
use artdaq_core.Header.Bits.{FitsBits}
use artdaq_core.Fragment.{
  Fragment, done, refused, invalid_request, after, with_vals, store_header,
  update_fragment_header_wc,
}
use artdaq_core.Fragment.Layout.{
  IsOwn, IsCurrent, decode_same, decode-FitsBits, fragment_header_form, data_begin_form,
  data_size_form, counting, FitsBits-counting,
}
use artdaq_core.Fragment.Metadata.{
  validated_metadata_size, metadata, insert_zeros, set_metadata, update_metadata,
}
use artdaq_core.Fragment.Annotating.{
  Gapped, insert-Gapped, Reheaded, reheads, noted, noted_header, noted-IsOwn, noted_metadata,
  copy_metadata_form, annotating, FitsBits-annotating, Annotated,
}

-- The header is counted and has the metadata, and the metadata is copied.
module _ (md : ℕ → ℕ) (n : ℕ) (f : Fragment) (cur : IsCurrent f)
    (bare : (decode f.vals.data_).metadata_word_count ≡ 0) (some_asked : 1 ≤ n) (few : n ≤ 255)
    (v : QuickVec ℕ) (gap : Gapped num_words n f.vals v) where
  abbrev h : RawFragmentHeader
  h = decode f.vals.data_

  abbrev annotated : RawFragmentHeader
  annotated = annotating n (counting v.size h)

  gap_header : decode v.data_ ≡ h
  gap_header = decode_same v.data_ f.vals.data_ (λ k lt. gap.low k lt)

  gap-IsOwn : IsOwn (with_vals v f)
  gap-IsOwn = record {
    upgraded_header = cur.own.upgraded_header;
    version = ap (λ x. x.version) gap_header ∙ cur.own.version;
  }

  counted :
      (f₂ : Fragment) × (update_fragment_header_wc (with_vals v f) ≡ done (tt, f₂))
      × Reheaded (counting v.size h) (with_vals v f) f₂
  unfolding update_fragment_header_wc
  counted =
      let small : v.size % 2 ^ 32 ≡ v.size = omega (arith, gap.valid) in
      let same : record (decode v.data_) { word_count = v.size % 2 ^ 32 } ≡ counting v.size h =
        ap₂ counting small gap_header in
      let (f₂, e, r) =
        reheads (λ x. record x { word_count = v.size % 2 ^ 32 }) (with_vals v f) gap-IsOwn
          (subst FitsBits (sym same)
            (FitsBits-counting v.size h (omega (arith, gap.valid)) (decode-FitsBits f.vals.data_)))
          (ap (λ x. x.version) gap_header ∙ cur.own.version) in
      (f₂, e, subst (λ x. Reheaded x (with_vals v f) f₂) same r)

  annotates :
      (f₂ : Fragment)
      → Reheaded (counting v.size h) (with_vals v f) f₂
      → (f₃ : Fragment) × (store_header (λ x. record x { metadata_word_count = n % 2 ^ 8 }) f₂
          ≡ done (tt, f₃))
        × Reheaded annotated f₂ f₃
  annotates f₂ r =
      let small : n % 2 ^ 8 ≡ n = omega arith in
      let same : record (decode f₂.vals.data_) { metadata_word_count = n % 2 ^ 8 } ≡ annotated =
        ap₂ (λ (x : RawFragmentHeader) y. annotating y x) r.header small in
      let (f₃, e, q) =
        reheads (λ x. record x { metadata_word_count = n % 2 ^ 8 }) f₂ r.own
          (subst FitsBits (sym same) (
            FitsBits-annotating n (counting v.size h) (omega arith) (
              FitsBits-counting v.size h (omega (arith, gap.valid))
                (decode-FitsBits f.vals.data_))))
          (ap (λ x. x.version) r.header ∙ cur.own.version) in
      (f₃, e, subst (λ x. Reheaded x f₂ f₃) same q)

  result-Annotated :
      (f₂ f₃ : Fragment)
      → Reheaded (counting v.size h) (with_vals v f) f₂
      → (q : Reheaded annotated f₂ f₃) → Annotated md n f (noted f₃ q.own md n)
  result-Annotated f₂ f₃ r q =
      let f₄ = noted f₃ q.own md n in
      let own = noted-IsOwn f₃ q.own md n in
      let header : decode f₄.vals.data_ ≡ annotated = noted_header f₃ q.own md n ∙ q.header in
      let count : (decode f₄.vals.data_).metadata_word_count ≡ n =
        ap (λ x. x.metadata_word_count) header in
      let size : f₃.vals.size ≡ v.size = q.size ∙ r.size in
      let capacity : f₃.vals.capacity ≡ v.capacity = q.capacity ∙ r.capacity in
      record {
        current = record {
          own = own;
          valid = (omega (arith, size, capacity, gap.valid), omega (arith, capacity, gap.valid));
          word_count = ap (λ x. x.word_count) header ∙ sym size;
          room = omega (arith, count, size, gap.size, cur.room, bare);
        };
        size = size ∙ gap.size;
        words = λ k lt. copy_from_inside f₃.vals.data_ md num_words 0 n k lt ∙ ap md (omega arith);
        header = header ∙ ap (λ m. annotating n (counting m h)) (sym size);
        metadata =
            noted_metadata f₃ q.own md n (λ e.
              absurd (omega (arith, e, ap (λ x. x.metadata_word_count) q.header, some_asked)));
        data_size =
            data_size_form f₄ own
            ∙ ap (λ m. done (m, f₄))
                (omega (arith, count, size, gap.size, cur.room, cur.valid, bare, gap.valid));
        data_kept = λ k lt.
            copy_from_outside f₃.vals.data_ md num_words 0 n (num_words + n + k) (inr (omega arith))
            ∙ q.words (num_words + n + k) (omega arith)
            ∙ r.words (num_words + n + k) (omega arith)
            ∙ gap.high k (omega (arith, bare))
            ∙ ap f.vals.data_ (omega (arith, bare));
      }

-- `setMetadata` of 1 to 255 words on a fragment of the current version without metadata, such that a 32-bit
-- count can hold all words, succeeds. The header counts the words and the metadata and is otherwise
-- unchanged; `metadata` then reads exactly the words that were set; and the data is what it was, as many
-- words, behind the metadata.
pub metadata-set_metadata :
    (fresh md : ℕ → ℕ) (n : ℕ) (f : Fragment)
    → IsCurrent f
    → (decode f.vals.data_).metadata_word_count ≡ 0
    → 1 ≤ n
    → n ≤ 255
    → f.vals.size + n < w32
    → (f' : Fragment) × (set_metadata fresh md n f ≡ done (tt, f')) × Annotated md n f f'
unfolding set_metadata validated_metadata_size insert_zeros
metadata-set_metadata fresh md n f cur bare some_asked few small =
    let (v, e, gap) =
      insert-Gapped fresh num_words n f.vals (omega (arith, cur.room)) small cur.valid in
    let (f₂, e₂, r) = counted md n f cur bare some_asked few v gap in
    let (f₃, e₃, q) = annotates md n f cur bare some_asked few v gap f₂ r in
    let long : ltb 255 n ≡ false = ground arith in
    let none_there : ((decode f.vals.data_).metadata_word_count == 0) ≡ true = ground arith in
    let start : num_words + (decode f.vals.data_).metadata_word_count ≡ num_words =
      omega (arith, bare) in
    (
      noted f₃ q.own md n,
      rw (fragment_header_form f cur.own) (
          rw (after, none_there, long, data_begin_form f cur.own)
            (rw (after, start, e)
              (rw (after, e₂)
                (rw (after, e₃)
                  (copy_metadata_form f₃ q.own md n
                    (λ z. absurd (omega (arith, z, ap (λ x. x.metadata_word_count) q.header)))))))),
      result-Annotated md n f cur bare some_asked few v gap f₂ f₃ r q,
    )

-- `updateMetadata` of as many words as a fragment of the current version has as metadata, at least 1,
-- succeeds and changes neither the header nor the data: `metadata` then reads the new words.
pub metadata-update_metadata :
    (md : ℕ → ℕ) (n : ℕ) (f : Fragment)
    → IsCurrent f
    → (decode f.vals.data_).metadata_word_count ≡ n
    → 1 ≤ n
    → (f' : Fragment) × (update_metadata md n f ≡ done (tt, f'))
      × (metadata n f' ≡ done (elements md 0 n, f'))
      × (decode f'.vals.data_ ≡ decode f.vals.data_)
      × ((k : ℕ) → num_words + n ≤ k → f'.vals.data_ k ≡ f.vals.data_ k)
unfolding update_metadata validated_metadata_size
metadata-update_metadata md n f cur count some_there =
    let there : (decode f.vals.data_).metadata_word_count ≢ 0 = λ e. absurd (omega (arith, e)) in
    let test : ((decode f.vals.data_).metadata_word_count == 0) ≡ false = ground arith in
    let fits = decode-FitsBits f.vals.data_ in
    let long : ltb 255 n ≡ false = ground (arith, fits.metadata_word_count) in
    let same : ((decode f.vals.data_).metadata_word_count == n) ≡ true = ground arith in
    (
      noted f cur.own md n,
      rw (fragment_header_form f cur.own)
          (rw (after, test, long) (rw (after, same) (copy_metadata_form f cur.own md n there))),
      noted_metadata f cur.own md n there,
      noted_header f cur.own md n,
      λ k le. copy_from_outside f.vals.data_ md num_words 0 n k (inr le),
    )

-- `updateMetadata` throws, and so changes nothing, when the fragment has another number of words of
-- metadata, none among them.
pub update_metadata_refuses :
    (md : ℕ → ℕ) (n : ℕ) (f : Fragment)
    → IsCurrent f
    → (decode f.vals.data_).metadata_word_count ≢ n
    → update_metadata md n f ≡ refused invalid_request
unfolding update_metadata validated_metadata_size
update_metadata_refuses md n f cur other = rw (fragment_header_form f cur.own) (ground arith)
