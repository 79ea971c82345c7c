-- ===== src/Fragment/Delivery.antt =====
-- `dataFrag` of artdaq-core/Data/Fragment.cc: a fragment that carries given words.
use artdaq_core.Prelude.{ℕ, ◌+◌, ◌%◌, ◌^◌, ◌<◌, ◌≡◌, inl, refl, ap, sym, arith, ◌∙◌, subst}
use artdaq_core.Prelude.Words.{w32}
use artdaq_core.QuickVec.{copy_from}
use artdaq_core.QuickVec.Loops.{copy_from_inside, copy_from_outside}
use artdaq_core.Header.{RawFragmentHeader, Timespec, decode, num_words}
use artdaq_core.Fragment.{Fragment, done, data_size, with_vals}
use artdaq_core.Fragment.Construct.{construct_typed, copy_data, data_frag}
use artdaq_core.Fragment.Layout.{IsCurrent, counting, data_begin_form, data_size_form, decode_same}
use artdaq_core.Fragment.Resizing.{resize_fragment-Reshaped}
use native.Mathlib.Nat.{zero-add}
use artdaq_core.Fragment.Storing.{Holding}
use artdaq_core.Fragment.Building.{IsTaken, header_of, construct_typed-Holding}

-- A fragment that carries the words `source`, `n` of them, under the header `h`.
pub record Carries (n : ℕ) (source : ℕ → ℕ) (h : RawFragmentHeader) (f : Fragment) : Type 0 where
  pub current : IsCurrent f
  pub header : decode f.vals.data_ ≡ h
  pub data_size : data_size f ≡ done (n, f)
  pub payload : (k : ℕ) → k < n → f.vals.data_ (num_words + k) ≡ source k

Holding-IsCurrent :
    (t seq frag timestamp : ℕ) (now : Timespec) (f : Fragment)
    → Holding num_words (header_of num_words t seq frag timestamp now) f
    → IsCurrent f
Holding-IsCurrent t seq frag timestamp now f p = record {
  own = record { upgraded_header = p.upgraded_header; version = ap (λ h. h.version) p.header };
  valid = (omega (arith, p.size_is, p.capacity_is), omega (arith, p.capacity_is));
  word_count = ap (λ h. h.word_count) p.header ∙ sym p.size_is;
  room = omega (arith, p.size_is, ap (λ h. h.metadata_word_count) p.header);
}

-- The constructor of a fragment by its ids, for data or for a user type, builds a fragment of the current
-- version without data, whose header has the type, the ids and the timestamp, cut to their bits.
pub construct_typed-Carries :
    (fresh : ℕ → ℕ) (seq frag t timestamp : ℕ) (now : Timespec)
    → IsTaken t
    → (f : Fragment) × (construct_typed fresh seq frag t timestamp now ≡ done (tt, f))
      × Carries 0 fresh
          (header_of num_words t (seq % 2 ^ 48) (frag % 2 ^ 16) (timestamp % 2 ^ 64) now)
          f
construct_typed-Carries fresh seq frag t timestamp now taken =
    let (f, e, p) = construct_typed-Holding fresh seq frag t timestamp now taken in
    let cur = Holding-IsCurrent t _ _ _ now f p in
    (
      f,
      e,
      record {
        current = cur;
        header = p.header;
        data_size = rw (data_size_form f cur.own) (
            ap (λ x. done (x, f))
              (omega (arith, p.size_is, ap (λ h. h.metadata_word_count) p.header)));
        payload = λ k lt. absurd (omega arith);
      },
    )

-- The words that `copy_data` stores at the beginning of the data.
module _ (source : ℕ → ℕ) (n : ℕ) (f : Fragment) (cur : IsCurrent f)
    (bare : (decode f.vals.data_).metadata_word_count ≡ 0)
    (size : f.vals.size ≡ n + num_words) where
  abbrev filled : Fragment
  filled = with_vals (record (f.vals) { data_ = copy_from f.vals.data_ source num_words 0 n }) f

  copies : copy_data source n f ≡ done (tt, filled)
  unfolding copy_data
  copies = rw (data_begin_form f cur.own) (rw bare refl)

  header_stays : decode filled.vals.data_ ≡ decode f.vals.data_
  header_stays =
      decode_same filled.vals.data_ f.vals.data_
        (λ k lt. copy_from_outside f.vals.data_ source num_words 0 n k (inl lt))

  filled-IsCurrent : IsCurrent filled
  filled-IsCurrent = record {
    own = record {
      upgraded_header = cur.own.upgraded_header;
      version = ap (λ h. h.version) header_stays ∙ cur.own.version;
    };
    valid = cur.valid;
    word_count = ap (λ h. h.word_count) header_stays ∙ cur.word_count;
    room = rw header_stays cur.room;
  }

  filled-Carries : Carries n source (decode f.vals.data_) filled
  filled-Carries = record {
    current = filled-IsCurrent;
    header = header_stays;
    data_size =
        rw (data_size_form filled filled-IsCurrent.own, header_stays, bare)
          (ap (λ x. done (x, filled)) (omega (arith, size, cur.valid)));
    payload = λ k lt. rw (zero-add k) at (copy_from_inside f.vals.data_ source num_words 0 n k lt);
  }

-- `dataFrag` of a number of words that a 32-bit count can hold with the header succeeds: the fragment
-- carries exactly these words, its header counts them and the header, and has the type of data, the ids
-- and the timestamp, cut to their bits.
pub data_frag-Carries :
    (fresh later : ℕ → ℕ) (seq frag : ℕ) (source : ℕ → ℕ) (n timestamp : ℕ) (now : Timespec)
    → n + num_words < w32
    → (f : Fragment) × (data_frag fresh later seq frag source n timestamp now ≡ done (tt, f))
      × Carries n source
          (header_of (n + num_words) 226 (seq % 2 ^ 48) (frag % 2 ^ 16) (timestamp % 2 ^ 64) now)
          f
unfolding data_frag
data_frag-Carries fresh later seq frag source n timestamp now small =
    let (f₀, e₀, p) = construct_typed-Holding fresh seq frag 226 timestamp now (inl refl) in
    let cur = Holding-IsCurrent 226 _ _ _ now f₀ p in
    let none_there : (decode f₀.vals.data_).metadata_word_count ≡ 0 =
      ap (λ h. h.metadata_word_count) p.header in
    let (f₁, e₁, r) = resize_fragment-Reshaped later n f₀ cur (omega (arith, none_there)) in
    let bare : (decode f₁.vals.data_).metadata_word_count ≡ 0 =
      ap (λ h. h.metadata_word_count) r.header ∙ none_there in
    let size : f₁.vals.size ≡ n + num_words = omega (arith, r.size, none_there) in
    let header =
      r.header
      ∙ ap (counting f₁.vals.size) p.header
      ∙ ap (λ m. header_of m 226 (seq % 2 ^ 48) (frag % 2 ^ 16) (timestamp % 2 ^ 64) now) size in
    (
      filled source n f₁ r.current bare size,
      rw e₀ (rw e₁ (copies source n f₁ r.current bare size)),
      subst (λ h. Carries n source h (filled source n f₁ r.current bare size)) header
          (filled-Carries source n f₁ r.current bare size),
    )
