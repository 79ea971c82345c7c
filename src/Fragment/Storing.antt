-- ===== src/Fragment/Storing.antt =====
-- Stores through `fragmentHeaderPtr` of artdaq-core/Data/Fragment.hh, one field after another.
use artdaq_core.Prelude.{ℕ, ◌-◌, ◌^◌, ◌<◌, ◌≡◌, ◌⊎◌, inl, inr, refl, ap, ◌∙◌, none}
use artdaq_core.QuickVec.{construct_with, fill}
use artdaq_core.Header.{
  RawFragmentHeader, decode, encode, current_version, invalid_version, num_words,
}
use artdaq_core.Header.Bits.{FitsBits, decode-encode}
use artdaq_core.Fragment.{
  Fragment, done, version, fragment_header_ptr, fragment_header, header_at, put_header,
  store_header,
}
use artdaq_core.Fragment.Construct.{all_ones}

-- The fragment's words hold the header `h`, which is read and written there.
pub record Holding (size : ℕ) (h : RawFragmentHeader) (f : Fragment) : Type 0 where
  pub upgraded_header : f.upgraded_header ≡ none
  pub header : decode f.vals.data_ ≡ h
  pub size_is : f.vals.size ≡ size
  pub capacity_is : f.vals.capacity ≡ size

abbrev pub IsWritable : RawFragmentHeader → Type 0
IsWritable h = (h.version ≡ current_version) ⊎ (h.version ≡ invalid_version)

module _ (size : ℕ) (h : RawFragmentHeader) (f : Fragment) (holding : Holding size h f)
    (writable : IsWritable h) where
  header_ptr_stays : fragment_header_ptr f ≡ done (tt, f)
  unfolding fragment_header_ptr version
  header_ptr_stays = elim writable [
    | inl e ↦ rw (holding.upgraded_header, ap (λ x. x.version) holding.header ∙ e) refl
    | inr e ↦ rw (holding.upgraded_header, ap (λ x. x.version) holding.header ∙ e) refl
  ]

  pub header_read : fragment_header f ≡ done (h, f)
  unfolding fragment_header header_at
  header_read = rw (header_ptr_stays, holding.upgraded_header, holding.header) refl

  abbrev pub written : RawFragmentHeader → Fragment
  written h' = record f { vals = record (f.vals) { data_ = encode h' f.vals.data_ } }

  pub put_header_form : (h' : RawFragmentHeader) → put_header h' f ≡ written h'
  unfolding put_header
  put_header_form h' = rw holding.upgraded_header refl

  pub written-Holding : (h' : RawFragmentHeader) → FitsBits h' → Holding size h' (written h')
  written-Holding h' fits = record {
    upgraded_header = holding.upgraded_header;
    header = decode-encode h' f.vals.data_ fits;
    size_is = holding.size_is;
    capacity_is = holding.capacity_is;
  }

  pub store_step :
      (g : RawFragmentHeader → RawFragmentHeader)
      → FitsBits (g h)
      → (f' : Fragment) × (store_header g f ≡ done (tt, f')) × Holding size (g h) f'
  unfolding store_header
  store_step g fits =
      (written (g h), rw (header_read, put_header_form (g h)) refl, written-Holding (g h) fits)

-- The word of -1 in every cell reads as this header.
abbrev pub unset : RawFragmentHeader
unset = record {
  word_count = 2 ^ 32 - 1;
  version = invalid_version;
  type_ = 2 ^ 8 - 1;
  metadata_word_count = 2 ^ 8 - 1;
  sequence_id = 2 ^ 48 - 1;
  fragment_id = 2 ^ 16 - 1;
  timestamp = 2 ^ 64 - 1;
  valid = 1;
  complete = 1;
  atime_ns = 2 ^ 30 - 1;
  atime_s = 2 ^ 32 - 1;
}

abbrev pub blank_words : (ℕ → ℕ) → Fragment
blank_words fresh = record {
  vals = construct_with fresh num_words all_ones;
  upgraded_header = none;
}

pub blank_words-Holding : (fresh : ℕ → ℕ) → Holding num_words unset (blank_words fresh)
unfolding construct_with decode fill
blank_words-Holding fresh = record {
  upgraded_header = refl;
  header = refl;
  size_is = refl;
  capacity_is = refl;
}

pub bits :
    (h : RawFragmentHeader)
    → (h.word_count < 2 ^ 32)
      × (h.version < 2 ^ 16)
      × (h.type_ < 2 ^ 8)
      × (h.metadata_word_count < 2 ^ 8)
      × (h.sequence_id < 2 ^ 48)
      × (h.fragment_id < 2 ^ 16)
      × (h.timestamp < 2 ^ 64)
      × (h.valid < 2)
      × (h.complete < 2)
      × (h.atime_ns < 2 ^ 30)
      × (h.atime_s < 2 ^ 32)
    → FitsBits h
bits h (a, b, c, d, e, f, g, i, j, k, l) = record {
  word_count = a;
  version = b;
  type_ = c;
  metadata_word_count = d;
  sequence_id = e;
  fragment_id = f;
  timestamp = g;
  valid = i;
  complete = j;
  atime_ns = k;
  atime_s = l;
}
