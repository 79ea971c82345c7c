-- ===== src/Fragment/Layout.antt =====
-- The words of a fragment of the current version: header, metadata and data, and the count of all of
-- them in the header, which the operations that change the size keep.
use artdaq_core.Prelude.{ℕ, ◌+◌, ◌%◌, ◌^◌, ◌<◌, ◌≤◌, ◌≡◌, refl, ap, arith, ◌∙◌, none}
use artdaq_core.Prelude.Words.{w32, sub64}
use artdaq_core.QuickVec.{QuickVec}
use artdaq_core.QuickVec.Contents.{IsValid}
use artdaq_core.Header.{RawFragmentHeader, decode, encode, current_version, num_words}
use artdaq_core.Header.Bits.{FitsBits, decode-encode}
use artdaq_core.Fragment.{
  Fragment, done, version, fragment_header_ptr, fragment_header, header_at, put_header,
  store_header, header_size_words, update_fragment_header_wc, data_begin, data_size, with_vals,
}

-- The words are of the current version, so that the header is read and written in them.
pub record IsOwn (f : Fragment) : Type 0 where
  pub upgraded_header : f.upgraded_header ≡ none
  pub version : (decode f.vals.data_).version ≡ current_version

-- What holds between operations: the vector is valid, the header counts its words, and there is room for
-- the header and the metadata.
pub record IsCurrent (f : Fragment) : Type 0 where
  pub own : IsOwn f
  pub valid : IsValid f.vals
  pub word_count : (decode f.vals.data_).word_count ≡ f.vals.size
  pub room : num_words + (decode f.vals.data_).metadata_word_count ≤ f.vals.size

pub decode_same : (d e : ℕ → ℕ) → ((k : ℕ) → k < num_words → d k ≡ e k) → decode d ≡ decode e
unfolding decode
decode_same d e h =
    rw (h 0 (omega arith), h 1 (omega arith), h 2 (omega arith), h 3 (omega arith)) refl

pub decode-FitsBits : (d : ℕ → ℕ) → FitsBits (decode d)
unfolding decode
decode-FitsBits d = record {
  word_count = omega arith;
  version = omega arith;
  type_ = omega arith;
  metadata_word_count = omega arith;
  sequence_id = omega arith;
  fragment_id = omega arith;
  timestamp = omega arith;
  valid = omega arith;
  complete = omega arith;
  atime_ns = omega arith;
  atime_s = omega arith;
}

module _ (f : Fragment) (own : IsOwn f) where
  fragment_header_ptr_form : fragment_header_ptr f ≡ done (tt, f)
  unfolding fragment_header_ptr version
  fragment_header_ptr_form = rw (own.upgraded_header, own.version) refl

  pub fragment_header_form : fragment_header f ≡ done (decode f.vals.data_, f)
  unfolding fragment_header header_at
  fragment_header_form = rw (fragment_header_ptr_form, own.upgraded_header) refl

  -- A header stored in the words.
  abbrev pub stored : RawFragmentHeader → Fragment
  stored h = record f { vals = record (f.vals) { data_ = encode h f.vals.data_ } }

  pub store_header_form :
      (g : RawFragmentHeader → RawFragmentHeader)
      → store_header g f ≡ done (tt, stored (g (decode f.vals.data_)))
  unfolding store_header put_header
  store_header_form g = rw (fragment_header_form, own.upgraded_header) refl

  pub data_begin_form :
      data_begin f ≡ done (num_words + (decode f.vals.data_).metadata_word_count, f)
  unfolding data_begin header_size_words version
  data_begin_form = rw (own.version, fragment_header_form) refl

  pub data_size_form :
      data_size f
      ≡ done (sub64 f.vals.size (num_words + (decode f.vals.data_).metadata_word_count), f)
  unfolding data_size
  data_size_form = rw data_begin_form refl

-- The header counts `n` words.
abbrev pub counting : ℕ → RawFragmentHeader → RawFragmentHeader
counting n h = record h { word_count = n }

pub FitsBits-counting :
    (n : ℕ) (h : RawFragmentHeader) → n < w32 → FitsBits h → FitsBits (counting n h)
FitsBits-counting n h lt b = record {
  word_count = omega arith;
  version = b.version;
  type_ = b.type_;
  metadata_word_count = b.metadata_word_count;
  sequence_id = b.sequence_id;
  fragment_id = b.fragment_id;
  timestamp = b.timestamp;
  valid = b.valid;
  complete = b.complete;
  atime_ns = b.atime_ns;
  atime_s = b.atime_s;
}

pub encode_beyond : (h : RawFragmentHeader) (d : ℕ → ℕ) (k : ℕ) → num_words ≤ k → encode h d k ≡ d k
unfolding encode
encode_beyond h d k le = ground arith

-- A fragment that the same header describes, with `n` words of data, of which those that it had room
-- for are those of `f`.
pub record Reshaped (n : ℕ) (f f' : Fragment) : Type 0 where
  pub current : IsCurrent f'
  pub size : f'.vals.size ≡ n + (num_words + (decode f.vals.data_).metadata_word_count)
  pub header : decode f'.vals.data_ ≡ counting f'.vals.size (decode f.vals.data_)
  pub data_size : data_size f' ≡ done (n, f')
  pub words :
      (k : ℕ)
      → num_words ≤ k
      → k < f'.vals.size
      → k < f.vals.size
      → f'.vals.data_ k ≡ f.vals.data_ k

module _ (f : Fragment) (cur : IsCurrent f) (n : ℕ) (v : QuickVec ℕ) (valid : IsValid v)
    (size : v.size ≡ n + (num_words + (decode f.vals.data_).metadata_word_count))
    (same : (k : ℕ) → k < v.size → k < f.vals.size → v.data_ k ≡ f.vals.data_ k) where
  abbrev h : RawFragmentHeader
  h = decode f.vals.data_

  abbrev g : Fragment
  g = with_vals v f

  header_kept : decode v.data_ ≡ h
  header_kept =
      decode_same v.data_ f.vals.data_
        (λ k lt. same k (omega (arith, size)) (omega (arith, cur.room)))

  resized-IsOwn : IsOwn g
  resized-IsOwn = record {
    upgraded_header = cur.own.upgraded_header;
    version = ap (λ x. x.version) header_kept ∙ cur.own.version;
  }

  abbrev counted : Fragment
  counted = record g { vals = record v { data_ = encode (counting v.size h) v.data_ } }

  recounts : update_fragment_header_wc g ≡ done (tt, counted)
  unfolding update_fragment_header_wc
  recounts =
      let small : v.size % 2 ^ 32 ≡ v.size = omega (arith, valid) in
      rw (store_header_form g resized-IsOwn, header_kept, small) refl

  header-counted : decode counted.vals.data_ ≡ counting v.size h
  header-counted =
      decode-encode (counting v.size h) v.data_
        (FitsBits-counting v.size h (omega (arith, valid)) (decode-FitsBits f.vals.data_))

  counted-IsCurrent : IsCurrent counted
  counted-IsCurrent = record {
    own = record {
      upgraded_header = cur.own.upgraded_header;
      version = ap (λ x. x.version) header-counted ∙ cur.own.version;
    };
    valid = valid;
    word_count = ap (λ x. x.word_count) header-counted;
    room = rw header-counted (omega (arith, size));
  }

  pub counted-Reshaped : (update_fragment_header_wc g ≡ done (tt, counted)) × Reshaped n f counted
  counted-Reshaped = (
    recounts,
    record {
      current = counted-IsCurrent;
      size = size;
      header = header-counted;
      data_size =
          rw (data_size_form counted counted-IsCurrent.own, header-counted)
            (ap (λ x. done (x, counted)) (omega (arith, size, valid)));
      words = λ k le lt lt'. encode_beyond (counting v.size h) v.data_ k le ∙ same k lt lt';
    },
  )
