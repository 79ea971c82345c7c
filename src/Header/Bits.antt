-- ===== src/Header/Bits.antt =====
-- The bit fields of a header do not overlap, and fill the words.
use artdaq_core.Prelude.{ℕ, zero, suc, ◌+◌, ◌*◌, ◌/◌, ◌%◌, ◌^◌, ◌<◌, ◌≡◌, refl, arith}
use artdaq_core.Header.{RawFragmentHeader, decode, encode, word}

-- Every field of the header fits its bits.
pub record FitsBits (h : RawFragmentHeader) : Type 0 where
  pub word_count : h.word_count < 2 ^ 32
  pub version : h.version < 2 ^ 16
  pub type_ : h.type_ < 2 ^ 8
  pub metadata_word_count : h.metadata_word_count < 2 ^ 8
  pub sequence_id : h.sequence_id < 2 ^ 48
  pub fragment_id : h.fragment_id < 2 ^ 16
  pub timestamp : h.timestamp < 2 ^ 64
  pub valid : h.valid < 2
  pub complete : h.complete < 2
  pub atime_ns : h.atime_ns < 2 ^ 30
  pub atime_s : h.atime_s < 2 ^ 32

fields_0 :
    (a b c e : ℕ)
    → a < 2 ^ 32
    → b < 2 ^ 16
    → c < 2 ^ 8
    → e < 2 ^ 8
    → let w = a % 2 ^ 32 + b % 2 ^ 16 * 2 ^ 32 + c % 2 ^ 8 * 2 ^ 48 + e % 2 ^ 8 * 2 ^ 56 in
      (w % 2 ^ 32 ≡ a)
      × (w / 2 ^ 32 % 2 ^ 16 ≡ b)
      × (w / 2 ^ 48 % 2 ^ 8 ≡ c)
      × (w / 2 ^ 56 % 2 ^ 8 ≡ e)
fields_0 a b c e ha hb hc he = (omega arith, omega arith, omega arith, omega arith)

fields_1 :
    (a b : ℕ)
    → a < 2 ^ 48
    → b < 2 ^ 16
    → let w = a % 2 ^ 48 + b % 2 ^ 16 * 2 ^ 48 in (w % 2 ^ 48 ≡ a) × (w / 2 ^ 48 % 2 ^ 16 ≡ b)
fields_1 a b ha hb = (omega arith, omega arith)

fields_3 :
    (a b c e : ℕ)
    → a < 2
    → b < 2
    → c < 2 ^ 30
    → e < 2 ^ 32
    → let w = a % 2 + b % 2 * 2 + c % 2 ^ 30 * 4 + e % 2 ^ 32 * 2 ^ 32 in
      (w % 2 ≡ a) × (w / 2 % 2 ≡ b) × (w / 4 % 2 ^ 30 ≡ c) × (w / 2 ^ 32 % 2 ^ 32 ≡ e)
fields_3 a b c e ha hb hc he = (omega arith, omega arith, omega arith, omega arith)

-- A header whose fields fit their bits is read back from the words that it was stored in.
pub decode-encode : (h : RawFragmentHeader) (d : ℕ → ℕ) → FitsBits h → decode (encode h d) ≡ h
unfolding decode encode word
decode-encode h d fits =
    let (a, b, c, e) =
      fields_0 h.word_count h.version h.type_ h.metadata_word_count fits.word_count fits.version
        fits.type_ fits.metadata_word_count in
    let (f, g) = fields_1 h.sequence_id h.fragment_id fits.sequence_id fits.fragment_id in
    let (k, l, m, n) =
      fields_3 h.valid h.complete h.atime_ns h.atime_s fits.valid fits.complete fits.atime_ns
        fits.atime_s in
    let t : h.timestamp % 2 ^ 64 % 2 ^ 64 ≡ h.timestamp = omega (arith, fits.timestamp) in
    rw (a, b, c, e, f, g, t, k, l, m, n) refl

-- Storing the header that was read leaves words of 64 bits as they are.
pub encode-decode :
    (d : ℕ → ℕ) (j : ℕ)
    → d 0 < 2 ^ 64
    → d 1 < 2 ^ 64
    → d 2 < 2 ^ 64
    → d 3 < 2 ^ 64
    → encode (decode d) d j ≡ d j
unfolding decode encode word
encode-decode d zero h₀ h₁ h₂ h₃ = omega arith
encode-decode d (suc zero) h₀ h₁ h₂ h₃ = omega arith
encode-decode d (suc (suc zero)) h₀ h₁ h₂ h₃ = omega arith
encode-decode d (suc (suc (suc zero))) h₀ h₁ h₂ h₃ = omega arith
encode-decode d (suc (suc (suc (suc j)))) h₀ h₁ h₂ h₃ = ground arith
