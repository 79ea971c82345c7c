-- ===== src/Header/Types.antt =====
-- Which types a header takes, and what an upgraded header holds.
use artdaq_core.Prelude.{ℕ, ◌%◌, ◌^◌, ◌<◌, ◌≤◌, ◌≡◌, ◌⊎◌, refl, arith, none, some}
use artdaq_core.Header.{
  RawFragmentHeader, decode, encode, set_user_type, set_system_type, upgrade_v0, upgrade_v1,
  current_version,
}
use artdaq_core.Header.Bits.{FitsBits, decode-encode}

-- Of the two setters exactly one takes a type from 1 to 255: the user types up to 224 are for one and the
-- system types from 225 on for the other; both refuse 0.
pub set_type_cases :
    (t : ℕ) (h : RawFragmentHeader)
    → t < 2 ^ 8
    → ((t ≡ 0) × (set_user_type t h ≡ none) × (set_system_type t h ≡ none))
      ⊎ (((1 ≤ t)
            × (t ≤ 224)
            × (set_user_type t h ≡ some (record h { type_ = t }))
            × (set_system_type t h ≡ none))
          ⊎ ((225 ≤ t)
              × (set_user_type t h ≡ none)
              × (set_system_type t h ≡ some (record h { type_ = t }))))
unfolding set_user_type set_system_type
set_type_cases t h lt = ground arith

upgrade_v1-FitsBits : (d : ℕ → ℕ) → FitsBits (upgrade_v1 d)
unfolding upgrade_v1
upgrade_v1-FitsBits d = record {
  word_count = omega arith;
  version = omega arith;
  type_ = omega arith;
  metadata_word_count = omega arith;
  sequence_id = omega arith;
  fragment_id = omega arith;
  timestamp = omega arith;
  valid = omega arith;
  complete = omega arith;
  atime_ns = omega arith;
  atime_s = omega arith;
}

upgrade_v0-FitsBits : (d : ℕ → ℕ) → FitsBits (upgrade_v0 d)
unfolding upgrade_v0
upgrade_v0-FitsBits d = record {
  word_count = omega arith;
  version = omega arith;
  type_ = omega arith;
  metadata_word_count = omega arith;
  sequence_id = omega arith;
  fragment_id = omega arith;
  timestamp = omega arith;
  valid = omega arith;
  complete = omega arith;
  atime_ns = omega arith;
  atime_s = omega arith;
}

-- What an upgrade of an older header keeps.
abbrev pub Upgrades : RawFragmentHeader → RawFragmentHeader → Type 0
Upgrades old h =
    (h.word_count ≡ old.word_count)
    × (h.type_ ≡ old.type_)
    × (h.metadata_word_count ≡ old.metadata_word_count)
    × (h.sequence_id ≡ old.sequence_id)
    × (h.fragment_id ≡ old.fragment_id)
    × (h.version ≡ current_version)

upgrade_v0_keeps :
    (d : ℕ → ℕ)
    → Upgrades (decode d) (upgrade_v0 d)
      × ((upgrade_v0 d).timestamp ≡ (decode d).timestamp % 2 ^ 32)
unfolding upgrade_v0 decode
upgrade_v0_keeps d = ((refl, refl, refl, refl, refl, refl), omega arith)

upgrade_v1_keeps :
    (d : ℕ → ℕ)
    → Upgrades (decode d) (upgrade_v1 d) × ((upgrade_v1 d).timestamp ≡ (decode d).timestamp)
unfolding upgrade_v1 decode
upgrade_v1_keeps d = ((refl, refl, refl, refl, refl, refl), refl)

-- An upgraded header of version 0 or 1 has the current version, keeps the counts, the type and the ids,
-- and the timestamp, of which version 0 has the lower 32 bits only; stored anywhere in the current layout
-- it is read back unchanged.
pub upgrade_cases :
    (d into : ℕ → ℕ)
    → (Upgrades (decode d) (upgrade_v0 d)
        × ((upgrade_v0 d).timestamp ≡ (decode d).timestamp % 2 ^ 32)
        × (decode (encode (upgrade_v0 d) into) ≡ upgrade_v0 d))
      × (Upgrades (decode d) (upgrade_v1 d)
          × ((upgrade_v1 d).timestamp ≡ (decode d).timestamp)
          × (decode (encode (upgrade_v1 d) into) ≡ upgrade_v1 d))
upgrade_cases d into =
    let (k₀, t₀) = upgrade_v0_keeps d in
    let (k₁, t₁) = upgrade_v1_keeps d in
    (
      (k₀, t₀, decode-encode (upgrade_v0 d) into (upgrade_v0-FitsBits d)),
      (k₁, t₁, decode-encode (upgrade_v1 d) into (upgrade_v1-FitsBits d)),
    )
