-- ===== src/Fragment/Building.antt =====
-- What the constructors of artdaq-core/Data/Fragment.cc build.
use artdaq_core.Prelude.{
  Bool-cases, ℕ, ◌%◌, ◌^◌, ◌<◌, ◌≤◌, ◌≡◌, ◌⊎◌, inl, inr, refl, ap, arith, true, false, none, some,
  ltb, ◌==◌, ◌||◌, if◌then◌else◌,
}
use artdaq_core.Header.{
  RawFragmentHeader, Timespec, current_version, num_words, touch, set_system_type, set_user_type,
}
use artdaq_core.Header.Bits.{FitsBits}
use artdaq_core.Fragment.{
  invalid_value, refused, Fragment, done, after, update_fragment_header_wc, set_system_type_of,
  set_user_type_of, touch_fragment,
}
use artdaq_core.Fragment.Construct.{construct_typed}
use artdaq_core.Fragment.Storing.{
  Holding, IsWritable, header_read, put_header_form, written, written-Holding, store_step, unset,
  blank_words, blank_words-Holding, bits,
}

-- The header of a new fragment.
abbrev pub header_of : ℕ → ℕ → ℕ → ℕ → ℕ → Timespec → RawFragmentHeader
header_of size type seq frag timestamp now = record {
  word_count = size;
  version = current_version;
  type_ = type;
  metadata_word_count = 0;
  sequence_id = seq;
  fragment_id = frag;
  timestamp = timestamp;
  valid = 1;
  complete = 1;
  atime_ns = now.tv_nsec % 2 ^ 30;
  atime_s = now.tv_sec % 2 ^ 32;
}

-- A type that the constructor takes: that of data, or one of the user types.
abbrev pub IsTaken : ℕ → Type 0
IsTaken t = (t ≡ 226) ⊎ ((1 ≤ t) × (t ≤ 224))

takes_data :
    (t : ℕ) (h : RawFragmentHeader)
    → t ≡ 226
    → set_system_type (t % 2 ^ 8) h ≡ some (record h { type_ = t })
unfolding set_system_type
takes_data t h e = rw e refl

takes_user :
    (t : ℕ) (h : RawFragmentHeader)
    → 1 ≤ t
    → t ≤ 224
    → set_user_type (t % 2 ^ 8) h ≡ some (record h { type_ = t })
unfolding set_user_type
takes_user t h low high = rw (small, tests) refl
  where
    small : t % 2 ^ 8 ≡ t
    small = omega arith

    tests : (ltb t 1 || ltb 224 t) ≡ false
    tests = ground arith

set_type :
    (t : ℕ) (h : RawFragmentHeader) (f : Fragment)
    → Holding num_words h f
    → IsWritable h
    → FitsBits (record h { type_ = t })
    → IsTaken t
    → (f' : Fragment) × ((if t == 226 then set_system_type_of t else set_user_type_of t) f
        ≡ done (tt, f'))
      × Holding num_words (record h { type_ = t }) f'
unfolding set_system_type_of set_user_type_of
set_type t h f holding writable fits (inl e) =
    let h' = record h { type_ = t } in
    let is_data : (t == 226) ≡ true = ground arith in
    (
      written _ h f holding writable h',
      rw (is_data, header_read _ h f holding writable)
          (rw (after, takes_data t h e)
            (ap (λ x. done (tt, x)) (put_header_form _ h f holding writable h'))),
      written-Holding _ h f holding writable h' fits,
    )
set_type t h f holding writable fits (inr (low, high)) =
    let h' = record h { type_ = t } in
    let is_user : (t == 226) ≡ false = ground arith in
    (
      written _ h f holding writable h',
      rw (is_user, header_read _ h f holding writable)
          (rw (after, takes_user t h low high)
            (ap (λ x. done (tt, x)) (put_header_form _ h f holding writable h'))),
      written-Holding _ h f holding writable h' fits,
    )

user_ranges : (t : ℕ) → (t ≡ 0) ⊎ (((1 ≤ t) × (t ≤ 224)) ⊎ (225 ≤ t))
user_ranges t = ground arith

user_refused :
    (t : ℕ) (h : RawFragmentHeader) → t < 2 ^ 8 → ¬ IsTaken t → set_user_type (t % 2 ^ 8) h ≡ none
unfolding set_user_type
user_refused t h lt not_taken = rw (small, tests) refl
  where
    small : t % 2 ^ 8 ≡ t
    small = omega arith

    tests : (ltb t 1 || ltb 224 t) ≡ true
    tests = elim (user_ranges t) [
      | inl low ↦ ground arith
      | inr (inl user) ↦ absurd (not_taken (inr user))
      | inr (inr high) ↦ ground arith
    ]

-- The words of a new fragment.
pub construct_typed-Holding :
    (fresh : ℕ → ℕ) (seq frag t timestamp : ℕ) (now : Timespec)
    → IsTaken t
    → (f : Fragment) × (construct_typed fresh seq frag t timestamp now ≡ done (tt, f))
      × Holding num_words
          (header_of num_words t (seq % 2 ^ 48) (frag % 2 ^ 16) (timestamp % 2 ^ 64) now)
          f
unfolding construct_typed update_fragment_header_wc touch_fragment touch
construct_typed-Holding fresh seq frag t timestamp now taken =
    let b = blank_words fresh in
    let h₁ : RawFragmentHeader = record unset { version = current_version } in
    let (f₁, e₁, p₁) =
      store_step num_words unset b (blank_words-Holding fresh) (inr refl)
        (λ h. record h { version = current_version }) (bits h₁ (ground arith)) in
    let h₂ : RawFragmentHeader = record h₁ { word_count = num_words } in
    let (f₂, e₂, p₂) =
      store_step num_words h₁ f₁ p₁ (inl refl) (λ h. record h { word_count = num_words })
        (bits h₂ (ground arith)) in
    let h₃ : RawFragmentHeader = record h₂ { type_ = t } in
    let (f₃, e₃, p₃) = set_type t h₂ f₂ p₂ (inl refl) (bits h₃ (ground arith)) taken in
    let h₄ : RawFragmentHeader = record h₃ { sequence_id = seq % 2 ^ 48 } in
    let (f₄, e₄, p₄) =
      store_step num_words h₃ f₃ p₃ (inl refl) (λ h. record h { sequence_id = seq % 2 ^ 48 })
        (bits h₄ (ground arith)) in
    let h₅ : RawFragmentHeader = record h₄ { fragment_id = frag % 2 ^ 16 } in
    let (f₅, e₅, p₅) =
      store_step num_words h₄ f₄ p₄ (inl refl) (λ h. record h { fragment_id = frag % 2 ^ 16 })
        (bits h₅ (ground arith)) in
    let h₆ : RawFragmentHeader = record h₅ { timestamp = timestamp % 2 ^ 64 } in
    let (f₆, e₆, p₆) =
      store_step num_words h₅ f₅ p₅ (inl refl) (λ h. record h { timestamp = timestamp % 2 ^ 64 })
        (bits h₆ (ground arith)) in
    let h₇ : RawFragmentHeader = record h₆ { metadata_word_count = 0 } in
    let (f₇, e₇, p₇) =
      store_step num_words h₆ f₆ p₆ (inl refl) (λ h. record h { metadata_word_count = 0 })
        (bits h₇ (ground arith)) in
    let (f₈, e₈, p₈) =
      store_step num_words h₇ f₇ p₇ (inl refl) (touch now) (bits (touch now h₇) (ground arith)) in
    (f₈, rw e₁ (rw p₁.size_is (rw e₂ (rw e₃ (rw e₄ (rw e₅ (rw e₆ (rw e₇ (rw e₈ refl)))))))), p₈)

type_refused :
    (t : ℕ) (h : RawFragmentHeader) (f : Fragment)
    → Holding num_words h f
    → IsWritable h
    → t < 2 ^ 8
    → ¬ IsTaken t
    → (if t == 226 then set_system_type_of t else set_user_type_of t) f ≡ refused invalid_value
unfolding set_system_type_of set_user_type_of
type_refused t h f holding writable lt not_taken =
    let is_user : (t == 226) ≡ false = elim (Bool-cases (t == 226)) [
      | inl e ↦ absurd (not_taken (inl (ground arith)))
      | inr e ↦ e
    ] in
    let refuses : set_user_type (t % 2 ^ 8) h ≡ none = user_refused t h lt not_taken in
    rw (is_user, header_read _ h f holding writable) (rw (after, refuses) refl)

-- The constructor of a fragment by its ids throws for every other type: 0, and the system types but that of
-- data.
pub construct_typed_refuses :
    (fresh : ℕ → ℕ) (seq frag t timestamp : ℕ) (now : Timespec)
    → t < 2 ^ 8
    → ¬ IsTaken t
    → construct_typed fresh seq frag t timestamp now ≡ refused invalid_value
unfolding construct_typed update_fragment_header_wc
construct_typed_refuses fresh seq frag t timestamp now lt not_taken =
    let b = blank_words fresh in
    let h₁ : RawFragmentHeader = record unset { version = current_version } in
    let (f₁, e₁, p₁) =
      store_step num_words unset b (blank_words-Holding fresh) (inr refl)
        (λ h. record h { version = current_version }) (bits h₁ (ground arith)) in
    let h₂ : RawFragmentHeader = record h₁ { word_count = num_words } in
    let (f₂, e₂, p₂) =
      store_step num_words h₁ f₁ p₁ (inl refl) (λ h. record h { word_count = num_words })
        (bits h₂ (ground arith)) in
    rw e₁ (rw p₁.size_is (rw e₂ (rw (type_refused t h₂ f₂ p₂ (inl refl) lt not_taken) refl)))
