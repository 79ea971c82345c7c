-- ===== src/Fragment/Sized.antt =====
-- The constructor of artdaq-core/Data/Fragment.cc for a number of words of data.
use artdaq_core.Prelude.{ℕ, ◌+◌, ◌%◌, ◌^◌, ◌<◌, ◌≡◌, inl, inr, refl, arith}
use artdaq_core.Prelude.Words.{w32}
use artdaq_core.QuickVec.{construct, fill}
use artdaq_core.Header.{
  RawFragmentHeader, Timespec, decode, current_version, num_words, touch, invalid_sequence_id,
  invalid_fragment_id, invalid_timestamp,
}
use artdaq_core.Fragment.{Fragment, done, update_fragment_header_wc, touch_fragment}
use artdaq_core.Fragment.Construct.{construct_sized, blank}
use artdaq_core.Fragment.Storing.{Holding, store_step, unset, bits}

module _ (fresh : ℕ → ℕ) (n : ℕ) (small : n + num_words < w32) where
  blank-Holding : Holding (n + num_words) unset (blank fresh n)
  unfolding blank construct decode fill
  blank-Holding = record {
    upgraded_header = refl;
    header = refl;
    size_is = omega arith;
    capacity_is = omega arith;
  }

  -- The header of the new fragment.
  abbrev pub sized_header : Timespec → RawFragmentHeader
  sized_header now = record {
    word_count = n + num_words;
    version = current_version;
    type_ = 0;
    metadata_word_count = 0;
    sequence_id = invalid_sequence_id;
    fragment_id = invalid_fragment_id;
    timestamp = invalid_timestamp;
    valid = 1;
    complete = 1;
    atime_ns = now.tv_nsec % 2 ^ 30;
    atime_s = now.tv_sec % 2 ^ 32;
  }

  -- The constructor succeeds, and the fragment has its header and `n` more words.
  pub construct_sized-Holding :
      (now : Timespec)
      → (f : Fragment) × (construct_sized fresh n now ≡ done (tt, f))
        × Holding (n + num_words) (sized_header now) f
  unfolding construct_sized update_fragment_header_wc touch_fragment touch
  construct_sized-Holding now =
      let size = n + num_words in
      let fits : size % 2 ^ 32 ≡ size = omega arith in
      let b = blank fresh n in
      let h₁ : RawFragmentHeader = record unset { version = current_version } in
      let (f₁, e₁, p₁) =
        store_step size unset b blank-Holding (inr refl)
          (λ h. record h { version = current_version }) (bits h₁ (ground arith)) in
      let h₂ : RawFragmentHeader = record h₁ { word_count = size } in
      let (f₂, e₂, p₂) =
        store_step size h₁ f₁ p₁ (inl refl) (λ h. record h { word_count = size })
          (bits h₂ (ground arith)) in
      let h₃ : RawFragmentHeader = record h₂ { type_ = 0 } in
      let (f₃, e₃, p₃) =
        store_step size h₂ f₂ p₂ (inl refl) (λ h. record h { type_ = 0 })
          (bits h₃ (ground arith)) in
      let h₄ : RawFragmentHeader = record h₃ { sequence_id = invalid_sequence_id } in
      let (f₄, e₄, p₄) =
        store_step size h₃ f₃ p₃ (inl refl) (λ h. record h { sequence_id = invalid_sequence_id })
          (bits h₄ (ground arith)) in
      let h₅ : RawFragmentHeader = record h₄ { fragment_id = invalid_fragment_id } in
      let (f₅, e₅, p₅) =
        store_step size h₄ f₄ p₄ (inl refl) (λ h. record h { fragment_id = invalid_fragment_id })
          (bits h₅ (ground arith)) in
      let h₆ : RawFragmentHeader = record h₅ { timestamp = invalid_timestamp } in
      let (f₆, e₆, p₆) =
        store_step size h₅ f₅ p₅ (inl refl) (λ h. record h { timestamp = invalid_timestamp })
          (bits h₆ (ground arith)) in
      let h₇ : RawFragmentHeader = record h₆ { metadata_word_count = 0 } in
      let (f₇, e₇, p₇) =
        store_step size h₆ f₆ p₆ (inl refl) (λ h. record h { metadata_word_count = 0 })
          (bits h₇ (ground arith)) in
      let (f₈, e₈, p₈) =
        store_step size h₇ f₇ p₇ (inl refl) (touch now) (bits (touch now h₇) (ground arith)) in
      (
        f₈,
        rw e₁ (rw (p₁.size_is, fits) (rw e₂ (rw e₃ (rw e₄ (rw e₅ (rw e₆ (rw e₇ (rw e₈ refl)))))))),
        p₈,
      )
