-- ===== src/Container/Room.antt =====
-- The room that artdaq-core/Data/ContainerFragmentLoader.hh makes: `addSpace_`, and what is kept by it.
use artdaq_core.Prelude.{
  ℕ, ◌+◌, ◌-◌, ◌*◌, ◌%◌, ◌^◌, ◌<◌, ◌≤◌, ◌≡◌, ◌⊎◌, inl, inr, refl, ap, arith, ◌∙◌, sym, subst, true,
  false, ltb, if◌then◌else◌,
}
use artdaq_core.Prelude.Words.{w32, add64, sub64, mul64}
use artdaq_core.Header.{num_words}
use artdaq_core.Fragment.{Fragment, resize_bytes_with_cushion}
use artdaq_core.Fragment as Fragment
use artdaq_core.Fragment.Layout.{Reshaped}
use artdaq_core.Fragment.Resizing.{resize_bytes_with_cushion-Reshaped}
use artdaq_core.Container.{Container, done, next, give, decode_metadata, reset_index_ptr}
use artdaq_core.Container.Loader.{add_space, make_space}
use artdaq_core.Container.Reading.{IsContainer, metadata_of, data_start, reset_form, looked_up}
use artdaq_core.Container.Storing.{loader_metadata_form, decode_metadata_same}
use artdaq_core.Container.Adding.{
  Contains, Extends, looked_up-Contains, last_fragment_index_form, size_bytes_form,
}

less_or_enough : (a b : ℕ) → (a < b) ⊎ (b ≤ a)
less_or_enough a b = ground arith

module _ (count : ℕ) (ends : ℕ → ℕ) where
  module _ (fresh later : ℕ → ℕ) (grown : ℕ → ℕ) where
    -- What the data of a resized fragment keeps.
    resized-Indexed :
        (n : ℕ) (c : Container) (f : Fragment)
        → Contains count ends c
        → Reshaped n c.fragment f
        → c.fragment.vals.size ≤ f.vals.size
        → let c' = record c { fragment = f } in
          Contains count ends c' × Extends c.fragment.vals.size c c'
    resized-Indexed n c f x r le =
        let is = x.index.container in
        let kept = λ (k : ℕ) (low : num_words ≤ k) (lt : k < c.fragment.vals.size).
          r.words k low (omega arith) lt in
        let same : metadata_of (record c { fragment = f }) ≡ metadata_of c =
          decode_metadata_same f.vals.data_ c.fragment.vals.data_ 4
            (kept 4 (omega arith) (omega (arith, x.index.room)))
            (kept 5 (omega arith) (omega (arith, x.index.room))) in
        (
          record {
            index = record {
              container = record {
                current = r.current;
                metadata_words = ap (λ h. h.metadata_word_count) r.header ∙ is.metadata_words;
                upgraded = is.upgraded;
              };
              block_count = ap (λ m. m.block_count) same ∙ x.index.block_count;
              has_index = ap (λ m. m.has_index) same ∙ x.index.has_index;
              index_offset = ap (λ m. m.index_offset) same ∙ x.index.index_offset;
              first = x.index.first;
              order = x.index.order;
              ends_at = λ k lt.
                  kept (data_start + ends count + k) (omega arith) (omega (arith, x.index.room))
                  ∙ x.index.ends_at k lt;
              magic =
                  kept (data_start + ends count + count) (omega arith) (omega (arith, x.index.room))
                  ∙ x.index.magic;
              room = omega (arith, x.index.room);
              index = x.index.index;
            };
            stands = record {
              first = x.stands.first;
              order = x.stands.order;
              counted = λ k lt.
                  ap (λ w. w % 2 ^ 32)
                    (kept (data_start + ends k) (omega arith)
                      (omega (arith, x.index.room, x.index.order k lt)))
                  ∙ x.stands.counted k lt;
              small = x.stands.small;
            };
            sized = x.sized;
          },
          record { metadata = same; kept = λ k low lt. kept k (omega arith) lt },
        )

    -- What is asked for stays below 2 ^ 32 words.
    abbrev pub Fits : ℕ → Container → Type 0
    Fits n c = (n + data_start + 4096 < w32) × (grown c.fragment.vals.capacity + 4096 < w32)

    add_space_step :
        (bytes n : ℕ) (c : Container) (f : Fragment) (d : Container)
        → IsContainer c
        → add64 bytes (8 * (c.fragment.vals.size - data_start)) ≡ 8 * n
        → resize_bytes_with_cushion fresh later grown (8 * n) c.fragment ≡ Fragment.done (tt, f)
        → reset_index_ptr (record c { fragment = f }) ≡ done (tt, d)
        → add_space fresh later grown bytes c ≡ done (tt, d)
    unfolding add_space
    add_space_step bytes n c f d is total e reset =
        rw (size_bytes_form count ends c is) (rw (next, total, e) reset)

    -- The vector gets `n` words of data.
    add_space_form :
        (n : ℕ) (c : Container)
        → Contains count ends c
        → c.fragment.vals.size < n + data_start
        → Fits n c
        → (c' : Container) × (add_space fresh later grown
              (sub64 (8 * n) (8 * (c.fragment.vals.size - data_start)))
              c
            ≡ done (tt, c'))
          × Contains count ends c'
          × Extends c.fragment.vals.size c c'
          × (n + data_start ≤ c'.fragment.vals.size)
    add_space_form n c x more fits =
        let is = x.index.container in
        let size = c.fragment.vals.size in
        let have = 8 * (size - data_start) in
        let total : add64 (sub64 (8 * n) have) have ≡ 8 * n =
          omega (arith, is.current.valid, fits, more) in
        let (f, e, r) =
          resize_bytes_with_cushion-Reshaped fresh later grown n c.fragment is.current
            (omega (arith, fits, is.metadata_words)) (fits.1) in
        let grew : n + data_start ≤ f.vals.size = omega (arith, r.size, is.metadata_words) in
        let (y, kept) = resized-Indexed n c f x r (omega arith) in
        let c₁ = record c { fragment = f } in
        (
          looked_up count ends c₁,
          add_space_step (sub64 (8 * n) have) n c f (looked_up count ends c₁) is total e (
              reset_form count ends c₁ y.index.container y.index.block_count y.index.has_index
                y.index.index_offset y.index.magic),
          looked_up-Contains count ends c₁ y,
          record { metadata = kept.metadata; kept = kept.kept },
          grew,
        )

    -- Room for `n` words of data, when there was less.
    space_form :
        (n : ℕ) (c : Container)
        → Contains count ends c
        → Fits n c
        → (c' : Container) × ((if ltb (8 * (c.fragment.vals.size - data_start)) (8 * n)
                then add_space fresh later grown
                    (sub64 (8 * n) (8 * (c.fragment.vals.size - data_start)))
                else give tt)
              c
            ≡ done (tt, c'))
          × Contains count ends c'
          × Extends c.fragment.vals.size c c'
          × (n + data_start ≤ c'.fragment.vals.size)
    space_form n c x fits = elim (less_or_enough c.fragment.vals.size (n + data_start)) [
      | inl less ↦
          let short : ltb (8 * (c.fragment.vals.size - data_start)) (8 * n) ≡ true =
            ground (arith, x.index.room) in
          let (c', e, y, kept, room) = add_space_form n c x less fits in
          (c', rw short e, y, kept, room)
      | inr enough ↦
          let long : ltb (8 * (c.fragment.vals.size - data_start)) (8 * n) ≡ false = ground arith in
          (c, rw long refl, x, record { metadata = refl; kept = λ k low lt. refl }, enough)
    ]

    -- `bytes` are `b` words, and the index gets `words` more words than there are blocks.
    pub make_space_form :
        (b words : ℕ) (c : Container)
        → Contains count ends c
        → Fits (ends count + b + (count + words)) c
        → (c' : Container) × (make_space fresh later grown (8 * b) words c ≡ done (tt, c'))
          × Contains count ends c'
          × Extends c.fragment.vals.size c c'
          × (ends count + b + (count + words) + data_start ≤ c'.fragment.vals.size)
    unfolding make_space
    make_space_form b words c x fits =
        let n = ends count + b + (count + words) in
        let (c₁, e₁, y₁, same) = last_fragment_index_form count ends c x in
        let size : c₁.fragment.vals.size ≡ c.fragment.vals.size = ap (λ f. f.vals.size) same in
        let (c₂, e₂, y₂, kept, room) = space_form n c₁ y₁ (
          subst (λ f. (n + data_start + 4096 < w32) × (grown f.vals.capacity + 4096 < w32))
            (sym same) fits) in
        let need : add64 (add64 (8 * ends count) (8 * b)) (mul64 8 (count + words)) ≡ 8 * n =
          omega (arith, fits) in
        (
          c₂,
          rw (size_bytes_form count ends c x.index.container) (
              rw (next, e₁)
                (rw (next, loader_metadata_form c₁ y₁.index.container)
                  (rw (next, y₁.index.block_count, need, ← size) e₂))),
          y₂,
          record {
            metadata = kept.metadata ∙ ap (λ f. decode_metadata f.vals.data_ 4) same;
            kept =
                λ k low lt. kept.kept k low (omega (arith, size)) ∙ ap (λ f. f.vals.data_ k) same;
          },
          room,
        )
