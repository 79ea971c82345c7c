-- ===== src/Container/Single.antt =====
-- `fragSize` and `at` of artdaq-core/Data/ContainerFragment.hh: one fragment of a container.
use artdaq_core.Prelude.{
  ℕ, zero, suc, ◌+◌, ◌-◌, ◌*◌, ◌/◌, ◌<◌, ◌≤◌, ◌≡◌, refl, ap, arith, ◌∙◌, true, false, ◌||◌, none,
  ltb, leb, ◌==◌, if◌then◌else◌,
}
use artdaq_core.Prelude.Memory.{elements, elements_eq}
use artdaq_core.Prelude.Words.{sub64}
use artdaq_core.QuickVec.{copy_from, to_list}
use artdaq_core.QuickVec.Loops.{copy_from_inside}
use artdaq_core.Header.{num_words, Timespec}
use artdaq_core.Fragment.{Fragment, with_vals}
use artdaq_core.Fragment.Sized.{construct_sized-Holding}
use artdaq_core.Container.{
  Container, done, stopped, next, fragment_index, frag_size, allocate, at, give, stopped,
  argument_out_of_range, ◌>>=◌,
}
use artdaq_core.Container.Reading.{
  data_start, Indexed, begin_form, block_count_form, aligned_form, looked_up, looked_up-IsContainer,
  looked_up-Indexed, fragment_index_form,
}

module _ (count : ℕ) (ends : ℕ → ℕ) where
  module _ (c : Container) (x : Indexed count ends c) where
    abbrev read : Container
    read = looked_up count ends c

    -- The beginning of a fragment, once the index was looked up.
    begin_of : (k : ℕ) → k < count → fragment_index k read ≡ done (8 * ends k, read)
    unfolding fragment_index
    begin_of zero lt =
        let there : ltb count 0 ≡ false = ground arith in
        rw (block_count_form read (looked_up-IsContainer count ends c x.container))
          (rw (next, x.block_count, there) (ap (λ n. done (n, read)) (omega (arith, x.first))))
    begin_of (suc k) lt =
        let same : suc k ≡ k + 1 = omega arith in
        rw same
          (fragment_index_form count ends read (looked_up-Indexed count ends c x) k (omega arith))

    -- What `fragSize` subtracts.
    size_from :
        (k : ℕ)
        → k < count
        → (if k == 0
              then give (8 * ends (k + 1))
              else (do begin ← fragment_index k; give (sub64 (8 * ends (k + 1)) begin)))
            read
          ≡ done (8 * (ends (k + 1) - ends k), read)
    size_from zero lt = ap (λ n. done (n, read)) (omega (arith, x.first))
    size_from (suc k) lt =
        let later : (suc k == 0) ≡ false = ground arith in
        rw later (
          rw (begin_of (suc k) lt) (
            ap (λ n. done (n, read))
              (omega (arith, x.order (suc k) lt, x.room, x.container.current.valid))))

    module _ (k : ℕ) (lt : k < count) where
      abbrev words : ℕ
      words = ends (k + 1) - ends k

      inside : (leb count k || count == 0) ≡ false
      inside = ground arith

      pub frag_size_form : frag_size k c ≡ done (8 * words, read)
      unfolding frag_size
      frag_size_form = rw (block_count_form c x.container) (
          rw (next, x.block_count, inside, fragment_index_form count ends c x k lt)
            (size_from k lt))

      -- The fragment that is allocated, filled with the words that stand in the container.
      abbrev filled : Fragment → Fragment
      filled g =
          with_vals
            (record (g.vals) {
              data_ = copy_from g.vals.data_ c.fragment.vals.data_ 0 (data_start + ends k) words;
            })
            g

      allocated :
          (fresh : ℕ → ℕ) (now : Timespec)
          → num_words ≤ words
          → (g : Fragment) × (allocate fresh (8 * words) now read ≡ done (g, read))
            × (g.upgraded_header ≡ none)
            × (g.vals.size ≡ words)
      unfolding allocate
      allocated fresh now enough =
          let (g, e, h) =
            construct_sized-Holding fresh (words - num_words)
              (omega (arith, x.order k lt, x.room, x.container.current.valid, enough)) now in
          let long : ltb (8 * words) (8 * num_words) ≡ false = ground (arith, enough) in
          let n : 8 * words / 8 - num_words ≡ words - num_words = omega arith in
          (g, rw (long, n, e) refl, h.upgraded_header, h.size_is ∙ omega (arith, enough))

      at_form :
          (fresh : ℕ → ℕ) (now : Timespec) (g : Fragment)
          → allocate fresh (8 * words) now read ≡ done (g, read)
          → at fresh k now c ≡ done (filled g, read)
      unfolding at
      at_form fresh now g e = rw (block_count_form c x.container) (
          rw (next, x.block_count, inside, frag_size_form)
            (rw (next, e)
              (rw (next, begin_form read (looked_up-IsContainer count ends c x.container))
                (rw (next, begin_of k lt)
                  (rw (next, aligned_form (ends k) read)
                    (rw (next, aligned_form words read) refl))))))

  -- `at` for a fragment of at least the words of a header returns a fragment with exactly the words that
  -- stand in the container between its ends, and `at` for a number past the last one throws; the container
  -- stays, but for the place of its index, which is kept.
  pub at-Indexed :
      (fresh : ℕ → ℕ) (now : Timespec) (c : Container)
      → Indexed count ends c
      → (k : ℕ)
      → (k < count
          → num_words ≤ ends (k + 1) - ends k
          → (g : Fragment) × (at fresh k now c ≡ done (g, looked_up count ends c))
            × (g.upgraded_header ≡ none)
            × (to_list g.vals
                ≡ elements c.fragment.vals.data_ (data_start + ends k) (ends (k + 1) - ends k)))
        × (count ≤ k → at fresh k now c ≡ stopped argument_out_of_range)
  unfolding at to_list
  at-Indexed fresh now c x k = (
    λ lt enough.
        let (g, e, own, size) = allocated c x k lt fresh now enough in
        (
          filled c x k lt g,
          at_form c x k lt fresh now g e,
          own,
          rw size (
              elements_eq _ c.fragment.vals.data_ 0 (data_start + ends k) (ends (k + 1) - ends k)
                (λ j l.
                  copy_from_inside g.vals.data_ c.fragment.vals.data_ 0 (data_start + ends k)
                    (ends (k + 1) - ends k) j l)),
        ),
    λ le.
        let past : (leb count k || count == 0) ≡ true = ground arith in
        rw (block_count_form c x.container) (rw (next, x.block_count, past) refl),
  )
