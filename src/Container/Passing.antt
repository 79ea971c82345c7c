-- ===== src/Container/Passing.antt =====
-- What `at` of artdaq-core/Data/ContainerFragment.hh returns after `addFragment` of
-- artdaq-core/Data/ContainerFragmentLoader.hh.
use artdaq_core.Prelude.{ℕ, suc, ◌+◌, ◌-◌, ◌^◌, ◌<◌, ◌≤◌, ◌≡◌, ap, ap₂, arith, ◌∙◌, sym, Bool, List}
use artdaq_core.Prelude.Memory.{elements, elements_eq}
use artdaq_core.Prelude.Words.{w32}
use artdaq_core.QuickVec.{to_list}
use artdaq_core.Header.{Timespec}
use artdaq_core.Fragment.{Fragment}
use artdaq_core.Fragment.Layout.{IsCurrent}
use artdaq_core.Container.{Container, done, stopped, at, argument_out_of_range}
use artdaq_core.Container.Loader.{add_fragment}
use artdaq_core.Container.Reading.{metadata_of, data_start, looked_up}
use artdaq_core.Container.Single.{at-Indexed}
use artdaq_core.Container.Adding.{Contains}
use artdaq_core.Container.Growing.{Accepts, extended, old_end, new_end}
use artdaq_core.Container.Delivery.{type_of, Added, add_fragment-Added}

-- The words of the fragment at `k`.
abbrev pub words_of : (ends : ℕ → ℕ) → Container → ℕ → List ℕ
words_of ends c k = elements c.fragment.vals.data_ (data_start + ends k) (ends (k + 1) - ends k)

module _ (fresh later : ℕ → ℕ) (grown : ℕ → ℕ) (frag : Fragment) (cur : IsCurrent frag) (count : ℕ)
    (ends : ℕ → ℕ) where
  abbrev ends' : ℕ → ℕ
  ends' = extended count ends frag.vals.size

  -- Reading a fragment of `c'` returns its words.
  reads :
      (c' : Container) (k : ℕ) (new : ℕ → ℕ) (now : Timespec)
      → Contains (suc count) ends' c'
      → k < suc count
      → (g : Fragment) × (at new k now c' ≡ done (g, looked_up (suc count) ends' c'))
        × (to_list g.vals ≡ words_of ends' c' k)
  reads c' k new now x lt =
      let (g, e, own, words) =
        (at-Indexed (suc count) ends' new now c' x.index k).0 lt (x.sized k lt) in
      (g, e, words)

  old_words :
      (c c' : Container) (k : ℕ)
      → Contains count ends c
      → Added count ends frag c c'
      → k < count
      → words_of ends' c' k ≡ words_of ends c k
  old_words c c' k x a lt =
      let p = old_end count ends frag.vals.size k (omega arith) in
      let q = old_end count ends frag.vals.size (k + 1) (omega arith) in
      ap₂ (λ i j. elements c'.fragment.vals.data_ (data_start + i) (j - i)) p q
      ∙ elements_eq c'.fragment.vals.data_ c.fragment.vals.data_ (data_start + ends k)
          (data_start + ends k) (ends (k + 1) - ends k)
          (λ j l.
            ap c'.fragment.vals.data_ (shift j)
            ∙ a.old (ends k + j) (omega (arith, x.index.order k lt))
            ∙ ap c.fragment.vals.data_ (sym (shift j)))
    where
      shift : (j : ℕ) → data_start + ends k + j ≡ data_start + (ends k + j)
      shift j = omega arith

  new_words :
      (c c' : Container) → Added count ends frag c c' → words_of ends' c' count ≡ to_list frag.vals
  unfolding to_list
  new_words c c' a =
      let p = old_end count ends frag.vals.size count (omega arith) in
      let q : ends' (count + 1) ≡ ends count + frag.vals.size =
        ap ends' (omega arith) ∙ new_end count ends frag.vals.size in
      ap₂ (λ i j. elements c'.fragment.vals.data_ (data_start + i) (j - i)) p q
      ∙ ap (elements c'.fragment.vals.data_ (data_start + ends count)) (omega arith)
      ∙ elements_eq c'.fragment.vals.data_ frag.vals.data_ (data_start + ends count) 0
          frag.vals.size (λ j l. a.new j l ∙ ap frag.vals.data_ (omega arith))

  -- After a fragment of the current version was added to a container, under the conditions on its type and
  -- on sizes under which that succeeds, `at` with the number of fragments that were there before returns a
  -- fragment of exactly the words that were added, `at` with any smaller number returns exactly the words
  -- of the fragment that stood there before, and `at` with any larger number throws.
  pub at-add_fragment :
      (c : Container) (allow : Bool)
      → Contains count ends c
      → suc count < 2 ^ 16
      → Accepts allow (type_of frag) (metadata_of c)
      → ends count + frag.vals.size + (count + 2) + data_start + 4096 < w32
      → grown c.fragment.vals.capacity + 4096 < w32
      → (c' : Container) × (add_fragment fresh later grown frag allow c ≡ done (tt, c'))
        × Contains (suc count) ends' c'
        × ((new : ℕ → ℕ) (now : Timespec)
            → (g : Fragment) × (at new count now c' ≡ done (g, looked_up (suc count) ends' c'))
              × (to_list g.vals ≡ to_list frag.vals))
        × ((new : ℕ → ℕ) (now : Timespec) (k : ℕ)
            → k < count
            → (g : Fragment) × (at new k now c' ≡ done (g, looked_up (suc count) ends' c'))
              × (to_list g.vals ≡ words_of ends c k))
        × ((new : ℕ → ℕ) (now : Timespec) (k : ℕ)
            → suc count ≤ k
            → at new k now c' ≡ stopped argument_out_of_range)
  at-add_fragment c allow x few accepted small near =
      let (c', e, a) =
        add_fragment-Added fresh later grown frag cur count ends c allow x few accepted small
          near in
      (
        c',
        e,
        a.contains,
        λ new now.
            let (g, at_last, words) = reads c' count new now a.contains (omega arith) in
            (g, at_last, words ∙ new_words c c' a),
        λ new now k lt.
            let (g, at_k, words) = reads c' k new now a.contains (omega arith) in
            (g, at_k, words ∙ old_words c c' k x a lt),
        λ new now k le. (at-Indexed (suc count) ends' new now c' a.contains.index k).1 le,
      )
