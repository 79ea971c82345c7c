-- ===== src/Container/Several.antt =====
-- `addFragments` of artdaq-core/Data/ContainerFragmentLoader.hh, and what `at` of
-- artdaq-core/Data/ContainerFragment.hh returns after it.
use artdaq_core.Prelude.{
  ℕ, suc, ◌+◌, ◌-◌, ◌*◌, ◌^◌, ◌<◌, ◌≤◌, ◌≡◌, ap, ap₂, arith, ◌∙◌, sym, subst, Bool, List, length,
  get_elem?, some,
}
use artdaq_core.Prelude.Memory.{elements, elements_eq}
use artdaq_core.Prelude.Words.{w32}
use artdaq_core.QuickVec.{to_list}
use artdaq_core.Header.{Timespec}
use artdaq_core.Fragment.{Fragment}
use artdaq_core.Container.{Container, done, next, at, decode_metadata}
use artdaq_core.Container.Loader.{
  total_size, make_space, data_end, copy_all, close_index, add_fragments,
}
use artdaq_core.Container.Reading.{metadata_of, data_start, looked_up}
use artdaq_core.Container.Single.{at-Indexed}
use artdaq_core.Container.Indexing.{Closed}
use artdaq_core.Container.Closing.{close_index-Closed}
use artdaq_core.Container.Adding.{Contains, data_end_form}
use artdaq_core.Container.Room.{make_space_form}
use artdaq_core.Container.Growing.{Closed-Contains}
use artdaq_core.Container.Copying.{
  AreCurrent, AcceptsAll, total_words, all_ends, all_ends_old, all_ends_last, size_between,
  length-get_elem?, Holds, Copied, total_size_form, copy_all-Copied,
}
use artdaq_core.Container.Passing.{words_of}

-- The container `c'` has `n` fragments: the `count` of `c`, and then `fs`.
pub record AddedAll (n count : ℕ) (ends : ℕ → ℕ) (fs : List Fragment) (c c' : Container)
    : Type 0 where
  pub contains : Contains n (all_ends count ends fs) c'
  pub old :
      (k : ℕ)
      → k < ends count
      → c'.fragment.vals.data_ (data_start + k) ≡ c.fragment.vals.data_ (data_start + k)
  pub new :
      (j : ℕ) (f : Fragment)
      → get_elem? fs j ≡ some f
      → Holds c'.fragment.vals.data_ (all_ends count ends fs (count + j)) f

module _ (fresh later : ℕ → ℕ) (grown : ℕ → ℕ) (fs : List Fragment) (count : ℕ) (ends : ℕ → ℕ)
    (c : Container) where
  abbrev ends' : ℕ → ℕ
  ends' = all_ends count ends fs

  add_step :
      (allow : Bool) (end : ℕ) (c₁ c₂ c₃ c₄ : Container)
      → total_size fs c ≡ done (8 * total_words fs, c)
      → make_space fresh later grown (8 * total_words fs) (1 + length fs) c ≡ done (tt, c₁)
      → data_end c₁ ≡ done (end, c₂)
      → copy_all fs allow end c₂ ≡ done (tt, c₃)
      → close_index (length fs) c₃ ≡ done (tt, c₄)
      → add_fragments fresh later grown fs allow c ≡ done (tt, c₄)
  unfolding add_fragments
  add_step allow end c₁ c₂ c₃ c₄ e e₁ e₂ e₃ e₄ =
      rw e (rw (next, e₁) (rw (next, e₂) (rw (next, e₃) e₄)))

  Closed-new :
      (n : ℕ) (c₂ c₃ c₄ : Container) (j : ℕ) (f : Fragment)
      → Copied n count ends fs c₂ c₃
      → Closed n ends' c₃ c₄
      → count + length fs ≡ n
      → get_elem? fs j ≡ some f
      → Holds c₄.fragment.vals.data_ (ends' (count + j)) f
  Closed-new n c₂ c₃ c₄ j f q r e there k lt =
      let p : data_start + ends' (count + j) + k ≡ data_start + (ends' (count + j) + k) =
        omega arith in
      let short = length-get_elem? fs j f there in
      ap c₄.fragment.vals.data_ p
      ∙ r.kept (ends' (count + j) + k) (
          omega (
            arith,
            q.stands.order (count + j) (omega (arith, short, e)),
            size_between fs count ends j f there,
          ))
      ∙ ap c₃.fragment.vals.data_ (sym p)
      ∙ q.new j f there k lt

  all_added :
      (m : ℕ) (allow : Bool)
      → Contains count ends c
      → AreCurrent fs
      → AcceptsAll allow fs (metadata_of c)
      → count + length fs ≡ suc m
      → suc m < 2 ^ 16
      → ends count + total_words fs + (count + (1 + length fs)) + data_start + 4096 < w32
      → grown c.fragment.vals.capacity + 4096 < w32
      → (c' : Container) × (add_fragments fresh later grown fs allow c ≡ done (tt, c'))
        × AddedAll (suc m) count ends fs c c'
  all_added m allow x are accepted e few small near =
      let (c₁, e₁, x₁, kept, room) =
        make_space_form count ends fresh later grown (total_words fs) (1 + length fs) c x
          (small, near) in
      let (c₂, e₂, x₂, same) = data_end_form count ends c₁ x₁ in
      let meta : metadata_of c₂ ≡ metadata_of c =
        ap (λ f. decode_metadata f.vals.data_ 4) same ∙ kept.metadata in
      let size : c₂.fragment.vals.size ≡ c₁.fragment.vals.size = ap (λ f. f.vals.size) same in
      let (c₃, e₃, q) =
        copy_all-Copied fs allow (suc m) count ends c₂ x₂.index.container x₂.stands x₂.sized are
          (subst (AcceptsAll allow fs) (sym meta) accepted) e (omega (arith, room, size)) in
      let last = all_ends_last fs count ends (suc m) e in
      let (c₄, e₄, r) =
        close_index-Closed (length fs) m ends' c₃ q.container
          (omega (arith, q.block_count, x₂.index.block_count, e)) few q.stands
          (omega (arith, last, room, size, q.size, e)) in
      (
        c₄,
        add_step allow (data_start + ends count) c₁ c₂ c₃ c₄
            (total_size_form fs c are (omega (arith, small))) e₁ e₂ e₃ e₄,
        record {
          contains = Closed-Contains (suc m) ends' c₃ c₄ q.stands q.sized r;
          old = λ k lt.
              r.kept k (omega (arith, last))
              ∙ q.old (data_start + k) (omega arith) (omega arith)
              ∙ ap (λ f. f.vals.data_ (data_start + k)) same
              ∙ kept.kept (data_start + k) (omega arith) (omega (arith, x.index.room));
          new = λ j f there. Closed-new (suc m) c₂ c₃ c₄ j f q r e there;
        },
      )

  old_words :
      (n : ℕ) (c' : Container) (k : ℕ)
      → Contains count ends c
      → AddedAll n count ends fs c c'
      → k < count
      → words_of ends' c' k ≡ words_of ends c k
  old_words n c' k x a lt =
      let p = all_ends_old fs count ends k (omega arith) in
      let q = all_ends_old fs count ends (k + 1) (omega arith) in
      ap₂ (λ i j. elements c'.fragment.vals.data_ (data_start + i) (j - i)) p q
      ∙ elements_eq c'.fragment.vals.data_ c.fragment.vals.data_ (data_start + ends k)
          (data_start + ends k) (ends (k + 1) - ends k)
          (λ j l.
            ap c'.fragment.vals.data_ (shift j)
            ∙ a.old (ends k + j) (omega (arith, x.index.order k lt))
            ∙ ap c.fragment.vals.data_ (sym (shift j)))
    where
      shift : (j : ℕ) → data_start + ends k + j ≡ data_start + (ends k + j)
      shift j = omega arith

  new_words :
      (n : ℕ) (c' : Container) (j : ℕ) (f : Fragment)
      → AddedAll n count ends fs c c'
      → get_elem? fs j ≡ some f
      → words_of ends' c' (count + j) ≡ to_list f.vals
  unfolding to_list
  new_words n c' j f a there =
      ap (elements c'.fragment.vals.data_ (data_start + ends' (count + j)))
        (sym (size_between fs count ends j f there))
      ∙ elements_eq c'.fragment.vals.data_ f.vals.data_ (data_start + ends' (count + j)) 0
          f.vals.size (λ k l. a.new j f there k l ∙ ap f.vals.data_ (omega arith))

  -- When fragments of the current version are added together to a container, each of an accepted type after
  -- those before it, with at least one and fewer than 2 ^ 16 fragments in the end, and with the vector of
  -- 4096 words more than are needed and one grown by the factor and 4096 words more below 2 ^ 32 words, the
  -- call succeeds. Then `at` with the number of fragments that were there before plus `j` returns a
  -- fragment of exactly the words of the fragment `j` that was added, and `at` with any smaller number
  -- returns exactly the words of the fragment that stood there before.
  pub at-add_fragments :
      (allow : Bool)
      → Contains count ends c
      → AreCurrent fs
      → AcceptsAll allow fs (metadata_of c)
      → 1 ≤ count + length fs
      → count + length fs < 2 ^ 16
      → ends count + total_words fs + (count + (1 + length fs)) + data_start + 4096 < w32
      → grown c.fragment.vals.capacity + 4096 < w32
      → (c' : Container) × (add_fragments fresh later grown fs allow c ≡ done (tt, c'))
        × Contains (count + length fs) ends' c'
        × ((new : ℕ → ℕ) (now : Timespec) (j : ℕ) (f : Fragment)
            → get_elem? fs j ≡ some f
            → (g : Fragment) × (at new (count + j) now c'
                ≡ done (g, looked_up (count + length fs) ends' c'))
              × (to_list g.vals ≡ to_list f.vals))
        × ((new : ℕ → ℕ) (now : Timespec) (k : ℕ)
            → k < count
            → (g : Fragment) × (at new k now c' ≡ done (g, looked_up (count + length fs) ends' c'))
              × (to_list g.vals ≡ words_of ends c k))
  at-add_fragments allow x are accepted some_there few small near =
      let n = count + length fs in
      let e : n ≡ suc (n - 1) = omega arith in
      let (c', adds, b) = all_added (n - 1) allow x are accepted e (omega (arith, e)) small near in
      let a : AddedAll n count ends fs c c' =
        subst (λ m. AddedAll m count ends fs c c') (sym e) b in
      (
        c',
        adds,
        a.contains,
        λ new now j f there.
            let lt : count + j < n = omega (arith, length-get_elem? fs j f there) in
            let (g, reads, own, words) =
              (at-Indexed n ends' new now c' a.contains.index (count + j)).0 lt
                (a.contains.sized (count + j) lt) in
            (g, reads, words ∙ new_words n c' j f a there),
        λ new now k lt.
            let (g, reads, own, words) =
              (at-Indexed n ends' new now c' a.contains.index k).0 (omega arith)
                (a.contains.sized k (omega arith)) in
            (g, reads, words ∙ old_words n c' k x a lt),
      )
