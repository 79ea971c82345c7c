-- ===== src/Container/Delivery.antt =====
-- Adding a fragment to a container, artdaq-core/Data/ContainerFragmentLoader.hh, and reading it back.
use artdaq_core.Prelude.{
  ℕ, suc, ◌+◌, ◌-◌, ◌*◌, ◌%◌, ◌^◌, ◌<◌, ◌≤◌, ◌≡◌, inl, refl, ap, arith, ◌∙◌, sym, subst, Bool,
}
use artdaq_core.Prelude.Words.{w32, mul64}
use artdaq_core.Header.{decode, num_words}
use artdaq_core.Fragment.{Fragment, after, data_begin}
use artdaq_core.Fragment as Fragment
use artdaq_core.Fragment.Layout.{IsCurrent, fragment_header_form}
use artdaq_core.Fragment.Queries.{fragment_type, fragment_size}
use artdaq_core.Container.{Container, done, next, decode_metadata}
use artdaq_core.Container.Walk.{Stands}
use artdaq_core.Container.Loader.{
  accept_type, make_space, data_end, store_words, close_index, add_fragment,
}
use artdaq_core.Container.Reading.{metadata_of, data_start}
use artdaq_core.Container.Storing.{Filled, store_words-Filled}
use artdaq_core.Container.Indexing.{Closed}
use artdaq_core.Container.Closing.{close_index-Closed}
use artdaq_core.Container.Adding.{Contains, data_end_form}
use artdaq_core.Container.Room.{make_space_form}
use artdaq_core.Container.Growing.{
  typed, Accepts, accept_type-Marked, typed-Contains, extended, new_end, extended-Stands,
  extended-sized, Closed-Contains,
}

-- The type of a fragment.
abbrev pub type_of : Fragment → ℕ
type_of frag = (decode frag.vals.data_).type_

-- The container `c'` has the fragments of `c`, and then `frag`.
pub record Added (count : ℕ) (ends : ℕ → ℕ) (frag : Fragment) (c c' : Container) : Type 0 where
  pub contains : Contains (suc count) (extended count ends frag.vals.size) c'
  pub fragment_type :
      (metadata_of c').fragment_type ≡ (typed (type_of frag) (metadata_of c)).fragment_type
  pub old :
      (k : ℕ)
      → k < ends count
      → c'.fragment.vals.data_ (data_start + k) ≡ c.fragment.vals.data_ (data_start + k)
  pub new :
      (k : ℕ)
      → k < frag.vals.size
      → c'.fragment.vals.data_ (data_start + ends count + k) ≡ frag.vals.data_ k

module _ (fresh later : ℕ → ℕ) (grown : ℕ → ℕ) (frag : Fragment) (cur : IsCurrent frag) where
  pub type_form : fragment_type frag ≡ Fragment.done (type_of frag, frag)
  unfolding fragment_type
  type_form = rw (fragment_header_form frag cur.own) refl

  size_is : fragment_size frag ≡ Fragment.done (frag.vals.size, frag)
  unfolding fragment_size
  size_is = rw (fragment_header_form frag cur.own, cur.word_count) refl

  add_step :
      (allow : Bool) (c c₁ c₂ c₃ c₄ c₅ : Container) (end : ℕ)
      → accept_type allow (type_of frag) c ≡ done (tt, c₁)
      → make_space fresh later grown (8 * frag.vals.size) 2 c₁ ≡ done (tt, c₂)
      → data_end c₂ ≡ done (end, c₃)
      → store_words frag.vals.data_ end frag.vals.size c₃ ≡ done (tt, c₄)
      → close_index 1 c₄ ≡ done (tt, c₅)
      → add_fragment fresh later grown frag allow c ≡ done (tt, c₅)
  unfolding add_fragment
  add_step allow c c₁ c₂ c₃ c₄ c₅ end e₁ e₂ e₃ e₄ e₅ =
      let bytes : mul64 8 frag.vals.size ≡ 8 * frag.vals.size = omega (arith, cur.valid) in
      rw type_form
        (rw (next, e₁) (rw size_is (rw (next, bytes, e₂) (rw (next, e₃) (rw (next, e₄) e₅)))))

  header_size : frag.vals.data_ 0 % 2 ^ 32 ≡ frag.vals.size
  unfolding decode
  header_size = cur.word_count

  -- The fragment stands behind those of `c₃`, and then the index is made.
  module _ (count : ℕ) (ends : ℕ → ℕ) (c₃ c₄ : Container) (x : Contains count ends c₃)
      (few : suc count < 2 ^ 16)
      (room : ends count + frag.vals.size + (count + 2) + data_start ≤ c₃.fragment.vals.size)
      (r : Filled frag.vals.data_ (data_start + ends count) frag.vals.size c₃ c₄) where
    abbrev ends' : ℕ → ℕ
    ends' = extended count ends frag.vals.size

    last_end : ends' (suc count) ≡ ends count + frag.vals.size
    last_end = new_end count ends frag.vals.size

    before : (k : ℕ) → k < count → ends k < ends count
    before k lt = omega (arith, x.index.order k lt, x.sized k lt)

    filled-Stands : Stands (suc count) data_start ends' c₄.fragment.vals.data_
    filled-Stands =
        extended-Stands count ends frag.vals.size c₃.fragment.vals.data_ c₄.fragment.vals.data_
          x.stands (λ k lt. r.outside (data_start + ends k) (inl (omega (arith, before k lt))))
          (ap (λ k. c₄.fragment.vals.data_ k % 2 ^ 32) (omega arith)
            ∙ ap (λ w. w % 2 ^ 32) (r.inside 0 (omega (arith, cur.room)))
            ∙ header_size)
          (omega (arith, room, x.index.container.current.valid))

    closed : (c₅ : Container) × (close_index 1 c₄ ≡ done (tt, c₅)) × Closed (suc count) ends' c₄ c₅
    closed =
        close_index-Closed 1 count ends' c₄ r.container
          (omega (arith, ap (λ m. m.block_count) r.metadata, x.index.block_count)) few filled-Stands
          (omega (arith, last_end, room, r.size))

    sized' : (k : ℕ) → k < suc count → num_words ≤ ends' (k + 1) - ends' k
    sized' = extended-sized count ends frag.vals.size x.sized (omega (arith, cur.room))

    closed-Contains :
        (c₅ : Container) → Closed (suc count) ends' c₄ c₅ → Contains (suc count) ends' c₅
    closed-Contains c₅ q = Closed-Contains (suc count) ends' c₄ c₅ filled-Stands sized' q

    Closed-new :
        (c₅ : Container)
        → Closed (suc count) ends' c₄ c₅
        → (k : ℕ) → k < frag.vals.size
        → c₅.fragment.vals.data_ (data_start + ends count + k) ≡ frag.vals.data_ k
    Closed-new c₅ q k lt =
        let p : data_start + ends count + k ≡ data_start + (ends count + k) = omega arith in
        ap c₅.fragment.vals.data_ p
        ∙ q.kept (ends count + k) (omega (arith, last_end))
        ∙ ap c₄.fragment.vals.data_ (sym p)
        ∙ r.inside k lt

    Closed-old :
        (c₅ : Container)
        → Closed (suc count) ends' c₄ c₅
        → (k : ℕ) → k < ends count
        → c₅.fragment.vals.data_ (data_start + k) ≡ c₃.fragment.vals.data_ (data_start + k)
    Closed-old c₅ q k lt =
        q.kept k (omega (arith, last_end)) ∙ r.outside (data_start + k) (inl (omega arith))

  -- Adding a fragment of the current version succeeds when its type is accepted, fewer than 2 ^ 16 - 1
  -- fragments are contained, and a vector of 4096 words more than are needed, and one grown by the factor
  -- and 4096 words more, have fewer than 2 ^ 32 words. The container then has the fragments that it had and,
  -- behind them, the words of the new one; its index lists them all, in order; and an empty container has
  -- the type of its first fragment.
  pub add_fragment-Added :
      (count : ℕ) (ends : ℕ → ℕ) (c : Container) (allow : Bool)
      → Contains count ends c
      → suc count < 2 ^ 16
      → Accepts allow (type_of frag) (metadata_of c)
      → ends count + frag.vals.size + (count + 2) + data_start + 4096 < w32
      → grown c.fragment.vals.capacity + 4096 < w32
      → (c' : Container) × (add_fragment fresh later grown frag allow c ≡ done (tt, c'))
        × Added count ends frag c c'
  add_fragment-Added count ends c allow x few accepted small near =
      let (c₁, e₁, r₁) = accept_type-Marked allow (type_of frag) c x.index.container accepted in
      let x₁ = typed-Contains count ends (type_of frag) c c₁ x r₁ in
      let (c₂, e₂, x₂, kept, room) =
        make_space_form count ends fresh later grown frag.vals.size 2 c₁ x₁
          (small, subst (λ n. grown n + 4096 < w32) (sym r₁.capacity) near) in
      let (c₃, e₃, x₃, same) = data_end_form count ends c₂ x₂ in
      let room₃ : ends count + frag.vals.size + (count + 2) + data_start ≤ c₃.fragment.vals.size =
        omega (arith, room, ap (λ f. f.vals.size) same) in
      let (c₄, e₄, r₄) =
        store_words-Filled frag.vals.data_ (data_start + ends count) frag.vals.size c₃
          x₃.index.container (omega arith) (omega (arith, room₃)) in
      let (c₅, e₅, q) = closed count ends c₃ c₄ x₃ few room₃ r₄ in
      (
        c₅,
        add_step allow c c₁ c₂ c₃ c₄ c₅ (data_start + ends count) e₁ e₂ e₃ e₄ e₅,
        record {
          contains = closed-Contains count ends c₃ c₄ x₃ few room₃ r₄ c₅ q;
          fragment_type =
              q.fragment_type
              ∙ ap (λ m. m.fragment_type) r₄.metadata
              ∙ ap (λ f. (decode_metadata f.vals.data_ 4).fragment_type) same
              ∙ ap (λ m. m.fragment_type) kept.metadata
              ∙ ap (λ m. m.fragment_type) r₁.metadata;
          old = λ k lt.
              Closed-old count ends c₃ c₄ x₃ few room₃ r₄ c₅ q k lt
              ∙ ap (λ f. f.vals.data_ (data_start + k)) same
              ∙ kept.kept (data_start + k) (omega arith) (omega (arith, x₁.index.room))
              ∙ r₁.kept (data_start + k) (omega arith);
          new = λ k lt. Closed-new count ends c₃ c₄ x₃ few room₃ r₄ c₅ q k lt;
        },
      )
