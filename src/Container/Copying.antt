-- ===== src/Container/Copying.antt =====
-- The loop of `addFragments` of artdaq-core/Data/ContainerFragmentLoader.hh, which copies fragments one behind
-- the other.
use artdaq_core.Prelude.{
  ℕ, zero, suc, ◌+◌, ◌-◌, ◌*◌, ◌%◌, ◌^◌, ◌<◌, ◌≤◌, ◌≡◌, inl, refl, ap, arith, ◌∙◌, sym, subst, Bool,
  List, [], ◌∷◌, length, get_elem?, some, none,
}
use artdaq_core.Prelude.Words.{w64}
use artdaq_core.Header.{decode, num_words}
use artdaq_core.Fragment.{Fragment}
use artdaq_core.Fragment as Fragment
use artdaq_core.Fragment.Layout.{IsCurrent, fragment_header_form}
use artdaq_core.Fragment.Queries.{fragment_type, fragment_size}
use artdaq_core.Container.{Container, Metadata, done, next}
use artdaq_core.Container.Walk.{Stands}
use artdaq_core.Container.Loader.{accept_type, store_words, total_size, copy_all}
use artdaq_core.Container.Reading.{IsContainer, metadata_of, data_start}
use artdaq_core.Container.Storing.{Marked, Filled, store_words-Filled}
use artdaq_core.Container.Growing.{
  typed, typed_rest, Accepts, accept_type-Marked, extended, old_end, new_end, extended-Stands,
  extended-sized,
}
use artdaq_core.Container.Delivery.{type_of}

abbrev pub AreCurrent : List Fragment → Type 0
AreCurrent [] = Unit {0}
AreCurrent (f ∷ fs) = IsCurrent f × AreCurrent fs

-- The fragments may be added one after the other to a container of the metadata `m`.
abbrev pub AcceptsAll : (allow : Bool) → List Fragment → Metadata → Type 0
AcceptsAll allow [] m = Unit {0}
AcceptsAll allow (f ∷ fs) m =
    Accepts allow (type_of f) m × AcceptsAll allow fs (typed (type_of f) m)

abbrev pub total_words : List Fragment → ℕ
total_words [] = 0
total_words (f ∷ fs) = f.vals.size + total_words fs

-- The ends, with the fragments behind the others.
abbrev pub all_ends : ℕ → (ℕ → ℕ) → List Fragment → ℕ → ℕ
all_ends count ends [] = ends
all_ends count ends (f ∷ fs) = all_ends (suc count) (extended count ends f.vals.size) fs

pub all_ends_old :
    (fs : List Fragment) (count : ℕ) (ends : ℕ → ℕ) (k : ℕ)
    → k ≤ count
    → all_ends count ends fs k ≡ ends k
all_ends_old [] count ends k le = refl
all_ends_old (f ∷ fs) count ends k le =
    all_ends_old fs (suc count) (extended count ends f.vals.size) k (omega arith)
    ∙ old_end count ends f.vals.size k le

pub all_ends_last :
    (fs : List Fragment) (count : ℕ) (ends : ℕ → ℕ) (n : ℕ)
    → count + length fs ≡ n
    → all_ends count ends fs n ≡ ends count + total_words fs
all_ends_last [] count ends n e =
    let same : n ≡ count = omega (arith, e) in omega (arith, ap ends same)
all_ends_last (f ∷ fs) count ends n e =
    all_ends_last fs (suc count) (extended count ends f.vals.size) n (omega arith)
    ∙ omega (arith, new_end count ends f.vals.size)

pub some_eq : (f g : Fragment) → some f ≡ some g → f ≡ g
some_eq f g e = ap (λ o. elim o [ none ↦ f | some x ↦ x ]) e

pub size_between :
    (fs : List Fragment) (count : ℕ) (ends : ℕ → ℕ) (j : ℕ) (f : Fragment)
    → get_elem? fs j ≡ some f
    → f.vals.size ≡ all_ends count ends fs (count + j + 1) - all_ends count ends fs (count + j)
size_between [] count ends j f e = absurd (ground (arith, e))
size_between (g ∷ fs) count ends zero f e =
    let ends' = extended count ends g.vals.size in
    let same : count + 0 ≡ count = omega arith in
    let next : count + 0 + 1 ≡ suc count = omega arith in
    let p : all_ends (suc count) ends' fs (count + 0) ≡ ends count =
      all_ends_old fs (suc count) ends' (count + 0) (omega arith)
      ∙ old_end count ends g.vals.size (count + 0) (omega arith)
      ∙ ap ends same in
    let q : all_ends (suc count) ends' fs (count + 0 + 1) ≡ ends count + g.vals.size =
      all_ends_old fs (suc count) ends' (count + 0 + 1) (omega arith)
      ∙ ap ends' next
      ∙ new_end count ends g.vals.size in
    ap (λ h. h.vals.size) (sym (some_eq g f e)) ∙ omega (arith, p, q)
size_between (g ∷ fs) count ends (suc j) f e =
    let p : suc count + j ≡ count + suc j = omega arith in
    size_between fs (suc count) (extended count ends g.vals.size) j f e
    ∙ ap
        (λ m.
          all_ends (suc count) (extended count ends g.vals.size) fs (m + 1)
          - all_ends (suc count) (extended count ends g.vals.size) fs m)
        p

pub length-get_elem? :
    (fs : List Fragment) (j : ℕ) (f : Fragment) → get_elem? fs j ≡ some f → j < length fs
length-get_elem? [] j f e = absurd (ground (arith, e))
length-get_elem? (g ∷ fs) zero f e = omega arith
length-get_elem? (g ∷ fs) (suc j) f e = omega (arith, length-get_elem? fs j f e)

-- The words of the fragment `f` stand in `d` from the end `at` on.
abbrev pub Holds : (ℕ → ℕ) → ℕ → Fragment → Type 0
Holds d at f = (k : ℕ) → k < f.vals.size → d (data_start + at + k) ≡ f.vals.data_ k

-- The container `c'` is `c` with the fragments `fs` behind the `count` that stood there, `n` in all.
pub record Copied (n count : ℕ) (ends : ℕ → ℕ) (fs : List Fragment) (c c' : Container)
    : Type 0 where
  pub container : IsContainer c'
  pub block_count : (metadata_of c').block_count ≡ (metadata_of c).block_count
  pub size : c'.fragment.vals.size ≡ c.fragment.vals.size
  pub stands : Stands n data_start (all_ends count ends fs) c'.fragment.vals.data_
  pub sized :
      (k : ℕ) → k < n → num_words ≤ all_ends count ends fs (k + 1) - all_ends count ends fs k
  pub old :
      (k : ℕ)
      → data_start ≤ k
      → k < data_start + ends count
      → c'.fragment.vals.data_ k ≡ c.fragment.vals.data_ k
  pub new :
      (j : ℕ) (f : Fragment)
      → get_elem? fs j ≡ some f
      → Holds c'.fragment.vals.data_ (all_ends count ends fs (count + j)) f

module _ (frag : Fragment) (cur : IsCurrent frag) where
  pub type_answer : fragment_type frag ≡ Fragment.done (type_of frag, frag)
  unfolding fragment_type
  type_answer = rw (fragment_header_form frag cur.own) refl

  pub size_answer : fragment_size frag ≡ Fragment.done (frag.vals.size, frag)
  unfolding fragment_size
  size_answer = rw (fragment_header_form frag cur.own, cur.word_count) refl

  pub first_word : frag.vals.data_ 0 % 2 ^ 32 ≡ frag.vals.size
  unfolding decode
  first_word = cur.word_count

pub total_size_form :
    (fs : List Fragment) (c : Container)
    → AreCurrent fs
    → 8 * total_words fs < w64
    → total_size fs c ≡ done (8 * total_words fs, c)
unfolding total_size
total_size_form [] c are lt = refl
total_size_form (f ∷ fs) c (cur, are) lt =
    rw (size_answer f cur)
      (rw (next, total_size_form fs c are (omega arith)) (ap (λ n. done (n, c)) (omega arith)))

-- One fragment is copied.
copy_step :
    (f : Fragment) (fs : List Fragment) (allow : Bool) (to next_to : ℕ) (c c₁ c₂ c' : Container)
    → IsCurrent f
    → to + f.vals.size ≡ next_to
    → accept_type allow (type_of f) c ≡ done (tt, c₁)
    → store_words f.vals.data_ to f.vals.size c₁ ≡ done (tt, c₂)
    → copy_all fs allow next_to c₂ ≡ done (tt, c')
    → copy_all (f ∷ fs) allow to c ≡ done (tt, c')
unfolding copy_all
copy_step f fs allow to next_to c c₁ c₂ c' cur e e₁ e₂ e₃ =
    rw (type_answer f cur)
      (rw (next, e₁) (rw (size_answer f cur) (rw (next, e₂) (rw (next, e) e₃))))

-- What is copied below the fragments that follow.
module _ (f : Fragment) (fs : List Fragment) (n count : ℕ) (ends : ℕ → ℕ) (c c₁ c₂ c' : Container)
    (r₁ : Marked (typed (type_of f) (metadata_of c)) c c₁)
    (r₂ : Filled f.vals.data_ (data_start + ends count) f.vals.size c₁ c₂)
    (q : Copied n (suc count) (extended count ends f.vals.size) fs c₂ c') where
  abbrev ends' : ℕ → ℕ
  ends' = extended count ends f.vals.size

  none_more : count + 0 ≡ count
  none_more = omega arith

  first_Holds : Holds c'.fragment.vals.data_ (all_ends (suc count) ends' fs (count + 0)) f
  first_Holds k lt =
      let p : all_ends (suc count) ends' fs (count + 0) ≡ ends count =
        all_ends_old fs (suc count) ends' (count + 0) (omega arith)
        ∙ old_end count ends f.vals.size (count + 0) (omega arith)
        ∙ ap ends none_more in
      ap (λ a. c'.fragment.vals.data_ (data_start + a + k)) p
      ∙ q.old (data_start + ends count + k) (omega arith)
          (omega (arith, new_end count ends f.vals.size))
      ∙ r₂.inside k lt

  all_Holds :
      (j : ℕ) (g : Fragment)
      → get_elem? (f ∷ fs) j ≡ some g
      → Holds c'.fragment.vals.data_ (all_ends (suc count) ends' fs (count + j)) g
  all_Holds zero g e =
      subst (Holds c'.fragment.vals.data_ (all_ends (suc count) ends' fs (count + 0)))
        (some_eq f g e) first_Holds
  all_Holds (suc j) g e =
      let p : suc count + j ≡ count + suc j = omega arith in
      subst (λ m. Holds c'.fragment.vals.data_ (all_ends (suc count) ends' fs m) g) p (q.new j g e)

  one-Copied : Copied n count ends (f ∷ fs) c c'
  one-Copied = record {
    container = q.container;
    block_count =
        q.block_count
        ∙ ap (λ m. m.block_count) (r₂.metadata ∙ r₁.metadata)
        ∙ (typed_rest (type_of f) (metadata_of c)).0;
    size = q.size ∙ r₂.size ∙ r₁.size;
    stands = q.stands;
    sized = q.sized;
    old = λ k low lt.
        q.old k low (omega (arith, new_end count ends f.vals.size))
        ∙ r₂.outside k (inl lt)
        ∙ r₁.kept k low;
    new = all_Holds;
  }

none_Copied :
    (n count : ℕ) (ends : ℕ → ℕ) (c : Container)
    → IsContainer c
    → Stands count data_start ends c.fragment.vals.data_
    → ((k : ℕ) → k < count → num_words ≤ ends (k + 1) - ends k)
    → count ≡ n
    → Copied n count ends [] c c
none_Copied n count ends c is s sized e = record {
  container = is;
  block_count = refl;
  size = refl;
  stands = subst (λ m. Stands m data_start ends c.fragment.vals.data_) e s;
  sized = λ k lt. sized k (omega (arith, e));
  old = λ k low lt. refl;
  new = λ j f absent. absurd (ground (arith, absent));
}

-- Fragments of the current version, of accepted types and for which there is room are all copied.
pub copy_all-Copied :
    (fs : List Fragment) (allow : Bool) (n count : ℕ) (ends : ℕ → ℕ) (c : Container)
    → IsContainer c
    → Stands count data_start ends c.fragment.vals.data_
    → ((k : ℕ) → k < count → num_words ≤ ends (k + 1) - ends k)
    → AreCurrent fs
    → AcceptsAll allow fs (metadata_of c)
    → count + length fs ≡ n
    → data_start + ends count + total_words fs ≤ c.fragment.vals.size
    → (c' : Container) × (copy_all fs allow (data_start + ends count) c ≡ done (tt, c'))
      × Copied n count ends fs c c'
unfolding copy_all
copy_all-Copied [] allow n count ends c is s sized are accepted e room =
    (c, refl, none_Copied n count ends c is s sized (omega (arith, e)))
copy_all-Copied (f ∷ fs) allow n count ends c is s sized (cur, are) (accepts, accepted) e room =
    let size = f.vals.size in
    let (c₁, e₁, r₁) = accept_type-Marked allow (type_of f) c is accepts in
    let (c₂, e₂, r₂) =
      store_words-Filled f.vals.data_ (data_start + ends count) size c₁ r₁.container (omega arith)
        (omega (arith, room, r₁.size)) in
    let s₂ =
      extended-Stands count ends size c.fragment.vals.data_ c₂.fragment.vals.data_ s
        (λ k lt.
          r₂.outside (data_start + ends k) (inl (omega (arith, s.order k lt, sized k lt)))
          ∙ r₁.kept (data_start + ends k) (omega arith))
        (ap (λ k. c₂.fragment.vals.data_ k % 2 ^ 32) (plus_none (data_start + ends count))
          ∙ ap (λ w. w % 2 ^ 32) (r₂.inside 0 (omega (arith, cur.room)))
          ∙ first_word f cur)
        (omega (arith, room, is.current.valid)) in
    let (c', e₃, q) =
      copy_all-Copied fs allow n (suc count) (extended count ends size) c₂ r₂.container s₂
        (extended-sized count ends size sized (omega (arith, cur.room))) are
        (subst (AcceptsAll allow fs) (sym (r₂.metadata ∙ r₁.metadata)) accepted) (omega (arith, e))
        (omega (arith, room, r₂.size, r₁.size, new_end count ends size)) in
    (
      c',
      copy_step f fs allow (data_start + ends count)
          (data_start + extended count ends size (suc count)) c c₁ c₂ c' cur
          (omega (arith, new_end count ends size)) e₁ e₂ e₃,
      one-Copied f fs n count ends c c₁ c₂ c' r₁ r₂ q,
    )
  where
    plus_none : (k : ℕ) → k ≡ k + 0
    plus_none k = omega arith
