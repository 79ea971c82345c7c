-- ===== src/RawEvent/Listing.antt =====
-- `fragmentTypes` of artdaq-core/Data/RawEvent.hh: every type of the event's fragments, once.
use artdaq_core.Prelude.{
  ℕ, ◌≡◌, inl, inr, refl, ap, ◌∙◌, sym, arith, List, [], ◌∷◌, ◌++◌, map, none, ◌==◌, ◌||◌,
  Bool-cases, true, false,
}
use mathlib.Core.List.{append_assoc, append-nil}
use artdaq_core.Fragment.{Fragment}
use artdaq_core.RawEvent.{Swept, RawEvent, is_listed, add_type, list_types, fragment_types}
use artdaq_core.RawEvent.Readings.{Reading, Readings, nothing, reading, left_of, header_of}
use artdaq_core.RawEvent.Separation.{type_read}

-- No type stands twice in the list.
pub data IsDistinct : List ℕ → Type 0 where
  empty : IsDistinct []
  first : {t : ℕ} {ts : List ℕ} → is_listed t ts ≡ false → IsDistinct ts → IsDistinct (t ∷ ts)

abbrev pub type_of : Reading → ℕ
type_of p = (header_of p).type_

listed_snoc : (u t : ℕ) (ts : List ℕ) → is_listed u (ts ++ (t ∷ [])) ≡ (is_listed u ts || (t == u))
unfolding is_listed
listed_snoc u t [] = ground arith
listed_snoc u t (x ∷ xs) = ground (arith, listed_snoc u t xs)

listed_found :
    (u t : ℕ) (ts : List ℕ) → is_listed t ts ≡ true → (t == u) ≡ true → is_listed u ts ≡ true
listed_found u t ts e is =
    let same : t ≡ u = ground arith in ap (λ x. is_listed x ts) (sym same) ∙ e

listed_add : (u t : ℕ) (ts : List ℕ) → is_listed u (add_type t ts) ≡ (is_listed u ts || (t == u))
unfolding add_type
listed_add u t ts = elim (Bool-cases (is_listed t ts)) [
  | inr e ↦ rw e (listed_snoc u t ts)
  | inl e ↦ elim (Bool-cases (t == u)) [
    | inl is ↦ rw (e, is, listed_found u t ts e is) refl
    | inr is ↦ rw (e, is) (ground arith)
  ]
]

distinct_snoc :
    (t : ℕ) {ts : List ℕ} → is_listed t ts ≡ false → IsDistinct ts → IsDistinct (ts ++ (t ∷ []))
unfolding is_listed
distinct_snoc t e empty = first refl empty
distinct_snoc t {ts = x ∷ xs} e (first n d) =
    first (rw (listed_snoc x t xs, n) (ground arith)) (distinct_snoc t (ground arith) d)

add_type-IsDistinct : (t : ℕ) {ts : List ℕ} → IsDistinct ts → IsDistinct (add_type t ts)
unfolding add_type
add_type-IsDistinct t {ts = ts} d = elim (Bool-cases (is_listed t ts)) [
  | inl e ↦ rw e d
  | inr e ↦ rw e (distinct_snoc t e d)
]

or_nothing : (u : ℕ) (ts : List ℕ) → is_listed u ts ≡ (is_listed u ts || is_listed u [])
unfolding is_listed
or_nothing u ts = ground arith

or_more :
    (u t : ℕ) (ts us : List ℕ)
    → (is_listed u (add_type t ts) || is_listed u us) ≡ (is_listed u ts || is_listed u (t ∷ us))
unfolding is_listed
or_more u t ts us = rw (listed_add u t ts) (ground arith)

add_type_extends :
    (t : ℕ) (ts more : List ℕ) → (added : List ℕ) × (add_type t ts ++ more ≡ ts ++ added)
unfolding add_type
add_type_extends t ts more = elim (Bool-cases (is_listed t ts)) [
  | inl e ↦ (more, rw e refl)
  | inr e ↦ (t ∷ more, rw e (append_assoc ts (t ∷ []) more))
]

-- The list `before` is extended by the types of the readings that are not in it.
pub record Listing (before : List ℕ) (ps : List Reading) (s : Swept (List ℕ)) : Type 0 where
  pub thrown : s.thrown ≡ none
  pub left : s.left ≡ map left_of ps
  pub distinct : IsDistinct s.value
  pub listed : (u : ℕ) → is_listed u s.value ≡ (is_listed u before || is_listed u (map type_of ps))
  pub extends : (added : List ℕ) × (s.value ≡ before ++ added)

pub list_types-Listing :
    {fs : List Fragment} {ps : List Reading} (types : List ℕ)
    → Readings fs ps
    → IsDistinct types
    → Listing types ps (list_types types fs)
unfolding list_types
list_types-Listing types nothing d = record {
  thrown = refl;
  left = refl;
  distinct = d;
  listed = λ u. or_nothing u types;
  extends = ([], sym (append-nil types));
}
list_types-Listing types (reading {f = f} {f' = f'} {h = h} {fs = fs} {ps = ps} e rs) d =
    let r = list_types-Listing (add_type h.type_ types) rs (add_type-IsDistinct h.type_ d) in
    rw (list_types, type_read f f' h e)
      (record {
        thrown = r.thrown;
        left = ap (λ x. f' ∷ x) r.left;
        distinct = r.distinct;
        listed = λ u. r.listed u ∙ or_more u h.type_ types (map type_of ps);
        extends =
            (let (more, eq) = r.extends in
              let (added, eq') = add_type_extends h.type_ types more in (added, eq ∙ eq'));
      })

-- `fragmentTypes`, given a list without repetitions, on an event whose fragments' headers can all be read,
-- throws nothing and leaves the event as reading leaves it. The list then begins with what was given, has no
-- repetition, and holds exactly the types that were given and those of the event's fragments.
pub fragment_types-Listing :
    (types : List ℕ) (e : RawEvent) (ps : List Reading)
    → Readings e.fragments ps
    → IsDistinct types
    → Listing types ps ((fragment_types types e).0)
      × ((fragment_types types e).1 ≡ record e { fragments = map left_of ps })
unfolding fragment_types
fragment_types-Listing types e ps rs d =
    let r = list_types-Listing types rs d in (r, ap (λ fs. record e { fragments = fs }) r.left)
