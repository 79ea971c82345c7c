-- ===== src/RawEvent/Draining.antt =====
-- `fragmentTypes` and then `releaseProduct(fragment_type)` for every type that it lists, which is how the
-- fragments of an event of artdaq-core/Data/RawEvent.hh are taken out of it by type.
use artdaq_core.Prelude.{
  ℕ, ◌≡◌, ◌≢◌, inl, inr, refl, ap, ◌∙◌, sym, subst, arith, List, [], ◌∷◌, ◌++◌, map, Option, none,
  some, ◌==◌, ◌&&◌, not, Bool-cases, false,
}
use mathlib.Core.List.{Permᴰ, cons≢nil}
use mathlib.Core.List.Permᴰ
use artdaq_core.Fragment.{Fragment}
use artdaq_core.RawEvent.{
  Swept, RawEvent, RawEventHeader, is_listed, fragment_types, release_product_of,
}
use artdaq_core.RawEvent.Readings.{Reading, Readings, Readings-again, header_again, left_of}
use artdaq_core.RawEvent.Separation.{Separated, over, goes, stays, release_product_of-Separated}
use artdaq_core.RawEvent.Listing.{IsDistinct, first, type_of, empty, fragment_types-Listing}

-- The fragments of the listed types are released, one type after another: `none` when a call is undefined
-- or throws.
unfoldable pub drain : List ℕ → RawEvent → Option (List Fragment × RawEvent)
drain [] e = some ([], e)
drain (t ∷ ts) e = elim (release_product_of t e) [
  | none ↦ none
  | some (s, e₁) ↦
      let rest = drain ts e₁ in
      elim s.thrown [
        | some r ↦ none
        | none ↦ elim rest [ none ↦ none | some (fs, e₂) ↦ some (s.value ++ fs, e₂) ]
      ]
]

-- What is kept has the other types.
kept_listed :
    (t : ℕ) {ps out kept : List Reading} (u : ℕ)
    → Separated t ps out kept
    → is_listed u (map type_of kept) ≡ (not (t == u) && is_listed u (map type_of ps))
unfolding is_listed
kept_listed t u over = ground arith
kept_listed t u (goes {h = h} is sep) = rw (kept_listed t u sep, is) (ground arith)
kept_listed t u (stays {h = h} ne sep) = rw (kept_listed t u sep) (ground arith)

Separated-Perm :
    (t : ℕ) {ps out kept : List Reading}
    → Separated t ps out kept
    → Permᴰ (map left_of out ++ map left_of kept) (map left_of ps)
Separated-Perm t over = Permᴰ.nil
Separated-Perm t (goes is sep) = Permᴰ.cons refl (Separated-Perm t sep)
Separated-Perm t (stays {f = f} {out = out} {kept = kept} ne sep) =
    Permᴰ.trans (Permᴰ.middle f (map left_of out) (map left_of kept))
      (Permᴰ.cons refl (Separated-Perm t sep))

kept_read :
    {t : ℕ} {fs : List Fragment} {ps out kept : List Reading}
    → Readings fs ps
    → Separated t ps out kept
    → Readings (map left_of kept) kept
kept_read Readings.nothing over = Readings.nothing
kept_read (Readings.reading r rs) (goes is sep) = kept_read rs sep
kept_read (Readings.reading {f = f} {f' = f'} {h = h} r rs) (stays ne sep) =
    Readings.reading (header_again f f' h r) (kept_read rs sep)

some_left :
    (t : ℕ) (ts : List ℕ) {fs : List Fragment} {ps : List Reading}
    → Readings fs ps
    → is_listed t (t ∷ ts) ≡ is_listed t (map type_of ps)
    → fs ≢ []
unfolding is_listed
some_left t ts Readings.nothing e = absurd (ground arith)
some_left t ts (Readings.reading r rs) e = cons≢nil

none_left :
    {fs : List Fragment} {ps : List Reading}
    → Readings fs ps
    → ((u : ℕ) → is_listed u [] ≡ is_listed u (map type_of ps))
    → (fs ≡ []) × (ps ≡ [])
unfolding is_listed
none_left Readings.nothing same = (refl, refl)
none_left (Readings.reading {h = h} r rs) same = absurd (let e = same h.type_ in ground arith)

rest_listed :
    (t : ℕ) (ts : List ℕ) {ps out kept : List Reading}
    → is_listed t ts ≡ false
    → Separated t ps out kept
    → ((u : ℕ) → is_listed u (t ∷ ts) ≡ is_listed u (map type_of ps))
    → (u : ℕ) → is_listed u ts ≡ is_listed u (map type_of kept)
unfolding is_listed
rest_listed t ts {ps = ps} {kept = kept} new sep same u =
    let before = same u in
    let after = kept_listed t u sep in
    elim (Bool-cases (t == u)) [
      | inl is ↦
          let equal : t ≡ u = ground arith in
          let absent : is_listed u ts ≡ false = ap (λ x. is_listed x ts) (sym equal) ∙ new in
          ground arith
      | inr is ↦ ground arith
    ]

drains :
    (ts : List ℕ) (hd : RawEventHeader) {fs : List Fragment} {ps : List Reading}
    → Readings fs ps
    → IsDistinct ts
    → ((u : ℕ) → is_listed u ts ≡ is_listed u (map type_of ps))
    → (all : List Fragment) × (drain ts (record { header = hd; fragments = fs })
        ≡ some (all, record { header = hd; fragments = [] }))
      × Permᴰ all (map left_of ps)
unfolding drain
drains [] hd {fs = fs} {ps = ps} rs d same =
    let (e, e') = none_left rs same in
    ([], rw e refl, subst (λ x. Permᴰ [] (map left_of x)) (sym e') Permᴰ.nil)
drains (t ∷ ts) hd {fs = fs} {ps = ps} rs (first new d) same =
    let (out, kept, eq, sep) =
      release_product_of-Separated t (record { header = hd; fragments = fs }) ps rs
        (some_left t ts rs (same t)) in
    let (all, eq', perm) = drains ts hd (kept_read rs sep) d (rest_listed t ts new sep same) in
    (
      map left_of out ++ all,
      rw (drain, eq, eq') refl,
      Permᴰ.trans (Permᴰ.append_left (map left_of out) perm) (Separated-Perm t sep),
    )

-- The fragments of an event whose headers can all be read are taken out by type: `fragmentTypes` on an empty
-- list, and then `releaseProduct(fragment_type)` for each of the types that it lists, in turn. No call throws
-- and none reads from an event without fragments; in the end the event is empty, its header is unchanged, and
-- what was released is a permutation of its fragments, as reading leaves them.
pub drain-Permutation :
    (e : RawEvent) (ps : List Reading)
    → Readings e.fragments ps
    → (s : Swept (List ℕ)) × (e₁ : RawEvent) × (all : List Fragment) × (fragment_types [] e
        ≡ (s, e₁))
      × (s.thrown ≡ none)
      × (drain s.value e₁ ≡ some (all, record e { fragments = [] }))
      × Permᴰ all (map left_of ps)
unfolding is_listed
drain-Permutation e ps rs =
    let (listing, eq) = fragment_types-Listing [] e ps rs empty in
    let (all, eq', perm) =
      drains (fragment_types [] e).0.value e.header (Readings-again rs) listing.distinct
        listing.listed in
    ((fragment_types [] e).0, (fragment_types [] e).1, all, refl, listing.thrown, rw eq eq', perm)
