-- ===== src/RawEvent/Separation.antt =====
-- `releaseProduct(fragment_type)` of artdaq-core/Data/RawEvent.hh: the fragments of one type, and the rest.
use artdaq_core.Prelude.{
  ℕ, ◌≡◌, ◌≢◌, inl, inr, refl, arith, List, [], ◌∷◌, map, none, some, ◌==◌, Bool-cases,
}
use artdaq_core.Header.{RawFragmentHeader}
use artdaq_core.Fragment.{done, Fragment, fragment_header}
use artdaq_core.Fragment.Queries.{fragment_type}
use artdaq_core.RawEvent.{RawEvent, release_from, release_product_of}
use artdaq_core.RawEvent.Readings.{Reading, Readings, nothing, reading, left_of}

-- The readings are those of a type, `out`, and those of the other types, `kept`, each in their order.
pub data Separated (t : ℕ) : List Reading → List Reading → List Reading → Type 0 where
  over : Separated t [] [] []
  goes :
      {h : RawFragmentHeader} {f : Fragment} {ps out kept : List Reading}
      → h.type_ ≡ t
      → Separated t ps out kept
      → Separated t ((h, f) ∷ ps) ((h, f) ∷ out) kept
  stays :
      {h : RawFragmentHeader} {f : Fragment} {ps out kept : List Reading}
      → h.type_ ≢ t
      → Separated t ps out kept
      → Separated t ((h, f) ∷ ps) out ((h, f) ∷ kept)

pub type_read :
    (f f' : Fragment) (h : RawFragmentHeader)
    → fragment_header f ≡ done (h, f')
    → fragment_type f ≡ done (h.type_, f')
unfolding fragment_type
type_read f f' h e = rw e refl

-- The loop.
pub separates :
    (t : ℕ) {fs : List Fragment} {ps : List Reading}
    → Readings fs ps
    → (out : List Reading) × (kept : List Reading) × (release_from t fs
        ≡ record { thrown = none; value = map left_of out; left = map left_of kept })
      × Separated t ps out kept
unfolding release_from
separates t nothing = ([], [], refl, over)
separates t (reading {f = f} {f' = f'} {h = h} e rs) =
    let (out, kept, eq, sep) = separates t rs in
    elim (Bool-cases (h.type_ == t)) [
      | inl is ↦ (
        (h, f') ∷ out,
        kept,
        rw (release_from, type_read f f' h e, eq, is) refl,
        goes (ground arith) sep,
      )
      | inr is ↦ (
        out,
        (h, f') ∷ kept,
        rw (release_from, type_read f f' h e, eq, is) refl,
        stays (ground arith) sep,
      )
    ]

opens :
    (t : ℕ) (e : RawEvent) (fs : List Fragment)
    → e.fragments ≡ fs
    → fs ≢ []
    → release_product_of t e
      ≡ some (release_from t fs, record e { fragments = (release_from t fs).left })
unfolding release_product_of
opens t e [] eq some_there = absurd (some_there refl)
opens t e (f ∷ fs) eq some_there = rw eq refl

-- On an event with a fragment, whose headers can all be read, `releaseProduct(fragment_type)` throws nothing
-- and releases the fragments of the type, in the order in which the event holds them; the event keeps all
-- the others, in their order, and its header. Nothing is lost and nothing is released twice.
pub release_product_of-Separated :
    (t : ℕ) (e : RawEvent) (ps : List Reading)
    → Readings e.fragments ps
    → e.fragments ≢ []
    → (out : List Reading) × (kept : List Reading) × (release_product_of t e
        ≡ some (
          record { thrown = none; value = map left_of out; left = map left_of kept },
          record e { fragments = map left_of kept },
        ))
      × Separated t ps out kept
release_product_of-Separated t e ps rs some_there =
    let (out, kept, eq, sep) = separates t rs in
    (out, kept, rw (opens t e e.fragments refl some_there, eq) refl, sep)
