-- ===== src/RawEvent/Readings.antt =====
-- Reading the headers of the fragments of an event, artdaq-core/Data/RawEvent.hh, through
-- `fragmentHeader` of artdaq-core/Data/Fragment.hh.
use artdaq_core.Prelude.{◌≡◌, ◌⊎◌, inl, inr, refl, arith, List, [], ◌∷◌, map, some, Option-cases}
use artdaq_core.Header.{RawFragmentHeader, current_version, invalid_version, upgrade_v0, upgrade_v1}
use artdaq_core.Fragment.{done, Fragment, version, fragment_header_ptr, fragment_header, header_at}

ptr_again :
    (f f' : Fragment)
    → fragment_header_ptr f ≡ done (tt, f')
    → fragment_header_ptr f' ≡ done (tt, f')
unfolding fragment_header_ptr version
ptr_again f f' e = ground arith

-- A fragment as it is read: its header, and what the read leaves.
abbrev pub Reading : Type 0
Reading = RawFragmentHeader × Fragment

abbrev pub header_of : Reading → RawFragmentHeader
header_of (h, f) = h

abbrev pub left_of : Reading → Fragment
left_of (h, f) = f

-- The headers of the fragments can all be read, with these readings.
pub data Readings : List Fragment → List Reading → Type 0 where
  nothing : Readings [] []
  reading :
      {f f' : Fragment} {h : RawFragmentHeader} {fs : List Fragment} {ps : List Reading}
      → fragment_header f ≡ done (h, f')
      → Readings fs ps
      → Readings (f ∷ fs) ((h, f') ∷ ps)

pub header_again :
    (f f' : Fragment) (h : RawFragmentHeader)
    → fragment_header f ≡ done (h, f')
    → fragment_header f' ≡ done (h, f')
unfolding fragment_header header_at fragment_header_ptr version
header_again f f' h e = ground arith

pub Readings-again :
    {fs : List Fragment} {ps : List Reading} → Readings fs ps → Readings (map left_of ps) ps
Readings-again nothing = nothing
Readings-again (reading {f = f} {f' = f'} {h = h} e rs) =
    reading (header_again f f' h e) (Readings-again rs)

-- A fragment's header can be read when the version of its words is known, or an upgrade is kept.
abbrev pub IsKnown : Fragment → Type 0
IsKnown f =
    (version f ≡ 0)
    ⊎ ((version f ≡ 1) ⊎ ((version f ≡ current_version) ⊎ (version f ≡ invalid_version)))

upgrades :
    (f : Fragment) (u : RawFragmentHeader)
    → fragment_header_ptr f ≡ done (tt, record f { upgraded_header = some u })
    → (p : Reading) × (fragment_header f ≡ done p)
unfolding fragment_header header_at
upgrades f u e = ((u, record f { upgraded_header = some u }), rw e refl)

stays :
    (f : Fragment)
    → fragment_header_ptr f ≡ done (tt, f)
    → (p : Reading) × (fragment_header f ≡ done p)
unfolding fragment_header
stays f e = ((header_at f, f), rw e refl)

pub known_readable : (f : Fragment) → IsKnown f → (p : Reading) × (fragment_header f ≡ done p)
unfolding fragment_header_ptr
known_readable f known = elim (Option-cases f.upgraded_header) [
  | inr (h, e) ↦ stays f (rw e refl)
  | inl e ↦ elim known [
    | inl v ↦ upgrades f (upgrade_v0 f.vals.data_) (rw (e, v) refl)
    | inr (inl v) ↦ upgrades f (upgrade_v1 f.vals.data_) (rw (e, v) refl)
    | inr (inr (inl v)) ↦ stays f (rw (e, v) refl)
    | inr (inr (inr v)) ↦ stays f (rw (e, v) refl)
  ]
]

-- The fragments of an event, each of a known version.
pub data AllKnown : List Fragment → Type 0 where
  none_there : AllKnown []
  known : {f : Fragment} {fs : List Fragment} → IsKnown f → AllKnown fs → AllKnown (f ∷ fs)

pub AllKnown-Readings : {fs : List Fragment} → AllKnown fs → (ps : List Reading) × Readings fs ps
AllKnown-Readings none_there = ([], nothing)
AllKnown-Readings (known {f = f} k ks) =
    let ((h, f'), e) = known_readable f k in
    let (ps, rs) = AllKnown-Readings ks in ((h, f') ∷ ps, reading e rs)
