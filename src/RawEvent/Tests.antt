-- ===== src/RawEvent/Tests.antt =====
-- An event of three fragments, of data, of a user type, and of data again, with headers of each version.
use artdaq_core.Prelude.{
  ℕ, ◌+◌, ◌*◌, ◌^◌, ◌≡◌, inl, inr, refl, List, [], ◌∷◌, map, none, some, if◌then◌else◌, ◌==◌,
}
use mathlib.Core.List.{Permᴰ, cons≢nil}
use artdaq_core.Fragment.{Fragment, version, fragment_header}
use artdaq_core.RawEvent.{
  Swept, RawEvent, construct_event, insert_fragment, mark_complete, fragment_types,
  release_product_of, word_count,
}
use artdaq_core.RawEvent.Readings.{Reading, AllKnown, none_there, known, AllKnown-Readings, left_of}
use artdaq_core.RawEvent.Separation.{Separated, release_product_of-Separated}
use artdaq_core.RawEvent.Listing.{Listing, empty, first, fragment_types-Listing}
use artdaq_core.RawEvent.Draining.{drain, drain-Permutation}

-- The words of a fragment of a size, a version and a type.
abbrev fragment_of : ℕ → ℕ → ℕ → Fragment
fragment_of size v type = record {
  vals = record {
    size = size;
    data_ = λ i. if i == 0 then size + v * 2 ^ 32 + type * 2 ^ 48 else i;
    capacity = size;
  };
  upgraded_header = none;
}

abbrev three : RawEvent
three = record (construct_event 7 1 12 12 1000) {
  fragments = fragment_of 6 2 226 ∷ fragment_of 5 1 3 ∷ fragment_of 7 2 226 ∷ [];
}

inserted :
    (insert_fragment (some (fragment_of 6 2 226)) (construct_event 7 1 12 12 1000))
    ≡ some (record (construct_event 7 1 12 12 1000) { fragments = fragment_of 6 2 226 ∷ [] })
unfolding insert_fragment construct_event
inserted = refl

three-AllKnown : AllKnown three.fragments
unfolding version artdaq_core.Header.decode
three-AllKnown =
    known (inr (inr (inl refl))) (known (inr (inl refl)) (known (inr (inr (inl refl))) none_there))

three_words : (word_count three).value ≡ 18
unfolding word_count artdaq_core.RawEvent.sum_sizes artdaq_core.Fragment.Queries.fragment_size
    fragment_header artdaq_core.Fragment.fragment_header_ptr artdaq_core.Header.decode
    artdaq_core.Fragment.header_at artdaq_core.Header.upgrade_v1
three_words = refl

three_types : (fragment_types [] three).0.value ≡ 226 ∷ 3 ∷ []
unfolding fragment_types artdaq_core.RawEvent.list_types artdaq_core.Fragment.Queries.fragment_type
    fragment_header artdaq_core.Fragment.fragment_header_ptr artdaq_core.Header.decode
    artdaq_core.RawEvent.add_type artdaq_core.RawEvent.is_listed artdaq_core.Fragment.header_at
    artdaq_core.Header.upgrade_v1
three_types = refl

abbrev readings : List Reading
readings = (AllKnown-Readings three-AllKnown).0

release_product_of-Separated_example :
    (out : List Reading) × (kept : List Reading) × (release_product_of 226 three
      ≡ some (
        record { thrown = none; value = map left_of out; left = map left_of kept },
        record three { fragments = map left_of kept },
      ))
    × Separated 226 readings out kept
release_product_of-Separated_example =
    release_product_of-Separated 226 three readings (AllKnown-Readings three-AllKnown).1 cons≢nil

fragment_types-Listing_example :
    Listing (3 ∷ []) readings ((fragment_types (3 ∷ []) three).0)
    × ((fragment_types (3 ∷ []) three).1 ≡ record three { fragments = map left_of readings })
unfolding artdaq_core.RawEvent.is_listed
fragment_types-Listing_example =
    fragment_types-Listing (3 ∷ []) three readings (AllKnown-Readings three-AllKnown).1
      (first refl empty)

drain-Permutation_example :
    (s : Swept (List ℕ)) × (e₁ : RawEvent) × (all : List Fragment) × (fragment_types [] three
      ≡ (s, e₁))
    × (s.thrown ≡ none)
    × (drain s.value e₁ ≡ some (all, record three { fragments = [] }))
    × Permᴰ all (map left_of readings)
drain-Permutation_example = drain-Permutation three readings (AllKnown-Readings three-AllKnown).1
