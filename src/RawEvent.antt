-- ===== src/RawEvent.antt =====
-- artdaq-core/Data/RawEvent.hh: the fragments of one event, in the order in which they came, under a
-- header. A null pointer is refused when it is inserted, so the list holds the fragments themselves.
use artdaq_core.Prelude.{
  ℕ, ◌%◌, Bool, true, false, List, [], ◌∷◌, ◌++◌, length, Option, none, some, ◌==◌, ◌||◌,
  if◌then◌else◌,
}
use artdaq_core.Prelude.Words.{w32, w64, add64}
use artdaq_core.Fragment.Queries.{fragment_type, fragment_size}
use artdaq_core.Fragment.{Refusal, Result, done, refused, Fragment, F, give, fragment_header, ◌>>=◌}
pub mod Readings
pub mod Separation
pub mod Listing
pub mod Draining
mod Tests

pub record RawEventHeader : Type 0 where
  pub run_id : ℕ
  pub subrun_id : ℕ
  pub event_id : ℕ
  pub sequence_id : ℕ
  pub timestamp : ℕ
  pub is_complete : Bool
  pub version : ℕ

abbrev pub event_version : ℕ
event_version = 0

-- `RawEventHeader()`
unfoldable pub default_header : RawEventHeader
default_header = record {
  run_id = 0;
  subrun_id = 0;
  event_id = 0;
  sequence_id = 0;
  timestamp = 0;
  is_complete = false;
  version = event_version;
}

-- `RawEventHeader(run, subrun, event, seq, ts)`, whose parameters have 32 and 64 bits.
unfoldable pub construct_header : ℕ → ℕ → ℕ → ℕ → ℕ → RawEventHeader
construct_header run subrun event seq ts = record {
  run_id = run % w32;
  subrun_id = subrun % w32;
  event_id = event % w32;
  sequence_id = seq % w64;
  timestamp = ts % w64;
  is_complete = false;
  version = event_version;
}

pub record RawEvent : Type 0 where
  pub header : RawEventHeader
  pub fragments : List Fragment

-- `RawEvent(run, subrun, event, seq, ts)` and `RawEvent(hdr)`
unfoldable pub construct_event : ℕ → ℕ → ℕ → ℕ → ℕ → RawEvent
construct_event run subrun event seq ts = record {
  header = construct_header run subrun event seq ts;
  fragments = [];
}

unfoldable pub construct_event_of : RawEventHeader → RawEvent
construct_event_of hdr = record { header = hdr; fragments = [] }

-- `insertFragment`; the result `none` is the exception that a null pointer throws.
unfoldable pub insert_fragment : Option Fragment → RawEvent → Option RawEvent
insert_fragment none e = none
insert_fragment (some f) e = some (record e { fragments = e.fragments ++ (f ∷ []) })

unfoldable pub mark_complete : RawEvent → RawEvent
mark_complete e = record e { header = record (e.header) { is_complete = true } }

unfoldable pub num_fragments : RawEvent → ℕ
num_fragments e = length e.fragments

-- The outcome of a loop over the fragments: the exception that ended it, if any, what it had computed, and
-- the fragments then.
pub record Swept (A : Type 0) : Type 0 where
  pub thrown : Option Refusal
  pub value : A
  pub left : List Fragment

-- `wordCount`: the sum of the sizes, a size_t.
unfoldable pub sum_sizes : ℕ → List Fragment → Swept ℕ
sum_sizes sum [] = record { thrown = none; value = sum; left = [] }
sum_sizes sum (f ∷ fs) = elim (fragment_size f) [
  | refused r ↦ record { thrown = some r; value = sum; left = f ∷ fs }
  | done (n, f') ↦ let rest = sum_sizes (add64 sum n) fs in record rest { left = f' ∷ rest.left }
]

unfoldable pub word_count : RawEvent → Swept ℕ
word_count e = sum_sizes 0 e.fragments

-- std::find(type_list.begin(), type_list.end(), t) != type_list.end()
unfoldable pub is_listed : ℕ → List ℕ → Bool
is_listed t [] = false
is_listed t (x ∷ xs) = (x == t) || is_listed t xs

unfoldable pub add_type : ℕ → List ℕ → List ℕ
add_type t types = if is_listed t types then types else types ++ (t ∷ [])

unfoldable pub list_types : List ℕ → List Fragment → Swept (List ℕ)
list_types types [] = record { thrown = none; value = types; left = [] }
list_types types (f ∷ fs) = elim (fragment_type f) [
  | refused r ↦ record { thrown = some r; value = types; left = f ∷ fs }
  | done (t, f') ↦
      let rest = list_types (add_type t types) fs in record rest { left = f' ∷ rest.left }
]

-- `fragmentTypes(type_list)`: the list is extended in place, so it is part of what an exception leaves.
unfoldable pub fragment_types : List ℕ → RawEvent → Swept (List ℕ) × RawEvent
fragment_types types e =
    let s = list_types types e.fragments in (s, record e { fragments = s.left })

-- `releaseProduct()`: all the fragments are moved out.
unfoldable pub release_product : RawEvent → List Fragment × RawEvent
release_product e = (e.fragments, record e { fragments = [] })

-- The loop of `releaseProduct(fragment_type)`, once for every fragment: one of the type is moved out and its
-- pointer erased. An exception destroys the fragments that were moved out before it.
unfoldable pub release_from : ℕ → List Fragment → Swept (List Fragment)
release_from t [] = record { thrown = none; value = []; left = [] }
release_from t (f ∷ fs) = elim (fragment_type f) [
  | refused r ↦ record { thrown = some r; value = []; left = f ∷ fs }
  | done (u, f') ↦
      let rest = release_from t fs in
      if u == t
      then record rest { value = f' ∷ rest.value }
      else record rest { left = f' ∷ rest.left }
]

-- `releaseProduct(fragment_type)`. The test of the loop comes after its body, which reads the first fragment:
-- `none` is the undefined behaviour of that read on an event without fragments.
unfoldable pub release_product_of : ℕ → RawEvent → Option (Swept (List Fragment) × RawEvent)
release_product_of t e = elim e.fragments [
  | [] ↦ none
  | f ∷ fs ↦ let s = release_from t (f ∷ fs) in some (s, record e { fragments = s.left })
]
