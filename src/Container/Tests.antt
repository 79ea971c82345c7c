-- ===== src/Container/Tests.antt =====
-- A new container, and two fragments that are added to one.
use artdaq_core.Prelude.{
  ℕ, ◌+◌, ◌*◌, ◌^◌, ◌<◌, ◌≤◌, ◌≡◌, inl, refl, arith, none, false, ◌==◌, if◌then◌else◌,
}
use artdaq_core.QuickVec.{to_list}
use artdaq_core.Header.{decode, Timespec}
use artdaq_core.Fragment.{Fragment}
use artdaq_core.Fragment.Layout.{IsCurrent}
use artdaq_core.Container.{
  Container, container_magic, done, stopped, argument_out_of_range, no_index, at, decode_metadata,
}
use artdaq_core.Container.Loader.{add_fragment, construct_loader, construct_loader}
use artdaq_core.Container.Reading.{metadata_of, looked_up}
use artdaq_core.Container.Adding.{Contains}
use artdaq_core.Container.Growing.{extended}
use artdaq_core.Container.Passing.{words_of, at-add_fragment}
use artdaq_core.Prelude.{List, [], ◌∷◌, get_elem?, some, inr}
use artdaq_core.Container.Loader.{add_fragments}
use artdaq_core.Container.Copying.{AcceptsAll, all_ends}
use artdaq_core.Container.Several.{at-add_fragments}
use artdaq_core.Container.Founding.{construct_loader-Contains}

abbrev garbage : ℕ → ℕ
garbage i = 99

abbrev twice : ℕ → ℕ
twice n = 2 * n

abbrev noon : Timespec
noon = record { tv_sec = 43200; tv_nsec = 7 }

-- A fragment of type `t`, with `size` words in all, of the current version and without metadata.
abbrev fragment_of : (t size : ℕ) → Fragment
fragment_of t size = record {
  vals = record {
    size = size;
    data_ = λ i. if i == 0 then size + 2 * 2 ^ 32 + t * 2 ^ 48 else i;
    capacity = size;
  };
  upgraded_header = none;
}

header_only-IsCurrent : IsCurrent (fragment_of 226 4)
unfolding decode
header_only-IsCurrent = record {
  own = record { upgraded_header = refl; version = refl };
  valid = (omega arith, omega arith);
  word_count = refl;
  room = omega arith;
}

two_words-IsCurrent : IsCurrent (fragment_of 226 6)
unfolding decode
two_words-IsCurrent = record {
  own = record { upgraded_header = refl; version = refl };
  valid = (omega arith, omega arith);
  word_count = refl;
  room = omega arith;
}

bare : (decode (fragment_of 226 4).vals.data_).metadata_word_count ≡ 0
unfolding decode
bare = refl

construct_loader-Contains_example :
    (c : Container) × (construct_loader garbage 5 231 (fragment_of 226 4) ≡ done (tt, c))
    × Contains 0 (λ _. 0) c
    × ((metadata_of c).fragment_type ≡ 231)
    × ((metadata_of c).missing_data ≡ 0)
construct_loader-Contains_example =
    construct_loader-Contains garbage 5 231 (fragment_of 226 4) header_only-IsCurrent refl bare
      (omega arith)

-- A container of type `t` and without fragments.
abbrev new_words : (t : ℕ) → ℕ → ℕ
new_words t i =
    if i == 0
    then 7 + 2 * 2 ^ 32 + 232 * 2 ^ 48 + 2 * 2 ^ 56
    else if i == 4
    then t * 2 ^ 16 + 2 ^ 24 + 2 ^ 29
    else if i == 6
    then container_magic
    else 0

abbrev new_container : (t : ℕ) → Container
new_container t = record {
  fragment = record {
    vals = record { size = 7; data_ = new_words t; capacity = 7 };
    upgraded_header = none;
  };
  index = no_index;
  upgraded = none;
}

new_container-Contains : (t : ℕ) → t < 2 ^ 8 → Contains 0 (λ _. 0) (new_container t)
unfolding decode decode_metadata
new_container-Contains t lt = record {
  index = record {
    container = record {
      current = record {
        own = record { upgraded_header = refl; version = refl };
        valid = (omega arith, omega arith);
        word_count = refl;
        room = omega arith;
      };
      metadata_words = refl;
      upgraded = refl;
    };
    block_count = omega arith;
    has_index = omega arith;
    index_offset = refl;
    first = refl;
    order = λ k below. absurd (omega (arith, below));
    ends_at = λ k below. absurd (omega (arith, below));
    magic = refl;
    room = omega arith;
    index = inl refl;
  };
  stands = record {
    first = refl;
    order = λ k below. absurd (omega (arith, below));
    counted = λ k below. absurd (omega (arith, below));
    small = omega arith;
  };
  sized = λ k below. absurd (omega (arith, below));
}

of_type : (t : ℕ) → t < 2 ^ 8 → (metadata_of (new_container t)).fragment_type ≡ t
unfolding decode_metadata
of_type t lt = omega arith

at-add_fragment_example :
    (c' : Container) × (add_fragment garbage garbage twice
        (fragment_of 226 6)
        false
        (new_container 231)
      ≡ done (tt, c'))
    × Contains 1 (extended 0 (λ _. 0) 6) c'
    × ((new : ℕ → ℕ) (now : Timespec)
        → (g : Fragment) × (at new 0 now c' ≡ done (g, looked_up 1 (extended 0 (λ _. 0) 6) c'))
          × (to_list g.vals ≡ to_list (fragment_of 226 6).vals))
    × ((new : ℕ → ℕ) (now : Timespec) (k : ℕ)
        → k < 0
        → (g : Fragment) × (at new k now c' ≡ done (g, looked_up 1 (extended 0 (λ _. 0) 6) c'))
          × (to_list g.vals ≡ words_of (λ _. 0) (new_container 231) k))
    × ((new : ℕ → ℕ) (now : Timespec) (k : ℕ)
        → 1 ≤ k
        → at new k now c' ≡ stopped argument_out_of_range)
at-add_fragment_example =
    at-add_fragment garbage garbage twice (fragment_of 226 6) two_words-IsCurrent 0 (λ _. 0)
      (new_container 231) false (new_container-Contains 231 (omega arith)) (omega arith)
      (inl (of_type 231 (omega arith))) (omega arith) (omega arith)

abbrev two : List Fragment
two = fragment_of 226 6 ∷ fragment_of 226 4 ∷ []

both_accepted : AcceptsAll false two (metadata_of (new_container 231))
unfolding decode decode_metadata
both_accepted = (inl refl, (inr ((λ e. absurd (omega (arith, e))), inr refl), tt))

at-add_fragments_example :
    (c' : Container) × (add_fragments garbage garbage twice two false (new_container 231)
      ≡ done (tt, c'))
    × Contains 2 (all_ends 0 (λ _. 0) two) c'
    × ((new : ℕ → ℕ) (now : Timespec) (j : ℕ) (f : Fragment)
        → get_elem? two j ≡ some f
        → (g : Fragment) × (at new (0 + j) now c'
            ≡ done (g, looked_up 2 (all_ends 0 (λ _. 0) two) c'))
          × (to_list g.vals ≡ to_list f.vals))
    × ((new : ℕ → ℕ) (now : Timespec) (k : ℕ)
        → k < 0
        → (g : Fragment) × (at new k now c' ≡ done (g, looked_up 2 (all_ends 0 (λ _. 0) two) c'))
          × (to_list g.vals ≡ words_of (λ _. 0) (new_container 231) k))
at-add_fragments_example =
    at-add_fragments garbage garbage twice two 0 (λ _. 0) (new_container 231) false
      (new_container-Contains 231 (omega arith)) (two_words-IsCurrent, (header_only-IsCurrent, tt))
      both_accepted (omega arith) (omega arith) (omega arith) (omega arith)
