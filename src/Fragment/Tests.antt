-- ===== src/Fragment/Tests.antt =====
-- A fragment of two words of data, and headers of each version.
use artdaq_core.Prelude.{
  ℕ, ◌+◌, ◌*◌, ◌^◌, ◌<◌, ◌≤◌, ◌≡◌, inl, inr, refl, arith, none, if◌then◌else◌, ◌==◌,
}
use artdaq_core.Header.{decode, num_words}
use artdaq_core.Fragment.{refused, invalid_value, Fragment, done, resize_fragment, clear}
use artdaq_core.Header.{Timespec}
use artdaq_core.Fragment.Construct.{construct_typed, data_frag}
use artdaq_core.Fragment.Building.{IsTaken, construct_typed_refuses, header_of}
use artdaq_core.Fragment.Delivery.{Carries, construct_typed-Carries, data_frag-Carries}
use artdaq_core.Fragment.Layout.{IsCurrent, Reshaped}
use artdaq_core.Fragment.Resizing.{resize_fragment-Reshaped, clear-Reshaped}
use artdaq_core.Prelude.{some}
use artdaq_core.Prelude.Memory.{elements}
use artdaq_core.Header.{upgrade_v1}
use artdaq_core.Fragment.{fragment_header}
use artdaq_core.Fragment.Metadata.{metadata, set_metadata, update_metadata}
use artdaq_core.Fragment.Annotating.{Annotated}
use artdaq_core.Fragment.Annotating.Setting.{metadata-set_metadata, metadata-update_metadata}
use artdaq_core.Fragment.Copying.{
  SameWords, copy_fragment, assign_fragment, assign_fragment-SameWords, swap_fragments,
  swap_fragments_stale,
}

abbrev garbage : ℕ → ℕ
garbage i = 99

-- Six words: the header of the current version, without metadata, and two words of data.
abbrev two_words : Fragment
two_words = record {
  vals = record {
    size = 6;
    data_ = λ i. if i == 0 then 6 + 2 * 2 ^ 32 + 226 * 2 ^ 48 else i;
    capacity = 6;
  };
  upgraded_header = none;
}

two_words-IsCurrent : IsCurrent two_words
unfolding decode
two_words-IsCurrent = record {
  own = record { upgraded_header = refl; version = refl };
  valid = (omega arith, omega arith);
  word_count = refl;
  room = omega arith;
}

small :
    (n : ℕ) → n < 100 → n + (num_words + (decode two_words.vals.data_).metadata_word_count) < 2 ^ 32
unfolding decode
small n lt = omega arith

resize_fragment-Reshaped_example :
    (f : Fragment) × (resize_fragment garbage 5 two_words ≡ done (tt, f)) × Reshaped 5 two_words f
resize_fragment-Reshaped_example =
    resize_fragment-Reshaped garbage 5 two_words two_words-IsCurrent (small 5 (omega arith))

small_bytes :
    13 + 8 * (num_words + (decode two_words.vals.data_).metadata_word_count) + 8 < 8 * 2 ^ 32
unfolding decode
small_bytes = omega arith

clear-Reshaped_example : (f : Fragment) × (clear two_words ≡ done (tt, f)) × Reshaped 0 two_words f
clear-Reshaped_example = clear-Reshaped two_words two_words-IsCurrent

abbrev noon : Timespec
noon = record { tv_sec = 43200; tv_nsec = 7 }

construct_typed-Carries_example :
    (f : Fragment) × (construct_typed garbage 17 3 5 1000 noon ≡ done (tt, f))
    × Carries 0 garbage (header_of num_words 5 17 3 1000 noon) f
construct_typed-Carries_example =
    construct_typed-Carries garbage 17 3 5 1000 noon (inr (omega arith, omega arith))

abbrev source : ℕ → ℕ
source i = 10 + i

data_frag-Carries_example :
    (f : Fragment) × (data_frag garbage garbage 17 3 source 2 1000 noon ≡ done (tt, f))
    × Carries 2 source (header_of 6 226 17 3 1000 noon) f
data_frag-Carries_example = data_frag-Carries garbage garbage 17 3 source 2 1000 noon (omega arith)

end_of_data : ¬ IsTaken 225
end_of_data (inl e) = omega arith
end_of_data (inr (low, high)) = omega arith

construct_typed_refuses_example : construct_typed garbage 17 3 225 1000 noon ≡ refused invalid_value
construct_typed_refuses_example =
    construct_typed_refuses garbage 17 3 225 1000 noon (omega arith) end_of_data

abbrev note : ℕ → ℕ
note i = 70 + i

bare_two_words : (decode two_words.vals.data_).metadata_word_count ≡ 0
unfolding decode
bare_two_words = refl

metadata-set_metadata_example :
    (f : Fragment) × (set_metadata garbage note 2 two_words ≡ done (tt, f))
    × Annotated note 2 two_words f
metadata-set_metadata_example =
    metadata-set_metadata garbage note 2 two_words two_words-IsCurrent bare_two_words (omega arith)
      (omega arith) (omega arith)

-- The same words, of which one is metadata.
abbrev one_note : Fragment
one_note = record {
  vals = record {
    size = 6;
    data_ = λ i. if i == 0 then 6 + 2 * 2 ^ 32 + 226 * 2 ^ 48 + 2 ^ 56 else i;
    capacity = 6;
  };
  upgraded_header = none;
}

one_note-IsCurrent : IsCurrent one_note
unfolding decode
one_note-IsCurrent = record {
  own = record { upgraded_header = refl; version = refl };
  valid = (omega arith, omega arith);
  word_count = refl;
  room = omega arith;
}

one_there : (decode one_note.vals.data_).metadata_word_count ≡ 1
unfolding decode
one_there = refl

metadata-update_metadata_example :
    (f : Fragment) × (update_metadata note 1 one_note ≡ done (tt, f))
    × (metadata 1 f ≡ done (elements note 0 1, f))
    × (decode f.vals.data_ ≡ decode one_note.vals.data_)
    × ((k : ℕ) → num_words + 1 ≤ k → f.vals.data_ k ≡ one_note.vals.data_ k)
metadata-update_metadata_example =
    metadata-update_metadata note 1 one_note one_note-IsCurrent one_there (omega arith)

assign_fragment-SameWords_example :
    (SameWords two_words (copy_fragment garbage two_words)
      × IsCurrent (copy_fragment garbage two_words))
    × (SameWords two_words (assign_fragment garbage two_words one_note)
        × IsCurrent (assign_fragment garbage two_words one_note))
assign_fragment-SameWords_example =
    assign_fragment-SameWords garbage two_words one_note two_words-IsCurrent
      (omega arith, omega arith)

-- A fragment of version 1, upgraded when its header was read.
abbrev old : Fragment
old = record {
  vals = record { size = 5; data_ = λ i. 2 ^ 32; capacity = 5 };
  upgraded_header = some (upgrade_v1 (λ i. 2 ^ 32));
}

swap_fragments_stale_example :
    ((swap_fragments old two_words).0.vals ≡ two_words.vals)
    × (fragment_header (swap_fragments old two_words).0
        ≡ done (upgrade_v1 (λ i. 2 ^ 32), (swap_fragments old two_words).0))
swap_fragments_stale_example = swap_fragments_stale old two_words (upgrade_v1 (λ i. 2 ^ 32)) refl
