-- ===== src/Fragment/Copying.antt =====
-- The copies and moves of a fragment and `swap`, artdaq-core/Data/Fragment.hh. Where the result is a pair, the
-- second is what is left of the fragment that was moved from.
use artdaq_core.Prelude.{ℕ, ◌<◌, ◌≡◌, refl, Option, none, some, arith, ◌∙◌, sym, ap, ap₂}
use artdaq_core.QuickVec.{QuickVec, memcpy, resize, swap}
use artdaq_core.Header.{RawFragmentHeader, decode}
use artdaq_core.Fragment.{Fragment, done, fragment_header, header_at, fragment_header_ptr}
use artdaq_core.Fragment.Layout.{IsCurrent, decode_same}
use artdaq_core.QuickVec.Contents.{IsValid, resize_form}
use artdaq_core.Prelude.Words.{w32}

-- `QuickVec(const QuickVec&)` and its assignment.
unfoldable pub copy_vec : (ℕ → ℕ) → QuickVec ℕ → QuickVec ℕ
copy_vec fresh other = record {
  size = other.size;
  data_ = memcpy fresh other.data_ other.size;
  capacity = other.capacity;
}

unfoldable pub assign_vec : (ℕ → ℕ) → QuickVec ℕ → QuickVec ℕ → QuickVec ℕ
assign_vec fresh other v =
    let v₁ = resize fresh other.size v in record v₁ { data_ = memcpy v₁.data_ other.data_ v₁.size }

unfoldable pub copy_fragment : (ℕ → ℕ) → Fragment → Fragment
copy_fragment fresh f = record { vals = copy_vec fresh f.vals; upgraded_header = none }

unfoldable pub assign_fragment : (ℕ → ℕ) → Fragment → Fragment → Fragment
assign_fragment fresh f g = record { vals = assign_vec fresh f.vals g.vals; upgraded_header = none }

-- `Fragment(Fragment&&)`, and the assignment, which drops what the fragment had: the upgraded header goes with
-- the words.
unfoldable pub move_fragment : Fragment → Fragment
move_fragment of = record { vals = of.vals; upgraded_header = of.upgraded_header }

-- `swap`: only the words are exchanged.
unfoldable pub swap_fragments : Fragment → Fragment → Fragment × Fragment
swap_fragments f other =
    let (v, v') = swap f.vals other.vals in (record f { vals = v }, record other { vals = v' })

-- The same words, and as many.
pub record SameWords (f g : Fragment) : Type 0 where
  pub size : g.vals.size ≡ f.vals.size
  pub words : (k : ℕ) → k < f.vals.size → g.vals.data_ k ≡ f.vals.data_ k

copied-IsCurrent :
    (f g : Fragment)
    → IsCurrent f
    → g.vals.size ≡ f.vals.size
    → IsValid g.vals
    → g.upgraded_header ≡ none
    → ((k : ℕ) → k < f.vals.size → g.vals.data_ k ≡ f.vals.data_ k)
    → IsCurrent g
copied-IsCurrent f g cur size valid none_kept same =
    let header : decode g.vals.data_ ≡ decode f.vals.data_ =
      decode_same g.vals.data_ f.vals.data_ (λ k lt. same k (omega (arith, cur.room))) in
    record {
      own = record {
        upgraded_header = none_kept;
        version = ap (λ h. h.version) header ∙ cur.own.version;
      };
      valid = valid;
      word_count = ap (λ h. h.word_count) header ∙ cur.word_count ∙ sym size;
      room = omega (arith, ap (λ h. h.metadata_word_count) header, cur.room, size);
    }

-- Copying a fragment of the current version, by construction or by assignment to a valid fragment, gives a
-- fragment of the same words, whose header is the same and which is as well formed.
pub assign_fragment-SameWords :
    (fresh : ℕ → ℕ) (f g : Fragment)
    → IsCurrent f
    → IsValid g.vals
    → (SameWords f (copy_fragment fresh f) × IsCurrent (copy_fragment fresh f))
      × (SameWords f (assign_fragment fresh f g) × IsCurrent (assign_fragment fresh f g))
unfolding copy_fragment assign_fragment copy_vec assign_vec memcpy
assign_fragment-SameWords fresh f g cur valid =
    let small : f.vals.size < w32 = omega (arith, cur.valid) in
    let (size, valid', same) = resize_form fresh f.vals.size g.vals small valid in
    (
      (
        record { size = refl; words = λ k lt. ground arith },
        copied-IsCurrent f (copy_fragment fresh f) cur refl cur.valid refl (λ k lt. ground arith),
      ),
      (
        record { size = size; words = λ k lt. ground (arith, size) },
        copied-IsCurrent f (assign_fragment fresh f g) cur size valid' refl
            (λ k lt. ground (arith, size)),
      ),
    )

-- `swap` of two fragments of which neither keeps an upgraded header exchanges them.
pub swap_fragments-swap :
    (f g : Fragment)
    → f.upgraded_header ≡ none
    → g.upgraded_header ≡ none
    → swap_fragments f g ≡ (g, f)
unfolding swap_fragments swap
swap_fragments-swap f g e e' =
    ap₂
      (λ (a b : Option RawFragmentHeader).
        (record g { upgraded_header = a }, record f { upgraded_header = b }))
      (e ∙ sym e') (e' ∙ sym e)

upgraded_stays :
    (f : Fragment) (h : RawFragmentHeader)
    → f.upgraded_header ≡ some h
    → fragment_header f ≡ done (h, f)
unfolding fragment_header fragment_header_ptr header_at
upgraded_stays f h e = ground arith

-- `swap` of a fragment of an older version, whose upgraded header is kept, gives it the words of the other
-- fragment but not its header: it goes on with the upgraded header of the words that it gave away.
pub swap_fragments_stale :
    (f g : Fragment) (h : RawFragmentHeader)
    → f.upgraded_header ≡ some h
    → ((swap_fragments f g).0.vals ≡ g.vals)
      × (fragment_header (swap_fragments f g).0 ≡ done (h, (swap_fragments f g).0))
unfolding swap_fragments swap
swap_fragments_stale f g h e = (refl, upgraded_stays (record f { vals = g.vals }) h e)
