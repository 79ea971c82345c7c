-- ===== src/Container/Adding.antt =====
-- Containers whose fragments stand behind one another, and where the end of the fragments is found
-- (artdaq-core/Data/ContainerFragmentLoader.hh).
use artdaq_core.Prelude.{
  ℕ, zero, suc, ◌+◌, ◌-◌, ◌*◌, ◌<◌, ◌≤◌, ◌≡◌, refl, ap, arith, ◌∙◌, false, ltb,
}
use artdaq_core.Header.{num_words}
use artdaq_core.Container.{Container, done, next, fragment_index, last_fragment_index}
use artdaq_core.Container.Walk.{Stands}
use artdaq_core.Container.Loader.{data_end, data_size_bytes}
use artdaq_core.Container.Reading.{
  IsContainer, Indexed, metadata_of, data_start, begin_form, payload_form, block_count_form,
  aligned_form, looked_up, looked_up-Indexed, fragment_index_form,
}

-- A container with an index of fragments that stand behind one another, each at least a header.
pub record Contains (count : ℕ) (ends : ℕ → ℕ) (c : Container) : Type 0 where
  pub index : Indexed count ends c
  pub stands : Stands count data_start ends c.fragment.vals.data_
  pub sized : (k : ℕ) → k < count → num_words ≤ ends (k + 1) - ends k

-- The words of the fragments of `c` are those of `c'`, and so is the metadata.
pub record Extends (size : ℕ) (c c' : Container) : Type 0 where
  pub metadata : metadata_of c' ≡ metadata_of c
  pub kept :
      (k : ℕ) → data_start ≤ k → k < size → c'.fragment.vals.data_ k ≡ c.fragment.vals.data_ k

module _ (count : ℕ) (ends : ℕ → ℕ) where
  pub looked_up-Contains :
      (c : Container) → Contains count ends c → Contains count ends (looked_up count ends c)
  looked_up-Contains c x = record {
    index = looked_up-Indexed count ends c x.index;
    stands = x.stands;
    sized = x.sized;
  }

  -- The end of the fragments is found, perhaps after the index was.
  last_form :
      (n : ℕ) (c : Container)
      → count ≡ n
      → Contains count ends c
      → (c' : Container) × (fragment_index n c ≡ done (8 * ends count, c'))
        × Contains count ends c'
        × (c'.fragment ≡ c.fragment)
  unfolding fragment_index
  last_form zero c e x =
      let there : ltb count 0 ≡ false = ground arith in
      (
        c,
        rw (block_count_form c x.index.container) (
            rw (next, x.index.block_count, there)
              (ap (λ n. done (n, c)) (omega (arith, x.index.first, ap ends e)))),
        x,
        refl,
      )
  last_form (suc n) c e x = (
    looked_up count ends c,
    ap (λ k. fragment_index k c) (omega arith)
        ∙ fragment_index_form count ends c x.index n (omega arith)
        ∙ ap (λ k. done (8 * ends k, looked_up count ends c)) (omega arith),
    looked_up-Contains c x,
    refl,
  )

  pub last_fragment_index_form :
      (c : Container)
      → Contains count ends c
      → (c' : Container) × (last_fragment_index c ≡ done (8 * ends count, c'))
        × Contains count ends c'
        × (c'.fragment ≡ c.fragment)
  unfolding last_fragment_index
  last_fragment_index_form c x =
      let (c', e, y, same) = last_form count c refl x in
      (c', rw (block_count_form c x.index.container) (rw (next, x.index.block_count) e), y, same)

  pub data_end_form :
      (c : Container)
      → Contains count ends c
      → (c' : Container) × (data_end c ≡ done (data_start + ends count, c'))
        × Contains count ends c'
        × (c'.fragment ≡ c.fragment)
  unfolding data_end
  data_end_form c x =
      let (c', e, y, same) = last_fragment_index_form c x in
      (
        c',
        rw (begin_form c x.index.container)
            (rw (next, e) (rw (next, aligned_form (ends count) c') refl)),
        y,
        same,
      )

  pub size_bytes_form :
      (c : Container)
      → IsContainer c
      → data_size_bytes c ≡ done (8 * (c.fragment.vals.size - data_start), c)
  unfolding data_size_bytes
  size_bytes_form c is =
      rw (payload_form c is) (ap (λ n. done (n, c)) (omega (arith, is.current.valid)))
