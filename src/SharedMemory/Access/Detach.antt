-- ===== src/SharedMemory/Access/Detach.antt =====
-- What `Detach` does to the segment.
use artdaq_core.Prelude.{
  subst, sym, ◌≢◌, ◌⊎◌, inl, inr, ℕ, zero, suc, ◌+◌, ◌<◌, ◌≤◌, ◌≡◌, refl, true, false, Bool, ◌&&◌,
  ◌||◌, List, [], ◌∷◌, arith, if◌then◌else◌, leb, ltb, ◌==◌,
}
use artdaq_core.Prelude.Int.{ℤ_cases, eqb_false, eqb_ℤ_iff, pos, minus_one, eqb_ℤ, leb_ℤ, ◌-ℤ◌}
use artdaq_core.SharedMemory.State.{writing, full, reading, empty, ShmBuffer, World, put_buffer}
use artdaq_core.SharedMemory.Access.{
  size, owned_from, get_buffers_owned_by_manager, release_buffer, release_all, unregister,
  leave_segment, detach_world,
}

contains : ℕ → List ℕ → Bool
contains j [] = false
contains j (i ∷ is) = i == j || contains j is

contains-owned_from :
    (left ii j : ℕ) (w : World)
    → contains j (owned_from left ii w)
      ≡ (leb ii j && ltb j (ii + left) && eqb_ℤ (w.shm.buffers j).sem_id w.me.manager_id)
unfolding contains owned_from
contains-owned_from zero ii j w = ground arith
contains-owned_from (suc left) ii j w = ground (arith, contains-owned_from left (ii + 1) j w)

release_twice : (b : ShmBuffer) → release_buffer (release_buffer b) ≡ release_buffer b
unfolding release_buffer
release_twice b = ground arith

release_all_at :
    (is : List ℕ) (j : ℕ) (w : World)
    → (release_all is w).shm.buffers j
      ≡ (if contains j is then release_buffer (w.shm.buffers j) else w.shm.buffers j)
unfolding contains release_all
release_all_at [] j w = refl
release_all_at (i ∷ is) j w =
    let w₁ : World = put_buffer i (release_buffer (w.shm.buffers i)) w in
    ground (arith, release_all_at is j w₁, release_twice (w.shm.buffers j))

-- The rest of the world is as it was.
release_all_rest :
    (is : List ℕ) (w : World)
    → ((release_all is w).me ≡ w.me)
      × ((release_all is w).shm.reader_count ≡ w.shm.reader_count)
      × ((release_all is w).shm.writer_count ≡ w.shm.writer_count)
      × ((release_all is w).shm.buffer_count ≡ w.shm.buffer_count)
      × ((release_all is w).shm.next_sequence_id ≡ w.shm.next_sequence_id)
      × ((release_all is w).shm.bytes ≡ w.shm.bytes)
      × ((release_all is w).destroyed ≡ w.destroyed)
unfolding release_all
release_all_rest [] w = (refl, refl, refl, refl, refl, refl, refl)
release_all_rest (i ∷ is) w =
    release_all_rest is (put_buffer i (release_buffer (w.shm.buffers i)) w)

-- A header that its owner gives back: nobody owns it, what was being written is empty and what was being
-- read is full again, and its positions and id stay.
abbrev pub GivenBack : ShmBuffer → ShmBuffer → Type 0
GivenBack b c =
    (c.sem_id ≡ minus_one)
    × (((b.sem ≡ writing) × (c.sem ≡ empty))
        ⊎ (((b.sem ≡ reading) × (c.sem ≡ full))
            ⊎ ((b.sem ≢ writing) × (b.sem ≢ reading) × (c.sem ≡ b.sem))))
    × (c.write_pos ≡ b.write_pos)
    × (c.read_pos ≡ b.read_pos)
    × (c.sequence_id ≡ b.sequence_id)

release_buffer-GivenBack : (b : ShmBuffer) → GivenBack b (release_buffer b)
unfolding release_buffer
release_buffer-GivenBack b = ground arith

-- The world after `Detach`, by the world before.
pub record Detached (force : Bool) (w v : World) : Type 0 where
  pub attached : v.me.attached ≡ false
  pub manager_id : v.me.manager_id ≡ minus_one
  pub buffers :
      (j : ℕ)
      → j < w.shm.buffer_count
      → (((w.shm.buffers j).sem_id ≡ w.me.manager_id)
          × GivenBack (w.shm.buffers j) (v.shm.buffers j))
        ⊎ (((w.shm.buffers j).sem_id ≢ w.me.manager_id) × (v.shm.buffers j ≡ w.shm.buffers j))
  pub beyond : (j : ℕ) → w.shm.buffer_count ≤ j → v.shm.buffers j ≡ w.shm.buffers j
  pub reader_count :
      v.shm.reader_count
      ≡ (if w.me.registered_reader then w.shm.reader_count -ℤ pos 1 else w.shm.reader_count)
  pub writer_count :
      v.shm.writer_count
      ≡ (if w.me.registered_writer then w.shm.writer_count -ℤ pos 1 else w.shm.writer_count)
  pub unregistered : (v.me.registered_reader ≡ false) × (v.me.registered_writer ≡ false)
  pub destroyed : v.destroyed ≡ (
      (force || eqb_ℤ w.me.manager_id (pos 0)) && leb_ℤ (pos 0) w.me.shm_segment_id || w.destroyed)
  pub bytes : v.shm.bytes ≡ w.shm.bytes

owned_at :
    (j : ℕ) (w : World)
    → w.me.attached ≡ true
    → contains j (get_buffers_owned_by_manager w)
      ≡ (ltb j w.shm.buffer_count && eqb_ℤ (w.shm.buffers j).sem_id w.me.manager_id)
unfolding get_buffers_owned_by_manager size contains
owned_at j w h = ground (arith, contains-owned_from w.shm.buffer_count 0 j w)

module _ (force : Bool) (w : World) (h : w.me.attached ≡ true) where
  abbrev released : World
  released = release_all (get_buffers_owned_by_manager w) w

  detach_world_at :
      (j : ℕ)
      → (detach_world force w).shm.buffers j ≡ (
          if ltb j w.shm.buffer_count && eqb_ℤ (w.shm.buffers j).sem_id w.me.manager_id
          then release_buffer (w.shm.buffers j)
          else w.shm.buffers j)
  unfolding detach_world leave_segment unregister
  detach_world_at j =
      ground (arith, release_all_at (get_buffers_owned_by_manager w) j w, owned_at j w h)

  detach_world_within :
      (j : ℕ)
      → j < w.shm.buffer_count
      → (((w.shm.buffers j).sem_id ≡ w.me.manager_id)
          × GivenBack (w.shm.buffers j) ((detach_world force w).shm.buffers j))
        ⊎ (((w.shm.buffers j).sem_id ≢ w.me.manager_id)
            × ((detach_world force w).shm.buffers j ≡ w.shm.buffers j))
  detach_world_within j lt = elim (ℤ_cases (w.shm.buffers j).sem_id w.me.manager_id) [
    | inl e ↦
        let released_there : (detach_world force w).shm.buffers j
            ≡ release_buffer (w.shm.buffers j) =
          ground
            (arith, detach_world_at j, (eqb_ℤ_iff (w.shm.buffers j).sem_id w.me.manager_id).1 e) in
        inl (
          e,
          subst (GivenBack (w.shm.buffers j)) (sym released_there)
              (release_buffer-GivenBack (w.shm.buffers j)),
        )
    | inr ne ↦ inr (
      ne,
      ground (arith, detach_world_at j, eqb_false (w.shm.buffers j).sem_id w.me.manager_id ne),
    )
  ]

  -- `Detach` of an attached manager gives back every buffer that the manager owns, one that it was
  -- writing as empty and one that it was reading as full, and touches no other; it takes the manager
  -- off the lists of readers and writers that it is on, and marks the segment for destruction
  -- exactly if it is forced to or is the owner, and has a segment. No byte changes.
  pub detach_world-Detached : Detached force w (detach_world force w)
  unfolding detach_world leave_segment unregister
  detach_world-Detached =
      let rest = release_all_rest (get_buffers_owned_by_manager w) w in
      record {
        attached = ground arith;
        manager_id = ground arith;
        buffers = detach_world_within;
        beyond = λ j le. ground (arith, detach_world_at j);
        reader_count = ground (arith, rest);
        writer_count = ground (arith, rest);
        unregistered = ground arith;
        destroyed = ground (arith, rest);
        bytes = ground (arith, rest);
      }
