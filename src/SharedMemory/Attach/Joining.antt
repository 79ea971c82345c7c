-- ===== src/SharedMemory/Attach/Joining.antt =====
-- `Attach` of artdaq-core/Core/SharedMemoryManager.cc by a manager that joins a segment.
use artdaq_core.Prelude.{
  ℕ, zero, suc, ◌+◌, ◌<◌, ◌≤◌, ◌≡◌, ◌≢◌, ◌⊎◌, inl, inr, refl, true, false, arith, ◌∙◌, ap, some,
  Option-cases, ltb, if◌then◌else◌,
}
use artdaq_core.Prelude.Int.{pos, minus_one, eqb_ℤ}
use artdaq_core.SharedMemory.State.{World, ok, waits}
use artdaq_core.SharedMemory.Attach.{
  Os, magic, join_segment, claim_ownership, search_segment, get_new_id, locate, enter, map_segment,
  reach, attach, connect,
}
use artdaq_core.SharedMemory.Attach.Owner.{attach_unattached}

-- A manager that asks for no buffers, is not attached and has no id.
pub record IsJoining (w : World) : Type 0 where
  pub unattached : w.me.attached ≡ false
  pub manager_id : w.me.manager_id ≡ minus_one
  pub asks_none : (w.me.requested.buffer_count ≡ 0) ⊎ (w.me.requested.buffer_size ≡ 0)

-- The manager has taken the next id; it knows the number of buffers; the rest of the segment is as it was.
abbrev pub joined : ℕ → World → World
joined id w = record w {
  shm = record (w.shm) { next_id = w.shm.next_id + 1; lowest_seq_id_read = 0 };
  me = record (w.me) {
    requested = record (w.me.requested) { buffer_count = w.shm.buffer_count };
    shm_segment_id = pos id;
    attached = true;
    manager_id = pos w.shm.next_id;
    last_seen_id = 0;
  };
}

search_finds :
    (os : Os) (left k n id : ℕ)
    → n < left
    → os.find (n + k) ≡ some id
    → (id' : ℕ) × (search_segment os left k ≡ some id')
unfolding search_segment
search_finds os zero k n id lt e = absurd (omega arith)
search_finds os (suc left) k zero id lt e =
    let now : os.find k ≡ some id = ap os.find (omega arith) ∙ e in
    (id, rw (search_segment, now) refl)
search_finds os (suc left) k (suc n) id lt e =
    let (id', r) = search_finds os left (k + 1) n id (omega arith) (ap os.find (omega arith) ∙ e) in
    elim (Option-cases (os.find k)) [
      | inr (first, e') ↦ (first, rw (search_segment, e') refl)
      | inl e' ↦ (id', rw (search_segment, e') r)
    ]

-- The segment is found before the time is up.
abbrev pub IsReachable : Os → ℕ → Type 0
IsReachable os timeout_usec =
    (n : ℕ) × (id : ℕ) × (n ≤ os.tries (if ltb 0 timeout_usec then timeout_usec else 1000000))
    × (os.find n ≡ some id)

locate_other :
    (os : Os) (timeout_usec : ℕ)
    → IsReachable os timeout_usec
    → (id : ℕ) × (locate os false (if ltb 0 timeout_usec then timeout_usec else 1000000)
        ≡ (some id, false))
unfolding locate
locate_other os timeout_usec (zero, id, le, e) = (id, rw (locate, e) refl)
locate_other os timeout_usec (suc n, id, le, e) = elim (Option-cases (os.find 0)) [
  | inr (id', e') ↦ (id', rw (locate, e') refl)
  | inl e' ↦
      let (id', r) =
        search_finds os (os.tries (if ltb 0 timeout_usec then timeout_usec else 1000000)) 1 n id
          (omega arith) (ap os.find (omega arith) ∙ e) in
      (id', rw (locate, e', r) refl)
]

abbrev unclaimed : World → World
unclaimed w = record w { me = record (w.me) { last_seen_id = 0 } }

no_claim : (w : World) → IsJoining w → claim_ownership w ≡ unclaimed w
unfolding claim_ownership
no_claim w p = ground (arith, p.asks_none)

reach_other :
    (os : Os) (timeout_usec id : ℕ) (w : World)
    → w.me.manager_id ≡ minus_one
    → locate os false (if ltb 0 timeout_usec then timeout_usec else 1000000) ≡ (some id, false)
    → reach os timeout_usec w ≡ map_segment os (enter os (some id, false) w)
unfolding reach eqb_ℤ
reach_other os timeout_usec id w named e = rw (named, e) refl

abbrev mapped : ℕ → World → World
mapped id w = record w { me = record (w.me) { shm_segment_id = pos id; attached = true } }

map_other :
    (os : Os) (id : ℕ) (w : World)
    → w.me.manager_id ≡ minus_one
    → os.maps ≡ true
    → map_segment os (enter os (some id, false) w) ≡ join_segment (mapped id w)
unfolding map_segment enter eqb_ℤ
map_other os id w named maps = rw (maps, named) refl

joins :
    (id : ℕ) (w : World)
    → w.me.manager_id ≡ minus_one
    → w.shm.ready_magic ≡ magic
    → join_segment (mapped id (unclaimed w)) ≡ (ok true, joined id w)
unfolding join_segment get_new_id
joins id w named set_up = rw (named, set_up) refl

awaits :
    (id : ℕ) (w : World)
    → w.shm.ready_magic ≢ magic
    → join_segment (mapped id (unclaimed w)) ≡ (waits, mapped id (unclaimed w))
unfolding join_segment
awaits id w unset = ground arith

-- `Attach` by a manager that is not attached, has no id and asks for no buffers, when the segment is found
-- before the time is up, can be mapped, and was set up by its owner, returns true. The manager then has the
-- id that the segment had next, which is counted on, so that the next manager gets another; it knows the
-- segment's number of buffers, and of the segment only the lowest sequence id read is set to 0.
pub attach-joined :
    (os : Os) (timeout_usec : ℕ) (w : World)
    → IsJoining w
    → IsReachable os timeout_usec
    → os.maps ≡ true
    → w.shm.ready_magic ≡ magic
    → (id : ℕ) × (attach os timeout_usec w ≡ (ok true, joined id w))
unfolding connect
attach-joined os timeout_usec w p found maps set_up =
    let (id, e) = locate_other os timeout_usec found in
    (
      id,
      attach_unattached os timeout_usec w p.unattached
          ∙ ap (reach os timeout_usec) (no_claim w p)
          ∙ reach_other os timeout_usec id (unclaimed w) p.manager_id e
          ∙ map_other os id (unclaimed w) p.manager_id maps
          ∙ joins id w p.manager_id set_up,
    )
