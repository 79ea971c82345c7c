-- ===== src/SharedMemory/Attach/Owner.antt =====
-- `Attach` of artdaq-core/Core/SharedMemoryManager.cc by the owner of the segment, which sets it up.
use artdaq_core.Prelude.{
  ℕ, zero, suc, ◌+◌, ◌^◌, ◌<◌, ◌≤◌, ◌≡◌, ◌≢◌, ◌⊎◌, inl, inr, refl, true, false, arith, ◌∙◌, sym, ap,
  subst, none, some, Bool, ltb, if◌then◌else◌,
}
use artdaq_core.Prelude.Int.{pos, minus_one, eqb_refl, leb_ℤ}
use artdaq_core.SharedMemory.State.{empty, ShmBuffer, Requested, World, ok, put_buffer}
use artdaq_core.SharedMemory.Access.Range.{get_buffer_info_in}
use artdaq_core.SharedMemory.Reset.Drift.{IsReady}
use artdaq_core.SharedMemory.Writing.{get_buffer_for_writing}
use artdaq_core.SharedMemory.Writing.Grant.{
  Holds, get_buffer_for_writing_finds, get_buffer_for_writing-Holds,
}
use artdaq_core.SharedMemory.Attach.{
  Os, magic, init_buffers, init_segment, own_segment, claim_ownership, locate, enter, map_segment,
  reach, connect, attach,
}

-- Nobody holds the buffer, and nothing is in it.
pub record IsIdle (b : ShmBuffer) : Type 0 where
  pub sem : b.sem ≡ empty
  pub sem_id : b.sem_id ≡ minus_one
  pub write_pos : b.write_pos ≡ 0
  pub read_pos : b.read_pos ≡ 0

-- The headers from `ii` to `ii + left` are set up, and nothing else is.
pub record Cleared (left ii : ℕ) (w v : World) : Type 0 where
  pub idle : (j : ℕ) → ii ≤ j → j < ii + left → IsIdle (v.shm.buffers j)
  pub before : (j : ℕ) → j < ii → v.shm.buffers j ≡ w.shm.buffers j
  pub me : v.me ≡ w.me
  pub shm : v.shm ≡ record (w.shm) { buffers = v.shm.buffers }

-- The world after one header is set up.
abbrev emptied : ℕ → World → World
emptied i w =
    put_buffer i
      (record (w.shm.buffers i) { write_pos = 0; read_pos = 0; sem = empty; sem_id = minus_one }) w

abbrev clear_one : ℕ → World → World
clear_one i w =
    put_buffer i (record ((emptied i w).shm.buffers i) { last_touch_time = w.clock w.ticks })
      (record (emptied i w) { ticks = w.ticks + 1 })

clear_one-IsIdle : (i : ℕ) (w : World) → IsIdle ((clear_one i w).shm.buffers i)
clear_one-IsIdle i w = record {
  sem = ground arith;
  sem_id = ground arith;
  write_pos = ground arith;
  read_pos = ground arith;
}

clear_one_other : (i j : ℕ) (w : World) → j ≢ i → (clear_one i w).shm.buffers j ≡ w.shm.buffers j
clear_one_other i j w ne = ground arith

Nat-split : (a b : ℕ) → a ≤ b → (a ≡ b) ⊎ (a + 1 ≤ b)
Nat-split a b le = ground arith

init_step :
    (left ii : ℕ) (w : World)
    → w.me.attached ≡ true
    → ii < w.shm.buffer_count
    → init_buffers (suc left) ii w ≡ init_buffers left (ii + 1) (clear_one ii w)
unfolding init_buffers
init_step left ii w attached lt = rw (init_buffers, get_buffer_info_in w ii attached lt) refl

init_all :
    (left ii : ℕ) (w : World)
    → w.me.attached ≡ true
    → ii + left ≤ w.shm.buffer_count
    → (v : World) × (init_buffers left ii w ≡ (ok true, v)) × Cleared left ii w v
unfolding init_buffers
init_all zero ii w attached le = (
  w,
  refl,
  record { idle = λ j a b. absurd (omega arith); before = λ j lt. refl; me = refl; shm = refl },
)
init_all (suc left) ii w attached le =
    let (v, e, c) = init_all left (ii + 1) (clear_one ii w) attached (omega arith) in
    (
      v,
      init_step left ii w attached (omega arith) ∙ e,
      record {
        idle = λ j a b. elim (Nat-split ii j a) [
          | inl e ↦ subst (λ k. IsIdle (v.shm.buffers k)) e (now_idle v c)
          | inr lt ↦ c.idle j lt (omega arith)
        ];
        before =
            λ j lt. c.before j (omega arith) ∙ clear_one_other ii j w (λ e. absurd (omega arith));
        me = c.me;
        shm = c.shm ∙ refl;
      },
    )
  where
    now_idle : (v : World) → Cleared left (ii + 1) (clear_one ii w) v → IsIdle (v.shm.buffers ii)
    now_idle v c = subst IsIdle (sym (c.before ii (omega arith))) (clear_one-IsIdle ii w)

-- The segment as its owner has set it up, who asked for `r` and has seen the id `last`.
pub record SetUp (r : Requested) (last : ℕ) (v : World) : Type 0 where
  pub ready : IsReady v
  pub manager_id : v.me.manager_id ≡ pos 0
  pub idle : (j : ℕ) → j < v.shm.buffer_count → IsIdle (v.shm.buffers j)
  pub buffer_count : v.shm.buffer_count ≡ r.buffer_count
  pub buffer_size : v.shm.buffer_size ≡ r.buffer_size
  pub buffer_timeout_us : v.shm.buffer_timeout_us ≡ r.buffer_timeout_us
  pub destructive_read_mode : v.shm.destructive_read_mode ≡ r.destructive_read_mode
  pub reader_pos : v.shm.reader_pos ≡ 0
  pub writer_pos : v.shm.writer_pos ≡ 0
  pub next_id : v.shm.next_id ≡ 1
  pub next_sequence_id : v.shm.next_sequence_id ≡ 0
  pub last_seen_id : v.me.last_seen_id ≡ last
  pub ready_magic : v.shm.ready_magic ≡ magic

abbrev announced : World → World
announced v = record v { shm = record (v.shm) { ready_magic = magic } }

own_segment-SetUp :
    (w : World)
    → w.me.attached ≡ true
    → w.me.manager_id ≡ pos 0
    → 0 < w.me.requested.buffer_count
    → w.me.requested.buffer_count < 2 ^ 31
    → (v : World) × (own_segment w ≡ (ok true, v)) × SetUp w.me.requested w.me.last_seen_id v
unfolding own_segment init_segment
own_segment-SetUp w attached owner some_asked few_asked =
    let (v, e, c) =
      init_all w.me.requested.buffer_count 0 (init_segment w) attached (omega arith) in
    (
      announced v,
      rw e refl,
      record {
        ready = record {
          attached = ap (λ m. m.attached) c.me ∙ attached;
          small = omega (arith, ap (λ s. s.buffer_count) c.shm);
          writer_in = omega (arith, ap (λ s. s.buffer_count) c.shm, ap (λ s. s.writer_pos) c.shm);
          owner = ground (arith, ap (λ m. m.manager_id) c.me);
          named = ground (arith, ap (λ m. m.manager_id) c.me);
        };
        manager_id = ap (λ m. m.manager_id) c.me ∙ owner;
        idle = λ j lt. c.idle j (omega arith) (omega (arith, ap (λ s. s.buffer_count) c.shm));
        buffer_count = ap (λ s. s.buffer_count) c.shm;
        buffer_size = ap (λ s. s.buffer_size) c.shm;
        buffer_timeout_us = ap (λ s. s.buffer_timeout_us) c.shm;
        destructive_read_mode = ap (λ s. s.destructive_read_mode) c.shm;
        reader_pos = ap (λ s. s.reader_pos) c.shm;
        writer_pos = ap (λ s. s.writer_pos) c.shm;
        next_id = ap (λ s. s.next_id) c.shm;
        next_sequence_id = ap (λ s. s.next_sequence_id) c.shm;
        last_seen_id = ap (λ m. m.last_seen_id) c.me;
        ready_magic = refl;
      },
    )

-- The operating system has a segment for the owner: one that exists, or one that it creates.
abbrev pub IsFound : Os → Type 0
IsFound os = (id : ℕ) × ((os.find 0 ≡ some id) ⊎ ((os.find 0 ≡ none) × (os.create ≡ some id)))

locate_owner :
    (os : Os) (timeout_us : ℕ)
    → IsFound os
    → (id : ℕ) × (created : Bool) × (locate os true timeout_us ≡ (some id, created))
unfolding locate
locate_owner os timeout_us (id, inl e) = (id, false, rw (locate, e) refl)
locate_owner os timeout_us (id, inr (e, e')) = (id, true, rw (locate, e, e') refl)

-- What a manager asks for that will own the segment: buffers with room in them, few enough for an int.
pub record IsOwning (w : World) : Type 0 where
  pub unattached : w.me.attached ≡ false
  pub manager_id : leb_ℤ w.me.manager_id (pos 0) ≡ true
  pub buffers : 0 < w.me.requested.buffer_count
  pub few : w.me.requested.buffer_count < 2 ^ 31
  pub room : 0 < w.me.requested.buffer_size

abbrev pub owning : World → World
owning w = record w { me = record (w.me) { manager_id = pos 0; last_seen_id = 0 } }

claims : (w : World) → IsOwning w → claim_ownership w ≡ owning w
unfolding claim_ownership
claims w p = ground (arith, p.manager_id, p.buffers, p.room)

pub attach_unattached :
    (os : Os) (timeout_usec : ℕ) (w : World)
    → w.me.attached ≡ false
    → attach os timeout_usec w ≡ connect os timeout_usec w
unfolding attach
attach_unattached os timeout_usec w e = ground arith

reach_owner :
    (os : Os) (timeout_usec id : ℕ) (created : Bool) (w : World)
    → w.me.manager_id ≡ pos 0
    → locate os true (if ltb 0 timeout_usec then timeout_usec else 1000000) ≡ (some id, created)
    → reach os timeout_usec w ≡ map_segment os (enter os (some id, created) w)
unfolding reach
reach_owner os timeout_usec id created w owner e = rw (owner, eqb_refl (pos 0), e) refl

-- The segment is there, in the memory of the owner.
abbrev mapped : Os → ℕ → Bool → World → World
mapped os id created w =
    let u = enter os (some id, created) w in record u { me = record (u.me) { attached = true } }

map_owner :
    (os : Os) (id : ℕ) (created : Bool) (w : World)
    → w.me.manager_id ≡ pos 0
    → os.maps ≡ true
    → map_segment os (enter os (some id, created) w) ≡ own_segment (mapped os id created w)
unfolding map_segment enter
map_owner os id created w owner maps = rw (maps, owner, eqb_refl (pos 0)) refl

-- `Attach` by a manager that is not attached, that asks for buffers with room in them (fewer than 2 ^ 31)
-- and has no other id, when the operating system has or creates the segment and maps it, returns true. The
-- manager is then the owner, with id 0, and ready; the segment has the buffers that were asked for, each
-- empty, unowned and with both positions 0, whatever it held before; its ids start from the beginning, and
-- it is marked as initialised.
pub attach-SetUp :
    (os : Os) (timeout_usec : ℕ) (w : World)
    → IsOwning w
    → IsFound os
    → os.maps ≡ true
    → (v : World) × (attach os timeout_usec w ≡ (ok true, v)) × SetUp w.me.requested 0 v
unfolding connect enter
attach-SetUp os timeout_usec w p found maps =
    let (id, created, e) =
      locate_owner os (if ltb 0 timeout_usec then timeout_usec else 1000000) found in
    let (v, e', s) =
      own_segment-SetUp (mapped os id created (owning w)) refl refl p.buffers p.few in
    (
      v,
      attach_unattached os timeout_usec w p.unattached
          ∙ ap (reach os timeout_usec) (claims w p)
          ∙ reach_owner os timeout_usec id created (owning w) refl e
          ∙ map_owner os id created (owning w) refl maps
          ∙ e',
      s,
    )

-- After such an `Attach`, `GetBufferForWriting` returns a buffer to the owner, with or without overwriting.
pub get_buffer_for_writing-attach :
    (os : Os) (timeout_usec : ℕ) (overwrite : Bool) (w : World)
    → IsOwning w
    → IsFound os
    → os.maps ≡ true
    → (v : World) × (i : ℕ) × (v' : World) × (attach os timeout_usec w ≡ (ok true, v))
      × (get_buffer_for_writing overwrite v ≡ (ok (some i), v'))
      × Holds i v v'
get_buffer_for_writing-attach os timeout_usec overwrite w p found maps =
    let (v, e, s) = attach-SetUp os timeout_usec w p found maps in
    let some_there : 0 < v.shm.buffer_count = omega (arith, s.buffer_count, p.buffers) in
    let first = s.idle 0 some_there in
    let (i, v', e') =
      get_buffer_for_writing_finds overwrite v 0 s.ready some_there first.sem first.sem_id in
    (v, i, v', e, e', get_buffer_for_writing-Holds overwrite v i v' s.ready e')
