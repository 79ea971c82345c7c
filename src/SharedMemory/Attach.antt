-- ===== src/SharedMemory/Attach.antt =====
-- `SharedMemoryManager::Attach` and what else of SharedMemoryManager.cc asks the operating system:
-- `IsEndOfData` and `GetAttachedCount`; and the inline queries of SharedMemoryManager.hh.
pub mod Owner
pub mod Joining
mod Tests
use artdaq_core.Prelude.{
  ℕ, zero, suc, ◌+◌, ◌%◌, ◌^◌, Bool, true, false, not, ◌&&◌, ◌||◌, Option, none, some, ltb, ◌==◌,
  if◌then◌else◌,
}
use artdaq_core.Prelude.Int.{ℤ, pos, minus_one, eqb_ℤ, leb_ℤ, ltb_ℤ}
use artdaq_core.SharedMemory.State.{
  empty, ShmStruct, World, M, pure, choose◌then◌else◌, waits, fault, ◌>>=◌, ◌>>◌, gets, modify,
  when, gettimeofday_us, set_shm, set_me, update_buffer,
}
use artdaq_core.SharedMemory.Access.{detach, get_buffer_info}

-- What the operating system answers during one call: `shmget` for a segment that exists, at each of the
-- calls; how often that is asked again before the time is up; `shmget` with IPC_CREAT, and what a segment
-- that this creates holds; whether `shmat` maps the segment; whether `shmctl` finds it, and what it counts.
pub record Os : Type 0 where
  pub find : ℕ → Option ℕ
  pub tries : ℕ → ℕ
  pub create : Option ℕ
  pub created : ShmStruct
  pub maps : Bool
  pub stat : Bool
  pub attached_count : ℕ

abbrev pub is_valid : World → Bool
is_valid w = w.me.attached

-- `IsEndOfData`
unfoldable pub is_end_of_data : Os → World → Bool
is_end_of_data os w = not (is_valid w) || not os.stat || w.destroyed

-- `GetAttachedCount`, a uint16_t.
unfoldable pub get_attached_count : Os → World → ℕ
get_attached_count os w = if is_valid w && os.stat then os.attached_count % 2 ^ 16 else 0

-- `GetNewId`; the id is an int, which counts the managers of a segment.
unfoldable pub get_new_id : M (Unit {0})
get_new_id = modify λ w.
    if ltb_ℤ w.me.manager_id (pos 0) && is_valid w
    then record w {
      me = record (w.me) { manager_id = pos w.shm.next_id };
      shm = record (w.shm) { next_id = w.shm.next_id + 1 };
    }
    else w

unfoldable pub reset_attached_count : World → World
reset_attached_count w =
    if eqb_ℤ w.me.manager_id (pos 0) && is_valid w
    then set_shm (record (w.shm) { next_id = 1 }) w
    else w

unfoldable pub get_rank : World → ℤ
get_rank w = if is_valid w then w.shm.rank else minus_one

unfoldable pub set_rank : ℤ → World → World
set_rank rank w =
    if eqb_ℤ w.me.manager_id (pos 0) && is_valid w
    then set_shm (record (w.shm) { rank = rank }) w
    else w

unfoldable pub get_buffer_timeout : World → ℕ
get_buffer_timeout w = if is_valid w then w.shm.buffer_timeout_us else 0

unfoldable pub get_buffer_count : World → ℕ
get_buffer_count w = if is_valid w then w.shm.next_sequence_id else 0

unfoldable pub get_lowest_seq_id_read : World → ℕ
get_lowest_seq_id_read w = if is_valid w then w.shm.lowest_seq_id_read else 0

abbrev pub magic : ℕ
magic = 3405648145

-- The loop that asks for the segment again until the time is up.
unfoldable pub search_segment : Os → (left k : ℕ) → Option ℕ
search_segment os zero k = none
search_segment os (suc left) k =
    let rest = search_segment os left (k + 1) in
    elim (os.find k) [ some id ↦ some id | none ↦ rest ]

-- The id of the segment, and whether it was created.
unfoldable pub locate : Os → (owner : Bool) → (timeout_us : ℕ) → Option ℕ × Bool
locate os owner timeout_us = elim (os.find 0) [
  | some id ↦ (some id, false)
  | none ↦ if owner then (os.create, true) else (search_segment os (os.tries timeout_us) 1, false)
]

-- The headers of the buffers, from `ii` on. Their sequence ids are left as they are.
unfoldable pub init_buffers : ℕ → ℕ → M Bool
init_buffers zero ii = pure true
init_buffers (suc left) ii = do
  found ← get_buffer_info ii
  elim found [
    | none ↦ pure false
    | some i ↦ (do
      update_buffer i
          (λ b. record b { write_pos = 0; read_pos = 0; sem = empty; sem_id = minus_one })
      now ← gettimeofday_us
      update_buffer i (λ b. record b { last_touch_time = now })
      init_buffers left (ii + 1))
  ]

-- The header of the segment, as its owner sets it. The counts of readers and writers and the lowest
-- sequence id that was read are left as they are.
unfoldable pub init_segment : World → World
init_segment w =
    set_shm
      (record shm {
        next_id = 1;
        next_sequence_id = 0;
        reader_pos = 0;
        writer_pos = 0;
        buffer_size = me.requested.buffer_size;
        buffer_count = me.requested.buffer_count;
        buffer_timeout_us = me.requested.buffer_timeout_us;
        destructive_read_mode = me.requested.destructive_read_mode;
      })
      w
  where
    open w use {shm, me}

unfoldable pub own_segment : M Bool
own_segment = do
  modify init_segment
  count ← gets λ w. w.me.requested.buffer_count
  done ← init_buffers count 0
  choose done
      then (do modify (λ w. set_shm (record (w.shm) { ready_magic = magic }) w); pure true)
      else pure false

-- What a manager does that is not the owner: it waits for the owner, and takes an id.
unfoldable pub join_segment : M Bool
join_segment = do
  ready ← gets λ w. w.shm.ready_magic == magic
  choose ready
      then (do
        get_new_id
        modify λ w. set_shm (record (w.shm) { lowest_seq_id_read = 0 }) w
        modify λ w.
            set_me
              (record (w.me) {
                requested = record (w.me.requested) { buffer_count = w.shm.buffer_count };
              })
              w
        pure true)
      else (λ w. (waits, w))

-- A manager that asks for buffers, and has no other id, is the owner.
unfoldable pub claim_ownership : World → World
claim_ownership w =
    if ltb 0 r.buffer_count && ltb 0 r.buffer_size && leb_ℤ w.me.manager_id (pos 0)
    then set_me (record (w.me) { manager_id = pos 0; last_seen_id = 0 }) w
    else set_me (record (w.me) { last_seen_id = 0 }) w
  where
    open w.me use {requested as r}

-- `shm_segment_id_` is set, and a new segment is there.
unfoldable pub enter : Os → Option ℕ × Bool → World → World
enter os (none, created) w = set_me (record (w.me) { shm_segment_id = minus_one }) w
enter os (some id, created) w = record w {
  me = record (w.me) { shm_segment_id = pos id };
  shm = if created then os.created else w.shm;
  destroyed = if created then false else w.destroyed;
}

-- The part of `Attach` from `shmat` on. When it fails, `shm_ptr_` is left at -1, which `IsValid` takes for a
-- segment: the model stops there, where the next use of it would.
unfoldable pub map_segment : Os → M Bool
map_segment os = do
  owner ← gets λ w. eqb_ℤ w.me.manager_id (pos 0)
  choose os.maps
      then (do
        modify λ w. set_me (record (w.me) { attached = true }) w
        choose owner then own_segment else join_segment)
      else (λ w. (fault, w))

-- The part of `Attach` from `shmget` on.
unfoldable pub reach : Os → ℕ → M Bool
reach os timeout_usec = do
  owner ← gets λ w. eqb_ℤ w.me.manager_id (pos 0)
  let found = locate os owner (if ltb 0 timeout_usec then timeout_usec else 1000000)
  modify (enter os found)
  elim (found.0) [ none ↦ pure false | some id ↦ map_segment os ]

unfoldable pub connect : Os → ℕ → M Bool
connect os timeout_usec = do modify claim_ownership; reach os timeout_usec

-- `Attach`
unfoldable pub attach : Os → ℕ → M Bool
attach os timeout_usec = do
  valid ← gets is_valid
  owner ← gets λ w. eqb_ℤ w.me.manager_id (pos 0)
  choose valid && owner
      then pure true
      else (do when valid (detach false none false); connect os timeout_usec)
