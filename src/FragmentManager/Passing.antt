-- ===== src/FragmentManager/Passing.antt =====
-- `WriteFragment` of one process and `ReadFragment` of another on an idle segment,
-- artdaq-core/Core/SharedMemoryFragmentManager.cc.
use artdaq_core.Prelude.{
  ℕ, ◌-◌, ◌*◌, ◌^◌, ◌<◌, ◌≤◌, ◌≡◌, ◌≢◌, inl, inr, true, Bool, Bool-cases, arith, ◌∙◌, ap, some,
  none, ◌==◌,
}
use artdaq_core.Prelude.Int.{pos, minus_one, FitsInt16, eqb_refl}
use artdaq_core.Prelude.Words.{w64}
use artdaq_core.Prelude.Bytes.{bytes_of}
use artdaq_core.Header.{decode}
use artdaq_core.SharedMemory.State.{empty, ShmBuffer, World, Manager, ok}
use artdaq_core.SharedMemory.Reset.Drift.{IsReady, Decays}
use artdaq_core.SharedMemory.Reading.{is_readable, get_buffer_for_reading}
use artdaq_core.SharedMemory.Reading.Order.{get_buffer_for_reading_finds}
use artdaq_core.SharedMemory.Reading.Grant.{Lent, get_buffer_for_reading-Lent}
use artdaq_core.SharedMemory.Transfer.{copy_in}
use artdaq_core.SharedMemory.Transfer.Roundtrip.{hand_to}
use artdaq_core.SharedMemory.Attach.Owner.{IsIdle}
use artdaq_core.Fragment.{Fragment, done}
use artdaq_core.Fragment.Layout.{IsCurrent}
use artdaq_core.FragmentManager.{Surroundings, Active, write_fragment, read_fragment}
use artdaq_core.FragmentManager.Sending.{Handed, IsConnected, write_fragment-Handed}
use artdaq_core.FragmentManager.Receiving.{Stores}
use artdaq_core.FragmentManager.Delivery.{Equals, read_fragment-Equals}

idle_stays : (w : World) (b c : ShmBuffer) → IsIdle b → Decays w b c → c.sem ≡ empty
idle_stays w b c idle d = ground (arith, idle.sem, idle.sem_id)

-- The only buffer that can be read is the one that was written.
same_buffer :
    (f : Fragment) (w v : World) (reader : Manager) (u : World) (i j : ℕ)
    → ((k : ℕ) → k < w.shm.buffer_count → IsIdle (w.shm.buffers k))
    → Handed f j w v
    → Lent i (hand_to reader v) u
    → i ≡ j
same_buffer f w v reader u i j idle h l = elim (Bool-cases (i == j)) [
  | inl e ↦ ground arith
  | inr e ↦
      let within : i < v.shm.buffer_count = l.within in
      let still : (v.shm.buffers i).sem ≡ empty =
        idle_stays w (w.shm.buffers i) (v.shm.buffers i) (idle i (omega (arith, h.buffer_count)))
          (h.others i (ground arith)) in
      absurd (ground (arith, l.taken_from))
]

Lent-Stores :
    (f : Fragment) (w v : World) (reader : Manager) (u : World) (i j : ℕ)
    → IsCurrent f
    → 8 * f.vals.size ≤ w.shm.buffer_size
    → w.shm.buffer_size < w64
    → i ≡ j
    → Handed f j w v
    → Lent i (hand_to reader v) u
    → Stores i f.vals.data_ f.vals.size u
Lent-Stores f w v reader u i j cur fits word e h l =
    let size : u.shm.buffer_size ≡ w.shm.buffer_size = l.buffer_size ∙ h.buffer_size in
    record {
      memory = w.shm.bytes;
      bytes =
          l.bytes
          ∙ h.bytes
          ∙ ap (λ a. copy_in a (bytes_of f.vals.data_ 0 f.vals.size) w.shm.bytes)
              (ground (arith, e, ap (λ x. i * x) size));
      room = omega (arith, size);
      word = omega (arith, size);
      whole = omega (arith, cur.room);
    }

-- A manager that is attached, has an id, and has read nothing yet.
pub record IsFreshReader (m : Manager) : Type 0 where
  pub attached : m.attached ≡ true
  pub owner : FitsInt16 m.manager_id
  pub named : m.manager_id ≢ minus_one
  pub unread : m.last_seen_id ≡ 0

-- A segment all of whose buffers are idle, which empties the buffers that are read.
pub record IsIdleSegment (w : World) : Type 0 where
  pub idle : (k : ℕ) → k < w.shm.buffer_count → IsIdle (w.shm.buffers k)
  pub destructive : w.shm.destructive_read_mode ≡ true
  pub reader_in : w.shm.reader_pos < w.shm.buffer_count
  pub early : w.shm.next_sequence_id < w64 - 2
  pub word : w.shm.buffer_size < w64

module _ (f : Fragment) (w v : World) (reader : Manager) (j : ℕ) (ready : IsReady w)
    (segment : IsIdleSegment w) (m : IsFreshReader reader) (h : Handed f j w v) where
  hand_to-IsReady : IsReady (hand_to reader v)
  hand_to-IsReady = record {
    attached = m.attached;
    small = omega (arith, h.buffer_count, ready.small);
    writer_in = omega (arith, h.buffer_count, h.writer_in);
    owner = m.owner;
    named = m.named;
  }

  readable : is_readable (hand_to reader v) (v.shm.buffers j) ≡ true
  unfolding is_readable
  readable =
      ground
        (arith, h.sem, h.sem_id, h.destructive_read_mode, segment.destructive, eqb_refl minus_one)

  gets_buffer :
      (i : ℕ) × (u : World) × (get_buffer_for_reading (hand_to reader v) ≡ (ok (some i), u))
  gets_buffer =
      get_buffer_for_reading_finds (hand_to reader v) j hand_to-IsReady
        (ground (arith, h.reader_pos, h.buffer_count, segment.destructive, segment.reader_in))
        (inl (h.destructive_read_mode ∙ segment.destructive)) (inr (inl m.unread))
        (omega (arith, h.buffer_count, h.within)) readable
        (omega (arith, h.sequence_id, segment.early))

-- A fragment of the current version, of words of 64 bits that fit the buffers, is written by a ready manager,
-- without an active buffer, connected to a segment all of whose buffers are idle and which empties buffers
-- that are read: `WriteFragment` returns 0. Another manager that is attached, has an id and has read nothing
-- yet then calls `ReadFragment`, into a fragment of the current version without metadata: this returns 0, and
-- what it has read is the fragment that was written: as many words, and the same. The reader position is
-- among the buffers, and the sequence ids have not reached 2 ^ 64 - 2. Whether the message about failed tests
-- would be evaluated does not matter.
pub read_fragment-write_fragment :
    (s : Surroundings) (rounds : ℕ) (f : Fragment) (overwrite : Bool) (timeout_us : ℕ) (w : World)
    (reader : Manager) (logged : Bool) (fresh : ℕ → ℕ) (g : Fragment) (a : Active)
    → IsReady w
    → IsConnected s w
    → IsIdleSegment w
    → IsCurrent f
    → 8 * f.vals.size ≤ w.shm.buffer_size
    → ((k : ℕ) → f.vals.data_ k < 2 ^ 64)
    → IsFreshReader reader
    → IsCurrent g
    → (decode g.vals.data_).metadata_word_count ≡ 0
    → (v : World) × (g' : Fragment) × (v' : World) × (write_fragment s rounds f overwrite timeout_us
          none w
        ≡ (ok (done (pos 0), none), v))
      × (read_fragment logged fresh g a (hand_to reader v) ≡ (ok (done (pos 0, g'), none), v'))
      × Equals f.vals.data_ f.vals.size g'
read_fragment-write_fragment s rounds f overwrite timeout_us w reader logged fresh g a ready
      connected segment cur fits small m cur' bare =
    let first = segment.idle w.shm.writer_pos ready.writer_in in
    let (j, v, sent, h) =
      write_fragment-Handed s rounds f overwrite timeout_us w w.shm.writer_pos ready connected cur
        fits segment.word ready.writer_in first.sem first.sem_id in
    let ready' = hand_to-IsReady f w v reader j ready segment m h in
    let (i, u, granted) = gets_buffer f w v reader j ready segment m h in
    let l = get_buffer_for_reading-Lent (hand_to reader v) i u ready' granted in
    let e = same_buffer f w v reader u i j segment.idle h l in
    let (g', v', read, eq) =
      read_fragment-Equals logged fresh g a (hand_to reader v) i u f.vals.data_ f.vals.size cur'
        bare ready' granted (Lent-Stores f w v reader u i j cur fits segment.word e h l) small
        cur.word_count (omega (arith, cur.valid)) in
    (v, g', v', sent, read, eq)
