-- ===== src/SharedMemory/Transfer/Roundtrip.antt =====
-- A buffer's way from a writer to a reader: `Write`, `MarkBufferFull`, `GetBufferForReading` and `Read`.
use artdaq_core.Prelude.{
  ℕ, ◌+◌, ◌*◌, ◌<◌, ◌≤◌, ◌≡◌, true, List, length, some, arith, ◌∙◌, sym, subst, ap, ap₂,
}
use artdaq_core.Prelude.Int.{minus_one}
use artdaq_core.Prelude.Words.{w64}
use artdaq_core.SharedMemory.State.{writing, Manager, World, ok, ok_unique}
use artdaq_core.SharedMemory.Reset.Drift.{IsReady}
use artdaq_core.SharedMemory.Marks.{mark_buffer_full}
use artdaq_core.SharedMemory.Marks.Effects.{MarkedFull, mark_buffer_full_mine}
use artdaq_core.SharedMemory.Reading.{get_buffer_for_reading}
use artdaq_core.SharedMemory.Reading.Grant.{Lent, get_buffer_for_reading-Lent}
use artdaq_core.SharedMemory.Transfer.{write, read, copy_in, copy_out}
use artdaq_core.SharedMemory.Transfer.Bytes.{copy_out-copy_in}
use artdaq_core.SharedMemory.Transfer.Effects.{Written, write_form, read_form}

-- The same segment, seen by another manager.
abbrev pub hand_to : Manager → World → World
hand_to m w = record w { me = m }

-- The manager holds buffer `i` for writing, and has written nothing yet.
pub record IsBegun (w : World) (i : ℕ) : Type 0 where
  pub attached : w.me.attached ≡ true
  pub within : i < w.shm.buffer_count
  pub sem : (w.shm.buffers i).sem ≡ writing
  pub mine : (w.shm.buffers i).sem_id ≡ w.me.manager_id
  pub write_pos : (w.shm.buffers i).write_pos ≡ 0
  pub word : w.shm.buffer_size < w64

copied_out :
    (i size r size' p : ℕ) (source : List ℕ) (m m' : ℕ → ℕ)
    → size ≡ size'
    → r ≡ 0
    → p ≡ 0
    → m ≡ copy_in (i * size' + p) source m'
    → copy_out (i * size + r) (length source) m ≡ source
copied_out i size r size' p source m m' hs hr hp hm =
    let at : i * size + r ≡ i * size' + p = ground (arith, ap (λ n. i * n) hs) in
    ap₂ (λ a b. copy_out a (length source) b) at hm ∙ copy_out-copy_in (i * size' + p) source m'

module _ (w : World) (i : ℕ) (source : List ℕ) (reader : Manager) (v₁ v₂ v₃ : World)
    (begun : IsBegun w i) (fits : length source ≤ w.shm.buffer_size)
    (written : write i source w ≡ (ok (length source), v₁))
    (marked : mark_buffer_full i minus_one v₁ ≡ (ok tt, v₂)) (ready : IsReady (hand_to reader v₂))
    (lent : get_buffer_for_reading (hand_to reader v₂) ≡ (ok (some i), v₃)) where
  after_write : Written i source w v₁
  after_write =
      let (v, e, f) =
        write_form w i begun.attached begun.within begun.mine source begun.sem
          (omega (arith, begun.write_pos, begun.word)) in
      ok_unique (λ _ x. Written i source w x) _ e written f

  after_mark : MarkedFull i minus_one v₁ v₂
  after_mark =
      let f = after_write in
      let (v, e, m) =
        mark_buffer_full_mine v₁ i minus_one (f.attached ∙ begun.attached)
          (subst (λ n. i < n) (sym f.buffer_count) begun.within)
          (f.sem_id ∙ begun.mine ∙ sym f.manager_id) in
      ok_unique (λ _ x. MarkedFull i minus_one v₁ x) _ e marked m

  after_grant : Lent i (hand_to reader v₂) v₃
  after_grant = get_buffer_for_reading-Lent (hand_to reader v₂) i v₃ ready lent

  -- What an attached manager writes into a buffer that it has just begun, no more than the buffer
  -- holds, then marks full for everyone, and another, ready manager then gets for reading, that
  -- manager reads: the same bytes, and the read succeeds.
  pub read-write : (v₄ : World) × (read i (length source) v₃ ≡ (ok (true, source), v₄))
  read-write =
      let f = after_write in
      let m = after_mark in
      let l = after_grant in
      let size : v₃.shm.buffer_size ≡ w.shm.buffer_size =
        l.buffer_size ∙ m.buffer_size ∙ f.buffer_size in
      let bytes = l.bytes ∙ m.bytes ∙ f.bytes in
      let (v₄, e, _) =
        read_form v₃ i (l.attached ∙ ready.attached)
          (subst (λ n. i < n) (sym l.buffer_count) l.within) (l.sem_id ∙ sym l.manager_id)
          (length source) l.sem (omega (arith, l.read_pos, size, begun.word)) in
      (
        v₄,
        e
            ∙ ap (λ b. (ok (true, b), v₄))
                (copied_out i v₃.shm.buffer_size (v₃.shm.buffers i).read_pos w.shm.buffer_size
                  (w.shm.buffers i).write_pos source v₃.shm.bytes w.shm.bytes size l.read_pos
                  begun.write_pos bytes),
      )
