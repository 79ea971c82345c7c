-- ===== src/FragmentManager/Endings.antt =====
-- The ways in which `ReadFragmentData` of artdaq-core/Core/SharedMemoryFragmentManager.cc can end.
use artdaq_core.Prelude.{
  ℕ, ◌+◌, ◌*◌, ◌<◌, ◌≤◌, ◌≡◌, ◌≢◌, ◌⊎◌, inl, inr, refl, ap, ◌∙◌, sym, arith, Bool, true, false,
  Bool-cases, List, [], some, none, ltb, if◌then◌else◌,
}
use artdaq_core.Prelude.Int.{pos, negsuc, ℤ_cases, eqb_false}
use artdaq_core.Prelude.Words.{w64, add64, mul64}
use artdaq_core.SharedMemory.State.{
  reading, World, ok, throw, fault, sem_cases, deref_null, shared_memory_read,
}
use artdaq_core.SharedMemory.Access.{check_buffer, check_range, detach_world, fail}
use artdaq_core.SharedMemory.Access.Take.{touch_form, stamp, check_mine}
use artdaq_core.SharedMemory.Marks.{check_buffer_of, with_buffer}
use artdaq_core.SharedMemory.Marks.Effects.{with_buffer_in}
use artdaq_core.SharedMemory.Marks.Release.{Released, mark_buffer_empty-Released}
use artdaq_core.SharedMemory.Transfer.{copy_out, read}
use artdaq_core.SharedMemory.Transfer.Effects.{ReadOut, read_form}
use artdaq_core.FragmentManager.{
  Active, check_active, readable_buffer, report_failure, receive_words, read_fragment_data,
}
use artdaq_core.FragmentManager.Receiving.{checks, data_reads}

module _ (logged : Bool) (words : ℕ) (w : World) where
  -- There is no segment, or no active buffer. The active buffer stays, but the message uses what is not there.
  abbrev pub RefusesCall : Active → Type 0
  RefusesCall active =
      ((w.me.attached ≡ false) ⊎ (active ≡ none))
      × (read_fragment_data logged active words w
          ≡ (if logged then (fault, w) else (ok (negsuc 2, none, active), w)))

  -- The active buffer is not one that the manager reads; it stays, and nothing changes.
  abbrev pub RefusesBuffer : ℕ → Type 0
  RefusesBuffer i =
      (((w.shm.buffers i).sem ≢ reading) ⊎ ((w.shm.buffers i).sem_id ≢ w.me.manager_id))
      × (read_fragment_data logged (some i) words w ≡ (ok (negsuc 2, none, some i), w))

  abbrev pub IsHeld : ℕ → Type 0
  IsHeld i = ((w.shm.buffers i).sem ≡ reading) × ((w.shm.buffers i).sem_id ≡ w.me.manager_id)

  -- The words go beyond the buffer: `Read` throws.
  abbrev pub Overruns : ℕ → Type 0
  Overruns i =
      IsHeld i
      × (w.shm.buffer_size < add64 (w.shm.buffers i).read_pos (8 * words))
      × (t n : ℕ) × (read_fragment_data logged (some i) words w
          ≡ (throw shared_memory_read, detach_world false (stamp i t n w)))

  -- The bytes are read, and the buffer is given back.
  abbrev pub Receives : ℕ → Type 0
  Receives i =
      IsHeld i
      × (add64 (w.shm.buffers i).read_pos (8 * words) ≤ w.shm.buffer_size)
      × (u v : World) × (read_fragment_data logged (some i) words w ≡ (
        ok (
          pos 0,
          some (
              copy_out (i * w.shm.buffer_size + (w.shm.buffers i).read_pos) (8 * words)
                w.shm.bytes),
          none,
        ),
        v,
      ))
      × ReadOut i (8 * words) w u
      × Released i u v

  no_buffer : RefusesCall none
  unfolding read_fragment_data readable_buffer report_failure check_active
  no_buffer = (inr refl, ground arith)

  no_segment : (i : ℕ) → w.me.attached ≡ false → RefusesCall (some i)
  unfolding read_fragment_data readable_buffer report_failure check_active check_buffer_of
      with_buffer check_range
  no_segment i gone = (
    inl gone,
    elim (Bool-cases logged) [
      | inl e ↦ simp gone (rw (e, deref_null (λ s. s.buffer_count) w gone) refl)
      | inr e ↦ simp gone (rw e refl)
    ],
  )

  module _ (i : ℕ) (attached : w.me.attached ≡ true) (within : i < w.shm.buffer_count)
      (short : 8 * words < w64) where
    check_fails :
        ((w.shm.buffers i).sem ≢ reading) ⊎ ((w.shm.buffers i).sem_id ≢ w.me.manager_id)
        → check_buffer_of i reading w ≡ (ok false, w)
    unfolding check_buffer_of check_buffer
    check_fails (inl other) = with_buffer_in w i attached false _ within ∙ ground arith
    check_fails (inr other) =
        with_buffer_in w i attached false _ within
        ∙ ground (arith, eqb_false (w.shm.buffers i).sem_id w.me.manager_id other)

    not_held :
        ((w.shm.buffers i).sem ≢ reading) ⊎ ((w.shm.buffers i).sem_id ≢ w.me.manager_id)
        → RefusesBuffer i
    unfolding read_fragment_data readable_buffer report_failure check_active
    not_held other = (
      other,
      elim (Bool-cases logged) [
        | inl e ↦ simp attached (rw (check_fails other) (rw e (rw (check_fails other) refl)))
        | inr e ↦ simp attached (rw (check_fails other) (rw e refl))
      ],
    )

    bytes_asked : mul64 words 8 ≡ 8 * words
    bytes_asked = omega arith

    read_throws :
        (w.shm.buffers i).sem ≡ reading
        → (w.shm.buffers i).sem_id ≡ w.me.manager_id
        → w.shm.buffer_size < add64 (w.shm.buffers i).read_pos (8 * words)
        → (t n : ℕ) × (read i (8 * words) w
            ≡ (throw shared_memory_read, detach_world false (stamp i t n w)))
    unfolding read fail
    read_throws s mine over =
        let (t, n, p) = touch_form i w in
        let long : ltb w.shm.buffer_size
              (add64 ((stamp i t n w).shm.buffers i).read_pos (8 * words))
            ≡ true =
          ground arith in
        (
          t,
          n,
          rw (
            with_buffer_in w i attached {A = Bool × List ℕ} (false, []) _ within,
            check_mine i w reading s mine,
            p,
            long,
          ),
        )

    overruns :
        (v : World)
        → (w.shm.buffers i).sem ≡ reading
        → (w.shm.buffers i).sem_id ≡ w.me.manager_id
        → read i (8 * words) w ≡ (throw shared_memory_read, v)
        → read_fragment_data logged (some i) words w ≡ (throw shared_memory_read, v)
    unfolding read_fragment_data receive_words readable_buffer check_active
    overruns v s mine e =
        simp attached (rw (checks w i attached within s mine, bytes_asked, e) refl)

    receives :
        (s : (w.shm.buffers i).sem ≡ reading)
        → (mine : (w.shm.buffers i).sem_id ≡ w.me.manager_id)
        → add64 (w.shm.buffers i).read_pos (8 * words) ≤ w.shm.buffer_size
        → Receives i
    receives s mine fits =
        let (u, e, r) = read_form w i attached within mine (8 * words) s fits in
        let (v, e', q) =
          mark_buffer_empty-Released u i true (ap (λ m. m.attached) r.me ∙ attached)
            (omega (arith, within, r.buffer_count)) (r.sem ∙ s)
            (r.sem_id ∙ mine ∙ sym (ap (λ m. m.manager_id) r.me)) in
        (
          (s, mine),
          fits,
          u,
          v,
          data_reads logged w u v i words (8 * words) _ attached (checks w i attached within s mine)
              bytes_asked e e',
          r,
          q,
        )

    held :
        (w.shm.buffers i).sem ≡ reading
        → (w.shm.buffers i).sem_id ≡ w.me.manager_id
        → Overruns i ⊎ Receives i
    held s mine =
        elim (Bool-cases (ltb w.shm.buffer_size (add64 (w.shm.buffers i).read_pos (8 * words)))) [
          | inl long ↦
              let over : w.shm.buffer_size < add64 (w.shm.buffers i).read_pos (8 * words) =
                ground arith in
              let (t, n, e) = read_throws s mine over in
              inl ((s, mine), over, t, n, overruns (detach_world false (stamp i t n w)) s mine e)
          | inr enough ↦ inr (receives s mine (ground arith))
        ]

  -- `ReadFragmentData` of words whose bytes are fewer than 2 ^ 64, with no active buffer or one of the
  -- segment. Without a segment or an active buffer it returns -3 and keeps the active buffer, unless the
  -- message about the failed tests is evaluated, which then uses the null pointer or a mutex that is not there.
  -- When the active buffer is not one that this manager reads, it returns -3, keeps it and changes nothing,
  -- whether the message is evaluated or not. When the words, counted as a size_t, go beyond the buffer, it
  -- throws and detaches. Otherwise it returns 0 with exactly the bytes at the read position, gives the buffer
  -- back, and no buffer is active: so it never returns -2.
  pub read_fragment_data_cases :
      (active : Active)
      → ((i : ℕ) → active ≡ some i → i < w.shm.buffer_count)
      → 8 * words < w64
      → RefusesCall active
        ⊎ ((i : ℕ) × (active ≡ some i) × (RefusesBuffer i ⊎ (Overruns i ⊎ Receives i)))
  read_fragment_data_cases none within short = inl no_buffer
  read_fragment_data_cases (some i) within short = elim (Bool-cases w.me.attached) [
    | inr gone ↦ inl (no_segment i gone)
    | inl attached ↦
        let lt = within i refl in
        elim (sem_cases (w.shm.buffers i).sem reading) [
          | inr other ↦ inr (i, refl, inl (not_held i attached lt short (inl other)))
          | inl s ↦ elim (ℤ_cases (w.shm.buffers i).sem_id w.me.manager_id) [
            | inr other ↦ inr (i, refl, inl (not_held i attached lt short (inr other)))
            | inl mine ↦ inr (i, refl, inr (held i attached lt short s mine))
          ]
        ]
  ]
