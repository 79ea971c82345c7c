-- ===== src/SharedMemory/State.antt =====
-- The data of artdaq-core/Core/SharedMemoryManager.hh: the header of the segment (`ShmStruct`), the
-- headers of its buffers (`ShmBuffer`), the bytes behind them, and the fields of one manager.
pub use artdaq_core.Prelude.Memory.{put_at}
use artdaq_core.Prelude.{
  ℕ, ◌+◌, ◌≡◌, ◌≢◌, ◌⊎◌, inl, inr, Bool-cases, refl, sym, ap, subst₂, ◌∙◌, arith, Bool, true, false,
  if◌then◌else◌,
}
use artdaq_core.Prelude.Int.{ℤ}

-- `BufferSemaphoreFlags`
pub data BufferSemaphoreFlags : Type 0 where
  empty writing full reading : BufferSemaphoreFlags

abbrev pub sem_eq : BufferSemaphoreFlags → BufferSemaphoreFlags → Bool
sem_eq empty empty = true
sem_eq writing writing = true
sem_eq full full = true
sem_eq reading reading = true
sem_eq _ _ = false

pub sem_cases : (a b : BufferSemaphoreFlags) → (a ≡ b) ⊎ (a ≢ b)
sem_cases a b = elim (Bool-cases (sem_eq a b)) [
  | inl e ↦ inl (ground arith)
  | inr e ↦ inr (ground arith)
]

-- `ShmBuffer`. An owner of -1 is no owner.
pub record ShmBuffer : Type 0 where
  pub write_pos : ℕ
  pub read_pos : ℕ
  pub sem : BufferSemaphoreFlags
  pub sem_id : ℤ
  pub sequence_id : ℕ
  pub last_touch_time : ℕ

-- `ShmStruct`, with the table of `ShmBuffer` that follows it and the bytes after that, which are
-- counted from `dataStart_`.
pub record ShmStruct : Type 0 where
  pub reader_pos : ℕ
  pub writer_pos : ℕ
  pub buffer_count : ℕ
  pub buffer_size : ℕ
  pub buffer_timeout_us : ℕ
  pub next_sequence_id : ℕ
  pub lowest_seq_id_read : ℕ
  pub destructive_read_mode : Bool
  pub writer_count : ℤ
  pub reader_count : ℤ
  pub next_id : ℕ
  pub rank : ℤ
  pub ready_magic : ℕ
  pub buffers : ℕ → ShmBuffer
  pub bytes : ℕ → ℕ

-- What the constructor was asked for: the fields of `requested_shm_parameters_` that are read.
pub record Requested : Type 0 where
  pub buffer_count : ℕ
  pub buffer_size : ℕ
  pub buffer_timeout_us : ℕ
  pub destructive_read_mode : Bool

-- The fields of one `SharedMemoryManager`; `attached` says that `shm_ptr_` is not null.
pub record Manager : Type 0 where
  pub requested : Requested
  pub shm_segment_id : ℤ
  pub attached : Bool
  pub manager_id : ℤ
  pub last_seen_id : ℕ
  pub registered_reader : Bool
  pub registered_writer : Bool
  pub min_write_size : ℕ

-- What a call sees: the segment, the manager that runs it, whether the segment is marked for
-- destruction, and the times that successive reads of the clock return.
pub record World : Type 0 where
  pub shm : ShmStruct
  pub me : Manager
  pub destroyed : Bool
  pub clock : ℕ → ℕ
  pub ticks : ℕ

-- The categories of the `cet::exception`s that `Detach` throws.
pub data Category : Type 0 where
  argument_out_of_range logic_error buffer_not_there : Category
  state_access_violation owner_access_violation : Category
  shared_memory_write shared_memory_read : Category

-- How a call ends: a result, an exception, the use of a null `shm_ptr_`, or a wait for another
-- process that it does not end by itself.
pub data Outcome {ℓ} (A : Type ℓ) : Type ℓ where
  ok : A → Outcome A
  throw : Category → Outcome A
  fault : Outcome A
  waits : Outcome A

abbrev pub IsOk {ℓ} : {A : Type ℓ} → Outcome A → Type 0
IsOk (ok a) = Unit
IsOk (throw c) = ⊥
IsOk fault = ⊥
IsOk waits = ⊥

pub ok_of_IsOk {ℓ} : {A : Type ℓ} (r : Outcome A) → IsOk r → (a : A) × (r ≡ ok a)
ok_of_IsOk (ok a) h = (a, refl)
ok_of_IsOk (throw c) h = absurd h
ok_of_IsOk fault h = absurd h
ok_of_IsOk waits h = absurd h

abbrev pub result_or {ℓ} : {A : Type ℓ} → A → Outcome A → A
result_or d (ok a) = a
result_or d (throw c) = d
result_or d fault = d
result_or d waits = d

abbrev pub M : Type 0 → Type 0
M A = World → Outcome A × World

abbrev pub pure : {A : Type 0} → A → M A
pure a w = (ok a, w)

-- What comes after a call.
abbrev pub follow : {A B : Type 0} → (A → M B) → Outcome A × World → Outcome B × World
follow f (ok a, w) = f a w
follow f (throw c, w) = (throw c, w)
follow f (fault, w) = (fault, w)
follow f (waits, w) = (waits, w)

infixl 5 ◌>>=◌ ◌>>◌
abbrev pub ◌>>=◌ : {A B : Type 0} → M A → (A → M B) → M B
◌>>=◌ m f w = follow f (m w)

-- `if` between calls.
infix 1 choose◌then◌else◌
abbrev pub choose◌then◌else◌ : {A : Type 0} → Bool → M A → M A → M A
choose◌then◌else◌ b m k w = if b then m w else k w

-- A call has one result.
pub ok_unique {ℓ} :
    {A : Type 0} (P : A → World → Type ℓ) (x : Outcome A × World) {a b : A} {v v' : World}
    → x ≡ (ok a, v)
    → x ≡ (ok b, v')
    → P a v
    → P b v'
ok_unique P x {a} e e' h =
    subst₂ P (ap (λ y. result_or a y.0) (sym e ∙ e')) (ap (λ y. y.1) (sym e ∙ e')) h

pub bind_ok :
    {A B : Type 0} (m : M A) (f : A → M B) (w : World) (a : A) (v : World)
    → m w ≡ (ok a, v)
    → (m >>= f) w ≡ f a v
bind_ok m f w a v e = ap (follow f) e

abbrev pub ◌>>◌ : {A B : Type 0} → M A → M B → M B
m >> k = m >>= λ _. k

pub then_ok :
    {A B : Type 0} (m : M A) (w : World) {a : A} {v : World} (k : M B)
    → m w ≡ (ok a, v)
    → (m >> k) w ≡ k v
then_ok m w k e = ap (follow _) e

abbrev pub gets : {A : Type 0} → (World → A) → M A
gets f w = (ok (f w), w)

abbrev pub modify : (World → World) → M (Unit {0})
modify f w = (ok tt, f w)

-- A read of `shm_ptr_->…`
unfoldable pub deref : {A : Type 0} → (ShmStruct → A) → M A
deref f w = if w.me.attached then (ok (f w.shm), w) else (fault, w)

pub deref_ok :
    {A : Type 0} (f : ShmStruct → A) (w : World)
    → w.me.attached ≡ true
    → deref f w ≡ (ok (f w.shm), w)
unfolding deref
deref_ok f w h = ground arith

pub deref_null :
    {A : Type 0} (f : ShmStruct → A) (w : World) → w.me.attached ≡ false → deref f w ≡ (fault, w)
unfolding deref
deref_null f w h = ground arith

-- `TimeUtils::gettimeofday_us()`
abbrev pub gettimeofday_us : M ℕ
gettimeofday_us w = (ok (w.clock w.ticks), record w { ticks = w.ticks + 1 })

abbrev pub unless : Bool → M (Unit {0}) → M (Unit {0})
unless b m w = if b then (ok tt, w) else m w

abbrev pub when : Bool → M (Unit {0}) → M (Unit {0})
when b m w = if b then m w else (ok tt, w)

-- `if (!m) continue;` before the rest of a loop's body, which says whether it ends the loop.
infixr 4 ◌&&>◌
abbrev pub ◌&&>◌ : M Bool → M Bool → M Bool
m &&> k = m >>= λ b. choose b then k else pure false

pub and_ok :
    (m : M Bool) (w : World) {v : World} (k : M Bool) → m w ≡ (ok true, v) → (m &&> k) w ≡ k v
and_ok m w k e = ap (follow _) e

abbrev pub set_shm : ShmStruct → World → World
set_shm s w = record w { shm = s }

abbrev pub set_me : Manager → World → World
set_me m w = record w { me = m }

-- Overwrite the header of buffer `i`.
abbrev pub put_buffer : ℕ → ShmBuffer → World → World
put_buffer i b w = record w { shm = record (w.shm) { buffers = put_at w.shm.buffers i b } }

abbrev pub update_buffer : ℕ → (ShmBuffer → ShmBuffer) → M (Unit {0})
update_buffer i f w = (ok tt, put_buffer i (f (w.shm.buffers i)) w)
