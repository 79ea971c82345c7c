-- ===== src/QuickVec.antt =====
-- artdaq-core/Core/QuickVec.hh: the vector of a Fragment's words.  The memory of
-- `QV_MEMALIGN` is uninitialised, so each operation that may allocate takes the
-- contents of the new block as `fresh`; the fields `size_` and `capacity_` are
-- `unsigned`, so what is stored into them is taken modulo 2 ^ 32.
use artdaq_core.Prelude.{◌&&◌, ◌^◌, ℕ, zero, suc, ◌+◌, ◌-◌, ◌*◌, ◌/◌, ◌%◌, ◌<◌, ◌≤◌}
use artdaq_core.Prelude.{List, Option, none, some, ltb, leb, ◌==◌, if◌then◌else◌, Bool}
use artdaq_core.Prelude.Memory.{put_at, elements}
use artdaq_core.Prelude.Words.{w32, add32, add64}
pub mod Loops
pub mod Contents
pub mod Editing
pub mod Undo
mod Tests

pub record QuickVec {ℓ} (A : Type ℓ) : Type ℓ where
  pub size : ℕ
  pub data_ : ℕ → A
  pub capacity : ℕ

-- The steps of the cushion up to 8192, above which the request stands.
unfoldable pub cushion : ℕ → ℕ
cushion n =
    if ltb n 512
    then 512
    else if ltb n 2048
    then 2048
    else if ltb n 4096
    then 4096
    else if ltb n 8192
    then 8192
    else n

module _ {ℓ} {A : Type ℓ} where
  -- What the vector holds, for its users: its first `size` cells.
  unfoldable pub to_list : QuickVec A → List A
  to_list v = elements v.data_ 0 v.size

  unfoldable pub memcpy : (ℕ → A) → (ℕ → A) → ℕ → ℕ → A
  memcpy dst src n j = if ltb j n then src j else dst j

  unfoldable pub fill : (ℕ → A) → ℕ → ℕ → A → ℕ → A
  fill d start zero val = d
  fill d start (suc n) val = fill (put_at d start val) (start + 1) n val

  unfoldable pub construct : (ℕ → A) → ℕ → QuickVec A
  construct fresh sz = record { size = sz % w32; data_ = fresh; capacity = sz % w32 }

  unfoldable pub construct_with : (ℕ → A) → ℕ → A → QuickVec A
  construct_with fresh sz val = record {
    size = sz % w32;
    data_ = fill fresh 0 (sz % w32) val;
    capacity = sz % w32;
  }

  -- `operator[]`, whose assertion compares with the size as an `int`; `none` is its failure.
  unfoldable pub get : QuickVec A → ℕ → Option A
  get v idx = if ltb v.size (2 ^ 31) && ltb idx v.size then some (v.data_ idx) else none

  unfoldable pub reserve : (ℕ → A) → ℕ → QuickVec A → QuickVec A
  reserve fresh n v =
      if ltb v.capacity n
      then record { size = v.size; data_ = memcpy fresh v.data_ v.size; capacity = n % w32 }
      else v

  unfoldable pub resize : (ℕ → A) → ℕ → QuickVec A → QuickVec A
  resize fresh n v =
      if ltb n v.size
      then record { size = n % w32; data_ = v.data_; capacity = v.capacity }
      else if leb n v.capacity
      then record { size = n % w32; data_ = v.data_; capacity = v.capacity }
      else record { size = n % w32; data_ = memcpy fresh v.data_ v.size; capacity = n % w32 }

  -- The branch of `resizeWithCushion` that reserves; `grown` is
  -- `std::round(capacity_ * growthFactor)`, a computation on doubles.
  unfoldable pub widen : (ℕ → A) → (grown : ℕ → ℕ) → ℕ → QuickVec A → QuickVec A
  widen fresh grown n v =
      let new_size = grown v.capacity in
      let request = cushion (if ltb new_size n then n else new_size) in
      if ltb v.capacity n then reserve fresh request v else v

  -- `later` is what a second allocation would hold.
  unfoldable pub resize_with_cushion :
      (ℕ → A) → (ℕ → A) → (grown : ℕ → ℕ) → ℕ → QuickVec A → QuickVec A
  resize_with_cushion fresh later grown n v = resize later n (widen fresh grown n v)

  -- `old_size` is set from the parameter `size`, which hides the member of that name.
  unfoldable pub resize_fill : (ℕ → A) → ℕ → A → QuickVec A → QuickVec A
  resize_fill fresh n val v =
      let old_size = n in
      let v₁ = resize fresh n v in
      if ltb old_size n
      then record {
        size = v₁.size;
        data_ = fill v₁.data_ old_size (v₁.size - old_size) val;
        capacity = v₁.capacity;
      }
      else v₁

  -- while (cnt--) *--dst = *--src;
  unfoldable pub shift_up : (ℕ → A) → ℕ → ℕ → ℕ → ℕ → A
  shift_up d dst src zero = d
  shift_up d dst src (suc cnt) = shift_up (put_at d (dst - 1) (d (src - 1))) (dst - 1) (src - 1) cnt

  -- while (cnt--) *dst++ = *src++;
  unfoldable pub shift_down : (ℕ → A) → ℕ → ℕ → ℕ → ℕ → A
  shift_down d dst src zero = d
  shift_down d dst src (suc cnt) = shift_down (put_at d dst (d src)) (dst + 1) (src + 1) cnt

  -- while (nn--) *dst++ = *first++, where `first` is an array of the caller's.
  unfoldable pub copy_from : (ℕ → A) → (ℕ → A) → ℕ → ℕ → ℕ → ℕ → A
  copy_from d other dst first zero = d
  copy_from d other dst first (suc nn) =
      copy_from (put_at d dst (other first)) other (dst + 1) (first + 1) nn

  -- The room for `nn` elements at `offset`, with what stood there moved up.
  unfoldable pub open_gap : (ℕ → A) → ℕ → ℕ → QuickVec A → QuickVec A
  open_gap fresh offset nn v =
      let v₁ = reserve fresh (add64 v.size nn) v in
      let moved = shift_up v₁.data_ (v₁.size + nn) v₁.size (v₁.size - offset) in
      record { size = add32 v₁.size nn; data_ = moved; capacity = v₁.capacity }

  -- `none` is the failed assertion `position <= end()`.
  unfoldable pub insert : (ℕ → A) → ℕ → ℕ → A → QuickVec A → Option (QuickVec A)
  insert fresh offset nn val v =
      if leb offset v.size
      then (let v₁ = open_gap fresh offset nn v in
          some (record {
            size = v₁.size;
            data_ = fill v₁.data_ offset nn val;
            capacity = v₁.capacity;
          }))
      else none

  unfoldable pub insert_range : (ℕ → A) → ℕ → (ℕ → A) → ℕ → ℕ → QuickVec A → Option (QuickVec A)
  insert_range fresh offset other first last v =
      if leb offset v.size
      then (let v₁ = open_gap fresh offset (last - first) v in
          some (record {
            size = v₁.size;
            data_ = copy_from v₁.data_ other offset first (last - first);
            capacity = v₁.capacity;
          }))
      else none

  -- The range is one with `first` at most `last`, as for every caller.
  unfoldable pub erase : ℕ → ℕ → QuickVec A → Option (QuickVec A)
  erase first last v =
      if leb last v.size
      then some (record {
        size = v.size - (last - first);
        data_ = shift_down v.data_ first last (v.size - last);
        capacity = v.capacity;
      })
      else none

  unfoldable pub swap : QuickVec A → QuickVec A → QuickVec A × QuickVec A
  swap v other = (other, v)

  -- The branch of `push_back` that reserves a tenth more when the block is full.
  unfoldable pub make_room : (ℕ → A) → QuickVec A → QuickVec A
  make_room fresh v =
      if v.size == v.capacity then reserve fresh (add32 (add32 v.size (v.size / 10)) 1) v else v

  unfoldable pub push_back : (ℕ → A) → A → QuickVec A → QuickVec A
  push_back fresh val v =
      let v₁ = make_room fresh v in
      record { size = add32 v₁.size 1; data_ = put_at v₁.data_ v₁.size val; capacity = v₁.capacity }
