-- ===== src/QuickVec/Tests.antt =====
-- A vector of three words in a block of three, and the operations of QuickVec.hh on it.
use artdaq_core.Prelude.{◌+◌, ℕ, ◌+◌, ◌*◌, ◌≡◌, [], ◌∷◌, ◌++◌, take, drop, replicate, some, arith}
use artdaq_core.QuickVec.{
  QuickVec, to_list, resize, resize_with_cushion, resize_fill, push_back, insert, erase,
}
use artdaq_core.QuickVec.Contents.{IsValid, resize_fill_ignores, to_list-push_back}
use artdaq_core.QuickVec.Undo.{erase-insert}
use artdaq_core.QuickVec.Editing.{to_list-insert, to_list-erase}

abbrev garbage : ℕ → ℕ
garbage i = 99

abbrev numbers : ℕ → ℕ
numbers i = 10 + i

abbrev vector : QuickVec ℕ
vector = record { size = 3; data_ = numbers; capacity = 3 }

vector-IsValid : IsValid vector
vector-IsValid = (omega arith, omega arith)

abbrev twice : ℕ → ℕ
twice n = 2 * n

abbrev widened : QuickVec ℕ
widened = resize_with_cushion garbage garbage twice 5 vector

resize_fill_ignores_example : resize_fill garbage 5 7 vector ≡ resize garbage 5 vector
resize_fill_ignores_example = resize_fill_ignores garbage 5 7 vector

to_list-push_back_example :
    (to_list (push_back garbage 7 vector) ≡ to_list vector ++ 7 ∷ [])
    × IsValid (push_back garbage 7 vector)
to_list-push_back_example = to_list-push_back garbage 7 vector (omega arith) vector-IsValid

to_list-insert_example :
    (v : QuickVec ℕ) × (insert garbage 1 2 7 vector ≡ some v)
    × (to_list v ≡ take 1 (to_list vector) ++ (replicate 2 7 ++ drop 1 (to_list vector)))
    × IsValid v
to_list-insert_example =
    to_list-insert garbage 1 2 7 vector (omega arith) (omega arith) vector-IsValid

to_list-erase_example :
    (v : QuickVec ℕ) × (erase 1 2 vector ≡ some v)
    × (to_list v ≡ take 1 (to_list vector) ++ drop 2 (to_list vector))
    × IsValid v
to_list-erase_example = to_list-erase 1 2 vector (omega arith) (omega arith) vector-IsValid

erase-insert_example :
    (v₁ v₂ : QuickVec ℕ) × (insert garbage 1 2 7 vector ≡ some v₁)
    × (erase 1 (1 + 2) v₁ ≡ some v₂)
    × (to_list v₂ ≡ to_list vector)
    × IsValid v₂
erase-insert_example = erase-insert garbage 1 2 7 vector (omega arith) (omega arith) vector-IsValid
