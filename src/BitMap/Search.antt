-- ===== src/BitMap/Search.antt =====
-- userprog/bitmap.cc: `Find` returns the first number that is not in the set, `NumClear` how many
-- there are.
use native.Mathlib.Numerals.{add-one}
use csci350_project.Base.{
  ℕ, zero, suc, ◌+◌, ◌<◌, ◌≡◌, refl, ◌∙◌, inl, inr, true, false, Option, some, arith, ℕ_discrete,
  ap, ltb, if◌then◌else◌, Bool-cases,
}
use csci350_project.Base.Int.{ℤ, pos, minus_one}
use csci350_project.BitMap.{BitMap, find_from, find, num_clear_from, num_clear}
use csci350_project.BitMap.Laws.{is_set, IsValid, Updates, test_lem, mark-Updates}

-- What `Find` may answer: the least number outside of the set, now taken in, or -1 and no change
-- where the set is full.
pub data FindResult (m : BitMap) (r : Option (ℤ × BitMap)) : Type 0 where
  found :
      (i : ℕ) (m' : BitMap)
      → r ≡ some (pos i, m')
      → i < m.num_bits
      → is_set m i ≡ false
      → ((j : ℕ) → j < i → is_set m j ≡ true)
      → Updates m m' i true
      → FindResult m r
  full : r ≡ some (minus_one, m) → ((j : ℕ) → j < m.num_bits → is_set m j ≡ true) → FindResult m r

below_suc :
    (m : BitMap) (i : ℕ)
    → ((j : ℕ) → j < i → is_set m j ≡ true)
    → is_set m i ≡ true
    → (j : ℕ) → j < i + 1
    → is_set m j ≡ true
below_suc m i before here j lt = elim (ℕ_discrete j i) [
  | yes e ↦ rw e here
  | no d ↦ before j (omega arith)
]

find_from-FindResult :
    (left i : ℕ) (m : BitMap)
    → IsValid m
    → i + left ≡ m.num_bits
    → ((j : ℕ) → j < i → is_set m j ≡ true)
    → FindResult m (find_from m left i)
unfolding find_from
find_from-FindResult zero i m ok e before = full refl (λ j lt. before j (omega arith))
find_from-FindResult (suc left) i m ok e before = elim (Bool-cases (is_set m i)) [
  | inl used ↦
      rw (test_lem m i (omega arith), used)
        (find_from-FindResult left (i + 1) m ok (omega arith) (below_suc m i before used))
  | inr free ↦
      let (m', done, up) = mark-Updates m i ok (omega arith) in
      rw (test_lem m i (omega arith), free, done) (found i m' refl (omega arith) free before up)
]

-- `Find` on a valid map takes the least number outside of the set, or answers -1 where it is full.
pub find-FindResult : (m : BitMap) → IsValid m → FindResult m (find m)
unfolding find
find-FindResult m ok = find_from-FindResult m.num_bits 0 m ok (omega arith) (λ j lt. elim lt [ ])

-- How many numbers below `n` are outside of the set.
abbrev pub count_clear : BitMap → ℕ → ℕ
count_clear m zero = 0
count_clear m (suc n) = count_clear m n + (if is_set m n then 0 else 1)

count_clear-add_one :
    (m : BitMap) (i : ℕ)
    → count_clear m (i + 1) ≡ (if is_set m i then count_clear m i else count_clear m i + 1)
count_clear-add_one m i = rw add-one (ground arith)

num_clear_from_lem :
    (left i c : ℕ) (m : BitMap)
    → i + left ≡ m.num_bits
    → c ≡ count_clear m i
    → num_clear_from m left i c ≡ some (count_clear m m.num_bits)
unfolding num_clear_from
num_clear_from_lem zero i c m e h =
    ap some (h ∙ ap (count_clear m) (let e' : i ≡ m.num_bits = omega arith in e'))
num_clear_from_lem (suc left) i c m e h =
    rw (test_lem m i (omega arith))
      (num_clear_from_lem left (i + 1) _ m (omega arith) (rw (count_clear-add_one m i, h) refl))

-- `NumClear` counts the numbers outside of the set.
pub num_clear_lem : (m : BitMap) → num_clear m ≡ some (count_clear m m.num_bits)
unfolding num_clear
num_clear_lem m = num_clear_from_lem m.num_bits 0 0 m (omega arith) refl

-- Taking in a new number below `n` leaves one number fewer outside.
pub count_clear-Updates :
    (m m' : BitMap) (i n : ℕ)
    → is_set m i ≡ false
    → Updates m m' i true
    → count_clear m n ≡ count_clear m' n + (if ltb i n then 1 else 0)
count_clear-Updates m m' i zero free up = ground arith
count_clear-Updates m m' i (suc n) free up =
    ground (arith, count_clear-Updates m m' i n free up, up.member n)

-- A set with a number outside of it is not full.
pub count_clear_full :
    (m : BitMap) (n : ℕ) → ((j : ℕ) → j < n → is_set m j ≡ true) → count_clear m n ≡ 0
count_clear_full m zero h = refl
count_clear_full m (suc n) h =
    rw (h n (omega arith), count_clear_full m n (λ j lt. h j (omega arith))) (omega arith)

-- With a number outside of the set, `Find` takes the least one.
pub find-some :
    (m : BitMap)
    → IsValid m
    → 0 < count_clear m m.num_bits
    → (i : ℕ) × (m' : BitMap) × (find m ≡ some (pos i, m'))
      × (i < m.num_bits)
      × (is_set m i ≡ false)
      × Updates m m' i true
find-some m ok h = elim (find-FindResult m ok) [
  | found i m' e lt free least up ↦ (i, m', e, lt, free, up)
  | full e all ↦ absurd (omega (arith, count_clear_full m m.num_bits all))
]
