-- ===== src/BitMap.antt =====
-- userprog/bitmap.h and bitmap.cc: an array of bits in 32-bit words. An ASSERT that fails stops the
-- kernel, which is `none` here. A method that changes the map returns the new map.
pub mod Laws
pub mod Search
use csci350_project.Base.{
  ℕ, zero, suc, ◌+◌, ◌-◌, ◌/◌, ◌%◌, ◌^◌, bit_and, bit_or, Bool, true, false, not, List, Option,
  none, some, ltb, ◌==◌, if◌then◌else◌, ◌>>=◌, get_or, set,
}
use csci350_project.Base.Int.{ℤ, pos, negsuc, minus_one}

abbrev pub bits_in_word : ℕ
bits_in_word = 32

abbrev pub div_round_up : ℕ → ℕ → ℕ
div_round_up n s = n / s + (if ltb 0 (n % s) then 1 else 0)

pub record BitMap : Type 0 where
  pub num_bits : ℕ
  pub num_words : ℕ
  pub map : List ℕ

-- `1 << (which % BitsInWord)`, as the unsigned word that it is used as.
abbrev pub bit_mask : ℕ → ℕ
bit_mask which = 2 ^ (which % bits_in_word)

abbrev pub word_of : BitMap → ℕ → ℕ
word_of m which = get_or m.map (which / bits_in_word) 0

abbrev pub put_word : BitMap → ℕ → ℕ → BitMap
put_word m which w = record m { map = set m.map (which / bits_in_word) w }

-- `BitMap::Mark`
unfoldable pub mark : BitMap → ℤ → Option BitMap
mark m (pos which) =
    if ltb which m.num_bits
    then some (put_word m which (bit_or (word_of m which) (bit_mask which)))
    else none
mark m (negsuc _) = none

-- `BitMap::Clear`. `~x` of a 32-bit word is 2 ^ 32 - 1 - x.
unfoldable pub clear : BitMap → ℤ → Option BitMap
clear m (pos which) =
    if ltb which m.num_bits
    then some (put_word m which (bit_and (word_of m which) (2 ^ 32 - 1 - bit_mask which)))
    else none
clear m (negsuc _) = none

-- `BitMap::Test`
unfoldable pub test : BitMap → ℤ → Option Bool
test m (pos which) =
    if ltb which m.num_bits
    then some (not (bit_and (word_of m which) (bit_mask which) == 0))
    else none
test m (negsuc _) = none

-- The loop `for (i = 0; i < numBits; i++) Clear(i)`, with `left` rounds to go.
unfoldable pub clear_from : BitMap → ℕ → ℕ → Option BitMap
clear_from m zero i = some m
clear_from m (suc left) i = do m' ← clear m (pos i); clear_from m' left (i + 1)

-- `BitMap::BitMap`. `memory` is what `new unsigned int[numWords]` hands out, with no values set.
unfoldable pub init : ℕ → List ℕ → Option BitMap
init nitems memory = clear_from m nitems 0
  where
    m : BitMap
    m = record { num_bits = nitems; num_words = div_round_up nitems bits_in_word; map = memory }

-- The loop of `BitMap::Find`, with `left` rounds to go.
unfoldable pub find_from : BitMap → ℕ → ℕ → Option (ℤ × BitMap)
find_from m zero i = some (minus_one, m)
find_from m (suc left) i = do
  used ← test m (pos i)
  elim used [ true ↦ find_from m left (i + 1) | false ↦ mark m (pos i) >>= λ m'. some (pos i, m') ]

-- `BitMap::Find`
unfoldable pub find : BitMap → Option (ℤ × BitMap)
find m = find_from m m.num_bits 0

-- The loop of `BitMap::NumClear`.
unfoldable pub num_clear_from : BitMap → ℕ → ℕ → ℕ → Option ℕ
num_clear_from m zero i count = some count
num_clear_from m (suc left) i count = do
  used ← test m (pos i)
  num_clear_from m left (i + 1) (if used then count else count + 1)

-- `BitMap::NumClear`
unfoldable pub num_clear : BitMap → Option ℕ
num_clear m = num_clear_from m m.num_bits 0 0
