-- ===== src/BitMap/Laws.antt =====
-- userprog/bitmap.cc seen as a set of numbers below `num_bits`: the laws of each method.
use native.Mathlib.Nat.{one-le-pow, pow-le-pow_right}
use csci350_project.Base.{
  ℕ, zero, suc, ◌+◌, ◌-◌, ◌*◌, ◌/◌, ◌%◌, ◌^◌, ◌≤◌, ◌<◌, bit_and, bit_or, ◌≡◌, ◌≢◌, refl, ap, ◌∙◌,
  Bool, true, false, not, List, none, some, arith, ltb, leb, ◌&&◌, ◌==◌, if◌then◌else◌, lt→ltb,
  ==_iff, ==_false, length, length-set, get_or-set_self, get_or-set_ne, ℕ_discrete,
}
use csci350_project.Base.Int.{pos}
use csci350_project.Bits.{
  bit, bit-bit_and, bit-bit_or, bit_and-pow, bit-pow_self, bit-pow_ne, bit-complement, bit-lt-two,
}
use csci350_project.BitMap.{
  BitMap, bit_mask, word_of, put_word, mark, clear, test, clear_from, init, div_round_up,
  bits_in_word,
}

-- The number `i` is in the set.
abbrev pub is_set : BitMap → ℕ → Bool
is_set m i = bit (word_of m i) (i % 32) == 1

-- The words hold every bit.
pub record IsValid (m : BitMap) : Type 0 where
  pub room : m.num_bits ≤ 32 * length m.map

digit_test : (b p : ℕ) → b < 2 → 0 < p → not (b * p == 0) ≡ (b == 1)
digit_test zero p h k = ground arith
digit_test (suc zero) p h k = ground arith
digit_test (suc (suc b)) p h k = absurd (omega arith)

-- `Test` answers within the range, and stops the kernel outside of it.
pub test_lem : (m : BitMap) (i : ℕ) → i < m.num_bits → test m (pos i) ≡ some (is_set m i)
unfolding test
test_lem m i h =
    rw (lt→ltb i m.num_bits h, bit_and-pow (word_of m i) (i % 32))
      (ap some (
        digit_test (bit (word_of m i) (i % 32)) (2 ^ (i % 32)) (bit-lt-two _ _)
          (one-le-pow (i % 32) 2 (omega arith))))

-- A word with one bit changed changes one member.
is_set-put_word :
    (m : BitMap) (i j w v : ℕ)
    → IsValid m
    → i < m.num_bits
    → bit w (i % 32) ≡ v
    → ((k : ℕ) → k < 32 → i % 32 ≢ k → bit w k ≡ bit (word_of m i) k)
    → is_set (put_word m i w) j ≡ (if i == j then v == 1 else is_set m j)
is_set-put_word m i j w v ok h here away = elim (ℕ_discrete (i / 32) (j / 32)) [
  | yes e ↦
      let own : word_of (put_word m i w) j ≡ w =
        rw (← e) (get_or-set_self m.map (i / 32) w 0 (omega (arith, ok.room))) in
      let old : word_of m i ≡ word_of m j = rw e in
      rw own (elim (ℕ_discrete i j) [
        | yes q ↦ rw (← q, (==_iff i i).1 refl, here)
        | no q ↦ rw (away (j % 32) (omega arith) (omega arith), old, ==_false i j q)
      ])
  | no d ↦ rw (get_or-set_ne m.map w 0 d, ==_false i j (λ q. d (ap (λ t. t / 32) q)))
]

-- `m'` is `m` with the membership of `i` set to `v`.
pub record Updates (m m' : BitMap) (i : ℕ) (v : Bool) : Type 0 where
  pub member : (j : ℕ) → is_set m' j ≡ (if i == j then v else is_set m j)
  pub same_size : m'.num_bits ≡ m.num_bits
  pub same_words : m'.num_words ≡ m.num_words
  pub valid : IsValid m'

put_word-Updates :
    (m : BitMap) (i w v : ℕ)
    → IsValid m
    → i < m.num_bits
    → bit w (i % 32) ≡ v
    → ((k : ℕ) → k < 32 → i % 32 ≢ k → bit w k ≡ bit (word_of m i) k)
    → Updates m (put_word m i w) i (v == 1)
put_word-Updates m i w v ok h here away = record {
  member = λ j. is_set-put_word m i j w v ok h here away;
  same_size = refl;
  same_words = refl;
  valid = record { room = rw (length-set m.map (i / 32) w) ok.room };
}

-- On a valid map `Mark` adds a number of the range and changes nothing else.
pub mark-Updates :
    (m : BitMap) (i : ℕ)
    → IsValid m
    → i < m.num_bits
    → (m' : BitMap) × (mark m (pos i) ≡ some m') × Updates m m' i true
unfolding mark
mark-Updates m i ok h =
    let k = i % 32 in
    let w = bit_or (word_of m i) (bit_mask i) in
    (
      put_word m i w,
      rw (lt→ltb i m.num_bits h),
      put_word-Updates m i w 1 ok h
          (bit-bit_or k _ _ ∙ rw (bit-pow_self k) (omega (arith, bit-lt-two (word_of m i) k)))
          (λ j lt ne. bit-bit_or j _ _ ∙ rw (bit-pow_ne k j ne) (omega arith)),
    )

mask_bound : (i : ℕ) → bit_mask i < 2 ^ 32
mask_bound i =
    let h : 2 ^ (i % 32) ≤ 2 ^ 31 =
      pow-le-pow_right {n = 2} (omega arith) {i = i % 32} {j = 31} (omega arith) in
    omega arith

-- On a valid map `Clear` takes a number of the range out and changes nothing else.
pub clear-Updates :
    (m : BitMap) (i : ℕ)
    → IsValid m
    → i < m.num_bits
    → (m' : BitMap) × (clear m (pos i) ≡ some m') × Updates m m' i false
unfolding clear
clear-Updates m i ok h =
    let k = i % 32 in
    let w = bit_and (word_of m i) (2 ^ 32 - 1 - bit_mask i) in
    let flip = λ (j : ℕ) (lt : j < 32). bit-complement 32 (bit_mask i) j (mask_bound i) lt in
    (
      put_word m i w,
      rw (lt→ltb i m.num_bits h),
      put_word-Updates m i w 0 ok h
          (bit-bit_and k _ _ ∙ rw (flip k (omega arith), bit-pow_self k) (omega arith))
          (λ j lt ne.
            bit-bit_and j _ _
            ∙ rw (flip j lt, bit-pow_ne k j ne) (omega (arith, bit-lt-two (word_of m i) j))),
    )

-- Outside the range each of the three stops the kernel.
pub out_of_range :
    (m : BitMap) (i : ℕ)
    → m.num_bits ≤ i
    → (mark m (pos i) ≡ none) × (clear m (pos i) ≡ none) × (test m (pos i) ≡ none)
unfolding mark clear test
out_of_range m i h = ground arith

-- The constructor's loop takes out the numbers from `i` on and leaves those below it.
clear_from_lem :
    (left i : ℕ) (m : BitMap)
    → IsValid m
    → i + left ≡ m.num_bits
    → (m' : BitMap) × (clear_from m left i ≡ some m')
      × ((j : ℕ) → is_set m' j ≡ (if leb i j && ltb j (i + left) then false else is_set m j))
      × (m'.num_bits ≡ m.num_bits)
      × IsValid m'
unfolding clear_from
clear_from_lem zero i m ok e = (m, refl, (λ j. ground arith), refl, ok)
clear_from_lem (suc left) i m ok e =
    let (m', done, up) = clear-Updates m i ok (omega arith) in
    let (m'', rest, members, size, ok') =
      clear_from_lem left (i + 1) m' up.valid (omega (arith, up.same_size)) in
    (m'', rw done rest, (λ j. members j ∙ ground (arith, up.member j)), size ∙ up.same_size, ok')

-- Whatever memory of enough words the constructor is handed, the new map is valid and empty.
pub init_lem :
    (n : ℕ) (memory : List ℕ)
    → n ≤ 32 * length memory
    → (m : BitMap) × (init n memory ≡ some m)
      × ((j : ℕ) → j < n → is_set m j ≡ false)
      × (m.num_bits ≡ n)
      × IsValid m
unfolding init
init_lem n memory h =
    let (m, done, members, size, ok) =
      clear_from_lem n 0
        (record { num_bits = n; num_words = div_round_up n bits_in_word; map = memory })
        (record { room = h }) (omega arith) in
    (m, done, (λ j lt. members j ∙ ground arith), size, ok)
