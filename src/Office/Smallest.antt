-- ===== src/Office/Smallest.antt =====
-- threads/threadtest.cc: which line `getSmallestLine` picks.
use csci350_project.Base.{
  ℕ, zero, suc, ◌+◌, ◌<◌, ◌≡◌, refl, ap, subst, ◌∙◌, arith, List, [], ◌∷◌, true, false, Bool-cases,
  inl, inr, some, get_elem?,
}
use csci350_project.Base.Int.{ℤ, pos, negsuc, less}
use csci350_project.Office.{Counter, smallest_from, get_smallest_line}

less_irrefl : (a : ℤ) → less a a ≡ false
less_irrefl (pos n) = ground arith
less_irrefl (negsuc n) = ground arith

less-asym : (a b : ℤ) → less a b ≡ true → less b a ≡ false
less-asym (pos n) (pos k) h = ground (arith, h)
less-asym (pos n) (negsuc k) h = cc
less-asym (negsuc n) (pos k) h = refl
less-asym (negsuc n) (negsuc k) h = ground (arith, h)

less-less : (a s b : ℤ) → less a s ≡ true → less b s ≡ false → less a b ≡ true
less-less (pos n) (pos s) (pos k) h g = ground (arith, h, g)
less-less (pos n) (pos s) (negsuc k) h g = cc
less-less (pos n) (negsuc s) b h g = cc
less-less (negsuc n) s (pos k) h g = refl
less-less (negsuc n) (pos s) (negsuc k) h g = cc
less-less (negsuc n) (negsuc s) (negsuc k) h g = ground (arith, h, g)

less_trans : (a b c : ℤ) → less a b ≡ true → less b c ≡ true → less a c ≡ true
less_trans a b c h g = elim (Bool-cases (less a c)) [
  | inl e ↦ e
  | inr e ↦ let wrong = less-asym a b h in let up = less-less b c a g e in cc
]

module _ {X : Type 0} where
  -- Every line from `m` is as long as the count says.
  abbrev pub NoneBelow : List (Counter X) → ℤ → Type 0
  NoneBelow m z = (j : ℕ) (k : Counter X) → get_elem? m j ≡ some k → less k.line_count z ≡ false

  -- The clerks before the given one have longer lines.
  abbrev pub LongerBefore : List (Counter X) → ℕ → ℤ → Type 0
  LongerBefore m i z =
      (j : ℕ) (k : Counter X) → j < i → get_elem? m j ≡ some k → less z k.line_count ≡ true

  -- The first of the shortest lines that are shorter than `bound`, or `start` if there is none; the
  -- clerks are numbered from `base` on.
  pub data Smallest (m : List (Counter X)) (base : ℕ) (bound start : ℤ) : ℤ → Type 0 where
    shortest :
        (i : ℕ) (k : Counter X) (z : ℤ)
        → get_elem? m i ≡ some k
        → less k.line_count bound ≡ true
        → NoneBelow m k.line_count
        → LongerBefore m i k.line_count
        → z ≡ pos (base + i)
        → Smallest m base bound start z
    all_long : (z : ℤ) → NoneBelow m bound → z ≡ start → Smallest m base bound start z

  extend_below :
      (x : Counter X) (m : List (Counter X)) (z : ℤ)
      → less x.line_count z ≡ false
      → NoneBelow m z
      → NoneBelow (x ∷ m) z
  extend_below x m z first rest zero k h =
      let same : x ≡ k = cc in subst (λ (y : Counter X). less y.line_count z ≡ false) same first
  extend_below x m z first rest (suc j) k h = rest j k h

  extend_before :
      (x : Counter X) (m : List (Counter X)) (i : ℕ) (z : ℤ)
      → less z x.line_count ≡ true
      → LongerBefore m i z
      → LongerBefore (x ∷ m) (suc i) z
  extend_before x m i z first rest zero k l h =
      let same : x ≡ k = cc in subst (λ (y : Counter X). less z y.line_count ≡ true) same first
  extend_before x m i z first rest (suc j) k l h = rest j k (omega arith) h

  -- One clerk more in front, whose line is not the shortest.
  behind :
      (x : Counter X) (m : List (Counter X)) (base : ℕ) (bound inner start start' z : ℤ)
      → ((y : ℤ) → less y inner ≡ true → less y x.line_count ≡ true)
      → ((y : ℤ) → less y inner ≡ true → less y bound ≡ true)
      → (NoneBelow m inner → z ≡ start' → Smallest (x ∷ m) base bound start z)
      → Smallest m (base + 1) inner start' z
      → Smallest (x ∷ m) base bound start z
  behind x m base bound inner start start' z longer lower none_found
        (shortest i k z1 at low least before e) =
      shortest (suc i) k z at (lower k.line_count low)
        (extend_below x m k.line_count
          (less-asym k.line_count x.line_count (longer k.line_count low)) least)
        (extend_before x m i k.line_count (longer k.line_count low) before)
        (e ∙ ap pos (omega arith))
  behind x m base bound inner start start' z longer lower none_found (all_long z1 low e) =
      none_found low e

  smallest_from-Smallest :
      (m : List (Counter X)) (base : ℕ) (bound start : ℤ)
      → Smallest m base bound start (smallest_from m base bound start)
  unfolding smallest_from
  smallest_from-Smallest [] base bound start = all_long start (λ j k h. cc) refl
  smallest_from-Smallest (x ∷ m) base bound start = elim (Bool-cases (less x.line_count bound)) [
    | inl shorter ↦ rw shorter (
        behind x m base bound x.line_count start (pos base) _ (λ y h. h)
          (λ y h. less_trans y x.line_count bound h shorter)
          (λ low e.
            shortest 0 x _ refl shorter
              (extend_below x m x.line_count (less_irrefl x.line_count) low)
              (λ j k l h. absurd (omega arith)) (e ∙ ap pos (omega arith)))
          (smallest_from-Smallest m (base + 1) x.line_count (pos base)))
    | inr longer ↦ rw longer (
        behind x m base bound bound start start _ (λ y h. less-less y bound x.line_count h longer)
          (λ y h. h) (λ low e. all_long _ (extend_below x m bound longer low) e)
          (smallest_from-Smallest m (base + 1) bound start))
  ]

  -- `getSmallestLine` gives the first of the clerks with the shortest regular line if that is shorter
  -- than 50, and what `smallestIndex` begins as if every line has 50 customers or more.
  pub get_smallest_line-Smallest :
      (start : ℤ) (m : List (Counter X)) → Smallest m 0 (pos 50) start (get_smallest_line start m)
  unfolding get_smallest_line
  get_smallest_line-Smallest start m = smallest_from-Smallest m 0 (pos 50) start
