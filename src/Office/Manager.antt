-- ===== src/Office/Manager.antt =====
-- threads/threadtest.cc: the manager's round of one monitor's clerks.
use csci350_project.Base.{
  ℕ, zero, suc, ◌+◌, ◌<◌, ◌≡◌, refl, subst, arith, List, [], ◌∷◌, ◌++◌, Bool, true, false, not,
  ◌&&◌, Bool-cases, inl, inr, Option, none, some, if◌then◌else◌, get_elem?, ◌==◌, ==_false,
}
use csci350_project.Base.Int.{pos, less}
use csci350_project.Office.{
  monitor_lock, line_lock, line_cv, bribe_line_cv, Call, acquire, release, wait, signal, yields,
  Counter, on_break,
}

module _ {X : Type 0} where
  -- At least three in line, and the clerk on break.
  abbrev pub is_missed : Counter X → Bool
  is_missed k = not (less k.line_count (pos 3)) && k.clerk_state == on_break

  -- The loop over the clerks, from the clerk `i` on.
  unfoldable pub wake_from : ℕ → List (Counter X) → List Call
  wake_from i [] = []
  wake_from i (k ∷ ks) =
      let rest = wake_from (i + 1) ks in
      if is_missed k then signal (line_cv i) (line_lock i) ∷ rest else rest

  -- The part of `Manager::wakeupClerks` for a monitor.
  unfoldable pub wakeup_clerks : List (Counter X) → List Call
  wakeup_clerks m = acquire monitor_lock ∷ (wake_from 0 m ++ (release monitor_lock ∷ []))

-- How many of the calls signal the condition of a clerk's regular line.
abbrev pub is_signal : ℕ → Call → Bool
is_signal i (signal (line_cv j) l) = i == j
is_signal i (signal (bribe_line_cv j) l) = false
is_signal i (acquire l) = false
is_signal i (release l) = false
is_signal i (wait cv l) = false
is_signal i (yields n) = false

abbrev pub signals_to : ℕ → List Call → ℕ
signals_to i [] = 0
signals_to i (c ∷ cs) = (if is_signal i c then 1 else 0) + signals_to i cs

signals_to-append :
    (i : ℕ) (xs ys : List Call) → signals_to i (xs ++ ys) ≡ signals_to i xs + signals_to i ys
signals_to-append i [] ys = omega arith
signals_to-append i (x ∷ xs) ys = omega (arith, signals_to-append i xs ys)

module _ {X : Type 0} where
  -- One for a clerk that is missed, and none for another or for no clerk.
  abbrev pub due : Option (Counter X) → ℕ
  due none = 0
  due (some k) = if is_missed k then 1 else 0

  below : (base j : ℕ) (ks : List (Counter X)) → j < base → signals_to j (wake_from base ks) ≡ 0
  unfolding wake_from
  below base j [] h = refl
  below base j (k ∷ ks) h =
      let other : (j == base) ≡ false = ==_false j base (λ e. omega (arith, e, h)) in
      let rest = below (base + 1) j ks (omega arith) in
      elim (Bool-cases (is_missed k)) [
        | inl e ↦ rw (e, other) (omega (arith, rest))
        | inr e ↦ rw e rest
      ]

  wake_from-due :
      (base i : ℕ) (ks : List (Counter X))
      → signals_to (base + i) (wake_from base ks) ≡ due (get_elem? ks i)
  unfolding wake_from
  wake_from-due base i [] = refl
  wake_from-due base zero (k ∷ ks) =
      let here : (base + 0 == base) ≡ true = ground arith in
      let rest = below (base + 1) (base + 0) ks (omega arith) in
      elim (Bool-cases (is_missed k)) [
        | inl e ↦ rw (e, here) (omega (arith, rest))
        | inr e ↦ rw e rest
      ]
  wake_from-due base (suc i) (k ∷ ks) =
      let there : (base + suc i == base) ≡ false = ground arith in
      let move : base + 1 + i ≡ base + suc i = omega arith in
      let rest =
        subst (λ (j : ℕ). signals_to j (wake_from (base + 1) ks) ≡ due (get_elem? ks i)) move
          (wake_from-due (base + 1) i ks) in
      elim (Bool-cases (is_missed k)) [
        | inl e ↦ rw (e, there) (omega (arith, rest))
        | inr e ↦ rw e rest
      ]

  -- On a round the manager signals each clerk that is on break with three or more in the regular line
  -- once, and no other clerk.
  pub wakeup_clerks-due :
      (m : List (Counter X)) (i : ℕ) → signals_to i (wakeup_clerks m) ≡ due (get_elem? m i)
  unfolding wakeup_clerks
  wakeup_clerks-due m i = omega (
    arith,
    signals_to-append i (wake_from 0 m) (release monitor_lock ∷ []),
    subst (λ (j : ℕ). signals_to j (wake_from 0 m) ≡ due (get_elem? m i)) (add_zero i)
        (wake_from-due 0 i m),
  )
    where
      add_zero : (n : ℕ) → 0 + n ≡ n
      add_zero n = omega arith
