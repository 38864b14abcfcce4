-- ===== src/Office/System/Monitors.antt =====
-- threads/threadtest.cc: who holds a monitor's lock from one piece to the next.
pub mod Clerks
use csci350_project.Base.{
  ℕ, zero, suc, ◌%◌, ◌≡◌, refl, sym, ap, subst, ◌∙◌, arith, List, [], ◌∷◌, ◌++◌, Bool, true, false,
  not, ◌&&◌, Bool-cases, Option-cases, inl, inr, Option, none, some, ◌>>=◌, >>=-eq-some,
  if◌then◌else◌, get_elem?, set, ◌==◌, ==_self,
}
use csci350_project.Base.Int.{ℤ, pos, negsuc, less}
use csci350_project.Office.{
  LockName, monitor_lock, line_lock, ConditionName, line_cv, Call, acquire, release, wait, signal,
  yields, Counter, busy, Client, Stage, outside, queued, approaching, at_counter, Piece, take_place,
  join_at, join, meet, leave, front, ClerkStage, ClerkPiece, Visitor, choosing, resting, holding,
  waiting, finishing, call_front, choose, give_back, answer, start_over, wander, get_smallest_line,
}
use csci350_project.Office.Application
use csci350_project.Office.Picture
use csci350_project.Office.Passport
use csci350_project.Office.Passport.{Papers, lacks_papers}
use csci350_project.Office.Cashier
use csci350_project.Office.Cashier.{has_papers}

-- Whether the thread has the monitor's lock, and which line's lock it has.
pub record Held : Type 0 where
  pub monitor : Bool
  pub line : Option ℕ

abbrev pub is_line : Option ℕ → ℕ → Bool
is_line none i = false
is_line (some j) i = j == i

abbrev pub no_line : Option ℕ → Bool
no_line none = true
no_line (some j) = false

abbrev pub holds : Held → LockName → Bool
holds h monitor_lock = h.monitor
holds h (line_lock i) = is_line h.line i

abbrev pub may_take : Held → LockName → Bool
may_take h monitor_lock = not h.monitor
may_take h (line_lock i) = no_line h.line

abbrev pub take : Held → LockName → Held
take h monitor_lock = record h { monitor = true }
take h (line_lock i) = record h { line = some i }

abbrev pub give : Held → LockName → Held
give h monitor_lock = record h { monitor = false }
give h (line_lock i) = record h { line = none }

-- What the thread has after a call; `none` for a thread that acquires the monitor's lock where it has
-- it, or a line's lock where it has one, or releases, waits or signals with a lock that it has not.
abbrev pub after_call : Held → Call → Option Held
after_call h (acquire l) = if may_take h l then some (take h l) else none
after_call h (release l) = if holds h l then some (give h l) else none
after_call h (wait cv l) = if holds h l then some h else none
after_call h (signal cv l) = if holds h l then some h else none
after_call h (yields n) = some h

abbrev pub after_calls : Held → List Call → Option Held
after_calls h [] = some h
after_calls h (c ∷ cs) = after_call h c >>= λ h'. after_calls h' cs

abbrev pub locks : Bool → Option ℕ → Held
locks m l = record { monitor = m; line = l }

-- What a customer has where its code goes on: the lock of line `i` is that of its clerk. It has nothing
-- between two lines.
abbrev pub customer_begins : Stage → Held
customer_begins outside = locks true none
customer_begins (queued i) = locks true none
customer_begins (approaching i) = locks false (some i)
customer_begins (at_counter i) = locks false (some i)

abbrev pub customer_ends : Stage → Held
customer_ends outside = locks false none
customer_ends (queued i) = locks true none
customer_ends (approaching i) = locks false (some i)
customer_ends (at_counter i) = locks false (some i)

-- A piece that begins with `h` ends with what goes with the stage that it leads to.
abbrev pub Follows : {X : Type 0} → Held → Piece X → Type 0
Follows h piece =
    (calls : List Call) (stage : Stage) (m : List (Counter _)) (c : Client)
    → piece ≡ some (calls, stage, m, c)
    → after_calls h calls ≡ some (customer_ends stage)

-- A thread that has the line's lock signals, waits and releases with that lock.
module _ (m : Bool) (i : ℕ) (cs : List Call) where
  pub signal_own :
      (cv : ConditionName)
      → after_calls (locks m (some i)) (signal cv (line_lock i) ∷ cs)
        ≡ after_calls (locks m (some i)) cs
  signal_own cv = rw (==_self i) refl

  pub wait_own :
      (cv : ConditionName)
      → after_calls (locks m (some i)) (wait cv (line_lock i) ∷ cs)
        ≡ after_calls (locks m (some i)) cs
  wait_own cv = rw (==_self i) refl

  pub release_own :
      after_calls (locks m (some i)) (release (line_lock i) ∷ cs) ≡ after_calls (locks m none) cs
  release_own = rw (==_self i) refl

module _ {X : Type 0} (m : List (Counter X)) (c : Client) where
  take_place-Follows : (i : ℕ) → Follows (locks true none) (take_place m c i)
  unfolding take_place
  take_place-Follows i calls stage m' c' h =
      let (k, there, rest) = >>=-eq-some (get_elem? m i) _ h in
      let made : release monitor_lock ∷ acquire (line_lock i) ∷ [] ≡ calls = cc in
      let to : approaching i ≡ stage = cc in rw (sym made, sym to) refl

  meet-Follows : (i : ℕ) → Follows (locks false (some i)) (meet m c i)
  unfolding meet
  meet-Follows i calls stage m' c' h =
      let made : signal (line_cv i) (line_lock i) ∷ wait (line_cv i) (line_lock i) ∷ [] ≡ calls =
        cc in
      let to : at_counter i ≡ stage = cc in
      rw (sym made, sym to)
        (signal_own false i (wait (line_cv i) (line_lock i) ∷ []) (line_cv i)
          ∙ wait_own false i [] (line_cv i))

  join_at-Follows :
      (enter : Client → Counter X → Counter X) (z : ℤ)
      → Follows (locks true none) (join_at enter m c z)
  unfolding join_at
  join_at-Follows enter (negsuc n) calls stage m' c' h = cc
  join_at-Follows enter (pos i) calls stage m' c' h =
      let (k, there, rest) = >>=-eq-some (get_elem? m i) _ h in
      elim (Bool-cases (k.clerk_state == busy)) [
        | inr free ↦ take_place-Follows i calls stage m' c' (rw free at rest)
        | inl taken ↦
            let last = rw taken at rest in
            let made : wait (line_cv i) monitor_lock ∷ [] ≡ calls = cc in
            let to : queued i ≡ stage = cc in rw (sym made, sym to) refl
      ]

  join-Follows :
      (start : ℤ) (enter : Client → Counter X → Counter X)
      → Follows (locks true none) (join start enter m c)
  unfolding join
  join-Follows start enter = join_at-Follows enter (get_smallest_line start m)

  leave-Follows :
      (exit : Counter X → Option (Counter X)) (delay : List Call) (i : ℕ)
      → ((rest : List Call)
          → after_calls (locks false (some i)) (delay ++ rest)
            ≡ after_calls (locks false (some i)) rest)
      → Follows (locks false (some i)) (leave exit delay m c i)
  unfolding leave
  leave-Follows exit delay i quiet calls stage m' c' h =
      let (k, there, rest) = >>=-eq-some (get_elem? m i) _ h in
      let (k', gone, last) = >>=-eq-some (exit k) _ rest in
      let made : delay ++ (signal (line_cv i) (line_lock i) ∷ release (line_lock i) ∷ []) ≡ calls =
        cc in
      let to : outside ≡ stage = cc in
      rw (sym made, sym to)
        (quiet _
          ∙ signal_own false i (release (line_lock i) ∷ []) (line_cv i)
          ∙ release_own false i [])

application_Follows :
    (m : List (Counter Unit)) (c : Client) (stage : Stage)
    → Follows (customer_begins stage) (Application.join_line m c stage)
unfolding Application.join_line
application_Follows m c outside = join-Follows m c _ _
application_Follows m c (queued i) = take_place-Follows m c i
application_Follows m c (approaching i) = meet-Follows m c i
application_Follows m c (at_counter i) = leave-Follows m _ _ [] i (λ rest. refl)

picture_Follows :
    (random : ℕ) (m : List (Counter Bool)) (c : Client) (stage : Stage)
    → Follows (customer_begins stage) (Picture.join_line random m c stage)
unfolding Picture.join_line
picture_Follows random m c outside calls stage m' c' h = join-Follows m c _ _ calls stage m' c' h
picture_Follows random m c (queued i) calls stage m' c' h =
    take_place-Follows m c i calls stage m' c' h
picture_Follows random m c (approaching i) calls stage m' c' h =
    let (k, there, rest) = >>=-eq-some (get_elem? m i) _ h in
    meet-Follows _ c i calls stage m' c' rest
picture_Follows random m c (at_counter i) calls stage m' c' h =
    elim (Bool-cases (random % 2 == 0)) [
      | inl again ↦ meet-Follows m c i calls stage m' c' (rw again at h)
      | inr likes ↦
          leave-Follows m (record c { picture_taken = true }) (Picture.exit c) [] i (λ rest. refl)
            calls stage m' c' (rw likes at h)
    ]

passport_Follows :
    (random : ℕ) (m : List (Counter Papers)) (c : Client) (stage : Stage)
    → Follows (customer_begins stage) (Passport.join_line random m c stage)
unfolding Passport.join_line
passport_Follows random m c outside calls stage m' c' h = join-Follows m c _ _ calls stage m' c' h
passport_Follows random m c (queued i) calls stage m' c' h =
    take_place-Follows m c i calls stage m' c' h
passport_Follows random m c (approaching i) calls stage m' c' h =
    meet-Follows m c i calls stage m' c' h
passport_Follows random m c (at_counter i) calls stage m' c' h =
    elim (Bool-cases (c.application_accepted && c.picture_taken)) [
      | inl both ↦
          leave-Follows m (record c { certified = true }) (Passport.exit c) [] i (λ rest. refl)
            calls stage m' c' (rw both at h)
      | inr lacks ↦
          leave-Follows m c (Passport.exit c) (wander 100 999 random) i (λ rest. refl) calls stage
            m' c' (rw lacks at h)
    ]

cashier_Follows :
    (random : ℕ) (m : List (Counter Papers)) (c : Client) (stage : Stage)
    → Follows (customer_begins stage) (Cashier.join_line random m c stage)
unfolding Cashier.join_line
cashier_Follows random m c outside calls stage m' c' h = join-Follows m c _ _ calls stage m' c' h
cashier_Follows random m c (queued i) calls stage m' c' h =
    take_place-Follows m c i calls stage m' c' h
cashier_Follows random m c (approaching i) calls stage m' c' h =
    meet-Follows m c i calls stage m' c' h
cashier_Follows random m c (at_counter i) calls stage m' c' h = elim (Bool-cases c.certified) [
  | inl paid ↦
      leave-Follows m (record c { done = true }) (Cashier.exit c) [] i (λ rest. refl) calls stage m'
        c'
        (let this_way : Cashier.join_line random m c (at_counter i)
              ≡ leave (Cashier.exit c) [] m (record c { done = true }) i =
            simp paid in
          sym this_way ∙ h)
  | inr lacks ↦
      leave-Follows m c (Cashier.exit c) (wander 100 901 random) i (λ rest. refl) calls stage m' c'
        (let this_way : Cashier.join_line random m c (at_counter i)
              ≡ leave (Cashier.exit c) (wander 100 901 random) m c i =
            simp lacks in
          sym this_way ∙ h)
]

-- The locks after a piece that begins with `h`, and those that go with where it leads to.
abbrev pub locks_after : {X : Type 0} → Held → Piece X → Option Held
locks_after h piece = piece >>= λ p. after_calls h p.0

abbrev pub locks_due : {X : Type 0} → Piece X → Option Held
locks_due piece = piece >>= λ p. some (customer_ends p.1)

Follows-locks :
    {X : Type 0} (h : Held) (piece : Piece X)
    → Follows h piece
    → locks_after h piece ≡ locks_due piece
Follows-locks h piece follows = elim (Option-cases piece) [
  | inl e ↦ rw e refl
  | inr (p, e) ↦ rw e (follows p.0 p.1 p.2 p.3 e)
]

-- At each of the four lines, a piece of a customer's code that begins with the locks that go with
-- where the customer is, the monitor's or the lock of the clerk's line that it is in, acquires the
-- monitor's lock only where it has it not, and a line's only where it has none, releases, waits and
-- signals only with one that it has, and ends with those that go with where the customer gets to: on
-- the way out none.
pub customers-locks :
    (random : ℕ) (c : Client) (stage : Stage) (application : List (Counter Unit))
    (picture : List (Counter Bool)) (passport cashier : List (Counter Papers))
    → (locks_after (customer_begins stage) (Application.join_line application c stage)
        ≡ locks_due (Application.join_line application c stage))
      × (locks_after (customer_begins stage) (Picture.join_line random picture c stage)
          ≡ locks_due (Picture.join_line random picture c stage))
      × (locks_after (customer_begins stage) (Passport.join_line random passport c stage)
          ≡ locks_due (Passport.join_line random passport c stage))
      × (locks_after (customer_begins stage) (Cashier.join_line random cashier c stage)
          ≡ locks_due (Cashier.join_line random cashier c stage))
customers-locks random c stage application picture passport cashier = (
  Follows-locks _ _ (application_Follows application c stage),
  Follows-locks _ _ (picture_Follows random picture c stage),
  Follows-locks _ _ (passport_Follows random passport c stage),
  Follows-locks _ _ (cashier_Follows random cashier c stage),
)
