-- ===== src/Office/System/Service.antt =====
-- threads/threadtest.cc: the clerks that look at their lines.
use csci350_project.Base.{
  ℕ, zero, suc, ◌<◌, ◌≡◌, refl, sym, ap, ◌∙◌, arith, List, [], ◌∷◌, Bool, true, false, Bool-cases,
  inl, inr, Option, none, some, >>=-eq-some, get_elem?, set, length,
}
use csci350_project.Base.Int.{ℤ, pos, less}
use csci350_project.Office.{
  Call, signal, acquire, wait, monitor_lock, line_lock, ConditionName, line_cv, Counter, busy,
  on_break, front, ClerkPiece, ClerkStage, Visitor, choose, call_front, give_back, answer,
  start_over, choosing, resting, holding, waiting, finishing,
}
use csci350_project.Office.Application
use csci350_project.Office.Picture
use csci350_project.Office.Passport
use csci350_project.Office.Passport.{Papers, lacks_papers}
use csci350_project.Office.Cashier
use csci350_project.Office.Cashier.{has_papers}
use csci350_project.Office.Lines.{InLine, All, All-get}
use csci350_project.Office.System.{
  World, Desk, line_of, application_desk, picture_desk, passport_desk, cashier_desk, at_work,
  clerk_step, open_office, Reaches,
}
use csci350_project.Office.System.Invariant.{Any, Matched}
use csci350_project.Office.System.Reachable.{InOrder, Reaches-InOrder}

-- How many clerks a desk has.
abbrev pub clerks_at : World → Desk → ℕ
clerks_at w application_desk = length w.application
clerks_at w picture_desk = length w.picture
clerks_at w passport_desk = length w.passport
clerks_at w cashier_desk = length w.cashier

get_elem?-some :
    {A : Type 0} (xs : List A) (i : ℕ) → i < length xs → (x : A) × (get_elem? xs i ≡ some x)
get_elem?-some [] i h = absurd (omega arith)
get_elem?-some (x ∷ xs) zero h = (x, refl)
get_elem?-some (x ∷ xs) (suc i) h = get_elem?-some xs i (omega arith)

-- What a count above zero says of the queue.
front-some :
    (z : ℤ) (xs : List ℕ)
    → z ≡ pos (length xs)
    → less (pos 0) z ≡ true
    → (x : ℕ) × (front xs ≡ some x)
front-some z [] e h = let low : less (pos 0) z ≡ false = ap (less (pos 0)) e in cc
front-some z (x ∷ xs) e h = (x, refl)

-- The piece has a result.
abbrev Runs : {X : Type 0} → ClerkPiece X → Type 0
Runs {X} piece = (p : List Call × ClerkStage × List (Counter X)) × (piece ≡ some p)

module _ {X : Type 0} (Fits : X → ℕ → Type 0) (m : List (Counter X)) (i : ℕ) where
  choose-Runs :
      (calls : List Call) (break : Visitor → ClerkStage)
      → All (InLine Fits) m
      → i < length m
      → Runs (choose calls break m i)
  unfolding choose call_front
  choose-Runs calls break all h =
      let (k, there) = get_elem?-some m i h in
      let ok = All-get (InLine Fits) m i k all there in
      let alone : less (pos 0) k.bribe_line_count ≡ false = ap (less (pos 0)) ok.no_bribes in
      elim (Bool-cases (less (pos 0) k.line_count)) [
        | inl waits ↦
            let (ssn, first) = front-some k.line_count k.ssns ok.counted waits in
            (
              (
                signal (line_cv i) monitor_lock ∷ acquire (line_lock i) ∷ [],
                holding (record { ssn = some ssn; bribed = false }),
                set m i (record k { clerk_state = busy }),
              ),
              rw (there, alone, waits, first) refl,
            )
        | inr empty ↦ (
          (
            calls,
            break (record { ssn = none; bribed = false }),
            set m i (record k { clerk_state = on_break }),
          ),
          rw (there, alone, empty) refl,
        )
      ]

choose_both-Runs :
    (m : List (Counter Papers)) (i : ℕ)
    → All (InLine Matched) m
    → i < length m
    → Runs (Cashier.choose_both m i)
unfolding Cashier.choose_both Cashier.look_first Cashier.look_again
choose_both-Runs m i all h =
    let (k, there) = get_elem?-some m i h in
    let ok = All-get (InLine Matched) m i k all there in
    let alone : less (pos 0) k.bribe_line_count ≡ false = ap (less (pos 0)) ok.no_bribes in
    elim (Bool-cases (less (pos 0) k.line_count)) [
      | inl waits ↦
          let (ssn, first) = front-some k.line_count k.ssns ok.counted waits in
          (
            (
              signal (line_cv i) monitor_lock ∷ acquire (line_lock i) ∷ [],
              holding (record { ssn = some ssn; bribed = false }),
              set m i (record k { clerk_state = busy }),
            ),
            rw (there, alone, waits, first) refl,
          )
      | inr empty ↦ (
        (
          acquire (line_lock i) ∷ [],
          holding (record { ssn = none; bribed = false }),
          set m i (record k { clerk_state = on_break }),
        ),
        rw (there, alone, empty) refl,
      )
    ]

choosing-Runs :
    (random : ℕ) (w : World) (desk : Desk) (i : ℕ)
    → InOrder w
    → w.clerks desk i ≡ choosing
    → line_of desk i < clerks_at w desk
    → (w' : World) × (clerk_step random w desk i ≡ some w')
unfolding clerk_step Application.run Picture.run Passport.run Cashier.run
choosing-Runs random w application_desk i ok at h =
    let ((calls, stage, m), ran) =
      choose-Runs Any w.application 0 (acquire (line_lock 0) ∷ []) holding ok.application h in
    (record (at_work w application_desk i stage) { application = m }, rw (at, ran) refl)
choosing-Runs random w picture_desk i ok at h =
    let ((calls, stage, m), ran) =
      choose-Runs Any w.picture i (wait (line_cv i) (line_lock i) ∷ []) resting ok.picture h in
    (record (at_work w picture_desk i stage) { picture = m }, rw (at, ran) refl)
choosing-Runs random w passport_desk i ok at h =
    let ((calls, stage, m), ran) =
      choose-Runs Matched w.passport i (acquire (line_lock i) ∷ []) holding ok.passport h in
    (record (at_work w passport_desk i stage) { passport = m }, rw (at, ran) refl)
choosing-Runs random w cashier_desk i ok at h =
    let ((calls, stage, m), ran) = choose_both-Runs w.cashier i ok.cashier h in
    (record (at_work w cashier_desk i stage) { cashier = m }, rw (at, ran) refl)

-- In every world that the office reaches, a clerk of any desk that looks at its lines, which the
-- desk has, goes on from there: it never reads the front of a queue that is empty.
pub Reaches-choosing :
    (a p q s : ℕ) (pictures : ℕ → Bool) (money : ℕ → ℕ) (random : ℕ) (w : World) (desk : Desk)
    (i : ℕ)
    → Reaches (open_office a p q s pictures money) w
    → w.clerks desk i ≡ choosing
    → line_of desk i < clerks_at w desk
    → (w' : World) × (clerk_step random w desk i ≡ some w')
Reaches-choosing a p q s pictures money random w desk i reached at h =
    choosing-Runs random w desk i (Reaches-InOrder a p q s pictures money w reached) at h

set_first :
    {A : Type 0} (xs : List A) (x : A) (i : ℕ)
    → get_elem? (set xs 0 x) (suc i) ≡ get_elem? xs (suc i)
set_first [] x i = refl
set_first (y ∷ ys) x i = refl

call_front-first :
    (m : List (Counter Unit)) (k : Counter Unit) (queue : List ℕ) (cv : ConditionName) (b : Bool)
    (calls : List Call) (stage : ClerkStage) (m' : List (Counter Unit)) (line : ℕ)
    → call_front m 0 k queue cv b ≡ some (calls, stage, m')
    → get_elem? m' (suc line) ≡ get_elem? m (suc line)
unfolding call_front
call_front-first m k queue cv b calls stage m' line h =
    let (ssn, first, rest) = >>=-eq-some (front queue) _ h in
    let same : set m 0 (record k { clerk_state = busy }) ≡ m' = cc in
    ap (λ (n : List (Counter Unit)). get_elem? n (suc line)) (sym same) ∙ set_first m _ line

first_only :
    (random : ℕ) (m : List (Counter Unit)) (at : ClerkStage) (calls : List Call)
    (stage : ClerkStage) (m' : List (Counter Unit)) (line : ℕ)
    → Application.run random m 0 at ≡ some (calls, stage, m')
    → get_elem? m' (suc line) ≡ get_elem? m (suc line)
unfolding Application.run choose give_back answer start_over
first_only random m choosing calls stage m' line h =
    let (k, there, rest) = >>=-eq-some (get_elem? m 0) _ h in
    elim (Bool-cases (less (pos 0) k.bribe_line_count)) [
      | inl bribes ↦
          call_front-first m k k.bribe_ssns _ true calls stage m' line (rw bribes at rest)
      | inr no_bribes ↦ elim (Bool-cases (less (pos 0) k.line_count)) [
        | inl waits ↦
            call_front-first m k k.ssns _ false calls stage m' line (rw (no_bribes, waits) at rest)
        | inr empty ↦
            let last = rw (no_bribes, empty) at rest in
            let same : set m 0 (record k { clerk_state = on_break }) ≡ m' = cc in
            ap (λ (n : List (Counter Unit)). get_elem? n (suc line)) (sym same) ∙ set_first m _ line
      ]
    ]
first_only random m (resting v) calls stage m' line h = cc
first_only random m (holding v) calls stage m' line h = cc
first_only random m (waiting v) calls stage m' line h = cc
first_only random m (finishing v) calls stage m' line h = cc

-- Whatever a clerk of any desk does, the application lines but the first stay as they are: every
-- application clerk works at the first one.
pub clerk_step-other_line :
    (random : ℕ) (w w' : World) (desk : Desk) (i line : ℕ)
    → clerk_step random w desk i ≡ some w'
    → get_elem? w'.application (suc line) ≡ get_elem? w.application (suc line)
unfolding clerk_step
clerk_step-other_line random w w' application_desk i line h =
    let ((calls, stage, m), ran, rest) =
      >>=-eq-some (Application.run random w.application 0 (w.clerks application_desk i)) _ h in
    let same : m ≡ w'.application =
      ap (λ (o : Option World). elim o [ none ↦ m | some v ↦ v.application ]) rest in
    ap (λ (n : List (Counter Unit)). get_elem? n (suc line)) (sym same)
    ∙ first_only random w.application (w.clerks application_desk i) calls stage m line ran
clerk_step-other_line random w w' picture_desk i line h =
    let ((calls, stage, m), ran, rest) = >>=-eq-some (Picture.run random w.picture i _) _ h in
    let same : w.application ≡ w'.application =
      ap (λ (o : Option World). elim o [ none ↦ w.application | some v ↦ v.application ]) rest in
    ap (λ (n : List (Counter Unit)). get_elem? n (suc line)) (sym same)
clerk_step-other_line random w w' passport_desk i line h =
    let ((calls, stage, m), ran, rest) = >>=-eq-some (Passport.run random w.passport i _) _ h in
    let same : w.application ≡ w'.application =
      ap (λ (o : Option World). elim o [ none ↦ w.application | some v ↦ v.application ]) rest in
    ap (λ (n : List (Counter Unit)). get_elem? n (suc line)) (sym same)
clerk_step-other_line random w w' cashier_desk i line h =
    let ((calls, stage, m), ran, rest) = >>=-eq-some (Cashier.run random w.cashier i _) _ h in
    let same : w.application ≡ w'.application =
      ap (λ (o : Option World). elim o [ none ↦ w.application | some v ↦ v.application ]) rest in
    ap (λ (n : List (Counter Unit)). get_elem? n (suc line)) (sym same)
