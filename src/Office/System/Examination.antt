-- ===== src/Office/System/Examination.antt =====
-- threads/threadtest.cc: the passport clerks' and the cashiers' test of a customer's papers.
use csci350_project.Base.{
  ℕ, ◌≡◌, ◌↔◌, refl, ap, ◌∙◌, arith, List, [], ◌∷◌, Bool, true, false, Bool-cases, inl, inr, none,
  some, ◌>>=◌, not, ◌&&◌, if◌then◌else◌, Option-cases, >>=-eq-some, get_elem?, length,
}
use csci350_project.Office.{Counter, answer, front, Visitor, waiting, finishing}
use csci350_project.Office.Passport
use csci350_project.Office.Passport.{Papers, lacks_papers}
use csci350_project.Office.Cashier
use csci350_project.Office.Cashier.{has_papers}
use csci350_project.Office.Lines.{InLine, All-get}
use csci350_project.Office.System.{
  World, passport_desk, cashier_desk, at_work, clerk_step, open_office, Reaches,
}
use csci350_project.Office.System.Invariant.{Matched}
use csci350_project.Office.System.Reachable.{Reaches-InOrder}

lacks_papers-some :
    (k : Counter Papers) (v : Visitor) (lacking : Bool)
    → k.own.bribe ≡ []
    → lacks_papers k v.bribed ≡ some lacking
    → (v.bribed ≡ false) × (front k.own.regular ≡ some false)
lacks_papers-some k v lacking empty h =
    let (regular, first, rest) = >>=-eq-some (front k.own.regular) _ h in
    let no_front : front k.own.bribe ≡ none = ap front empty in
    elim (Bool-cases v.bribed) [
      | inl bribed ↦ absurd (ground (arith, rw (bribed, no_front) at rest))
      | inr unbribed ↦ elim (Bool-cases regular) [
        | inl complete ↦ absurd (ground (arith, rw (unbribed, complete, no_front) at rest))
        | inr lacks ↦ (unbribed, first ∙ ap some lacks)
      ]
    ]

has_papers-some :
    (k : Counter Papers) (v : Visitor) (paid : Bool)
    → k.own.bribe ≡ []
    → has_papers k v.bribed ≡ some paid
    → (v.bribed ≡ false) × (front k.own.regular ≡ some true)
has_papers-some k v paid empty h =
    let (shown, seen, more) = >>=-eq-some (front k.ssns) _ h in
    let (regular, first, rest) = >>=-eq-some (front k.own.regular) _ more in
    let no_front : front k.own.bribe ≡ none = ap front empty in
    elim (Bool-cases v.bribed) [
      | inl bribed ↦ elim (Bool-cases regular) [
        | inl complete ↦ absurd (ground (arith, rw (bribed, complete, no_front) at rest))
        | inr lacks ↦ absurd (ground (arith, rw (bribed, lacks, no_front) at rest))
      ]
      | inr unbribed ↦ elim (Bool-cases regular) [
        | inl complete ↦ (unbribed, first ∙ ap some complete)
        | inr lacks ↦ absurd (ground (arith, rw (unbribed, lacks, no_front) at rest))
      ]
    ]

front-some :
    (ssns : List ℕ) (papers : List Bool) (paper : Bool)
    → length papers ≡ length ssns
    → front papers ≡ some paper
    → (s : ℕ) × (front ssns ≡ some s)
front-some [] [] paper e h = cc
front-some [] (p ∷ papers) paper e h = absurd (omega (arith, e))
front-some (s ∷ ssns) papers paper e h = (s, refl)

-- With papers in the bribers' queue too, the test is the front of the customer's own queue.
lacks_papers-both :
    (k : Counter Papers) (bribed p : Bool) (ps : List Bool)
    → lacks_papers (record k { own = record k.own { bribe = p ∷ ps } }) bribed
      ≡ (front k.own.regular >>= λ regular. some (if bribed then not p else not regular))
lacks_papers-both k bribed p ps = elim (Option-cases (front k.own.regular)) [
  | inl e ↦ rw e refl
  | inr (regular, e) ↦ rw e (by_cases regular bribed p)
]
  where
    by_cases :
        (regular bribed p : Bool)
        → (if not regular && not bribed then some true else some (not p && bribed))
          ≡ some (if bribed then not p else not regular)
    by_cases true true true = refl
    by_cases true true false = refl
    by_cases true false true = refl
    by_cases true false false = refl
    by_cases false true true = refl
    by_cases false true false = refl
    by_cases false false true = refl
    by_cases false false false = refl

-- In every world that the office reaches, a passport clerk that was waiting for its customer answers
-- exactly if the front of its regular papers is one that says that the application or the picture
-- is missing, and the customer did not bribe. The bribers' papers are empty there. With others in their
-- place the test would come to an end wherever there are regular ones, and find missing what the
-- front of the customer's own queue says is missing.
pub Reaches-passport_waiting :
    (a p q s : ℕ) (pictures : ℕ → Bool) (money : ℕ → ℕ) (random : ℕ) (w : World) (i : ℕ)
    (v : Visitor) (k : Counter Papers) (paper : Bool) (papers : List Bool)
    → Reaches (open_office a p q s pictures money) w
    → w.clerks passport_desk i ≡ waiting v
    → get_elem? w.passport i ≡ some k
    → (((w' : World) × (clerk_step random w passport_desk i ≡ some w'))
        ↔ ((v.bribed ≡ false) × (front k.own.regular ≡ some false)))
      × (k.own.bribe ≡ [])
      × (lacks_papers (record k { own = record k.own { bribe = paper ∷ papers } }) v.bribed
          ≡ (front k.own.regular >>= λ regular. some (if v.bribed then not paper else not regular)))
unfolding clerk_step Passport.run answer
Reaches-passport_waiting a p q s pictures money random w i v k paper papers reached at there =
    let ok = Reaches-InOrder a p q s pictures money w reached in
    let matched = (All-get (InLine Matched) w.passport i k ok.passport there).fits in
    (
      (
        (λ (w', h).
            let run = rw (at, there) at h in
            let (made, ran, rest) = >>=-eq-some _ _ run in
            let (lacking, seen, last) = >>=-eq-some (lacks_papers k v.bribed) _ ran in
            lacks_papers-some k v lacking matched.1 seen),
        (λ (unbribed, first). (
          record (at_work w passport_desk i (finishing v)) { passport = w.passport },
          rw (at, there, unbribed, first) refl,
        )),
      ),
      matched.1,
      lacks_papers-both k v.bribed paper papers,
    )

-- In every world that the office reaches, a cashier who was waiting for the customer answers exactly
-- if the front of its regular certifications is one that says that the customer is certified, and
-- the customer did not bribe.
pub Reaches-cashier_waiting :
    (a p q s : ℕ) (pictures : ℕ → Bool) (money : ℕ → ℕ) (random : ℕ) (w : World) (i : ℕ)
    (v : Visitor) (k : Counter Papers)
    → Reaches (open_office a p q s pictures money) w
    → w.clerks cashier_desk i ≡ waiting v
    → get_elem? w.cashier i ≡ some k
    → ((w' : World) × (clerk_step random w cashier_desk i ≡ some w'))
      ↔ ((v.bribed ≡ false) × (front k.own.regular ≡ some true))
unfolding clerk_step Cashier.run answer
Reaches-cashier_waiting a p q s pictures money random w i v k reached at there =
    let ok = Reaches-InOrder a p q s pictures money w reached in
    let matched = (All-get (InLine Matched) w.cashier i k ok.cashier there).fits in
    (
      (λ (w', h).
          let run = rw (at, there) at h in
          let (made, ran, rest) = >>=-eq-some _ _ run in
          let (paid, seen, last) = >>=-eq-some (has_papers k v.bribed) _ ran in
          has_papers-some k v paid matched.1 seen),
      (λ (unbribed, first).
          let (ssn, shown) = front-some k.ssns k.own.regular true matched.0 first in
          (
            record (at_work w cashier_desk i (finishing v)) { cashier = w.cashier },
            rw (at, there, unbribed, shown, first) refl,
          )),
    )
