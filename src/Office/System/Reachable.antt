-- ===== src/Office/System/Reachable.antt =====
-- threads/threadtest.cc: what every order of the steps keeps.
use csci350_project.Base.{
  ℕ, zero, suc, ◌+◌, ◌%◌, ◌≡◌, refl, subst, arith, [], Bool, Bool-cases, inl, inr, some,
  >>=-eq-some, ◌==◌,
}
use csci350_project.Office.{Client, new_counters, new_monitor, Stage, outside}
use csci350_project.Office.Application
use csci350_project.Office.Picture
use csci350_project.Office.Passport
use csci350_project.Office.Passport.{Papers, lacks_papers}
use csci350_project.Office.Cashier
use csci350_project.Office.Cashier.{has_papers}
use csci350_project.Office.Lines.{InLine, All}
use csci350_project.Office.System.{
  World, Desk, application_desk, picture_desk, passport_desk, cashier_desk, update, moved, desk_of,
  joins, is_outside, at_work, go, customer_step, clerk_step, open_office, Reaches, opened, customer,
  clerk,
}
use csci350_project.Office.System.Invariant.{Any, Matched, Orderly}
use csci350_project.Office.System.Customers.{
  application_Kept, picture_Kept, passport_Kept, cashier_Kept,
}
use csci350_project.Office.System.Clerks.{
  application_clerk, picture_clerk, passport_clerk, cashier_clerk,
}

-- At every desk the count of each line is the length of its queue, with a paper for each customer
-- where papers are asked for, no one is in a bribe line, and every customer goes through the desks in
-- an order that the office allows.
pub record InOrder (w : World) : Type 0 where
  pub application : All (InLine Any) w.application
  pub picture : All (InLine Any) w.picture
  pub passport : All (InLine Matched) w.passport
  pub cashier : All (InLine Matched) w.cashier
  pub clients : (c : ℕ) → Orderly (w.clients c)

update-Orderly :
    (f : ℕ → Client) (i : ℕ) (c : Client)
    → ((j : ℕ) → Orderly (f j))
    → Orderly c
    → (j : ℕ) → Orderly (update f i c j)
update-Orderly f i c all ok j = elim (Bool-cases (i == j)) [
  | inl e ↦ rw e ok
  | inr e ↦ rw e (all j)
]

go-InOrder :
    (random : ℕ) (w w' : World) (c : ℕ) (desk : Desk) (stage : Stage)
    → InOrder w
    → go random w c desk stage ≡ some w'
    → InOrder w'
unfolding go
go-InOrder random w w' c application_desk stage ok h =
    let ((calls, stage', m, client), ran, rest) =
      >>=-eq-some (Application.join_line w.application (w.clients c) stage) _ h in
    let (lines, orderly) =
      application_Kept w.application (w.clients c) stage ok.application (ok.clients c) calls stage'
        m client ran in
    let same : record (moved w c application_desk stage' client) { application = m } ≡ w' = cc in
    subst InOrder same (record {
      application = lines;
      picture = ok.picture;
      passport = ok.passport;
      cashier = ok.cashier;
      clients = update-Orderly w.clients c client ok.clients orderly;
    })
go-InOrder random w w' c picture_desk stage ok h =
    let ((calls, stage', m, client), ran, rest) =
      >>=-eq-some (Picture.join_line random w.picture (w.clients c) stage) _ h in
    let (lines, orderly) =
      picture_Kept random w.picture (w.clients c) stage ok.picture (ok.clients c) calls stage' m
        client ran in
    let same : record (moved w c picture_desk stage' client) { picture = m } ≡ w' = cc in
    subst InOrder same (record {
      application = ok.application;
      picture = lines;
      passport = ok.passport;
      cashier = ok.cashier;
      clients = update-Orderly w.clients c client ok.clients orderly;
    })
go-InOrder random w w' c passport_desk stage ok h =
    let ((calls, stage', m, client), ran, rest) =
      >>=-eq-some (Passport.join_line random w.passport (w.clients c) stage) _ h in
    let (lines, orderly) =
      passport_Kept random w.passport (w.clients c) stage ok.passport (ok.clients c) calls stage' m
        client ran in
    let same : record (moved w c passport_desk stage' client) { passport = m } ≡ w' = cc in
    subst InOrder same (record {
      application = ok.application;
      picture = ok.picture;
      passport = lines;
      cashier = ok.cashier;
      clients = update-Orderly w.clients c client ok.clients orderly;
    })
go-InOrder random w w' c cashier_desk stage ok h =
    let ((calls, stage', m, client), ran, rest) =
      >>=-eq-some (Cashier.join_line random w.cashier (w.clients c) stage) _ h in
    let (lines, orderly) =
      cashier_Kept random w.cashier (w.clients c) stage ok.cashier (ok.clients c) calls stage' m
        client ran in
    let same : record (moved w c cashier_desk stage' client) { cashier = m } ≡ w' = cc in
    subst InOrder same (record {
      application = ok.application;
      picture = ok.picture;
      passport = ok.passport;
      cashier = lines;
      clients = update-Orderly w.clients c client ok.clients orderly;
    })

customer_step-InOrder :
    (random : ℕ) (w w' : World) (c : ℕ)
    → InOrder w
    → customer_step random w c ≡ some w'
    → InOrder w'
unfolding customer_step
customer_step-InOrder random w w' c ok h =
    let desk : Desk = (w.places c).0 in
    let stage : Stage = (w.places c).1 in
    let picked : Desk = desk_of (random % 4) in
    elim (Bool-cases (is_outside stage)) [
      | inr inside ↦ go-InOrder random w w' c desk stage ok (rw inside at h)
      | inl out ↦ elim (Bool-cases (w.clients c).done) [
        | inl over ↦ absurd (ground (arith, rw (out, over) at h))
        | inr not_over ↦ elim (Bool-cases (joins (w.clients c) picked)) [
          | inl yes_it_does ↦
              go-InOrder random w w' c picked outside ok (rw (out, not_over, yes_it_does) at h)
          | inr stays ↦
              let same : w ≡ w' = let last = rw (out, not_over, stays) at h in cc in
              subst InOrder same ok
        ]
      ]
    ]

clerk_step-InOrder :
    (random : ℕ) (w w' : World) (desk : Desk) (i : ℕ)
    → InOrder w
    → clerk_step random w desk i ≡ some w'
    → InOrder w'
unfolding clerk_step
clerk_step-InOrder random w w' application_desk i ok h =
    let ((calls, stage, m), ran, rest) =
      >>=-eq-some (Application.run random w.application 0 (w.clerks application_desk i)) _ h in
    let same : record (at_work w application_desk i stage) { application = m } ≡ w' = cc in
    subst InOrder same (record {
      application = application_clerk random w.application 0 _ ok.application calls stage m ran;
      picture = ok.picture;
      passport = ok.passport;
      cashier = ok.cashier;
      clients = ok.clients;
    })
clerk_step-InOrder random w w' picture_desk i ok h =
    let ((calls, stage, m), ran, rest) =
      >>=-eq-some (Picture.run random w.picture i (w.clerks picture_desk i)) _ h in
    let same : record (at_work w picture_desk i stage) { picture = m } ≡ w' = cc in
    subst InOrder same (record {
      application = ok.application;
      picture = picture_clerk random w.picture i _ ok.picture calls stage m ran;
      passport = ok.passport;
      cashier = ok.cashier;
      clients = ok.clients;
    })
clerk_step-InOrder random w w' passport_desk i ok h =
    let ((calls, stage, m), ran, rest) =
      >>=-eq-some (Passport.run random w.passport i (w.clerks passport_desk i)) _ h in
    let same : record (at_work w passport_desk i stage) { passport = m } ≡ w' = cc in
    subst InOrder same (record {
      application = ok.application;
      picture = ok.picture;
      passport = passport_clerk random w.passport i _ ok.passport calls stage m ran;
      cashier = ok.cashier;
      clients = ok.clients;
    })
clerk_step-InOrder random w w' cashier_desk i ok h =
    let ((calls, stage, m), ran, rest) =
      >>=-eq-some (Cashier.run random w.cashier i (w.clerks cashier_desk i)) _ h in
    let same : record (at_work w cashier_desk i stage) { cashier = m } ≡ w' = cc in
    subst InOrder same (record {
      application = ok.application;
      picture = ok.picture;
      passport = ok.passport;
      cashier = cashier_clerk random w.cashier i _ ok.cashier calls stage m ran;
      clients = ok.clients;
    })

new_counters-InLine :
    {X : Type 0} (Fits : X → ℕ → Type 0) (i n : ℕ) (own : ℕ → X)
    → ((j : ℕ) → Fits (own j) 0)
    → All (InLine Fits) (new_counters i n own)
unfolding new_counters
new_counters-InLine Fits i zero own fits = tt
new_counters-InLine Fits i (suc n) own fits = (
  record { counted = refl; no_bribes = refl; no_bribers = refl; fits = fits i },
  new_counters-InLine Fits (i + 1) n own fits,
)

opened-InOrder :
    (a p q s : ℕ) (pictures : ℕ → Bool) (money : ℕ → ℕ)
    → InOrder (open_office a p q s pictures money)
unfolding open_office new_monitor
opened-InOrder a p q s pictures money = record {
  application = new_counters-InLine Any 0 a (λ i. tt) (λ j. tt);
  picture = new_counters-InLine Any 0 p pictures (λ j. tt);
  passport =
      new_counters-InLine Matched 0 q (λ i. record { regular = []; bribe = [] })
        (λ j. (refl, refl));
  cashier =
      new_counters-InLine Matched 0 s (λ i. record { regular = []; bribe = [] })
        (λ j. (refl, refl));
  clients = λ c. record { honest = refl; papers = λ h. cc; paid = λ h. cc };
}

-- Whatever order the customers' and the clerks' pieces run in, and whatever `rand` gives, the office
-- that was just opened stays in order: the count of each regular line is the length of its queue, with
-- a paper for each customer where papers are asked for, no one is in a bribe line, and a customer has
-- a certificate only with the application and the picture, and is done only with the certificate.
pub Reaches-InOrder :
    (a p q s : ℕ) (pictures : ℕ → Bool) (money : ℕ → ℕ) (w : World)
    → Reaches (open_office a p q s pictures money) w
    → InOrder w
Reaches-InOrder a p q s pictures money w opened = opened-InOrder a p q s pictures money
Reaches-InOrder a p q s pictures money w (customer v w1 random c before step) =
    customer_step-InOrder random v w c (Reaches-InOrder a p q s pictures money v before) step
Reaches-InOrder a p q s pictures money w (clerk v w1 random i desk before step) =
    clerk_step-InOrder random v w desk i (Reaches-InOrder a p q s pictures money v before) step
