-- ===== src/Office/System/Customers.antt =====
-- threads/threadtest.cc: what the customers' pieces keep.
use csci350_project.Base.{
  ℕ, ◌%◌, ◌≡◌, refl, sym, subst, ◌∙◌, arith, List, [], Bool, true, false, ◌&&◌, Bool-cases, inl,
  inr, some, >>=-eq-some, get_elem?, set, ◌==◌,
}
use csci350_project.Office.{
  Call, Counter, Client, Stage, outside, queued, approaching, at_counter, Piece, meet, leave,
  wander,
}
use csci350_project.Office.Application
use csci350_project.Office.Picture
use csci350_project.Office.Passport
use csci350_project.Office.Passport.{Papers, lacks_papers}
use csci350_project.Office.Cashier
use csci350_project.Office.Cashier.{has_papers}
use csci350_project.Office.Lines.{
  InLine, All, All-get, All-set, Keeps, take_place-Keeps, join-Keeps, meet-Keeps, leave-Keeps,
}
use csci350_project.Office.System.Invariant.{
  Any, Matched, Orderly, InLine-state, application_enter, picture_enter, passport_enter,
  cashier_enter, application_exit, picture_exit, passport_exit, cashier_exit,
}

-- What a customer's piece keeps, with what it does to the customer.
abbrev pub Kept : {X : Type 0} → (Counter X → Type 0) → Piece X → Type 0
Kept P piece =
    (calls : List Call) (stage : Stage) (m : List (Counter _)) (c : Client)
    → piece ≡ some (calls, stage, m, c)
    → All P m × Orderly c

Keeps-Kept :
    {X : Type 0} (P : Counter X → Type 0) (c : Client) (piece : Piece X)
    → Orderly c
    → Keeps P c piece
    → Kept P piece
Keeps-Kept P c piece ok keeps calls stage m c' h =
    let (all, same) = keeps calls stage m c' h in (all, subst Orderly (sym same) ok)

pub application_Kept :
    (m : List (Counter Unit)) (c : Client) (stage : Stage)
    → All (InLine Any) m
    → Orderly c
    → Kept (InLine Any) (Application.join_line m c stage)
unfolding Application.join_line
application_Kept m c outside all ok = Keeps-Kept (InLine Any) c _ ok (
    join-Keeps (InLine Any) m c all (InLine-state Any) _ Application.enter
      (λ k. application_enter c k ok.honest))
application_Kept m c (queued i) all ok =
    Keeps-Kept (InLine Any) c _ ok (take_place-Keeps (InLine Any) m c all (InLine-state Any) i)
application_Kept m c (approaching i) all ok =
    Keeps-Kept (InLine Any) c _ ok (meet-Keeps (InLine Any) m c all (InLine-state Any) i)
application_Kept m c (at_counter i) all ok =
    let c' : Client = record c { application_accepted = true } in
    Keeps-Kept (InLine Any) c' _
      (record { honest = ok.honest; papers = λ h. ground (arith, ok.papers h); paid = ok.paid })
      (leave-Keeps (InLine Any) m c' all (InLine-state Any) (Application.exit c) [] i
        (λ k k'. application_exit c k k' ok.honest))

pub picture_Kept :
    (random : ℕ) (m : List (Counter Bool)) (c : Client) (stage : Stage)
    → All (InLine Any) m
    → Orderly c
    → Kept (InLine Any) (Picture.join_line random m c stage)
unfolding Picture.join_line
picture_Kept random m c outside all ok calls stage m' c' h =
    Keeps-Kept (InLine Any) c _ ok
      (join-Keeps (InLine Any) m c all (InLine-state Any) _ Picture.enter
        (λ k. picture_enter c k ok.honest))
      calls stage m' c' h
picture_Kept random m c (queued i) all ok calls stage m' c' h =
    Keeps-Kept (InLine Any) c _ ok (take_place-Keeps (InLine Any) m c all (InLine-state Any) i)
      calls stage m' c' h
picture_Kept random m c (approaching i) all ok calls stage m' c' h =
    let (k, there, rest) = >>=-eq-some (get_elem? m i) _ h in
    let k1 : Counter Bool = record k { own = false } in
    let before = All-get (InLine Any) m i k all there in
    let after : InLine Any k1 = record {
      counted = before.counted;
      no_bribes = before.no_bribes;
      no_bribers = before.no_bribers;
      fits = tt;
    } in
    Keeps-Kept (InLine Any) c (meet (set m i k1) c i) ok
      (meet-Keeps (InLine Any) (set m i k1) c (All-set (InLine Any) m i k1 all after)
        (InLine-state Any) i)
      calls stage m' c' rest
picture_Kept random m c (at_counter i) all ok calls stage m' c1 h =
    elim (Bool-cases (random % 2 == 0)) [
      | inl again ↦
          Keeps-Kept (InLine Any) c (meet m c i) ok
            (meet-Keeps (InLine Any) m c all (InLine-state Any) i) calls stage m' c1 (rw again at h)
      | inr likes ↦
          let c' : Client = record c { picture_taken = true } in
          Keeps-Kept (InLine Any) c' (leave (Picture.exit c) [] m c' i)
            (record {
              honest = ok.honest;
              papers = λ q. ground (arith, ok.papers q);
              paid = ok.paid;
            })
            (leave-Keeps (InLine Any) m c' all (InLine-state Any) (Picture.exit c) [] i
              (λ k k'. picture_exit c k k' ok.honest))
            calls stage m' c1 (rw likes at h)
    ]

pub passport_Kept :
    (random : ℕ) (m : List (Counter Papers)) (c : Client) (stage : Stage)
    → All (InLine Matched) m
    → Orderly c
    → Kept (InLine Matched) (Passport.join_line random m c stage)
unfolding Passport.join_line
passport_Kept random m c outside all ok calls stage m' c' h =
    Keeps-Kept (InLine Matched) c _ ok
      (join-Keeps (InLine Matched) m c all (InLine-state Matched) _ Passport.enter
        (λ k. passport_enter c k ok.honest))
      calls stage m' c' h
passport_Kept random m c (queued i) all ok calls stage m' c' h =
    Keeps-Kept (InLine Matched) c _ ok
      (take_place-Keeps (InLine Matched) m c all (InLine-state Matched) i) calls stage m' c' h
passport_Kept random m c (approaching i) all ok calls stage m' c' h =
    Keeps-Kept (InLine Matched) c _ ok
      (meet-Keeps (InLine Matched) m c all (InLine-state Matched) i) calls stage m' c' h
passport_Kept random m c (at_counter i) all ok calls stage m' c1 h =
    elim (Bool-cases (c.application_accepted && c.picture_taken)) [
      | inl both ↦
          let c' : Client = record c { certified = true } in
          Keeps-Kept (InLine Matched) c' (leave (Passport.exit c) [] m c' i)
            (record { honest = ok.honest; papers = λ q. both; paid = λ q. refl })
            (leave-Keeps (InLine Matched) m c' all (InLine-state Matched) (Passport.exit c) [] i
              (λ k k'. passport_exit c k k' ok.honest))
            calls stage m' c1 (rw both at h)
      | inr lacks ↦
          Keeps-Kept (InLine Matched) c (leave (Passport.exit c) (wander 100 999 random) m c i) ok
            (leave-Keeps (InLine Matched) m c all (InLine-state Matched) (Passport.exit c) _ i
              (λ k k'. passport_exit c k k' ok.honest))
            calls stage m' c1 (rw lacks at h)
    ]

pub cashier_Kept :
    (random : ℕ) (m : List (Counter Papers)) (c : Client) (stage : Stage)
    → All (InLine Matched) m
    → Orderly c
    → Kept (InLine Matched) (Cashier.join_line random m c stage)
unfolding Cashier.join_line
cashier_Kept random m c outside all ok calls stage m' c' h =
    Keeps-Kept (InLine Matched) c _ ok
      (join-Keeps (InLine Matched) m c all (InLine-state Matched) _ Cashier.enter
        (λ k. cashier_enter c k ok.honest))
      calls stage m' c' h
cashier_Kept random m c (queued i) all ok calls stage m' c' h =
    Keeps-Kept (InLine Matched) c _ ok
      (take_place-Keeps (InLine Matched) m c all (InLine-state Matched) i) calls stage m' c' h
cashier_Kept random m c (approaching i) all ok calls stage m' c' h =
    Keeps-Kept (InLine Matched) c _ ok
      (meet-Keeps (InLine Matched) m c all (InLine-state Matched) i) calls stage m' c' h
cashier_Kept random m c (at_counter i) all ok calls stage m' c1 h = elim (Bool-cases c.certified) [
  | inl certificate ↦
      let c' : Client = record c { done = true } in
      Keeps-Kept (InLine Matched) c' (leave (Cashier.exit c) [] m c' i)
        (record { honest = ok.honest; papers = ok.papers; paid = λ q. certificate })
        (leave-Keeps (InLine Matched) m c' all (InLine-state Matched) (Cashier.exit c) [] i
          (λ k k'. cashier_exit c k k' ok.honest))
        calls stage m' c1
        (let this_way : Cashier.join_line random m c (at_counter i)
              ≡ leave (Cashier.exit c) [] m c' i =
            simp certificate in
          sym this_way ∙ h)
  | inr lacks ↦
      Keeps-Kept (InLine Matched) c (leave (Cashier.exit c) (wander 100 901 random) m c i) ok
        (leave-Keeps (InLine Matched) m c all (InLine-state Matched) (Cashier.exit c) _ i
          (λ k k'. cashier_exit c k k' ok.honest))
        calls stage m' c1
        (let this_way : Cashier.join_line random m c (at_counter i)
              ≡ leave (Cashier.exit c) (wander 100 901 random) m c i =
            simp lacks in
          sym this_way ∙ h)
]
