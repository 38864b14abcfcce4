-- ===== src/Office/System/Invariant.antt =====
-- threads/threadtest.cc: what holds at every desk, and of every customer.
use csci350_project.Base.{
  ℕ, suc, ◌+◌, ◌≡◌, sym, ap, subst, ◌∙◌, arith, List, [], ◌∷◌, ◌++◌, Bool, true, false, ◌&&◌, some,
  >>=-eq-some, length, length-append,
}
use csci350_project.Base.Int.{ℤ, pos, ◌+ℤ◌, ◌-ℤ◌}
use csci350_project.Office.{Counter, Client, pop}
use csci350_project.Office.Application
use csci350_project.Office.Picture
use csci350_project.Office.Passport
use csci350_project.Office.Passport.{Papers, lacks_papers}
use csci350_project.Office.Cashier
use csci350_project.Office.Cashier.{has_papers}
use csci350_project.Office.Lines.{InLine}

abbrev pub Any : {X : Type 0} → X → ℕ → Type 0
Any x n = Unit {0}

-- A paper for each customer in line.
abbrev pub Matched : Papers → ℕ → Type 0
Matched p n = (length p.regular ≡ n) × (p.bribe ≡ [])

-- A customer has a certificate only with the application and the picture, and is done only with it.
pub record Orderly (c : Client) : Type 0 where
  pub honest : c.bribed ≡ false
  pub papers : c.certified ≡ true → (c.application_accepted && c.picture_taken) ≡ true
  pub paid : c.done ≡ true → c.certified ≡ true

pub InLine-state :
    {X : Type 0} (Fits : X → ℕ → Type 0) (k : Counter X) (s : ℕ)
    → InLine Fits k
    → InLine Fits (record k { clerk_state = s })
InLine-state Fits k s h = record {
  counted = h.counted;
  no_bribes = h.no_bribes;
  no_bribers = h.no_bribers;
  fits = h.fits;
}

length_snoc : {A : Type 0} (xs : List A) (x : A) → length (xs ++ (x ∷ [])) ≡ length xs + 1
length_snoc xs x = omega (arith, length-append xs (x ∷ []))

counted_add : (n : ℕ) → pos n +ℤ pos 1 ≡ pos (n + 1)
unfolding ◌+ℤ◌
counted_add n = ground arith

counted_sub : (n : ℕ) → pos (suc n) -ℤ pos 1 ≡ pos n
unfolding ◌-ℤ◌
counted_sub n = ground arith

counted_enter :
    (z : ℤ) (xs : List ℕ) (x : ℕ) → z ≡ pos (length xs) → z +ℤ pos 1 ≡ pos (length (xs ++ (x ∷ [])))
counted_enter z xs x h =
    ap (λ y. y +ℤ pos 1) h ∙ counted_add (length xs) ∙ ap pos (sym (length_snoc xs x))

-- One fewer in a queue that is not empty.
length-pop : {A : Type 0} (xs rest : List A) → pop xs ≡ some rest → length xs ≡ suc (length rest)
length-pop [] rest p = cc
length-pop (x ∷ xs) rest p = let same : xs ≡ rest = cc in ap (λ t. suc (length t)) same

counted_exit :
    (z : ℤ) (xs rest : List ℕ)
    → z ≡ pos (length xs)
    → pop xs ≡ some rest
    → z -ℤ pos 1 ≡ pos (length rest)
counted_exit z xs rest h p =
    ap (λ y. y -ℤ pos 1) (h ∙ ap pos (length-pop xs rest p)) ∙ counted_sub (length rest)

-- The four ways in, for a customer who does not bribe.
pub application_enter :
    (c : Client) (k : Counter Unit)
    → c.bribed ≡ false
    → InLine Any k
    → InLine Any (Application.enter c k)
application_enter c k honest h = rw honest (record {
  counted = counted_enter k.line_count k.ssns c.ssn h.counted;
  no_bribes = h.no_bribes;
  no_bribers = h.no_bribers;
  fits = tt;
})

pub picture_enter :
    (c : Client) (k : Counter Bool)
    → c.bribed ≡ false
    → InLine Any k
    → InLine Any (Picture.enter c k)
picture_enter c k honest h = rw honest (record {
  counted = counted_enter k.line_count k.ssns c.ssn h.counted;
  no_bribes = h.no_bribes;
  no_bribers = h.no_bribers;
  fits = tt;
})

Matched-enter :
    (p : Papers) (b : Bool) (n m : ℕ)
    → m ≡ n + 1
    → Matched p n
    → Matched (record p { regular = p.regular ++ (b ∷ []) }) m
Matched-enter p b n m e h = (omega (arith, length_snoc p.regular b, h.0), h.1)

pub passport_enter :
    (c : Client) (k : Counter Papers)
    → c.bribed ≡ false
    → InLine Matched k
    → InLine Matched (Passport.enter c k)
passport_enter c k honest h = rw honest (record {
  counted = counted_enter k.line_count k.ssns c.ssn h.counted;
  no_bribes = h.no_bribes;
  no_bribers = h.no_bribers;
  fits = Matched-enter k.own _ _ _ (length_snoc k.ssns c.ssn) h.fits;
})

pub cashier_enter :
    (c : Client) (k : Counter Papers)
    → c.bribed ≡ false
    → InLine Matched k
    → InLine Matched (Cashier.enter c k)
cashier_enter c k honest h = rw honest (record {
  counted = counted_enter k.line_count k.ssns c.ssn h.counted;
  no_bribes = h.no_bribes;
  no_bribers = h.no_bribers;
  fits = Matched-enter k.own _ _ _ (length_snoc k.ssns c.ssn) h.fits;
})

-- The four ways out.
pub application_exit :
    (c : Client) (k k' : Counter Unit)
    → c.bribed ≡ false
    → InLine Any k
    → Application.exit c k ≡ some k'
    → InLine Any k'
application_exit c k k' honest h e =
    let (rest, popped, last) = >>=-eq-some (pop k.ssns) _ (rw honest at e) in
    let same : record k { line_count = k.line_count -ℤ pos 1; ssns = rest } ≡ k' = cc in
    subst (InLine Any) same (record {
      counted = counted_exit k.line_count k.ssns rest h.counted popped;
      no_bribes = h.no_bribes;
      no_bribers = h.no_bribers;
      fits = tt;
    })

pub picture_exit :
    (c : Client) (k k' : Counter Bool)
    → c.bribed ≡ false
    → InLine Any k
    → Picture.exit c k ≡ some k'
    → InLine Any k'
picture_exit c k k' honest h e =
    let (rest, popped, last) = >>=-eq-some (pop k.ssns) _ (rw honest at e) in
    let same : record k { own = true; line_count = k.line_count -ℤ pos 1; ssns = rest } ≡ k' = cc in
    subst (InLine Any) same (record {
      counted = counted_exit k.line_count k.ssns rest h.counted popped;
      no_bribes = h.no_bribes;
      no_bribers = h.no_bribers;
      fits = tt;
    })

papers_exit :
    (k : Counter Papers) (rest : List ℕ) (papers : List Bool)
    → InLine Matched k
    → pop k.ssns ≡ some rest
    → pop k.own.regular ≡ some papers
    → InLine Matched (record k {
      line_count = k.line_count -ℤ pos 1;
      ssns = rest;
      own = record k.own { regular = papers };
    })
papers_exit k rest papers h popped gone = record {
  counted = counted_exit k.line_count k.ssns rest h.counted popped;
  no_bribes = h.no_bribes;
  no_bribers = h.no_bribers;
  fits = (
    omega (arith, length-pop k.ssns rest popped, length-pop k.own.regular papers gone, h.fits.0),
    h.fits.1,
  );
}

pub passport_exit :
    (c : Client) (k k' : Counter Papers)
    → c.bribed ≡ false
    → InLine Matched k
    → Passport.exit c k ≡ some k'
    → InLine Matched k'
passport_exit c k k' honest h e =
    let (rest, popped, more) = >>=-eq-some (pop k.ssns) _ (rw honest at e) in
    let (papers, gone, last) = >>=-eq-some (pop k.own.regular) _ more in
    let out : Counter Papers = record k {
      line_count = k.line_count -ℤ pos 1;
      ssns = rest;
      own = record k.own { regular = papers };
    } in
    let same : out ≡ k' = cc in
    subst (InLine Matched) same (papers_exit k rest papers h popped gone)

pub cashier_exit :
    (c : Client) (k k' : Counter Papers)
    → c.bribed ≡ false
    → InLine Matched k
    → Cashier.exit c k ≡ some k'
    → InLine Matched k'
cashier_exit c k k' honest h e =
    let (rest, popped, more) = >>=-eq-some (pop k.ssns) _ (rw honest at e) in
    let (papers, gone, last) = >>=-eq-some (pop k.own.regular) _ more in
    let out : Counter Papers = record k {
      line_count = k.line_count -ℤ pos 1;
      ssns = rest;
      own = record k.own { regular = papers };
    } in
    let same : out ≡ k' = cc in
    subst (InLine Matched) same (papers_exit k rest papers h popped gone)
