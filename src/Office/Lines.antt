-- ===== src/Office/Lines.antt =====
-- threads/threadtest.cc: the counts of the lines and the queues of those who are in them.
use csci350_project.Base.{
  ℕ, zero, suc, ◌≡◌, subst, arith, List, [], ◌∷◌, Bool-cases, inl, inr, Option, some, >>=-eq-some,
  get_elem?, set, replicate, length, ◌==◌,
}
use csci350_project.Base.Int.{ℤ, pos, negsuc}
use csci350_project.Office.{
  Call, Counter, busy, Client, Stage, Piece, get_smallest_line, take_place, join_at, join, meet,
  leave,
}

module _ {X : Type 0} where
  -- `P` holds of every clerk's counter.
  abbrev pub All : (Counter X → Type 0) → List (Counter X) → Type 0
  All P [] = Unit {0}
  All P (k ∷ ks) = P k × All P ks

  pub All-get :
      (P : Counter X → Type 0) (m : List (Counter X)) (i : ℕ) (k : Counter X)
      → All P m
      → get_elem? m i ≡ some k
      → P k
  All-get P [] i k all h = cc
  All-get P (x ∷ xs) zero k all h = let same : x ≡ k = cc in subst P same all.0
  All-get P (x ∷ xs) (suc i) k all h = All-get P xs i k all.1 h

  pub All-set :
      (P : Counter X → Type 0) (m : List (Counter X)) (i : ℕ) (k : Counter X)
      → All P m
      → P k
      → All P (set m i k)
  All-set P [] i k all h = tt
  All-set P (x ∷ xs) zero k all h = (h, all.1)
  All-set P (x ∷ xs) (suc i) k all h = (all.0, All-set P xs i k all.1 h)

  pub All-replicate : (P : Counter X → Type 0) (n : ℕ) (k : Counter X) → P k → All P (replicate n k)
  All-replicate P zero k h = tt
  All-replicate P (suc n) k h = (h, All-replicate P n k h)

-- The regular line's count is the length of its queue, and no one bribes; `Fits` says how what only
-- this monitor has goes with that length.
pub record InLine {X : Type 0} (Fits : X → ℕ → Type 0) (k : Counter X) : Type 0 where
  pub counted : k.line_count ≡ pos (length k.ssns)
  pub no_bribes : k.bribe_line_count ≡ pos 0
  pub no_bribers : k.bribe_ssns ≡ []
  pub fits : Fits k.own (length k.ssns)

-- What a piece leaves behind.
abbrev pub Keeps : {X : Type 0} → (Counter X → Type 0) → Client → Piece X → Type 0
Keeps P c piece =
    (calls : List Call) (stage : Stage) (m : List (Counter _)) (c' : Client)
    → piece ≡ some (calls, stage, m, c')
    → All P m × (c' ≡ c)

module _ {X : Type 0} (P : Counter X → Type 0) (m : List (Counter X)) (c : Client) (all : All P m)
    (states : (k : Counter X) (s : ℕ) → P k → P (record k { clerk_state = s })) where
  pub take_place-Keeps : (i : ℕ) → Keeps P c (take_place m c i)
  unfolding take_place
  take_place-Keeps i calls stage m' c' h =
      let (k, at, rest) = >>=-eq-some (get_elem? m i) _ h in
      let same : set m i (record k { clerk_state = busy }) ≡ m' = cc in
      (subst (All P) same (All-set P m i _ all (states k busy (All-get P m i k all at))), cc)

  join_at-Keeps :
      (enter : Client → Counter X → Counter X)
      → ((k : Counter X) → P k → P (enter c k))
      → (z : ℤ) → Keeps P c (join_at enter m c z)
  unfolding join_at
  join_at-Keeps enter enters (negsuc n) calls stage m' c' h = cc
  join_at-Keeps enter enters (pos i) calls stage m' c' h =
      let (k, there, rest) = >>=-eq-some (get_elem? m i) _ h in
      let ok = All-get P m i k all there in
      elim (Bool-cases (k.clerk_state == busy)) [
        | inr free ↦ take_place-Keeps i calls stage m' c' (rw free at rest)
        | inl taken ↦
            let same : set m i (enter c k) ≡ m' = ground (arith, rest) in
            (subst (All P) same (All-set P m i _ all (enters k ok)), ground (arith, rest))
      ]

  pub join-Keeps :
      (start : ℤ) (enter : Client → Counter X → Counter X)
      → ((k : Counter X) → P k → P (enter c k))
      → Keeps P c (join start enter m c)
  unfolding join
  join-Keeps start enter enters = join_at-Keeps enter enters (get_smallest_line start m)

  pub meet-Keeps : (i : ℕ) → Keeps P c (meet m c i)
  unfolding meet
  meet-Keeps i calls stage m' c' h = let same : m ≡ m' = cc in (subst (All P) same all, cc)

  pub leave-Keeps :
      (exit : Counter X → Option (Counter X)) (delay : List Call) (i : ℕ)
      → ((k k' : Counter X) → P k → exit k ≡ some k' → P k')
      → Keeps P c (leave exit delay m c i)
  unfolding leave
  leave-Keeps exit delay i exits calls stage m' c' h =
      let (k, there, rest) = >>=-eq-some (get_elem? m i) _ h in
      let (k', gone, last) = >>=-eq-some (exit k) _ rest in
      let same : set m i k' ≡ m' = cc in
      (subst (All P) same (All-set P m i k' all (exits k k' (All-get P m i k all there) gone)), cc)
