-- ===== src/Threads/Chain/Order.antt =====
-- threads/list.cc seen as a queue, and as a list sorted by its keys.
use csci350_project.Base.{
  ℕ, ◌≤◌, ◌<◌, ◌≡◌, refl, ap, arith, List, [], ◌∷◌, ◌++◌, true, ltb, if◌then◌else◌, Bool-cases, inl,
  inr, lt→ltb,
}
use csci350_project.Threads.Chain.{ListElement, append, sorted_insert, items}

module _ {ℓ} {A : Type ℓ} where
  -- `Append` puts the item behind all others.
  pub items-append :
      (es : List (ListElement A)) (x : A) → items (append es x) ≡ items es ++ (x ∷ [])
  unfolding append
  items-append [] x = refl
  items-append (e ∷ es) x = ap (◌∷◌ e.item) (items-append es x)

  -- No element has a smaller key than `k`.
  abbrev pub AtLeast : ℕ → List (ListElement A) → Type 0
  AtLeast k [] = Unit {0}
  AtLeast k (e ∷ es) = (k ≤ e.key) × AtLeast k es

  abbrev pub Sorted : List (ListElement A) → Type 0
  Sorted [] = Unit {0}
  Sorted (e ∷ es) = AtLeast e.key es × Sorted es

  AtLeast-le : (j k : ℕ) (es : List (ListElement A)) → j ≤ k → AtLeast k es → AtLeast j es
  AtLeast-le j k [] h a = tt
  AtLeast-le j k (e ∷ es) h a = (omega (arith, a.0), AtLeast-le j k es h a.1)

  sorted_insert-AtLeast :
      (j k : ℕ) (x : A) (es : List (ListElement A))
      → j ≤ k
      → AtLeast j es
      → AtLeast j (sorted_insert es x k)
  unfolding sorted_insert
  sorted_insert-AtLeast j k x [] h a = (h, tt)
  sorted_insert-AtLeast j k x (e ∷ es) h a = elim (Bool-cases (ltb k e.key)) [
    | inl small ↦ rw small (h, a)
    | inr large ↦ rw large (a.0, sorted_insert-AtLeast j k x es h a.1)
  ]

  -- `SortedInsert` keeps the keys in order.
  pub sorted_insert-Sorted :
      (es : List (ListElement A)) (x : A) (k : ℕ) → Sorted es → Sorted (sorted_insert es x k)
  unfolding sorted_insert
  sorted_insert-Sorted [] x k s = (tt, tt)
  sorted_insert-Sorted (e ∷ es) x k s = elim (Bool-cases (ltb k e.key)) [
    | inl small ↦
        let le : k ≤ e.key = ground arith in rw small ((le, AtLeast-le k e.key es le s.0), s)
    | inr large ↦
        let le : e.key ≤ k = ground arith in
        rw large (sorted_insert-AtLeast e.key k x es le s.0, sorted_insert-Sorted es x k s.1)
  ]

  -- The elements with a key above `k`, and the others.
  abbrev pub upper : ℕ → List (ListElement A) → List (ListElement A)
  upper k [] = []
  upper k (e ∷ es) = if ltb k e.key then e ∷ upper k es else upper k es

  abbrev pub lower : ℕ → List (ListElement A) → List (ListElement A)
  lower k [] = []
  lower k (e ∷ es) = if ltb k e.key then lower k es else e ∷ lower k es

  all_upper :
      (j k : ℕ) (es : List (ListElement A))
      → k < j
      → AtLeast j es
      → (lower k es ≡ []) × (upper k es ≡ es)
  all_upper j k [] h a = (refl, refl)
  all_upper j k (e ∷ es) h a =
      let (low, high) = all_upper j k es h a.1 in
      let over : ltb k e.key ≡ true = lt→ltb k e.key (omega (arith, a.0)) in
      (rw over low, rw over (ap (◌∷◌ e) high))

  -- In a sorted list the new element goes behind all elements with a key up to its own, and in front
  -- of all with a larger one: equal keys stay in the order of their arrival.
  pub sorted_insert-lower :
      (es : List (ListElement A)) (x : A) (k : ℕ)
      → Sorted es
      → sorted_insert es x k ≡ lower k es ++ (record { item = x; key = k } ∷ upper k es)
  unfolding sorted_insert
  sorted_insert-lower [] x k s = refl
  sorted_insert-lower (e ∷ es) x k s = elim (Bool-cases (ltb k e.key)) [
    | inl small ↦ let (low, high) = all_upper e.key k es (ground arith) s.0 in rw (small, low, high)
    | inr large ↦ rw (large, sorted_insert-lower es x k s.1)
  ]
