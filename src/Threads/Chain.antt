-- ===== src/Threads/Chain.antt =====
-- threads/list.cc: the elements that `next` chains, from `first` to `last`. A key is a time.
pub mod Order
use csci350_project.Base.{
  ℕ, List, [], ◌∷◌, ◌++◌, Bool, true, false, Option, none, some, ltb, if◌then◌else◌, ◌≡◌, refl, ◌⊎◌,
  inl, inr,
}

-- `ListElement`, without `next`.
pub record ListElement {ℓ} (A : Type ℓ) : Type ℓ where
  pub item : A
  pub key : ℕ

module _ {ℓ} {A : Type ℓ} where
  abbrev pub is_empty : List (ListElement A) → Bool
  is_empty [] = true
  is_empty (e ∷ es) = false

  unfoldable pub append : List (ListElement A) → A → List (ListElement A)
  append [] x = record { item = x; key = 0 } ∷ []
  append (e ∷ es) x = e ∷ append es x

  pub prepend : List (ListElement A) → A → List (ListElement A)
  prepend es x = record { item = x; key = 0 } ∷ es

  -- The walk of `SortedInsert`: to the first element with a larger key.
  unfoldable pub sorted_insert : List (ListElement A) → A → ℕ → List (ListElement A)
  sorted_insert [] x k = record { item = x; key = k } ∷ []
  sorted_insert (e ∷ es) x k =
      let rest = sorted_insert es x k in
      if ltb k e.key then record { item = x; key = k } ∷ e ∷ es else e ∷ rest

  abbrev pub sorted_remove : List (ListElement A) → Option (ListElement A × List (ListElement A))
  sorted_remove [] = none
  sorted_remove (e ∷ es) = some (e, es)

  -- `List::Remove`
  abbrev pub remove : List (ListElement A) → Option (A × List (ListElement A))
  remove [] = none
  remove (e ∷ es) = some (e.item, es)

  -- What the list holds, in order.
  abbrev pub items : List (ListElement A) → List A
  items [] = []
  items (e ∷ es) = e.item ∷ items es

  pub remove-cases :
      (es : List (ListElement A))
      → (es ≡ []) ⊎ ((e : ListElement A) × (rest : List (ListElement A)) × (es ≡ e ∷ rest))
  remove-cases [] = inl refl
  remove-cases (e ∷ es) = inr (e, es, refl)
