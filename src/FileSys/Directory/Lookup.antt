-- ===== src/FileSys/Directory/Lookup.antt =====
-- filesys/directory.cc seen as a finite map from names to sectors. Two names are one file's where
-- they agree as far as `strncmp` looks.
use csci350_project.Base.{
  ℕ, zero, suc, ◌≡◌, refl, ◌∙◌, Bool, true, false, not, ◌||◌, List, [], ◌∷◌, Option, none, some,
  arith, if◌then◌else◌, Bool-cases, get_elem?, ◌⊎◌, inl, inr,
}
use csci350_project.Base.Int.{ℤ, minus_one}
use csci350_project.FileSys.Directory.{
  file_name_max_len, next_chars, strncmp_eq, strncpy, DirectoryEntry, Directory, matches,
  find_index, find, add_entry,
}

-- Names that compare equal cannot be told apart by a third.
pub strncmp_eq_trans :
    (n : ℕ) (a b c : List ℕ) → strncmp_eq n a b ≡ true → strncmp_eq n a c ≡ strncmp_eq n b c
unfolding strncmp_eq
strncmp_eq_trans zero a b c h = refl
strncmp_eq_trans (suc n) a b c h =
    ground (arith, strncmp_eq_trans n (next_chars a) (next_chars b) (next_chars c))

pub strncmp_eq_symm : (n : ℕ) (a b : List ℕ) → strncmp_eq n a b ≡ strncmp_eq n b a
unfolding strncmp_eq
strncmp_eq_symm zero a b = refl
strncmp_eq_symm (suc n) a b = ground (arith, strncmp_eq_symm n (next_chars a) (next_chars b))

-- A copy made by `strncpy` compares as the original.
pub strncmp_eq-strncpy :
    (n : ℕ) (dst src c : List ℕ) → strncmp_eq n (strncpy n dst src) c ≡ strncmp_eq n src c
unfolding strncmp_eq strncpy
strncmp_eq-strncpy zero dst src c = refl
strncmp_eq-strncpy (suc n) dst src c =
    rw (strncmp_eq-strncpy n (next_chars dst) (next_chars src) (next_chars c))

pub strncmp_eq_refl : (n : ℕ) (a : List ℕ) → strncmp_eq n a a ≡ true
unfolding strncmp_eq
strncmp_eq_refl zero a = refl
strncmp_eq_refl (suc n) a = ground (arith, strncmp_eq_refl n (next_chars a))

abbrev pub same_name : List ℕ → List ℕ → Bool
same_name a b = strncmp_eq file_name_max_len a b

-- The sector that the first matching entry names.
abbrev pub search : Directory → List ℕ → Option ℤ
search [] name = none
search (e ∷ es) name = if matches name e then some e.sector else search es name

-- Names that agree find the same.
pub search_cong : (t : Directory) (a b : List ℕ) → same_name a b ≡ true → search t a ≡ search t b
search_cong [] a b h = refl
search_cong (e ∷ es) a b h = ground (
  arith,
  search_cong es a b h,
  strncmp_eq_trans file_name_max_len a b e.name h,
  strncmp_eq_symm file_name_max_len a e.name,
  strncmp_eq_symm file_name_max_len b e.name,
)

pub search-strncpy :
    (t : Directory) (dst name : List ℕ)
    → search t (strncpy file_name_max_len dst name) ≡ search t name
search-strncpy t dst name =
    search_cong t _ name
      (strncmp_eq-strncpy file_name_max_len dst name name ∙ strncmp_eq_refl file_name_max_len name)

-- The result of `FindIndex` leads to that entry.
pub index-search :
    (t : Directory) (name : List ℕ)
    → ((find_index t name ≡ none) × (search t name ≡ none))
      ⊎ ((i : ℕ) × (e : DirectoryEntry) × (find_index t name ≡ some i)
          × (get_elem? t i ≡ some e)
          × (search t name ≡ some e.sector))
unfolding find_index
index-search [] name = inl (refl, refl)
index-search (e ∷ es) name = elim (Bool-cases (matches name e)) [
  | inl yes_here ↦ inr (0, e, rw yes_here, refl, rw yes_here)
  | inr not_here ↦ elim (index-search es name) [
    | inl (p, q) ↦ inl (rw (not_here, p), rw not_here q)
    | inr (i, x, p, q, r) ↦ inr (suc i, x, rw (not_here, p), q, rw not_here r)
  ]
]

abbrev pub or_minus_one : Option ℤ → ℤ
or_minus_one none = minus_one
or_minus_one (some s) = s

pub find-search : (t : Directory) (name : List ℕ) → find t name ≡ or_minus_one (search t name)
unfolding find
find-search t name = ground (arith, index-search t name)

matches-taken :
    (e : DirectoryEntry) (name other : List ℕ) (s : ℤ)
    → matches other
        (record e { in_use = true; name = strncpy file_name_max_len e.name name; sector = s })
      ≡ same_name name other
matches-taken e name other s = strncmp_eq-strncpy file_name_max_len e.name name other

-- An entry in use under another name does not answer to names that agree with `name`.
pub other_name :
    (e : DirectoryEntry) (name other : List ℕ)
    → matches name e ≡ false
    → matches other e ≡ true
    → same_name name other ≡ false
other_name e name other h k = ground (
  arith,
  strncmp_eq_symm file_name_max_len name other,
  strncmp_eq_trans file_name_max_len e.name other name,
  strncmp_eq_symm file_name_max_len other name,
)

-- No two entries in use have names that agree.
abbrev pub Unique : Directory → Type 0
Unique [] = Unit {0}
Unique (e ∷ es) = (e.in_use ≡ true → search es e.name ≡ none) × Unique es

-- There is an entry that no file uses.
abbrev pub has_free : Directory → Bool
has_free [] = false
has_free (e ∷ es) = not e.in_use || has_free es

not_found :
    (x : DirectoryEntry) (xs : Directory) (name : List ℕ)
    → search (x ∷ xs) name ≡ none
    → (matches name x ≡ false) × (search xs name ≡ none)
not_found x xs name h = ground arith

-- For a name that is not there, the loop of `Add` fails only on a full table, and otherwise makes
-- the table answer to that name and to those that agree with it, and to no other anew.
pub add_entry_lem :
    (t : Directory) (name : List ℕ) (s : ℤ)
    → search t name ≡ none
    → ((add_entry t name s ≡ none) × (has_free t ≡ false))
      ⊎ ((t' : Directory) × (add_entry t name s ≡ some t')
          × (has_free t ≡ true)
          × ((other : List ℕ)
              → search t' other ≡ (if same_name name other then some s else search t other))
          × (Unique t → Unique t'))
unfolding add_entry
add_entry_lem [] name s h = inl (refl, refl)
add_entry_lem (x ∷ xs) name s h = elim (Bool-cases x.in_use) [
  | inr free ↦ inr (
    record x { in_use = true; name = strncpy file_name_max_len x.name name; sector = s } ∷ xs,
    rw free,
    rw free,
    (λ other. rw (matches-taken x name other s, free)),
    λ u. ((λ _. search-strncpy xs x.name name ∙ (not_found x xs name h).1), u.1),
  )
  | inl used ↦
      let (clean, h') = not_found x xs name h in
      elim (add_entry_lem xs name s h') [
        | inl (e, full) ↦ inl (ground arith, ground arith)
        | inr (t', e, room, f, keeps) ↦ inr (
          x ∷ t',
          ground arith,
          ground arith,
          (λ other. ground (arith, f other, other_name x name other clean)),
          λ u. (
            (λ _.
                ground (arith, f x.name, strncmp_eq_symm file_name_max_len name x.name, u.0 used)),
            keeps u.1,
          ),
        )
      ]
]
