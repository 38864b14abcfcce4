-- ===== src/FileSys/Directory/Laws.antt =====
-- filesys/directory.cc: the directory is a map from names to sectors, and its methods keep it one.
use csci350_project.Base.{
  ℕ, zero, suc, ◌≡◌, refl, Bool, true, false, not, ◌&&◌, List, [], ◌∷◌, none, some, arith,
  if◌then◌else◌, inl, inr,
}
use csci350_project.Base.Int.{ℤ, minus_one}
use csci350_project.FileSys.Directory.{
  file_name_max_len, DirectoryEntry, Directory, init, find_index, find, add, release_entry, remove,
}
use csci350_project.FileSys.Directory.Lookup.{
  same_name, search, index-search, find-search, has_free, Unique, add_entry_lem, other_name,
  search_cong, strncmp_eq_trans,
}

abbrev pub is_present : Directory → List ℕ → Bool
is_present t name = elim (search t name) [ none ↦ false | some _ ↦ true ]

-- `Add` answers TRUE exactly where the name is not there and an entry is free. If it does, the names
-- that agree with the new one are found at its sector afterwards; all others are found as before.
pub find-add :
    (t : Directory) (name other : List ℕ) (s : ℤ)
    → let (ok, t') = add t name s in
      (ok ≡ (not (is_present t name) && has_free t))
      × (find t' other ≡ (if ok && same_name name other then s else find t other))
unfolding add
find-add t name other s = elim (index-search t name) [
  | inr (i, e, p, q, r) ↦ ground arith
  | inl (p, q) ↦ elim (add_entry_lem t name s q) [
    | inl (e, full) ↦ ground arith
    | inr (t', e, room, f, keeps) ↦
        ground (arith, f other, find-search t other, find-search t' other)
  ]
]

pub search-init : (t : List DirectoryEntry) (name : List ℕ) → search (init t) name ≡ none
unfolding init
search-init [] name = refl
search-init (e ∷ es) name = search-init es name

pub init-Unique : (t : List DirectoryEntry) → Unique (init t)
unfolding init
init-Unique [] = tt
init-Unique (e ∷ es) = ((λ h. cc), init-Unique es)

search-release_entry :
    (t : Directory) (name other : List ℕ) (i : ℕ)
    → Unique t
    → find_index t name ≡ some i
    → search (release_entry t i) other ≡ (if same_name name other then none else search t other)
unfolding find_index release_entry
search-release_entry [] name other i u h = cc
search-release_entry (x ∷ xs) name other zero u h = ground (
  arith,
  search_cong xs name other,
  search_cong xs x.name name,
  strncmp_eq_trans file_name_max_len x.name name other,
  u.0,
)
search-release_entry (x ∷ xs) name other (suc i) u h =
    ground (arith, search-release_entry xs name other i u.1, other_name x name other)

search-release_entry-none :
    (t : Directory) (a : List ℕ) (i : ℕ) → search t a ≡ none → search (release_entry t i) a ≡ none
unfolding release_entry
search-release_entry-none [] a i h = refl
search-release_entry-none (x ∷ xs) a zero h = ground arith
search-release_entry-none (x ∷ xs) a (suc i) h = ground (arith, search-release_entry-none xs a i)

release_entry-Unique : (t : Directory) (i : ℕ) → Unique t → Unique (release_entry t i)
unfolding release_entry
release_entry-Unique [] i u = tt
release_entry-Unique (x ∷ xs) zero u = ((λ h. cc), u.1)
release_entry-Unique (x ∷ xs) (suc i) u =
    ((λ used. search-release_entry-none xs x.name i (u.0 used)), release_entry-Unique xs i u.1)

-- `Add` keeps names unique.
pub add-Unique : (t : Directory) (name : List ℕ) (s : ℤ) → Unique t → Unique (add t name s).1
unfolding add
add-Unique t name s u = elim (index-search t name) [
  | inr (i, e, p, q, r) ↦ rw (p, add) u
  | inl (p, q) ↦ elim (add_entry_lem t name s q) [
    | inl (e, full) ↦ rw (p, add) (rw (e, add) u)
    | inr (t', e, room, f, keeps) ↦ rw (p, add) (rw (e, add) (keeps u))
  ]
]

-- In a directory of unique names `Remove` answers whether the name is there, and afterwards it and the names that agree with it are
-- not found; the others are found as before.
pub find-remove :
    (t : Directory) (name other : List ℕ)
    → Unique t
    → let (ok, t') = remove t name in
      (ok ≡ is_present t name)
      × (find t' other ≡ (if same_name name other then minus_one else find t other))
unfolding remove
find-remove t name other u = elim (index-search t name) [
  | inr (i, e, p, q, r) ↦ ground (
    arith,
    search-release_entry t name other i u p,
    find-search t other,
    find-search (release_entry t i) other,
  )
  | inl (p, q) ↦ ground (arith, search_cong t name other, find-search t other)
]

-- `Remove` keeps names unique.
pub remove-Unique : (t : Directory) (name : List ℕ) → Unique t → Unique (remove t name).1
unfolding remove
remove-Unique t name u = elim (index-search t name) [
  | inr (i, e, p, q, r) ↦ rw (p, remove) (release_entry-Unique t i u)
  | inl (p, q) ↦ rw (p, remove) u
]
