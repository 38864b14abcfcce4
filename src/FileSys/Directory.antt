-- ===== src/FileSys/Directory.antt =====
-- filesys/directory.h and directory.cc: a table of fixed length from file names to the sectors of
-- their headers. A C string is the list of its characters, the closing NUL left out.
pub mod Lookup
pub mod Laws
use csci350_project.Base.{
  ℕ, zero, suc, Bool, true, false, not, ◌&&◌, List, [], ◌∷◌, Option, none, some, ◌==◌,
  if◌then◌else◌, get_elem?, set, length,
}
use csci350_project.Base.Int.{ℤ, pos, negsuc, minus_one}

abbrev pub file_name_max_len : ℕ
file_name_max_len = 9

-- The character under a pointer, NUL at the end of the string, and the pointer moved on.
abbrev pub head_char : List ℕ → ℕ
head_char [] = 0
head_char (c ∷ cs) = c

abbrev pub next_chars : List ℕ → List ℕ
next_chars [] = []
next_chars (c ∷ cs) = cs

-- C's `!strncmp(a, b, n)`: no difference in the first `n` characters, or up to a common NUL.
unfoldable pub strncmp_eq : ℕ → List ℕ → List ℕ → Bool
strncmp_eq zero a b = true
strncmp_eq (suc n) a b =
    let rest = strncmp_eq n (next_chars a) (next_chars b) in
    if head_char a == head_char b then (if head_char a == 0 then true else rest) else false

-- C's `strncpy(dst, src, n)`: `n` characters, NULs once `src` has ended; `dst` beyond is kept.
unfoldable pub strncpy : ℕ → List ℕ → List ℕ → List ℕ
strncpy zero dst src = dst
strncpy (suc n) dst src = head_char src ∷ strncpy n (next_chars dst) (next_chars src)

pub record DirectoryEntry : Type 0 where
  pub in_use : Bool
  pub sector : ℤ
  pub name : List ℕ

-- `tableSize` is the length of the table.
abbrev pub Directory : Type 0
Directory = List DirectoryEntry

-- The constructor: every entry is made free, its other fields are as the memory was.
unfoldable pub init : List DirectoryEntry → Directory
init [] = []
init (e ∷ es) = record e { in_use = false } ∷ init es

-- The test of the loop in `FindIndex`.
abbrev pub matches : List ℕ → DirectoryEntry → Bool
matches name e = e.in_use && strncmp_eq file_name_max_len e.name name

-- `Directory::FindIndex`; `none` is its -1.
unfoldable pub find_index : Directory → List ℕ → Option ℕ
find_index [] name = none
find_index (e ∷ es) name =
    let rest = find_index es name in
    if matches name e then some 0 else elim rest [ none ↦ none | some i ↦ some (suc i) ]

-- `Directory::Find`
unfoldable pub find : Directory → List ℕ → ℤ
find table name = elim (find_index table name) [
  | none ↦ minus_one
  | some i ↦ elim (get_elem? table i) [ none ↦ minus_one | some e ↦ e.sector ]
]

-- The loop of `Add`, over the entries: the first free one is taken.
unfoldable pub add_entry : Directory → List ℕ → ℤ → Option Directory
add_entry [] name new_sector = none
add_entry (e ∷ es) name new_sector =
    let rest = add_entry es name new_sector in
    let taken = record e {
      in_use = true;
      name = strncpy file_name_max_len e.name name;
      sector = new_sector;
    } in
    if not e.in_use
    then some (taken ∷ es)
    else elim rest [ none ↦ none | some es' ↦ some (e ∷ es') ]

-- `Directory::Add`: the answer and the table as it is left.
unfoldable pub add : Directory → List ℕ → ℤ → Bool × Directory
add table name new_sector = elim (find_index table name) [
  | some i ↦ (false, table)
  | none ↦ elim (add_entry table name new_sector) [
    | none ↦ (false, table)
    | some table' ↦ (true, table')
  ]
]

-- `table[i].inUse = FALSE`
unfoldable pub release_entry : Directory → ℕ → Directory
release_entry [] i = []
release_entry (e ∷ es) zero = record e { in_use = false } ∷ es
release_entry (e ∷ es) (suc i) = e ∷ release_entry es i

-- `Directory::Remove`
unfoldable pub remove : Directory → List ℕ → Bool × Directory
remove table name = elim (find_index table name) [
  | none ↦ (false, table)
  | some i ↦ (true, release_entry table i)
]
