-- ===== src/FileSys/System/Entries.antt =====
-- filesys/filesys.cc: the entries of a directory whose files are apart.
use csci350_project.Base.{
  ℕ, zero, suc, ◌≡◌, refl, sym, ap, subst, ◌∙◌, arith, true, not, ◌&&◌, Bool-cases, ◌⊎◌, inl, inr,
  List, [], ◌∷◌, Option, none, some, ==_self, get_elem?,
}
use csci350_project.Base.Int.{ℤ, pos, negsuc}
use csci350_project.FileSys.FileHeader.{FileHeader}
use csci350_project.FileSys.Directory.{DirectoryEntry, Directory, find_index, find, release_entry}
use csci350_project.FileSys.Directory.Lookup.{index-search, find-search}
use csci350_project.FileSys.OpenFile.{OpenFile}
use csci350_project.FileSys.System.{FileSystem, open_file}
use csci350_project.FileSys.System.Space.{file_takes, taken, IsFile, Separate}

pub open_file_found :
    (fs : FileSystem) (name : List ℕ) (s : ℕ)
    → find fs.directory name ≡ pos s
    → open_file fs name ≡ some (record { hdr = fs.headers s; seek_position = 0 })
unfolding open_file
open_file_found fs name s h = rw (open_file, h) refl

pub open_file_missing :
    (fs : FileSystem) (name : List ℕ) (s : ℕ)
    → find fs.directory name ≡ negsuc s
    → open_file fs name ≡ none
unfolding open_file
open_file_missing fs name s h = rw (open_file, h) refl

abbrev pub opened : (ℕ → FileHeader) → ℤ → Option OpenFile
opened hs (pos s) = some (record { hdr = hs s; seek_position = 0 })
opened hs (negsuc s) = none

-- What a name opens is what stands in the sector that it leads to.
pub open_file_lem :
    (fs : FileSystem) (name : List ℕ)
    → open_file fs name ≡ opened fs.headers (find fs.directory name)
open_file_lem fs name = at (find fs.directory name) refl
  where
    at : (z : ℤ) → find fs.directory name ≡ z → open_file fs name ≡ opened fs.headers z
    at (pos s) h = open_file_found fs name s h
    at (negsuc s) h = open_file_missing fs name s h

-- The entry that a name leads to is in use.
pub index-in_use :
    (t : Directory) (name : List ℕ) (i : ℕ) (e : DirectoryEntry)
    → find_index t name ≡ some i
    → get_elem? t i ≡ some e
    → e.in_use ≡ true
unfolding find_index
index-in_use [] name i e h q = cc
index-in_use (x ∷ xs) name zero e h q = ground arith
index-in_use (x ∷ xs) name (suc i) e h q = index-in_use xs name i e (ground arith) q

-- An entry in use is a file's, and its sectors are among those taken.
pub entry-taken :
    (hs : ℕ → FileHeader) (t : Directory) (i k : ℕ) (e : DirectoryEntry)
    → get_elem? t i ≡ some e
    → e.in_use ≡ true
    → file_takes hs e.sector k ≡ true
    → taken hs t k ≡ true
entry-taken hs [] i k e h u takes = cc
entry-taken hs (x ∷ xs) zero k e h u takes = ground arith
entry-taken hs (x ∷ xs) (suc i) k e h u takes =
    rw (entry-taken hs xs i k e h u takes) (ground arith)

pub entry-IsFile :
    (hs : ℕ → FileHeader) (size : ℕ) (t : Directory) (i : ℕ) (e : DirectoryEntry)
    → Separate hs size t
    → get_elem? t i ≡ some e
    → e.in_use ≡ true
    → IsFile hs size e.sector
entry-IsFile hs size [] i e sep h u = cc
entry-IsFile hs size (x ∷ xs) zero e sep h u =
    let same : x ≡ e = cc in
    subst (λ d. IsFile hs size d.sector) same (sep.0 (ap (λ d. d.in_use) same ∙ u)).0
entry-IsFile hs size (x ∷ xs) (suc i) e sep h u = entry-IsFile hs size xs i e sep.1 h u

-- Without an entry, what its file took is no longer taken.
pub taken-release_entry :
    (hs : ℕ → FileHeader) (size : ℕ) (t : Directory) (i k : ℕ) (e : DirectoryEntry)
    → Separate hs size t
    → get_elem? t i ≡ some e
    → e.in_use ≡ true
    → taken hs (release_entry t i) k ≡ (taken hs t k && not (file_takes hs e.sector k))
unfolding release_entry
taken-release_entry hs size [] i k e sep h u = cc
taken-release_entry hs size (x ∷ xs) zero k e sep h u =
    let same : x ≡ e = cc in
    let own : file_takes hs x.sector k ≡ file_takes hs e.sector k =
      ap (λ d. file_takes hs d.sector k) same in
    let used : x.in_use ≡ true = ap (λ d. d.in_use) same ∙ u in ground (arith, (sep.0 used).1 k)
taken-release_entry hs size (x ∷ xs) (suc i) k e sep h u =
    let later = entry-taken hs xs i k e h u in
    let rest = taken-release_entry hs size xs i k e sep.1 h u in
    elim (Bool-cases x.in_use) [
      | inl used ↦ ground (arith, (sep.0 used).1 k, later, rest)
      | inr free ↦ ground (arith, rest)
    ]

pub Separate-release_entry :
    (hs : ℕ → FileHeader) (size : ℕ) (t : Directory) (i : ℕ) (e : DirectoryEntry)
    → Separate hs size t
    → get_elem? t i ≡ some e
    → e.in_use ≡ true
    → Separate hs size (release_entry t i)
unfolding release_entry
Separate-release_entry hs size [] i e sep h u = cc
Separate-release_entry hs size (x ∷ xs) zero e sep h u = ((λ v. cc), sep.1)
Separate-release_entry hs size (x ∷ xs) (suc i) e sep h u = (
  (λ v.
      let (file, alone) = sep.0 v in
      (file, λ k takes. taken-release_entry hs size xs i k e sep.1 h u ∙ rw (alone k takes) refl)),
  Separate-release_entry hs size xs i e sep.1 h u,
)

-- A name that is found leads to a file, whose sectors are among those taken.
pub record Entry (fs : FileSystem) (name : List ℕ) (s : ℕ) : Type 0 where
  pub index : ℕ
  pub at : find_index fs.directory name ≡ some index
  pub entry : DirectoryEntry
  pub there : get_elem? fs.directory index ≡ some entry
  pub in_use : entry.in_use ≡ true
  pub names : entry.sector ≡ pos s

pub find-Entry :
    (fs : FileSystem) (name : List ℕ) (s : ℕ) → find fs.directory name ≡ pos s → Entry fs name s
find-Entry fs name s h = elim (index-search fs.directory name) [
  | inl (p, q) ↦ absurd (ground (arith, find-search fs.directory name))
  | inr (i, e, p, q, r) ↦ record {
    index = i;
    at = p;
    entry = e;
    there = q;
    in_use = index-in_use fs.directory name i e p q;
    names = ground (arith, find-search fs.directory name);
  }
]

-- A name leads to the sector of a file, or to none.
pub find-cases :
    (fs : FileSystem) (size : ℕ) (name : List ℕ)
    → Separate fs.headers size fs.directory
    → (find fs.directory name ≡ negsuc 0) ⊎ ((s : ℕ) × (find fs.directory name ≡ pos s))
find-cases fs size name sep = elim (index-search fs.directory name) [
  | inl (p, q) ↦ inl (find-search fs.directory name ∙ rw q refl)
  | inr (i, e, p, q, r) ↦
      let file =
        entry-IsFile fs.headers size fs.directory i e sep q
          (index-in_use fs.directory name i e p q) in
      inr (sector_of fs.headers size e.sector file (find-search fs.directory name ∙ rw r refl))
]
  where
    sector_of :
        (hs : ℕ → FileHeader) (size : ℕ) (at : ℤ)
        → IsFile hs size at
        → find fs.directory name ≡ at
        → (s : ℕ) × (find fs.directory name ≡ pos s)
    sector_of hs size (pos s) file e = (s, e)
    sector_of hs size (negsuc s) file e = elim file [ ]

-- What a name opens stands in the sector that it leads to.
pub open-found :
    (fs : FileSystem) (name : List ℕ) (file : OpenFile)
    → open_file fs name ≡ some file
    → (s : ℕ) × (find fs.directory name ≡ pos s) × (fs.headers s ≡ file.hdr)
open-found fs name file h = at (find fs.directory name) refl (sym (open_file_lem fs name) ∙ h)
  where
    at :
        (z : ℤ)
        → find fs.directory name ≡ z
        → opened fs.headers (find fs.directory name) ≡ some file
        → (s : ℕ) × (find fs.directory name ≡ pos s) × (fs.headers s ≡ file.hdr)
    at (pos s) e o =
        let read : some (record { hdr = fs.headers s; seek_position = 0 }) ≡ some file =
          sym (ap (opened fs.headers) e) ∙ o in
        (s, e, ap (λ x. elim x [ none ↦ fs.headers s | some f ↦ f.hdr ]) read)
    at (negsuc s) e o = let no_file : none ≡ some file = sym (ap (opened fs.headers) e) ∙ o in cc

-- A name that is found leads to a sector that is taken.
pub find-taken :
    (fs : FileSystem) (name : List ℕ) (s : ℕ)
    → find fs.directory name ≡ pos s
    → taken fs.headers fs.directory s ≡ true
find-taken fs name s h =
    let found = find-Entry fs name s h in
    entry-taken fs.headers fs.directory found.index s found.entry found.there found.in_use
      (ap (λ at. file_takes fs.headers at s) found.names ∙ rw (==_self s) refl)
