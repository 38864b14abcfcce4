-- ===== src/FileSys/System/Steps.antt =====
-- filesys/filesys.cc: the disks that the constructor and the operations make, one after the other.
use csci350_project.Base.{
  ℕ, zero, suc, ◌*◌, ◌≤◌, ◌≡◌, ◌≢◌, refl, sym, ap, subst, ◌∙◌, arith, Bool, true, false, List, [],
  ◌∷◌, some, length, get_elem?,
}
use csci350_project.Base.Int.{pos}
use csci350_project.FileSys.FileHeader.{FileHeader, sector_size, num_direct}
use csci350_project.FileSys.FileHeader.Sectors.{uses}
use csci350_project.FileSys.Directory.{
  DirectoryEntry, Directory, find, find_index, file_name_max_len,
}
use csci350_project.FileSys.Directory.Lookup.{same_name, strncmp_eq_trans}
use csci350_project.FileSys.OpenFile.{OpenFile}
use csci350_project.FileSys.System.{FileSystem, format, create, open_file, remove, num_sectors}
use csci350_project.FileSys.System.Space.{file_takes, Separate, IsConsistent}
use csci350_project.FileSys.System.Entries.{entry-taken, find-Entry, open-found}
use csci350_project.FileSys.System.Create.{refused, created, create-CreateOutcome}
use csci350_project.FileSys.System.Remove.{absent, removed, remove-RemoveOutcome}
use csci350_project.FileSys.System.Format.{system_sectors, format_lem}

-- The disks that `Create`, for sizes that a header's table holds, and `Remove` make of `start`.
pub data Reaches (start : FileSystem) : FileSystem → Type 0 where
  begin : Reaches start start
  creates :
      (fs fs' : FileSystem) (fresh : FileHeader) (name : List ℕ) (size : ℕ) (ok : Bool)
      → Reaches start fs
      → length fresh.data_sectors ≡ num_direct
      → size ≤ num_direct * sector_size
      → create fs fresh name size ≡ some (ok, fs')
      → Reaches start fs'
  removes :
      (fs fs' : FileSystem) (name : List ℕ) (ok : Bool)
      → Reaches start fs
      → remove fs name ≡ some (ok, fs')
      → Reaches start fs'

Reaches-keeps :
    (system : ℕ → Bool) (start fs : FileSystem)
    → Reaches start fs
    → IsConsistent system start
    → IsConsistent system fs
Reaches-keeps system start fs begin h = h
Reaches-keeps system start last (creates fs fs' fresh name size ok before table fits e) h =
    let now = Reaches-keeps system start fs before h in
    elim (create-CreateOutcome system fs fresh name size now table fits) [
      | refused r ↦ let same : fs ≡ fs' = cc in subst (IsConsistent system) same now
      | created fs1 r made ↦
          let same : fs1 ≡ fs' = cc in subst (IsConsistent system) same made.consistent
    ]
Reaches-keeps system start last (removes fs fs' name ok before e) h =
    let now = Reaches-keeps system start fs before h in
    elim (remove-RemoveOutcome system fs name now) [
      | absent closed r ↦ let same : fs ≡ fs' = cc in subst (IsConsistent system) same now
      | removed file opens fs1 r left ↦
          let same : fs1 ≡ fs' = cc in subst (IsConsistent system) same left.consistent
    ]

-- With memory of 1024 bits at least for the map and two new headers with tables of `NumDirect`
-- entries, every disk that is made of a formatted one is in order: a sector is marked in the free map exactly
-- where the system or a file takes it, no two files take the same one, and none takes the system's.
pub Reaches-IsConsistent :
    (memory : List ℕ) (table : List DirectoryEntry) (map_hdr dir_hdr : FileHeader)
    (headers : ℕ → FileHeader) (start fs : FileSystem)
    → num_sectors ≤ 32 * length memory
    → length map_hdr.data_sectors ≡ num_direct
    → length dir_hdr.data_sectors ≡ num_direct
    → format memory table map_hdr dir_hdr headers ≡ some start
    → Reaches start fs
    → IsConsistent (system_sectors start.headers) fs
Reaches-IsConsistent memory table map_hdr dir_hdr headers start fs words h1 h2 e made =
    let (first, done, ok, none_there) =
      format_lem memory table map_hdr dir_hdr headers words h1 h2 in
    let same : first ≡ start = cc in
    Reaches-keeps (system_sectors start.headers) start fs made
      (subst (λ x. IsConsistent (system_sectors x.headers) x) same ok)

-- Of two entries in use the files are apart.
entries-apart :
    (hs : ℕ → FileHeader) (size : ℕ) (t : Directory) (i j k : ℕ) (d e : DirectoryEntry)
    → Separate hs size t
    → i ≢ j
    → get_elem? t i ≡ some d
    → get_elem? t j ≡ some e
    → d.in_use ≡ true
    → e.in_use ≡ true
    → file_takes hs d.sector k ≡ true
    → file_takes hs e.sector k ≡ false
entries-apart hs size [] i j k d e sep ne p q u v takes = cc
entries-apart hs size (x ∷ xs) zero zero k d e sep ne p q u v takes = absurd (ne refl)
entries-apart hs size (x ∷ xs) zero (suc j) k d e sep ne p q u v takes =
    let same : x ≡ d = cc in
    let alone =
      (sep.0 (ap (λ y. y.in_use) same ∙ u)).1 k (ap (λ y. file_takes hs y.sector k) same ∙ takes) in
    let later = entry-taken hs xs j k e q v in ground arith
entries-apart hs size (x ∷ xs) (suc i) zero k d e sep ne p q u v takes =
    let same : x ≡ e = cc in
    let alone = (sep.0 (ap (λ y. y.in_use) same ∙ v)).1 k in
    let later = entry-taken hs xs i k d p u takes in
    let own : file_takes hs x.sector k ≡ file_takes hs e.sector k =
      ap (λ y. file_takes hs y.sector k) same in
    ground arith
entries-apart hs size (x ∷ xs) (suc i) (suc j) k d e sep ne p q u v takes =
    entries-apart hs size xs i j k d e sep.1 (λ same. ne (ap suc same)) p q u v takes

-- The entry that a name leads to has a name that agrees with it.
index-matches :
    (t : Directory) (name : List ℕ) (i : ℕ) (e : DirectoryEntry)
    → find_index t name ≡ some i
    → get_elem? t i ≡ some e
    → same_name e.name name ≡ true
unfolding find_index
index-matches [] name i e h q = cc
index-matches (x ∷ xs) name zero e h q = ground arith
index-matches (x ∷ xs) name (suc i) e h q = index-matches xs name i e (ground arith) q

-- Names that do not agree lead to files that take no sector both.
sectors-apart :
    (system : ℕ → Bool) (fs : FileSystem) (a b : List ℕ) (s n k : ℕ)
    → IsConsistent system fs
    → find fs.directory a ≡ pos s
    → find fs.directory b ≡ pos n
    → same_name a b ≡ false
    → file_takes fs.headers (pos s) k ≡ true
    → file_takes fs.headers (pos n) k ≡ false
sectors-apart system fs a b s n k ok at_a at_b differ takes =
    let ea = find-Entry fs a s at_a in
    let eb = find-Entry fs b n at_b in
    let distinct : ea.index ≢ eb.index = λ same.
      let shared : ea.entry ≡ eb.entry = cc in
      let name_a = index-matches fs.directory a ea.index ea.entry ea.at ea.there in
      let name_b = index-matches fs.directory b ea.index ea.entry (rw same eb.at) ea.there in
      cc (strncmp_eq_trans file_name_max_len ea.entry.name a b name_a) in
    ap (λ z. file_takes fs.headers z k) (sym eb.names)
    ∙ entries-apart fs.headers fs.free_map.num_bits fs.directory ea.index eb.index k ea.entry
        eb.entry ok.separate distinct ea.there eb.there ea.in_use eb.in_use
        (ap (λ z. file_takes fs.headers z k) ea.names ∙ takes)

-- On a disk in order, the files that two names open share no sector where the names do not agree.
pub open_file-apart :
    (system : ℕ → Bool) (fs : FileSystem) (a b : List ℕ) (file_a file_b : OpenFile) (k : ℕ)
    → IsConsistent system fs
    → open_file fs a ≡ some file_a
    → open_file fs b ≡ some file_b
    → same_name a b ≡ false
    → uses file_a.hdr.data_sectors file_a.hdr.num_sectors k ≡ true
    → uses file_b.hdr.data_sectors file_b.hdr.num_sectors k ≡ false
open_file-apart system fs a b file_a file_b k ok open_a open_b differ own =
    let (s, at_a, hdr_a) = open-found fs a file_a open_a in
    let (n, at_b, hdr_b) = open-found fs b file_b open_b in
    let takes : file_takes fs.headers (pos s) k ≡ true = rw (hdr_a, own) (ground arith) in
    let apart = sectors-apart system fs a b s n k ok at_a at_b differ takes in
    ap (λ h. uses h.data_sectors h.num_sectors k) (sym hdr_b) ∙ ground arith
