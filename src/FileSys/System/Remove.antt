-- ===== src/FileSys/System/Remove.antt =====
-- filesys/filesys.cc, `Remove`.
use csci350_project.Base.{
  ℕ, ◌≡◌, refl, sym, ap, subst, ◌∙◌, arith, Bool, true, false, not, ◌&&◌, Bool-cases, inl, inr,
  List, Option, none, some, if◌then◌else◌,
}
use csci350_project.Base.Int.{pos, minus_one}
use csci350_project.BitMap.{BitMap}
use csci350_project.BitMap.Laws.{Updates, clear-Updates}
use csci350_project.FileSys.FileHeader.{FileHeader}
use csci350_project.FileSys.FileHeader.Sectors.{uses, Sectors, uses-entry}
use csci350_project.FileSys.FileHeader.Release.{Freed, deallocate-Freed}
use csci350_project.FileSys.Directory
use csci350_project.FileSys.Directory.{DirectoryEntry, Directory, file_name_max_len, release_entry}
use csci350_project.FileSys.Directory.Lookup.{Unique, same_name}
use csci350_project.FileSys.Directory.Laws.{find-remove, remove-Unique}
use csci350_project.FileSys.OpenFile.{OpenFile}
use csci350_project.FileSys.System.{FileSystem, open_file, remove}
use csci350_project.FileSys.System.Space.{
  file_takes, taken, IsFile, IsHeader, Separate, IsConsistent,
}
use csci350_project.FileSys.System.Entries.{
  opened, open_file_lem, open_file_found, open_file_missing, entry-taken, entry-IsFile,
  taken-release_entry, Separate-release_entry, Entry, find-Entry, find-cases,
}

-- `Remove` answered TRUE: the name and those that agree with it open no file, the others open what
-- they did, and the disk stays in order.
pub record Removed (system : ℕ → Bool) (fs fs' : FileSystem) (name : List ℕ) : Type 0 where
  pub consistent : IsConsistent system fs'
  pub gone : (other : List ℕ) → same_name name other ≡ true → open_file fs' other ≡ none
  pub others :
      (other : List ℕ) → same_name name other ≡ false → open_file fs' other ≡ open_file fs other
  pub same_disk : fs'.free_map.num_bits ≡ fs.free_map.num_bits

-- How `Remove` ends.
pub data RemoveOutcome (system : ℕ → Bool) (fs : FileSystem) (name : List ℕ)
    (r : Option (Bool × FileSystem)) : Type 0 where
  absent : open_file fs name ≡ none → r ≡ some (false, fs) → RemoveOutcome system fs name r
  removed :
      (file : OpenFile)
      → open_file fs name ≡ some file
      → (fs' : FileSystem) → r ≡ some (true, fs')
      → Removed system fs fs' name
      → RemoveOutcome system fs name r

-- The steps of `Remove` on a disk in order, for a name that is there.
module _ (system : ℕ → Bool) (fs : FileSystem) (ok : IsConsistent system fs) (name : List ℕ) (s : ℕ)
    (entry : Entry fs name s) where
  abbrev header : FileHeader
  header = fs.headers s

  abbrev left_over : Directory
  left_over = release_entry fs.directory entry.index

  same_takes :
      (k : ℕ) → file_takes fs.headers entry.entry.sector k ≡ file_takes fs.headers (pos s) k
  same_takes k = ap (λ at. file_takes fs.headers at k) entry.names

  own_file : IsHeader fs.free_map.num_bits s header
  own_file = subst (IsFile fs.headers fs.free_map.num_bits) entry.names (
      entry-IsFile fs.headers fs.free_map.num_bits fs.directory entry.index entry.entry ok.separate
        entry.there entry.in_use)

  own_taken :
      (k : ℕ) → file_takes fs.headers (pos s) k ≡ true → taken fs.headers fs.directory k ≡ true
  own_taken k h =
      entry-taken fs.headers fs.directory entry.index k entry.entry entry.there entry.in_use
        (same_takes k ∙ h)

  -- The entries of its table are distinct marked sectors.
  own-Sectors : Sectors true fs.free_map header.data_sectors header.num_sectors
  own-Sectors i lt =
      let p = own_file.names i lt in
      let used : uses header.data_sectors header.num_sectors p.sector ≡ true =
        uses-entry header.data_sectors header.num_sectors i p.sector lt p.entry in
      record {
        sector = p.sector;
        entry = p.entry;
        on_disk = p.on_disk;
        marked =
            ok.exact p.sector p.on_disk ∙ rw (own_taken p.sector (rw used (ground arith))) refl;
        fresh = p.fresh;
      }

  left_taken :
      (k : ℕ)
      → taken fs.headers left_over k
        ≡ (taken fs.headers fs.directory k && not (file_takes fs.headers (pos s) k))
  left_taken k =
      taken-release_entry fs.headers fs.free_map.num_bits fs.directory entry.index k entry.entry
        ok.separate entry.there entry.in_use
      ∙ ap (λ b. taken fs.headers fs.directory k && not b) (same_takes k)

  remove-IsConsistent :
      (m1 m2 : BitMap)
      → Freed fs.free_map m1 header.data_sectors header.num_sectors
      → Updates m1 m2 s false
      → Unique left_over
      → IsConsistent system (record fs { free_map = m2; directory = left_over })
  remove-IsConsistent m1 m2 f up unique =
      let size_same : m2.num_bits ≡ fs.free_map.num_bits = up.same_size ∙ f.same_size in
      record {
        valid = up.valid;
        unique = unique;
        separate =
            subst (λ n. Separate fs.headers n left_over) (sym size_same)
              (Separate-release_entry fs.headers fs.free_map.num_bits fs.directory entry.index
                entry.entry ok.separate entry.there entry.in_use);
        reserved = λ k own. left_taken k ∙ rw (ok.reserved k own) refl;
        exact = λ k h.
            let old = ok.exact k (omega (arith, size_same)) in
            let mine = own_taken k in
            let theirs = ok.reserved k in
            let left = left_taken k in
            let freed = f.members k in
            let now = up.member k in ground (arith, old, mine, theirs, left, freed, now);
      }

  directory_left : (Directory.remove fs.directory name).1 ≡ left_over
  unfolding Directory.remove
  directory_left = rw (Directory.remove, entry.at) refl

  -- What the names open afterwards; the headers stay.
  opens-remove :
      (fs' : FileSystem) (other : List ℕ)
      → fs'.directory ≡ left_over
      → fs'.headers ≡ fs.headers
      → open_file fs' other ≡ (if same_name name other then none else open_file fs other)
  opens-remove fs' other same headers =
      let finds : Directory.find fs'.directory other
          ≡ (if same_name name other then minus_one else Directory.find fs.directory other) =
        ap (λ t. Directory.find t other) (same ∙ sym directory_left)
        ∙ (find-remove fs.directory name other ok.unique).1 in
      let old = open_file_lem fs other in
      let new : open_file fs' other ≡ opened fs.headers (Directory.find fs'.directory other) =
        open_file_lem fs' other
        ∙ ap (λ hs. opened hs (Directory.find fs'.directory other)) headers in
      elim (Bool-cases (same_name name other)) [
        | inl agree ↦ new ∙ rw (finds, agree) refl
        | inr differ ↦ new ∙ rw (finds, differ, old) refl
      ]

-- On a disk in order `Remove` fails no ASSERT. Where the name opens no file it answers FALSE and
-- changes nothing; where it opens one it answers TRUE, the name and those that agree with it open
-- none afterwards, the others open what they did, and the disk stays in order.
pub remove-RemoveOutcome :
    (system : ℕ → Bool) (fs : FileSystem) (name : List ℕ)
    → IsConsistent system fs
    → RemoveOutcome system fs name (remove fs name)
unfolding remove
remove-RemoveOutcome system fs name ok =
    elim (find-cases fs fs.free_map.num_bits name ok.separate) [
      | inl missing ↦ absent (open_file_missing fs name 0 missing) (simp missing)
      | inr (s, finds) ↦
          let entry = find-Entry fs name s finds in
          let hdr = fs.headers s in
          let (m1, freed, f) =
            deallocate-Freed hdr fs.free_map ok.valid (own-Sectors system fs ok name s entry) in
          let (m2, cleared, up) =
            clear-Updates m1 s f.valid
              (omega (arith, (own_file system fs ok name s entry).on_disk, f.same_size)) in
          let left = directory_left system fs ok name s entry in
          removed (record { hdr = hdr; seek_position = 0 }) (open_file_found fs name s finds)
            (record fs { free_map = m2; directory = left_over system fs ok name s entry })
            (simp (finds, freed, cleared, left))
            (record {
              consistent =
                  remove-IsConsistent system fs ok name s entry m1 m2 f up
                    (subst Unique left (remove-Unique fs.directory name ok.unique));
              gone = λ other agree.
                  opens-remove system fs ok name s entry _ other refl refl ∙ rw agree refl;
              others = λ other differ.
                  opens-remove system fs ok name s entry _ other refl refl ∙ rw differ refl;
              same_disk = up.same_size ∙ f.same_size;
            })
    ]
