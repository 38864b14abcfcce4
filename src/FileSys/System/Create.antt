-- ===== src/FileSys/System/Create.antt =====
-- filesys/filesys.cc, `Create`.
use csci350_project.Base.{
  ℕ, zero, suc, ◌*◌, ◌≤◌, ◌<◌, ◌≡◌, ◌≢◌, refl, sym, ap, subst, ◌∙◌, arith, Bool, true, false, ◌||◌,
  Bool-cases, inl, inr, List, Option, some, ◌==◌, ==_false, ==_self, ==_iff, length, dec_lt,
  ℕ_discrete,
}
use csci350_project.Base.Int.{ℤ, pos, negsuc}
use csci350_project.BitMap.{BitMap, div_round_up}
use csci350_project.BitMap.Laws.{is_set, Updates}
use csci350_project.BitMap.Search.{found, full, find-FindResult, count_clear}
use csci350_project.FileSys.FileHeader.{FileHeader, sector_size, num_direct}
use csci350_project.FileSys.FileHeader.Sectors.{uses, Sectors}
use csci350_project.FileSys.FileHeader.Allocation.{Allocated, allocate-Allocated, allocate_refused}
use csci350_project.FileSys.FileHeader.Release.{uses_free}
use csci350_project.FileSys.Directory
use csci350_project.FileSys.Directory.{DirectoryEntry, Directory, add_entry, file_name_max_len}
use csci350_project.FileSys.Directory.Lookup.{Unique, same_name, strncmp_eq_refl}
use csci350_project.FileSys.Directory.Laws.{find-add, add-Unique}
use csci350_project.FileSys.OpenFile.{OpenFile}
use csci350_project.FileSys.OpenFile.Contents.{FileLayout}
use csci350_project.FileSys.OpenFile.Fresh.{Sectors-FileLayout}
use csci350_project.FileSys.System.{
  FileSystem, put_header, is_missing, create_file, create, open_file,
}
use csci350_project.FileSys.System.Entries.{opened, open_file_lem, open_file_found, find-taken}
use csci350_project.FileSys.System.Space.{
  file_takes, taken, IsHeader, Separate, IsConsistent, taken-put_header, Separate-put_header,
  taken-add_entry, Separate-add_entry,
}

-- `Create` answered TRUE: the file is there, of the size that was asked for, and can be read and
-- written; the names that do not agree with it open what they did; the disk stays in order.
pub record Created (system : ℕ → Bool) (fs fs' : FileSystem) (name : List ℕ) (size : ℕ)
    : Type 0 where
  pub consistent : IsConsistent system fs'
  pub file : OpenFile
  pub opens : open_file fs' name ≡ some file
  pub at_start : file.seek_position ≡ 0
  pub of_size : file.hdr.num_bytes ≡ size
  pub laid_out : FileLayout file.hdr fs'.free_map.num_bits
  pub others :
      (other : List ℕ) → same_name name other ≡ false → open_file fs' other ≡ open_file fs other
  pub same_disk : fs'.free_map.num_bits ≡ fs.free_map.num_bits

-- How `Create` ends.
pub data CreateOutcome (system : ℕ → Bool) (fs : FileSystem) (name : List ℕ) (size : ℕ)
    (r : Option (Bool × FileSystem)) : Type 0 where
  refused : r ≡ some (false, fs) → CreateOutcome system fs name size r
  created :
      (fs' : FileSystem)
      → r ≡ some (true, fs')
      → Created system fs fs' name size
      → CreateOutcome system fs name size r

added-entry :
    (t : Directory) (name : List ℕ) (at : ℤ)
    → (Directory.add t name at).0 ≡ true
    → add_entry t name at ≡ some (Directory.add t name at).1
unfolding Directory.add
added-entry t name at h = ground arith

uses-on_disk :
    (v : Bool) (m : BitMap) (ds : List ℤ) (n k : ℕ)
    → Sectors v m ds n
    → uses ds n k ≡ true
    → k < m.num_bits
uses-on_disk v m ds zero k all h = cc
uses-on_disk v m ds (suc n) k all h =
    let p = all n (omega arith) in
    elim (Bool-cases (uses ds n k)) [
      | inl before ↦ uses-on_disk v m ds n k (λ i lt. all i (omega arith)) before
      | inr not_before ↦
          let last : (p.sector == k) ≡ true = ground (arith, p.entry) in
          omega (arith, (==_iff p.sector k).0 last, p.on_disk)
    ]

-- The new header, once its data is allocated.
new-IsHeader :
    (m m1 m2 : BitMap) (s : ℕ) (hdr : FileHeader)
    → s < m.num_bits
    → Updates m m1 s true
    → Allocated m1 m2 hdr.data_sectors hdr.num_sectors
    → hdr.num_sectors ≡ div_round_up hdr.num_bytes sector_size
    → IsHeader m.num_bits s hdr
new-IsHeader m m1 m2 s hdr on up a sized = record {
  on_disk = on;
  names = λ i lt.
      let p = a.sectors i lt in
      record {
        sector = p.sector;
        entry = p.entry;
        on_disk = omega (arith, p.on_disk, up.same_size);
        fresh = p.fresh;
      };
  apart =
      let own : is_set m1 s ≡ true = up.member s ∙ rw (==_self s) refl in
      ground (arith, own, uses_free m1 hdr.data_sectors hdr.num_sectors s a.sectors);
  sized = sized;
}

-- The steps of `Create` that change the disk, on a disk in order.
module _ (system : ℕ → Bool) (fs : FileSystem) (ok : IsConsistent system fs) (s : ℕ)
    (m1 m2 : BitMap) (hdr : FileHeader) (name : List ℕ) (t' : Directory)
    (on : s < fs.free_map.num_bits) (free : is_set fs.free_map s ≡ false)
    (up : Updates fs.free_map m1 s true) (a : Allocated m1 m2 hdr.data_sectors hdr.num_sectors)
    (sized : hdr.num_sectors ≡ div_round_up hdr.num_bytes sector_size)
    (enters : add_entry fs.directory name (pos s) ≡ some t') where
  abbrev headers' : ℕ → FileHeader
  headers' = put_header fs.headers s hdr

  header_there : headers' s ≡ hdr
  header_there = rw (==_self s) refl

  unused :
      (k : ℕ)
      → k < fs.free_map.num_bits
      → is_set fs.free_map k ≡ false
      → (taken fs.headers fs.directory k ≡ false) × (system k ≡ false)
  unused k h clear = (ground (arith, ok.exact k h), ground (arith, ok.exact k h))

  new_takes :
      (k : ℕ) → file_takes headers' (pos s) k ≡ (s == k || uses hdr.data_sectors hdr.num_sectors k)
  new_takes k = ap (λ x. s == k || uses x.data_sectors x.num_sectors k) header_there

  new_apart :
      (k : ℕ)
      → file_takes headers' (pos s) k ≡ true
      → (taken fs.headers fs.directory k ≡ false) × (system k ≡ false)
  new_apart k takes = elim (ℕ_discrete s k) [
    | yes e ↦
        subst (λ x. (taken fs.headers fs.directory x ≡ false) × (system x ≡ false)) e
          (unused s on free)
    | no d ↦
        let data_sector : uses hdr.data_sectors hdr.num_sectors k ≡ true =
          ground (arith, new_takes k, ==_false s k d) in
        let below : k < fs.free_map.num_bits = omega (
          arith,
          uses-on_disk false m1 hdr.data_sectors hdr.num_sectors k a.sectors data_sector,
          up.same_size,
        ) in
        unused k below (
          ground (
            arith,
            uses_free m1 hdr.data_sectors hdr.num_sectors k a.sectors,
            up.member k,
            ==_false s k d,
          ))
  ]

  create-IsConsistent :
      Unique t' → IsConsistent system (record { free_map = m2; directory = t'; headers = headers' })
  create-IsConsistent unique =
      let size_same : m2.num_bits ≡ fs.free_map.num_bits = a.same_size ∙ up.same_size in
      let empty = (unused s on free).0 in
      let after = λ (k : ℕ).
        taken-add_entry headers' fs.directory t' name (pos s) k enters
        ∙ ap (λ b. b || file_takes headers' (pos s) k)
            (taken-put_header fs.headers s hdr fs.directory k empty) in
      record {
        valid = a.valid;
        unique = unique;
        separate =
            subst (λ n. Separate headers' n t') (sym size_same)
              (Separate-add_entry headers' fs.free_map.num_bits fs.directory t' name (pos s) enters
                (subst (IsHeader fs.free_map.num_bits s) (sym header_there)
                  (new-IsHeader fs.free_map m1 m2 s hdr on up a sized))
                (λ k takes.
                  taken-put_header fs.headers s hdr fs.directory k empty ∙ (new_apart k takes).0)
                (Separate-put_header fs.headers s fs.free_map.num_bits hdr fs.directory empty
                  ok.separate));
        reserved = λ k own. after k ∙ elim (Bool-cases (file_takes headers' (pos s) k)) [
          | inl takes ↦ cc (own, (new_apart k takes).1)
          | inr apart ↦ rw (ok.reserved k own, apart) refl
        ];
        exact = λ k h.
            let old = ok.exact k (omega (arith, size_same)) in
            ground (arith, a.members k, up.member k, old, after k, new_takes k);
      }

  -- A new header changes none that a name leads to.
  opened-put_header :
      (other : List ℕ) (z : ℤ)
      → Directory.find fs.directory other ≡ z
      → opened headers' z ≡ opened fs.headers z
  opened-put_header other (negsuc n) h = refl
  opened-put_header other (pos n) h =
      let used = find-taken fs other n h in
      let empty = (unused s on free).0 in
      let apart : s ≢ n = λ e. cc in
      ap (λ x. some (record { hdr = x; seek_position = 0 })) (rw (==_false s n apart) refl)

  opens-create :
      (other : List ℕ)
      → Directory.find t' other ≡ Directory.find fs.directory other
      → open_file (record { free_map = m2; directory = t'; headers = headers' }) other
        ≡ open_file fs other
  opens-create other same =
      open_file_lem (record { free_map = m2; directory = t'; headers = headers' }) other
      ∙ ap (opened headers') same
      ∙ opened-put_header other (Directory.find fs.directory other) refl
      ∙ sym (open_file_lem fs other)

  create-Created :
      Unique t'
      → Directory.find t' name ≡ pos s
      → ((other : List ℕ)
          → same_name name other ≡ false
          → Directory.find t' other ≡ Directory.find fs.directory other)
      → (size : ℕ) → hdr.num_bytes ≡ size
      → Created system fs (record { free_map = m2; directory = t'; headers = headers' }) name size
  create-Created unique finds keeps size bytes = record {
    consistent = create-IsConsistent unique;
    file = record { hdr = hdr; seek_position = 0 };
    opens =
        open_file_found (record { free_map = m2; directory = t'; headers = headers' }) name s finds
        ∙ ap (λ h. some (record { hdr = h; seek_position = 0 })) header_there;
    at_start = refl;
    of_size = bytes;
    laid_out =
        subst (FileLayout hdr) (sym a.same_size) (Sectors-FileLayout false m1 hdr a.sectors sized);
    others = λ other differ. opens-create other (keeps other differ);
    same_disk = a.same_size ∙ up.same_size;
  }

-- On a disk in order, for a size that a header's table holds and a new header with that table,
-- `Create` fails no ASSERT. It answers FALSE and changes nothing, or it answers TRUE, `Open` then
-- gives the file, of that size and with sectors of its own for every byte, the names that do not
-- agree with it open what they did, and the disk stays in order: a sector is marked exactly where something takes it, and nothing shares a sector.
pub create-CreateOutcome :
    (system : ℕ → Bool) (fs : FileSystem) (fresh : FileHeader) (name : List ℕ) (size : ℕ)
    → IsConsistent system fs
    → length fresh.data_sectors ≡ num_direct
    → size ≤ num_direct * sector_size
    → CreateOutcome system fs name size (create fs fresh name size)
unfolding create create_file
create-CreateOutcome system fs fresh name size ok table fits =
    elim (Bool-cases (is_missing (Directory.find fs.directory name))) [
      | inr there ↦ refused (simp there)
      | inl missing ↦ elim (find-FindResult fs.free_map ok.valid) [
        | full e all ↦ refused (simp (missing, e))
        | found s m1 e on free before up ↦
            elim (Bool-cases (Directory.add fs.directory name (pos s)).0) [
              | inr no_entry ↦ refused (simp (missing, e, no_entry))
              | inl added ↦
                  elim (dec_lt (count_clear m1 m1.num_bits) (div_round_up size sector_size)) [
                    | yes few ↦
                        let (hdr, done, _) = allocate_refused fresh m1 size few in
                        refused (simp (missing, e, added, done))
                    | no enough ↦
                        let (hdr, m2, done, bytes, sectors, a) =
                          allocate-Allocated fresh m1 size up.valid table fits (omega arith) in
                        let t' = (Directory.add fs.directory name (pos s)).1 in
                        let sized : hdr.num_sectors ≡ div_round_up hdr.num_bytes sector_size =
                          sectors ∙ ap (λ n. div_round_up n sector_size) (sym bytes) in
                        created
                          (record {
                            free_map = m2;
                            directory = t';
                            headers = put_header fs.headers s hdr;
                          })
                          (simp (missing, e, added, done))
                          (create-Created system fs ok s m1 m2 hdr name t' on free up a sized
                            (added-entry fs.directory name (pos s) added)
                            (add-Unique fs.directory name (pos s) ok.unique)
                            ((find-add fs.directory name name (pos s)).1
                              ∙ rw (added, strncmp_eq_refl file_name_max_len name) refl)
                            (λ other differ.
                              (find-add fs.directory name other (pos s)).1
                              ∙ rw (added, differ) refl)
                            size bytes)
                  ]
            ]
      ]
    ]
