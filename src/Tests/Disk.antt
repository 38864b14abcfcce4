-- ===== src/Tests/Disk.antt =====
-- The bit map, the file header and the directory at concrete inputs.
use csci350_project.Base.{
  ℕ, zero, suc, ◌≡◌, refl, true, false, not, ◌&&◌, [], ◌∷◌, some, arith, if◌then◌else◌, replicate,
}
use csci350_project.Base.Int.{pos, minus_one}
use csci350_project.BitMap.{BitMap}
use csci350_project.BitMap.Laws.{is_set, IsValid}
use csci350_project.FileSys.FileHeader.{FileHeader, allocate, deallocate}
use csci350_project.FileSys.FileHeader.Sectors.{Sectors}
use csci350_project.FileSys.FileHeader.Release.{deallocate-allocate}
use csci350_project.FileSys.Directory
use csci350_project.FileSys.Directory.{DirectoryEntry, Directory, add, remove}
use csci350_project.FileSys.Directory.Lookup.{Unique, has_free, same_name}
use csci350_project.FileSys.Directory.Laws.{is_present, find-add, find-remove}

-- A disk of forty sectors, of which 0 and 2 are in use.
abbrev disk : BitMap
disk = record { num_bits = 40; num_words = 2; map = 5 ∷ 0 ∷ [] }

disk-IsValid : IsValid disk
disk-IsValid = record { room = omega arith }

abbrev blank : FileHeader
blank = record { num_bytes = 0; num_sectors = 0; data_sectors = replicate 30 (pos 0) }

abbrev old_file : FileHeader
old_file = record { num_bytes = 200; num_sectors = 2; data_sectors = pos 0 ∷ pos 2 ∷ [] }

old_file-Sectors : Sectors true disk (pos 0 ∷ pos 2 ∷ []) 2
old_file-Sectors zero h = record {
  sector = 0;
  entry = refl;
  on_disk = omega arith;
  marked = refl;
  fresh = refl;
}
old_file-Sectors (suc zero) h = record {
  sector = 2;
  entry = refl;
  on_disk = omega arith;
  marked = refl;
  fresh = refl;
}
old_file-Sectors (suc (suc i)) h = absurd (omega arith)

deallocate-allocate_example :
    (hdr' : FileHeader) × (m1 m2 : BitMap) × (allocate blank disk 300 ≡ some (true, hdr', m1))
    × (deallocate hdr' m1 ≡ some m2)
    × ((k : ℕ) → is_set m2 k ≡ is_set disk k)
deallocate-allocate_example =
    deallocate-allocate blank disk 300 disk-IsValid refl (omega arith) (omega arith)

-- A directory of two entries, with the file "ab" in sector 9.
abbrev folder : Directory
folder =
    record { in_use = true; sector = pos 9; name = 97 ∷ 98 ∷ 0 ∷ [] }
    ∷ record { in_use = false; sector = pos 3; name = [] }
    ∷ []

folder-Unique : Unique folder
folder-Unique = ((λ h. refl), ((λ h. cc), tt))

find-add_example :
    let (ok, t') = add folder (99 ∷ 0 ∷ []) (pos 5) in
    (ok ≡ (not (is_present folder (99 ∷ 0 ∷ [])) && has_free folder))
    × (Directory.find t' (97 ∷ 0 ∷ []) ≡ (
        if ok && same_name (99 ∷ 0 ∷ []) (97 ∷ 0 ∷ [])
        then pos 5
        else Directory.find folder (97 ∷ 0 ∷ [])))
find-add_example = find-add folder (99 ∷ 0 ∷ []) (97 ∷ 0 ∷ []) (pos 5)

find-remove_example :
    let (ok, t') = remove folder (97 ∷ 98 ∷ 0 ∷ []) in
    (ok ≡ is_present folder (97 ∷ 98 ∷ 0 ∷ []))
    × (Directory.find t' (97 ∷ 0 ∷ []) ≡ (
        if same_name (97 ∷ 98 ∷ 0 ∷ []) (97 ∷ 0 ∷ [])
        then minus_one
        else Directory.find folder (97 ∷ 0 ∷ [])))
find-remove_example = find-remove folder (97 ∷ 98 ∷ 0 ∷ []) (97 ∷ 0 ∷ []) folder-Unique
