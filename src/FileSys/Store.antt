-- ===== src/FileSys/Store.antt =====
-- filesys/synchdisk.cc, `ReadSector` and `WriteSector`, by what they do to the disk's sectors, each a
-- list of bytes. `none` is the failed ASSERT of the disk on the sector's number.
use csci350_project.Base.{ℕ, List, [], Option, none, some, ltb, if◌then◌else◌, length, get_or, set}
use csci350_project.Base.Int.{ℤ, pos, negsuc}

abbrev pub Store : Type 0
Store = List (List ℕ)

unfoldable pub read_sector : Store → ℤ → Option (List ℕ)
read_sector st (pos s) = if ltb s (length st) then some (get_or st s []) else none
read_sector st (negsuc s) = none

unfoldable pub write_sector : Store → ℤ → List ℕ → Option Store
write_sector st (pos s) bytes = if ltb s (length st) then some (set st s bytes) else none
write_sector st (negsuc s) bytes = none
