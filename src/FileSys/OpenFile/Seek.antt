-- ===== src/FileSys/OpenFile/Seek.antt =====
-- filesys/openfile.cc: `Read` and `Write` at the seek position.
use csci350_project.Base.{
  ℕ, ◌+◌, ◌-◌, ◌*◌, ◌≤◌, ◌<◌, ◌≡◌, refl, ◌∙◌, arith, List, some, lt→ltb, le→leb, min, length,
  get_or,
}
use csci350_project.FileSys.FileHeader.{sector_size}
use csci350_project.FileSys.Store.{Store}
use csci350_project.FileSys.OpenFile.{OpenFile, sector_count, seek, read, write}
use csci350_project.FileSys.OpenFile.Contents.{IsDisk, FileLayout}
use csci350_project.FileSys.OpenFile.Read.{read_at_lem}
use csci350_project.FileSys.OpenFile.Write.{write_at_lem}

-- On a disk that the file is laid out on, with `n` bytes at least in `from` and memory for the sectors
-- of the request: `Seek` and `Write`, and then `Seek` to the same position and
-- `Read`, give back what was written, as far as the file goes, and both leave the seek position
-- behind it.
pub read-write :
    (st : Store) (f : OpenFile) (size : ℕ) (memory from : List ℕ) (n position : ℕ)
    → IsDisk st size
    → FileLayout f.hdr size
    → n ≤ length from
    → length memory ≡ sector_count position (min n (f.hdr.num_bytes - position)) * sector_size
    → let count = min n (f.hdr.num_bytes - position) in
      let behind = record f { seek_position = position + count } in
      (st' : Store) × (bytes : List ℕ) × (write st (seek f position) memory from n
        ≡ some (count, st', behind))
      × (read st' (seek behind position) n ≡ some (bytes, behind))
      × (length bytes ≡ count)
      × ((j : ℕ) → j < count → get_or bytes j 0 ≡ get_or from j 0)
unfolding write read seek
read-write st f size memory from n position disk lay enough room =
    let count = min n (f.hdr.num_bytes - position) in
    let (st', done, disk', gives, keeps) =
      write_at_lem st f.hdr size memory from n position disk lay enough room in
    let (bytes, again, len, same) = read_at_lem st' f.hdr size n position disk' lay in
    (
      st',
      bytes,
      rw done refl,
      rw (again, len) refl,
      len,
      λ j h.
          let low : position ≤ position + j = omega arith in
          let high : position + j < position + count = omega arith in
          let back : position + j - position ≡ j = omega arith in
          same j (omega arith)
          ∙ gives (position + j) (omega arith)
          ∙ rw (le→leb _ _ low, lt→ltb _ _ high, back) refl,
    )
