-- ===== src/FileSys/OpenFile/Read.antt =====
-- filesys/openfile.cc, `ReadAt`, against the file's array of bytes.
use csci350_project.Base.{
  ℕ, zero, suc, ◌+◌, ◌-◌, ◌*◌, ◌/◌, ◌%◌, ◌≤◌, ◌<◌, ◌≡◌, refl, ap, ◌∙◌, ◌⊎◌, arith, ◌||◌, List, [],
  ◌++◌, none, some, ltb, leb, ◌==◌, if◌then◌else◌, ltb→lt, lt→ltb, Bool-cases, inl, inr, length,
  take, drop, get_or, min, length-append, length-take, length-drop, get_or-append, get_or-take,
  get_or-drop,
}
use csci350_project.Base.Int.{pos}
use csci350_project.FileSys.FileHeader.{FileHeader, sector_size, byte_to_sector, file_length}
use csci350_project.FileSys.Store.{Store, read_sector}
use csci350_project.FileSys.OpenFile.{request, first_sector, sector_count, read_sectors, read_at}
use csci350_project.FileSys.OpenFile.Contents.{sector_number, byte_at, IsDisk, FileLayout}

pub byte_to_sector_lem :
    (hdr : FileHeader) (size i : ℕ)
    → FileLayout hdr size
    → i * sector_size < hdr.num_bytes
    → byte_to_sector hdr (i * sector_size) ≡ some (pos (sector_number hdr i))
unfolding byte_to_sector
byte_to_sector_lem hdr size i lay inside =
    let e : i * sector_size / sector_size ≡ i = omega arith in rw e (lay.entry i inside)

pub read_sector_lem :
    (st : Store) (s : ℕ) → s < length st → read_sector st (pos s) ≡ some (get_or st s [])
unfolding read_sector
read_sector_lem st s h = rw (lt→ltb s (length st) h)

byte_at_sector :
    (st : Store) (hdr : FileHeader) (i j : ℕ)
    → j < sector_size
    → get_or (get_or st (sector_number hdr i) []) j 0 ≡ byte_at st hdr (i * sector_size + j)
byte_at_sector st hdr i j h =
    let sector : (i * sector_size + j) / sector_size ≡ i = omega arith in
    let offset : (i * sector_size + j) % sector_size ≡ j = omega arith in rw (sector, offset) refl

pub read_sectors_lem :
    (left i size : ℕ) (st : Store) (hdr : FileHeader)
    → IsDisk st size
    → FileLayout hdr size
    → (i + left) * sector_size < hdr.num_bytes + sector_size
    → (buf : List ℕ) × (read_sectors st hdr left i ≡ some buf)
      × (length buf ≡ left * sector_size)
      × ((j : ℕ) → j < left * sector_size → get_or buf j 0 ≡ byte_at st hdr (i * sector_size + j))
unfolding read_sectors
read_sectors_lem zero i size st hdr disk lay inside = ([], refl, refl, λ j h. absurd (omega arith))
read_sectors_lem (suc left) i size st hdr disk lay inside =
    let here : i * sector_size < hdr.num_bytes = omega arith in
    let bytes = get_or st (sector_number hdr i) [] in
    let whole : length bytes ≡ sector_size =
      disk.whole (sector_number hdr i) (lay.on_disk i here) in
    let (rest, done, len, gives) =
      read_sectors_lem left (i + 1) size st hdr disk lay (omega arith) in
    (
      bytes ++ rest,
      rw (
        byte_to_sector_lem hdr size i lay here,
        read_sector_lem st (sector_number hdr i) (omega (arith, lay.on_disk i here, disk.sectors)),
        done,
      ),
      omega (arith, length-append bytes rest),
      λ j h. elim (Bool-cases (ltb j sector_size)) [
        | inl low ↦
            ground (arith, get_or-append bytes rest j 0, byte_at_sector st hdr i j (ltb→lt _ _ low))
        | inr high ↦
            let away : sector_size ≤ j = ground arith in
            get_or-append bytes rest j 0
            ∙ rw (whole, high)
                (gives (j - sector_size) (omega arith)
                  ∙ ap (byte_at st hdr) (
                      let e : (i + 1) * sector_size + (j - sector_size) ≡ i * sector_size + j =
                        omega arith in
                      e))
      ],
    )

-- What a request comes to: nothing, or the bytes from `position` on that the file has.
pub request-cases :
    (size n position : ℕ)
    → ((request size n position ≡ none) × (min n (size - position) ≡ 0))
      ⊎ ((request size n position ≡ some (min n (size - position))) × (0 < min n (size - position)))
request-cases size n position = elim (Bool-cases (n == 0 || leb size position)) [
  | inl nothing ↦ inl (rw nothing, ground arith)
  | inr some_bytes ↦
      let e : (if ltb size (position + n) then size - position else n) ≡ min n (size - position) =
        ground arith in
      inr (rw (some_bytes, e), ground arith)
]

-- On a disk that the file is laid out on, `ReadAt` reads as many bytes as are asked for and as the
-- file has from `position` on, and they are the file's bytes from there.
pub read_at_lem :
    (st : Store) (hdr : FileHeader) (size n position : ℕ)
    → IsDisk st size
    → FileLayout hdr size
    → (bytes : List ℕ) × (read_at st hdr n position ≡ some bytes)
      × (length bytes ≡ min n (hdr.num_bytes - position))
      × ((j : ℕ) → j < length bytes → get_or bytes j 0 ≡ byte_at st hdr (position + j))
unfolding read_at file_length
read_at_lem st hdr size n position disk lay = elim (request-cases hdr.num_bytes n position) [
  | inl (e, none_left) ↦
      ([], rw (e, read_at), omega (arith, none_left), λ j h. absurd (omega arith))
  | inr (e, positive) ↦
      let count = min n (hdr.num_bytes - position) in
      let first = first_sector position in
      let (buf, done, len, gives) =
        read_sectors_lem (sector_count position count) first size st hdr disk lay (omega arith) in
      let skip = position - first * sector_size in
      let has : length (take count (drop skip buf)) ≡ count =
        omega (arith, length-take count (drop skip buf), length-drop skip buf) in
      (
        take count (drop skip buf),
        rw (e, read_at, done),
        has,
        λ j h.
            get_or-take count (drop skip buf) j 0 (omega arith)
            ∙ get_or-drop skip buf j 0
            ∙ gives (skip + j) (omega arith)
            ∙ ap (byte_at st hdr)
                (let e : first * sector_size + (skip + j) ≡ position + j = omega arith in e),
      )
]
