-- ===== src/FileSys/OpenFile/Contents.antt =====
-- filesys/openfile.cc: a file seen as an array of bytes, which its header lays over the sectors.
use csci350_project.Base.{
  suc, ◌∷◌, refl, ◌∙◌, ℕ, ◌+◌, ◌-◌, ◌*◌, ◌/◌, ◌%◌, ◌≤◌, ◌<◌, ◌≡◌, ap, arith, ◌&&◌, List, [], ◌++◌,
  none, some, ltb, leb, if◌then◌else◌, length, take, drop, get_or, get_elem?, length-append,
  length-take, length-drop, get_or-append, get_or-take, get_or-drop,
}
use csci350_project.Base.Int.{pos, negsuc}
use csci350_project.FileSys.FileHeader.{FileHeader, sector_size}
use csci350_project.FileSys.Store.{Store}
use csci350_project.FileSys.OpenFile.{splice}

-- The disk's sector for the sector `i` of the file.
abbrev pub sector_number : FileHeader → ℕ → ℕ
sector_number hdr i = elim (get_elem? hdr.data_sectors i) [
  | none ↦ 0
  | some s ↦ elim s [ pos n ↦ n | negsuc n ↦ 0 ]
]

-- The byte `j` of the file.
abbrev pub byte_at : Store → FileHeader → ℕ → ℕ
byte_at st hdr j = get_or (get_or st (sector_number hdr (j / sector_size)) []) (j % sector_size) 0

-- The disk has `size` sectors, each of `SectorSize` bytes.
pub record IsDisk (st : Store) (size : ℕ) : Type 0 where
  pub sectors : length st ≡ size
  pub whole : (s : ℕ) → s < size → length (get_or st s []) ≡ sector_size

-- The table names a sector of the disk for every byte of the file, and none twice.
pub record FileLayout (hdr : FileHeader) (size : ℕ) : Type 0 where
  pub entry :
      (i : ℕ)
      → i * sector_size < hdr.num_bytes
      → get_elem? hdr.data_sectors i ≡ some (pos (sector_number hdr i))
  pub on_disk : (i : ℕ) → i * sector_size < hdr.num_bytes → sector_number hdr i < size
  pub distinct :
      (i k : ℕ)
      → i * sector_size < hdr.num_bytes
      → k * sector_size < hdr.num_bytes
      → sector_number hdr i ≡ sector_number hdr k
      → i ≡ k

pub length-splice :
    (buf bytes : List ℕ) (at : ℕ)
    → at + length bytes ≤ length buf
    → length (splice buf at bytes) ≡ length buf
length-splice buf bytes at h = omega (
  arith,
  length-append (take at buf) (bytes ++ drop (at + length bytes) buf),
  length-append bytes (drop (at + length bytes) buf),
  length-take at buf,
  length-drop (at + length bytes) buf,
)

pub get_or-splice :
    (buf bytes : List ℕ) (at j : ℕ)
    → at + length bytes ≤ length buf
    → get_or (splice buf at bytes) j 0
      ≡ (if leb at j && ltb j (at + length bytes) then get_or bytes (j - at) 0 else get_or buf j 0)
get_or-splice buf bytes at j h =
    let front = length-take at buf in
    ground (
      arith,
      get_or-append (take at buf) (bytes ++ drop (at + length bytes) buf) j 0,
      get_or-append bytes (drop (at + length bytes) buf) (j - length (take at buf)) 0,
      get_or-take at buf j 0,
      get_or-drop (at + length bytes) buf (j - length (take at buf) - length bytes) 0,
      ap (λ n. get_or bytes n 0) (let e : j - length (take at buf) ≡ j - at = omega arith in e),
    )

-- Lists of the same bytes.
pub same_bytes :
    (xs ys : List ℕ)
    → length xs ≡ length ys
    → ((j : ℕ) → j < length xs → get_or xs j 0 ≡ get_or ys j 0)
    → xs ≡ ys
same_bytes [] [] e h = refl
same_bytes [] (y ∷ ys) e h = absurd (omega arith)
same_bytes (x ∷ xs) [] e h = absurd (omega arith)
same_bytes (x ∷ xs) (y ∷ ys) e h =
    let tails = same_bytes xs ys (omega arith) (λ j lt. h (suc j) (omega arith)) in
    ap (λ z. z ∷ xs) (h 0 (omega arith)) ∙ ap (λ zs. y ∷ zs) tails
