-- ===== src/FileSys/OpenFile/Write/Sectors.antt =====
-- filesys/openfile.cc: the loop of `WriteAt` over the sectors of a file.
use csci350_project.Base.{
  ℕ, zero, suc, ◌+◌, ◌-◌, ◌*◌, ◌/◌, ◌%◌, ◌≤◌, ◌<◌, ◌≡◌, ◌≢◌, refl, ap, ◌∙◌, arith, ◌&&◌, List, [],
  some, ltb, leb, ◌==◌, if◌then◌else◌, lt→ltb, le→leb, leb→le, leb-false, Bool-cases, inl, inr,
  ==_self, ==_false, ℕ_discrete, length, take, drop, get_or, set, length-take, length-drop,
  length-set, get_or-take, get_or-drop, get_or-set_self, get_or-set_ne,
}
use csci350_project.Base.Int.{pos}
use csci350_project.FileSys.FileHeader.{FileHeader, sector_size}
use csci350_project.FileSys.Store.{Store, write_sector}
use csci350_project.FileSys.OpenFile.{write_sectors}
use csci350_project.FileSys.OpenFile.Contents.{sector_number, byte_at, IsDisk, FileLayout}
use csci350_project.FileSys.OpenFile.Read.{byte_to_sector_lem}

-- No byte of the file lies in the sector `s`.
abbrev pub Avoids : FileHeader → ℕ → Type 0
Avoids hdr s = (k : ℕ) → k * sector_size < hdr.num_bytes → sector_number hdr k ≢ s

IsDisk-set :
    (st : Store) (size s : ℕ) (bytes : List ℕ)
    → IsDisk st size
    → s < size
    → length bytes ≡ sector_size
    → IsDisk (set st s bytes) size
IsDisk-set st size s bytes disk on len = record {
  sectors = length-set st s bytes ∙ disk.sectors;
  whole = λ t h. elim (ℕ_discrete s t) [
    | yes e ↦ rw (← e, get_or-set_self st s bytes [] (omega (arith, disk.sectors))) len
    | no d ↦ rw (get_or-set_ne st bytes [] d) (disk.whole t h)
  ];
}

byte_at-set :
    (st : Store) (hdr : FileHeader) (size i j : ℕ) (bytes : List ℕ)
    → IsDisk st size
    → FileLayout hdr size
    → i * sector_size < hdr.num_bytes
    → j / sector_size * sector_size < hdr.num_bytes
    → byte_at (set st (sector_number hdr i) bytes) hdr j
      ≡ (if i == j / sector_size then get_or bytes (j % sector_size) 0 else byte_at st hdr j)
byte_at-set st hdr size i j bytes disk lay here there = elim (ℕ_discrete i (j / sector_size)) [
  | yes e ↦
      rw
        (
          ← e,
          ==_self i,
          get_or-set_self st (sector_number hdr i) bytes []
              (omega (arith, lay.on_disk i here, disk.sectors)),
        )
        refl
  | no d ↦
      rw
        (
          ==_false i (j / sector_size) d,
          get_or-set_ne st bytes [] (λ e. d (lay.distinct i (j / sector_size) here there e)),
        )
        refl
]

write_sector_lem :
    (st : Store) (s : ℕ) (bytes : List ℕ)
    → s < length st
    → write_sector st (pos s) bytes ≡ some (set st s bytes)
unfolding write_sector
write_sector_lem st s bytes h = rw (lt→ltb s (length st) h) refl

-- The first sector of `buf`, and then the others.
front_and_rest :
    (i left j : ℕ) (buf : List ℕ) (old : ℕ)
    → (if leb ((i + 1) * sector_size) j && ltb j ((i + 1 + left) * sector_size)
        then get_or (drop sector_size buf) (j - (i + 1) * sector_size) 0
        else (if i == j / sector_size
            then get_or (take sector_size buf) (j % sector_size) 0
            else old))
      ≡ (if leb (i * sector_size) j && ltb j ((i + suc left) * sector_size)
          then get_or buf (j - i * sector_size) 0
          else old)
front_and_rest i left j buf old = elim (ℕ_discrete i (j / sector_size)) [
  | yes e ↦
      let offset : j % sector_size ≡ j - i * sector_size = omega arith in
      rw
        (
          ← e,
          ==_self i,
          leb-false ((i + 1) * sector_size) j (omega arith),
          le→leb (i * sector_size) j (omega arith),
          lt→ltb j ((i + suc left) * sector_size) (omega arith),
          get_or-take sector_size buf (j % sector_size) 0 (omega arith),
        )
        (ap (λ n. get_or buf n 0) offset)
  | no d ↦ elim (Bool-cases (leb ((i + 1) * sector_size) j)) [
    | inl later ↦
        let le : (i + 1) * sector_size ≤ j = leb→le _ _ later in
        let end : (i + 1 + left) * sector_size ≡ (i + suc left) * sector_size = omega arith in
        let offset : sector_size + (j - (i + 1) * sector_size) ≡ j - i * sector_size =
          omega arith in
        rw
          (
            later,
            end,
            ==_false i (j / sector_size) d,
            le→leb (i * sector_size) j (omega arith),
            get_or-drop sector_size buf (j - (i + 1) * sector_size) 0,
            offset,
          )
          refl
    | inr earlier ↦
        let lt : j < (i + 1) * sector_size = ground arith in
        rw (earlier, ==_false i (j / sector_size) d, leb-false (i * sector_size) j (omega arith))
          refl
  ]
]

-- What the loop leaves: the bytes of `buf` from the file's sector `i` on, and all else as it was.
pub write_sectors_lem :
    (left i size : ℕ) (st : Store) (hdr : FileHeader) (buf : List ℕ)
    → IsDisk st size
    → FileLayout hdr size
    → (i + left) * sector_size < hdr.num_bytes + sector_size
    → length buf ≡ left * sector_size
    → (st' : Store) × (write_sectors st hdr left i buf ≡ some st')
      × IsDisk st' size
      × ((j : ℕ)
          → j / sector_size * sector_size < hdr.num_bytes
          → byte_at st' hdr j ≡ (
              if leb (i * sector_size) j && ltb j ((i + left) * sector_size)
              then get_or buf (j - i * sector_size) 0
              else byte_at st hdr j))
      × ((s : ℕ) → Avoids hdr s → get_or st' s [] ≡ get_or st s [])
unfolding write_sectors
write_sectors_lem zero i size st hdr buf disk lay inside len =
    (st, refl, disk, (λ j h. ground arith), λ s away. refl)
write_sectors_lem (suc left) i size st hdr buf disk lay inside len =
    let here : i * sector_size < hdr.num_bytes = omega arith in
    let s = sector_number hdr i in
    let front = take sector_size buf in
    let st1 = set st s front in
    let full : length front ≡ sector_size = omega (arith, length-take sector_size buf) in
    let (st', done, disk', gives, keeps) =
      write_sectors_lem left (i + 1) size st1 hdr (drop sector_size buf)
        (IsDisk-set st size s front disk (lay.on_disk i here) full) lay (omega arith)
        (omega (arith, length-drop sector_size buf)) in
    (
      st',
      rw (
        byte_to_sector_lem hdr size i lay here,
        write_sector_lem st s front (omega (arith, lay.on_disk i here, disk.sectors)),
        done,
      ),
      disk',
      (λ j there.
          gives j there
          ∙ rw (byte_at-set st hdr size i j front disk lay here there)
              (front_and_rest i left j buf (byte_at st hdr j))),
      λ t away. keeps t away ∙ get_or-set_ne st front [] (away i here),
    )
