-- ===== src/FileSys/OpenFile/Write/Buffer.antt =====
-- filesys/openfile.cc, `WriteAt`: the buffer that it puts together before it writes.
use csci350_project.Base.{
  ℕ, ◌+◌, ◌-◌, ◌*◌, ◌≤◌, ◌<◌, ◌≡◌, refl, ap, ◌∙◌, ◌⊎◌, arith, Bool, true, false, not, ◌&&◌, ◌||◌,
  List, [], some, ltb, leb, ltb→lt, lt→ltb, le→leb, leb-false, ltb-false, Bool-cases, inl, inr,
  ==_iff, ==_false, ◌==◌, if◌then◌else◌, length, take, get_or, get_or-take, length-take, ℕ_discrete,
}
use csci350_project.FileSys.FileHeader.{FileHeader, sector_size}
use csci350_project.FileSys.Store.{Store}
use csci350_project.FileSys.OpenFile.{
  first_sector, last_sector, sector_count, splice, write_sectors, read_in,
}
use csci350_project.FileSys.OpenFile.Contents.{
  byte_at, IsDisk, FileLayout, length-splice, get_or-splice,
}
use csci350_project.FileSys.OpenFile.Read.{read_at_lem}
use csci350_project.FileSys.OpenFile.Write.Sectors.{Avoids, write_sectors_lem}

-- What `read_in` leaves in a buffer: where it is needed, the bytes of the file's sector `i` that the
-- file has, from `at` on; elsewhere what there was.
pub record Filled (st : Store) (hdr : FileHeader) (needed : Bool) (i at : ℕ) (buf buf' : List ℕ)
    : Type 0 where
  pub same_length : length buf' ≡ length buf
  pub inside :
      (q : ℕ)
      → needed ≡ true
      → at ≤ q
      → q < at + sector_size
      → i * sector_size + (q - at) < hdr.num_bytes
      → get_or buf' q 0 ≡ byte_at st hdr (i * sector_size + (q - at))
  pub outside :
      (q : ℕ)
      → (needed ≡ false) ⊎ ((q < at) ⊎ (at + sector_size ≤ q))
      → get_or buf' q 0 ≡ get_or buf q 0

pub read_in-Filled :
    (st : Store) (hdr : FileHeader) (size : ℕ) (needed : Bool) (i at : ℕ) (buf : List ℕ)
    → IsDisk st size
    → FileLayout hdr size
    → at + sector_size ≤ length buf
    → (buf' : List ℕ) × (read_in st hdr needed i at buf ≡ some buf')
      × Filled st hdr needed i at buf buf'
unfolding read_in
read_in-Filled st hdr size false i at buf disk lay room =
    (buf, refl, record { same_length = refl; inside = λ q h. cc; outside = λ q h. refl })
read_in-Filled st hdr size true i at buf disk lay room =
    let (bytes, done, len, gives) =
      read_at_lem st hdr size sector_size (i * sector_size) disk lay in
    let fits : at + length bytes ≤ length buf = omega arith in
    (
      splice buf at bytes,
      rw done refl,
      record {
        same_length = length-splice buf bytes at fits;
        inside = λ q h low high has.
            get_or-splice buf bytes at q fits
            ∙ rw (le→leb at q low, lt→ltb q (at + length bytes) (omega arith))
                (gives (q - at) (omega arith));
        outside = λ q h. get_or-splice buf bytes at q fits ∙ elim h [
          | inl absent ↦ cc
          | inr away ↦ elim away [
            | inl low ↦ rw (leb-false at q low) refl
            | inr high ↦ rw (ltb-false q (at + length bytes) (omega arith)) (ground arith)
          ]
        ];
      },
    )

-- The bytes of the first and the last sector that the request does not reach are in the buffer.
module _ (st : Store) (hdr : FileHeader) (memory buf1 buf2 : List ℕ) (position count : ℕ)
    (f1 : Filled st hdr
      (not (position == first_sector position * sector_size))
      (first_sector position)
      0
      memory
      buf1)
    (f2 : Filled st hdr
      (not (position + count == (last_sector position count + 1) * sector_size)
        && (not (first_sector position == last_sector position count)
            || position == first_sector position * sector_size))
      (last_sector position count)
      ((last_sector position count - first_sector position) * sector_size)
      buf1
      buf2)
    (positive : 0 < count) (whole : position + count ≤ hdr.num_bytes) where
  before_request :
      (j : ℕ)
      → first_sector position * sector_size ≤ j
      → j < position
      → get_or buf2 (j - first_sector position * sector_size) 0 ≡ byte_at st hdr j
  before_request j low h =
      let first = first_sector position in
      let q = j - first * sector_size in
      let unaligned = ==_false position (first * sector_size) (λ e. omega arith) in
      let back : first * sector_size + (q - 0) ≡ j = omega arith in
      let from_first : get_or buf1 q 0 ≡ byte_at st hdr j =
        f1.inside q (rw unaligned refl) (omega arith) (omega arith) (omega arith)
        ∙ ap (byte_at st hdr) back in
      elim (ℕ_discrete first (last_sector position count)) [
        | yes e ↦
            f2.outside q
              (inl (rw (unaligned, (==_iff first (last_sector position count)).1 e) (ground arith)))
            ∙ from_first
        | no d ↦ f2.outside q (inr (inl (omega arith))) ∙ from_first
      ]

  after_request :
      (j : ℕ)
      → position + count ≤ j
      → j < (last_sector position count + 1) * sector_size
      → j < hdr.num_bytes
      → get_or buf2 (j - first_sector position * sector_size) 0 ≡ byte_at st hdr j
  after_request j low h inside =
      let first = first_sector position in
      let last = last_sector position count in
      let q = j - first * sector_size in
      let unaligned = ==_false (position + count) ((last + 1) * sector_size) (λ e. omega arith) in
      elim (Bool-cases (not (first == last) || position == first * sector_size)) [
        | inl reads ↦
            let back : last * sector_size + (q - (last - first) * sector_size) ≡ j = omega arith in
            f2.inside q (rw (unaligned, reads) refl) (omega arith) (omega arith) (omega arith)
            ∙ ap (byte_at st hdr) back
        | inr skips ↦
            let same : first ≡ last = (==_iff first last).0 (ground arith) in
            let shifted : (position == first * sector_size) ≡ false = ground arith in
            let back : first * sector_size + (q - 0) ≡ j = omega arith in
            f2.outside q (inl (rw skips (ground arith)))
            ∙ f1.inside q (rw shifted refl) (omega arith) (omega arith) (omega arith)
            ∙ ap (byte_at st hdr) back
      ]

  -- The bytes of the sectors of the request, with those that it brings.
  bytes_after :
      (from : List ℕ)
      → count ≤ length from
      → position - first_sector position * sector_size + length (take count from) ≤ length buf2
      → (j : ℕ) → j < hdr.num_bytes
      → let first = first_sector position in
        (if leb (first * sector_size) j
            && ltb j ((first + sector_count position count) * sector_size)
          then get_or
              (splice buf2 (position - first * sector_size) (take count from))
              (j - first * sector_size)
              0
          else byte_at st hdr j)
        ≡ (if leb position j && ltb j (position + count)
            then get_or from (j - position) 0
            else byte_at st hdr j)
  bytes_after from enough fits j h =
      let first = first_sector position in
      let q = j - first * sector_size in
      let skip = position - first * sector_size in
      let bytes = take count from in
      let has : length bytes ≡ count = omega (arith, length-take count from) in
      elim (Bool-cases (leb position j && ltb j (position + count))) [
        | inl new ↦
            let low : position ≤ j = ground arith in
            let high : j < position + count = ground arith in
            let back : q - skip ≡ j - position = omega arith in
            rw
              (
                new,
                le→leb (first * sector_size) j (omega arith),
                lt→ltb j ((first + sector_count position count) * sector_size) (omega arith),
                get_or-splice buf2 bytes skip q fits,
                le→leb skip q (omega arith),
                lt→ltb q (skip + length bytes) (omega arith),
                get_or-take count from (q - skip) 0 (omega arith),
              )
              (ap (λ i. get_or from i 0) back)
        | inr old ↦
            elim (Bool-cases (
              leb (first * sector_size) j
              && ltb j ((first + sector_count position count) * sector_size))) [
                | inr out ↦ rw (old, out) refl
                | inl near ↦
                    let low : first * sector_size ≤ j = ground arith in
                    let high : j < (first + sector_count position count) * sector_size =
                      ground arith in
                    elim (Bool-cases (ltb j position)) [
                      | inl early ↦
                          let lt : j < position = ltb→lt _ _ early in
                          rw
                            (
                              old,
                              near,
                              get_or-splice buf2 bytes skip q fits,
                              leb-false skip q (omega arith),
                            )
                            (before_request j low lt)
                      | inr later ↦
                          let ge : position ≤ j = ground arith in
                          let le : position + count ≤ j = ground arith in
                          rw
                            (
                              old,
                              near,
                              get_or-splice buf2 bytes skip q fits,
                              le→leb skip q (omega arith),
                              ltb-false q (skip + length bytes) (omega arith),
                            )
                            (after_request j le (omega arith) h)
                    ]
              ]
      ]

  pub written :
      (size : ℕ) (from : List ℕ)
      → IsDisk st size
      → FileLayout hdr size
      → count ≤ length from
      → length memory ≡ sector_count position count * sector_size
      → (st' : Store) × (write_sectors st hdr
            (sector_count position count)
            (first_sector position)
            (splice buf2 (position - first_sector position * sector_size) (take count from))
          ≡ some st')
        × IsDisk st' size
        × ((j : ℕ)
            → j < hdr.num_bytes
            → byte_at st' hdr j ≡ (
                if leb position j && ltb j (position + count)
                then get_or from (j - position) 0
                else byte_at st hdr j))
        × ((s : ℕ) → Avoids hdr s → get_or st' s [] ≡ get_or st s [])
  written size from disk lay enough room =
      let first = first_sector position in
      let bytes = take count from in
      let skip = position - first * sector_size in
      let has : length bytes ≡ count = omega (arith, length-take count from) in
      let fits : skip + length bytes ≤ length buf2 =
        omega (arith, f1.same_length, f2.same_length) in
      let len : length (splice buf2 skip bytes) ≡ sector_count position count * sector_size =
        omega (arith, length-splice buf2 bytes skip fits, f1.same_length, f2.same_length) in
      let (st', done, disk', gives, keeps) =
        write_sectors_lem (sector_count position count) first size st hdr (splice buf2 skip bytes)
          disk lay (omega arith) len in
      (
        st',
        done,
        disk',
        (λ j h. rw (gives j (omega arith)) (bytes_after from enough fits j h)),
        keeps,
      )
