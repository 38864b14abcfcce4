-- ===== src/FileSys/OpenFile/Fresh.antt =====
-- filesys/filehdr.cc and openfile.cc together: what `Allocate` hands out can be read and written.
use csci350_project.Base.{
  ℕ, ◌*◌, ◌<◌, ◌≡◌, sym, ap, ◌∙◌, ◌⊎◌, inl, inr, ℕ_discrete, dec_lt, arith, Bool, some,
}
use csci350_project.Base.Int.{pos}
use csci350_project.BitMap.{BitMap, div_round_up}
use csci350_project.FileSys.FileHeader.{FileHeader, sector_size}
use csci350_project.FileSys.FileHeader.Sectors.{Placed, Sectors, uses-entry}
use csci350_project.FileSys.OpenFile.Contents.{sector_number, FileLayout}

order : (i k : ℕ) → (i < k) ⊎ ((i ≡ k) ⊎ (k < i))
order i k = elim (ℕ_discrete i k) [
  | yes e ↦ inr (inl e)
  | no d ↦ elim (dec_lt i k) [ yes h ↦ inl h | no h ↦ inr (inr (omega arith)) ]
]

sector_number-Placed :
    (v : Bool) (m : BitMap) (hdr : FileHeader) (i : ℕ) (p : Placed v m hdr.data_sectors i)
    → sector_number hdr i ≡ p.sector
sector_number-Placed v m hdr i p = ground (arith, p.entry)

-- Distinct sectors for all bytes of the file are a layout.
pub Sectors-FileLayout :
    (v : Bool) (m : BitMap) (hdr : FileHeader)
    → Sectors v m hdr.data_sectors hdr.num_sectors
    → hdr.num_sectors ≡ div_round_up hdr.num_bytes sector_size
    → FileLayout hdr m.num_bits
Sectors-FileLayout v m hdr all count = record {
  entry = λ i h. let p = all i (counts i h) in p.entry ∙ ap (λ s. some (pos s)) (sym (number i h));
  on_disk = λ i h. let p = all i (counts i h) in omega (arith, number i h, p.on_disk);
  distinct = λ i k hi hk e.
      let pi = all i (counts i hi) in
      let pk = all k (counts k hk) in
      let same : pi.sector ≡ pk.sector = sym (number i hi) ∙ e ∙ number k hk in
      elim (order i k) [
        | inl lt ↦ cc (
          uses-entry hdr.data_sectors k i pk.sector lt (pi.entry ∙ ap (λ s. some (pos s)) same),
          pk.fresh,
        )
        | inr ge ↦ elim ge [
          | inl q ↦ q
          | inr gt ↦ cc (
            uses-entry hdr.data_sectors i k pi.sector gt
                (pk.entry ∙ ap (λ s. some (pos s)) (sym same)),
            pi.fresh,
          )
        ]
      ];
}
  where
    counts : (i : ℕ) → i * sector_size < hdr.num_bytes → i < hdr.num_sectors
    counts i h = ground (arith, count)

    number :
        (i : ℕ) (h : i * sector_size < hdr.num_bytes)
        → sector_number hdr i ≡ (all i (counts i h)).sector
    number i h = sector_number-Placed v m hdr i (all i (counts i h))
