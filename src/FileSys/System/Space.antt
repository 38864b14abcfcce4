-- ===== src/FileSys/System/Space.antt =====
-- filesys/filesys.cc: which sectors of the disk the files of a directory take.
use csci350_project.Base.{
  ℕ, ◌<◌, ◌≡◌, refl, sym, ap, subst, ◌∙◌, arith, Bool, true, false, ◌&&◌, ◌||◌, Bool-cases,
  Option-cases, ◌⊎◌, inl, inr, List, [], ◌∷◌, some, ◌==◌, ==_false, ==_iff, get_elem?,
}
use csci350_project.Base.Int.{ℤ, pos, negsuc}
use csci350_project.BitMap.{div_round_up}
use csci350_project.BitMap.Laws.{is_set, IsValid}
use csci350_project.FileSys.FileHeader.{FileHeader, sector_size}
use csci350_project.FileSys.FileHeader.Sectors.{uses}
use csci350_project.FileSys.Directory.{
  DirectoryEntry, Directory, add_entry, strncpy, file_name_max_len,
}
use csci350_project.FileSys.Directory.Lookup.{Unique}
use csci350_project.FileSys.System.{FileSystem, put_header}

-- The sector `k` holds the header at `s` or data of its file.
abbrev pub file_takes : (ℕ → FileHeader) → ℤ → ℕ → Bool
file_takes hs (pos s) k = s == k || uses (hs s).data_sectors (hs s).num_sectors k
file_takes hs (negsuc s) k = false

-- Some file of the directory takes the sector `k`.
abbrev pub taken : (ℕ → FileHeader) → Directory → ℕ → Bool
taken hs [] k = false
taken hs (e ∷ es) k = (e.in_use && file_takes hs e.sector k) || taken hs es k

-- The entry `i` of a table names a sector of the disk that no entry before it names.
pub record Names (ds : List ℤ) (size i : ℕ) : Type 0 where
  pub sector : ℕ
  pub entry : get_elem? ds i ≡ some (pos sector)
  pub on_disk : sector < size
  pub fresh : uses ds i sector ≡ false

-- A header at the sector `s` of the disk, with a table of distinct sectors, none of them `s`.
pub record IsHeader (size s : ℕ) (hdr : FileHeader) : Type 0 where
  pub on_disk : s < size
  pub names : (i : ℕ) → i < hdr.num_sectors → Names hdr.data_sectors size i
  pub apart : uses hdr.data_sectors hdr.num_sectors s ≡ false
  pub sized : hdr.num_sectors ≡ div_round_up hdr.num_bytes sector_size

abbrev pub IsFile : (ℕ → FileHeader) → ℕ → ℤ → Type 0
IsFile hs size (pos s) = IsHeader size s (hs s)
IsFile hs size (negsuc s) = ⊥

-- Every entry in use is a file's, and no two of them take the same sector.
abbrev pub Separate : (ℕ → FileHeader) → ℕ → Directory → Type 0
Separate hs size [] = Unit {0}
Separate hs size (e ∷ es) =
    (e.in_use ≡ true
      → IsFile hs size e.sector
        × ((k : ℕ) → file_takes hs e.sector k ≡ true → taken hs es k ≡ false))
    × Separate hs size es

-- With `system` for the sectors of the free map and the directory: a sector of the disk is marked
-- exactly where one of these or a file takes it, and none is taken twice.
pub record IsConsistent (system : ℕ → Bool) (fs : FileSystem) : Type 0 where
  pub valid : IsValid fs.free_map
  pub unique : Unique fs.directory
  pub separate : Separate fs.headers fs.free_map.num_bits fs.directory
  pub reserved : (k : ℕ) → system k ≡ true → taken fs.headers fs.directory k ≡ false
  pub exact :
      (k : ℕ)
      → k < fs.free_map.num_bits
      → is_set fs.free_map k ≡ (taken fs.headers fs.directory k || system k)

put_header_ne :
    (hs : ℕ → FileHeader) (s n : ℕ) (hdr : FileHeader)
    → file_takes hs (pos n) s ≡ false
    → put_header hs s hdr n ≡ hs n
put_header_ne hs s n hdr h =
    rw (==_false s n (λ e. let same : (n == s) ≡ true = (==_iff n s).1 (sym e) in ground arith))
      refl

-- A header that is put where no file is changes no file.
takes-put_header :
    (hs : ℕ → FileHeader) (s : ℕ) (hdr : FileHeader) (at : ℤ) (k : ℕ)
    → file_takes hs at s ≡ false
    → file_takes (put_header hs s hdr) at k ≡ file_takes hs at k
takes-put_header hs s hdr (negsuc n) k h = refl
takes-put_header hs s hdr (pos n) k h =
    ap (λ x. n == k || uses x.data_sectors x.num_sectors k) (put_header_ne hs s n hdr h)

IsFile-put_header :
    (hs : ℕ → FileHeader) (s size : ℕ) (hdr : FileHeader) (at : ℤ)
    → file_takes hs at s ≡ false
    → IsFile hs size at
    → IsFile (put_header hs s hdr) size at
IsFile-put_header hs s size hdr (negsuc n) h f = f
IsFile-put_header hs s size hdr (pos n) h f =
    subst (IsHeader size n) (sym (put_header_ne hs s n hdr h)) f

free_entry :
    (hs : ℕ → FileHeader) (e : DirectoryEntry) (es : Directory) (s : ℕ)
    → taken hs (e ∷ es) s ≡ false
    → (e.in_use ≡ true → file_takes hs e.sector s ≡ false) × (taken hs es s ≡ false)
free_entry hs e es s h = ((λ u. ground arith), ground arith)

pub taken-put_header :
    (hs : ℕ → FileHeader) (s : ℕ) (hdr : FileHeader) (t : Directory) (k : ℕ)
    → taken hs t s ≡ false
    → taken (put_header hs s hdr) t k ≡ taken hs t k
taken-put_header hs s hdr [] k h = refl
taken-put_header hs s hdr (e ∷ es) k h =
    let (here, later) = free_entry hs e es s h in
    let rest = taken-put_header hs s hdr es k later in
    elim (Bool-cases e.in_use) [
      | inl u ↦ rw (u, takes-put_header hs s hdr e.sector k (here u), rest) refl
      | inr free ↦ rw free rest
    ]

pub Separate-put_header :
    (hs : ℕ → FileHeader) (s size : ℕ) (hdr : FileHeader) (t : Directory)
    → taken hs t s ≡ false
    → Separate hs size t
    → Separate (put_header hs s hdr) size t
Separate-put_header hs s size hdr [] h sep = tt
Separate-put_header hs s size hdr (e ∷ es) h sep =
    let (here, later) = free_entry hs e es s h in
    (
      (λ u.
          let (file, alone) = sep.0 u in
          (
            IsFile-put_header hs s size hdr e.sector (here u) file,
            λ k takes.
                taken-put_header hs s hdr es k later
                ∙ alone k (sym (takes-put_header hs s hdr e.sector k (here u)) ∙ takes),
          )),
      Separate-put_header hs s size hdr es later sep.1,
    )

-- A file apart from those of a table is apart from each of them.
meet :
    (hs : ℕ → FileHeader) (e : DirectoryEntry) (es : Directory) (at : ℤ) (k : ℕ)
    → e.in_use ≡ true
    → file_takes hs e.sector k ≡ true
    → (file_takes hs at k ≡ true → taken hs (e ∷ es) k ≡ false)
    → file_takes hs at k ≡ false
meet hs e es at k u takes alone = elim (Bool-cases (file_takes hs at k)) [
  | inl both ↦ cc (takes, (free_entry hs e es k (alone both)).0 u)
  | inr apart ↦ apart
]

-- The loop of `Add` at the head of a table: the entry is taken, or it is in use and stays.
add_entry-cases :
    (e : DirectoryEntry) (es t' : Directory) (name : List ℕ) (at : ℤ)
    → add_entry (e ∷ es) name at ≡ some t'
    → ((e.in_use ≡ false)
        × (t'
            ≡ record e { in_use = true; name = strncpy file_name_max_len e.name name; sector = at }
              ∷ es))
      ⊎ ((es' : Directory) × (e.in_use ≡ true) × (add_entry es name at ≡ some es') × (t' ≡ e ∷ es'))
unfolding add_entry
add_entry-cases e es t' name at h = elim (Bool-cases e.in_use) [
  | inr free ↦ inl (free, ground arith)
  | inl u ↦ elim (Option-cases (add_entry es name at)) [
    | inl full ↦ ground arith
    | inr (es', more) ↦ inr (es', u, more, ground arith)
  ]
]

-- What `Add` enters takes what its file takes.
pub taken-add_entry :
    (hs : ℕ → FileHeader) (t t' : Directory) (name : List ℕ) (at : ℤ) (k : ℕ)
    → add_entry t name at ≡ some t'
    → taken hs t' k ≡ (taken hs t k || file_takes hs at k)
taken-add_entry hs [] t' name at k h = unfold add_entry in cc
taken-add_entry hs (e ∷ es) t' name at k h = elim (add_entry-cases e es t' name at h) [
  | inl (free, e1) ↦ rw (e1, free) (ground arith)
  | inr (es', u, more, e1) ↦ rw (e1, taken-add_entry hs es es' name at k more) (ground arith)
]

pub Separate-add_entry :
    (hs : ℕ → FileHeader) (size : ℕ) (t t' : Directory) (name : List ℕ) (at : ℤ)
    → add_entry t name at ≡ some t'
    → IsFile hs size at
    → ((k : ℕ) → file_takes hs at k ≡ true → taken hs t k ≡ false)
    → Separate hs size t
    → Separate hs size t'
Separate-add_entry hs size [] t' name at h file alone sep = unfold add_entry in cc
Separate-add_entry hs size (e ∷ es) t' name at h file alone sep =
    elim (add_entry-cases e es t' name at h) [
      | inl (free, e1) ↦
          rw e1 ((λ _. (file, λ k takes. (free_entry hs e es k (alone k takes)).1)), sep.1)
      | inr (es', u, more, e1) ↦ rw e1 (
        (λ _. (
          (sep.0 u).0,
          λ k takes.
              let apart : file_takes hs at k ≡ false = meet hs e es at k u takes (alone k) in
              taken-add_entry hs es es' name at k more ∙ rw ((sep.0 u).1 k takes, apart) refl,
        )),
        Separate-add_entry hs size es es' name at more file
            (λ k takes. (free_entry hs e es k (alone k takes)).1) sep.1,
      )
    ]
