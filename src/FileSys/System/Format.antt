-- ===== src/FileSys/System/Format.antt =====
-- filesys/filesys.cc: the constructor with `format`, and the disks that it and the operations make.
use csci350_project.Base.{
  ℕ, zero, suc, ◌+◌, ◌*◌, ◌≤◌, ◌<◌, ◌≡◌, refl, sym, subst, ◌∙◌, arith, Bool, true, false, ◌||◌,
  List, [], ◌∷◌, some, ◌==◌, length,
}
use csci350_project.Base.Int.{pos, minus_one}
use csci350_project.BitMap
use csci350_project.BitMap.{BitMap, div_round_up}
use csci350_project.BitMap.Laws.{is_set, IsValid, Updates, init_lem, mark-Updates}
use csci350_project.BitMap.Search.{count_clear, count_clear-Updates}
use csci350_project.FileSys.FileHeader.{FileHeader, num_direct}
use csci350_project.FileSys.FileHeader.Sectors.{uses}
use csci350_project.FileSys.FileHeader.Allocation.{allocate-Allocated}
use csci350_project.FileSys.Directory
use csci350_project.FileSys.Directory.{DirectoryEntry, Directory}
use csci350_project.FileSys.Directory.Laws.{init-Unique, search-init}
use csci350_project.FileSys.Directory.Lookup.{find-search}
use csci350_project.FileSys.System.{
  FileSystem, put_header, format, num_sectors, free_map_sector, directory_sector,
  free_map_file_size, directory_file_size,
}
use csci350_project.FileSys.System.Space.{taken, Separate, IsConsistent}

taken-init :
    (hs : ℕ → FileHeader) (t : List DirectoryEntry) (k : ℕ) → taken hs (Directory.init t) k ≡ false
unfolding Directory.init
taken-init hs [] k = refl
taken-init hs (e ∷ es) k = taken-init hs es k

Separate-init :
    (hs : ℕ → FileHeader) (size : ℕ) (t : List DirectoryEntry) → Separate hs size (Directory.init t)
unfolding Directory.init
Separate-init hs size [] = tt
Separate-init hs size (e ∷ es) = ((λ h. cc), Separate-init hs size es)

count_clear-empty :
    (m : BitMap) (n : ℕ) → ((j : ℕ) → j < n → is_set m j ≡ false) → count_clear m n ≡ n
count_clear-empty m zero h = refl
count_clear-empty m (suc n) h =
    rw (h n (omega arith), count_clear-empty m n (λ j lt. h j (omega arith))) (omega arith)

-- Two marked sectors leave all but two free.
count_two :
    (m1 m2 m3 : BitMap) (n : ℕ)
    → ((j : ℕ) → j < n → is_set m1 j ≡ false)
    → Updates m1 m2 0 true
    → Updates m2 m3 1 true
    → 1 < n
    → count_clear m3 n + 2 ≡ n
count_two m1 m2 m3 n empty up2 up3 h =
    let all = count_clear-empty m1 n empty in
    let one = count_clear-Updates m1 m2 0 n (empty 0 (omega arith)) up2 in
    let two = count_clear-Updates m2 m3 1 n (up2.member 1 ∙ empty 1 h) up3 in ground arith

-- What stands on the disk once the map is new and its first two sectors are marked.
record Reserved (memory : List ℕ) : Type 0 where
  map1 : BitMap
  map2 : BitMap
  map3 : BitMap
  new : BitMap.init num_sectors memory ≡ some map1
  first : BitMap.mark map1 (pos free_map_sector) ≡ some map2
  second : BitMap.mark map2 (pos directory_sector) ≡ some map3
  size : map3.num_bits ≡ num_sectors
  valid : IsValid map3
  members : (k : ℕ) → k < num_sectors → is_set map3 k ≡ (1 == k || 0 == k)
  room : count_clear map3 map3.num_bits + 2 ≡ map3.num_bits

reserve : (memory : List ℕ) → num_sectors ≤ 32 * length memory → Reserved memory
reserve memory h =
    let (map1, new, empty, size1, ok1) = init_lem num_sectors memory h in
    let (map2, first, up2) = mark-Updates map1 free_map_sector ok1 (omega (arith, size1)) in
    let (map3, second, up3) =
      mark-Updates map2 directory_sector up2.valid (omega (arith, size1, up2.same_size)) in
    let same : map3.num_bits ≡ map1.num_bits = up3.same_size ∙ up2.same_size in
    record {
      map1 = map1;
      map2 = map2;
      map3 = map3;
      new = new;
      first = first;
      second = second;
      size = same ∙ size1;
      valid = up3.valid;
      members = λ k lt. up3.member k ∙ rw (up2.member k, empty k lt) (ground arith);
      room =
          count_two map1 map2 map3 map3.num_bits (λ j lt. empty j (omega (arith, same, size1))) up2
            up3 (omega (arith, same, size1));
    }

-- The sectors of the free map and of the directory, their headers' included.
abbrev pub system_sectors : (ℕ → FileHeader) → ℕ → Bool
system_sectors hs k =
    ((1 == k || 0 == k)
      || uses (hs free_map_sector).data_sectors (hs free_map_sector).num_sectors k)
    || uses (hs directory_sector).data_sectors (hs directory_sector).num_sectors k

-- Whatever the memory that it is handed, of 32 words at least for the map, the constructor fails no
-- ASSERT. The disk is then in order and holds no file.
pub format_lem :
    (memory : List ℕ) (table : List DirectoryEntry) (map_hdr dir_hdr : FileHeader)
    (headers : ℕ → FileHeader)
    → num_sectors ≤ 32 * length memory
    → length map_hdr.data_sectors ≡ num_direct
    → length dir_hdr.data_sectors ≡ num_direct
    → (fs : FileSystem) × (format memory table map_hdr dir_hdr headers ≡ some fs)
      × IsConsistent (system_sectors fs.headers) fs
      × ((name : List ℕ) → Directory.find fs.directory name ≡ minus_one)
unfolding format
format_lem memory table map_hdr dir_hdr headers words h1 h2 =
    let r = reserve memory words in
    let (hdr1, m4, done4, bytes4, sectors4, a4) =
      allocate-Allocated map_hdr r.map3 free_map_file_size r.valid h1 (omega arith)
        (omega (arith, r.room, r.size)) in
    let (hdr2, m5, done5, bytes5, sectors5, a5) =
      allocate-Allocated dir_hdr m4 directory_file_size a4.valid h2 (omega arith) (
        subst (λ n. 2 ≤ count_clear m4 n) (sym a4.same_size)
          (omega (arith, r.room, r.size, a4.counted, sectors4))) in
    let fs : FileSystem = record {
      free_map = m5;
      directory = Directory.init table;
      headers = put_header (put_header headers free_map_sector hdr1) directory_sector hdr2;
    } in
    (
      fs,
      simp (r.new, r.first, r.second, done4, done5),
      record {
        valid = a5.valid;
        unique = init-Unique table;
        separate = Separate-init fs.headers m5.num_bits table;
        reserved = λ k own. taken-init fs.headers table k;
        exact = λ k lt.
            let there : is_set r.map3 k ≡ (1 == k || 0 == k) =
              r.members k (omega (arith, lt, a5.same_size, a4.same_size, r.size)) in
            a5.members k ∙ rw (a4.members k, there, taken-init fs.headers table k) refl;
      },
      λ name. find-search (Directory.init table) name ∙ rw (search-init table name) refl,
    )
