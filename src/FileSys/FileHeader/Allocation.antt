-- ===== src/FileSys/FileHeader/Allocation.antt =====
-- filesys/filehdr.cc: what `Allocate` and `Deallocate` do to the free map.
use csci350_project.Base.{
  ℕ, zero, suc, ◌+◌, ◌*◌, ◌≤◌, ◌<◌, ◌≡◌, refl, sym, subst, ◌∙◌, Bool, true, false, ◌||◌, List, some,
  arith, ltb, lt→ltb, ◌==◌, if◌then◌else◌, get_elem?, set, length, length-set, get_elem?-set_self,
  get_elem?-set_ne, ℕ_discrete,
}
use csci350_project.Base.Int.{ℤ, pos}
use csci350_project.BitMap.{BitMap, div_round_up}
use csci350_project.BitMap.Laws.{is_set, IsValid, Updates}
use csci350_project.BitMap.Search.{count_clear, count_clear-Updates, find-some, num_clear_lem}
use csci350_project.FileSys.FileHeader.{
  FileHeader, sector_size, num_direct, allocate_from, allocate,
}
use csci350_project.FileSys.FileHeader.Sectors.{uses, Placed, Sectors, uses-set}

-- The first `n` entries of `ds` were taken out of the free sectors of `m`, which leaves `m'`.
pub record Allocated (m m' : BitMap) (ds : List ℤ) (n : ℕ) : Type 0 where
  pub members : (k : ℕ) → is_set m' k ≡ (is_set m k || uses ds n k)
  pub sectors : Sectors false m ds n
  pub counted : count_clear m' m.num_bits + n ≡ count_clear m m.num_bits
  pub same_size : m'.num_bits ≡ m.num_bits
  pub valid : IsValid m'
  pub table : length ds ≡ num_direct

Placed-set :
    (v : Bool) (m : BitMap) (ds : List ℤ) (i p : ℕ) (s : ℤ)
    → i < p
    → Placed v m ds i
    → Placed v m (set ds p s) i
Placed-set v m ds i p s h q = record {
  sector = q.sector;
  entry = get_elem?-set_ne ds s (λ e. omega arith) ∙ q.entry;
  on_disk = q.on_disk;
  marked = q.marked;
  fresh = uses-set ds i p q.sector s (omega arith) ∙ q.fresh;
}

or_false : (a b : Bool) → (a || b) ≡ false → (a ≡ false) × (b ≡ false)
or_false a b h = ground arith

or_true : (a b c : Bool) → (if b then true else (a || c)) ≡ (a || (b || c))
or_true a b c = ground arith

-- One more round.
Allocated-suc :
    (m m1 m2 : BitMap) (ds : List ℤ) (i s : ℕ)
    → Allocated m m1 ds i
    → i < num_direct
    → s < m1.num_bits
    → is_set m1 s ≡ false
    → Updates m1 m2 s true
    → Allocated m m2 (set ds i (pos s)) (suc i)
Allocated-suc m m1 m2 ds i s a lt on_disk free up = record {
  members = λ k.
      up.member k
      ∙ rw (a.members k, here, uses-set ds i i k (pos s) (omega arith))
          (or_true (is_set m k) (s == k) (uses ds i k));
  sectors = λ j h. elim (ℕ_discrete j i) [
    | yes e ↦ rw e (record {
      sector = s;
      entry = here;
      on_disk = omega (arith, a.same_size);
      marked = clean.0;
      fresh = uses-set ds i i s (pos s) (omega arith) ∙ clean.1;
    })
    | no d ↦ Placed-set false m ds j i (pos s) (omega arith) (a.sectors j (omega arith))
  ];
  counted = omega (
    arith,
    a.counted,
    rw (lt→ltb s m.num_bits (omega (arith, a.same_size))) at
        (count_clear-Updates m1 m2 s m.num_bits free up),
  );
  same_size = up.same_size ∙ a.same_size;
  valid = up.valid;
  table = length-set ds i (pos s) ∙ a.table;
}
  where
    here : get_elem? (set ds i (pos s)) i ≡ some (pos s)
    here = get_elem?-set_self ds i (pos s) (omega (arith, a.table))

    clean : (is_set m s ≡ false) × (uses ds i s ≡ false)
    clean = or_false (is_set m s) (uses ds i s) (sym (a.members s) ∙ free)

not_below : (a b : ℕ) → b ≤ a → ltb a b ≡ false
not_below a b h = ground arith

Allocated-zero :
    (m : BitMap) (ds : List ℤ) → IsValid m → length ds ≡ num_direct → Allocated m m ds 0
Allocated-zero m ds ok table = record {
  members = λ k. ground arith;
  sectors = λ i h. elim h [ ];
  counted = omega arith;
  same_size = refl;
  valid = ok;
  table = table;
}

allocate_from_lem :
    (left i n : ℕ) (m m1 : BitMap) (ds : List ℤ)
    → Allocated m m1 ds i
    → IsValid m1
    → i + left ≡ n
    → n ≤ num_direct
    → left ≤ count_clear m1 m.num_bits
    → (ds' : List ℤ) × (m' : BitMap) × (allocate_from left i ds m1 ≡ some (ds', m'))
      × Allocated m m' ds' n
unfolding allocate_from
allocate_from_lem zero i n m m1 ds a ok e fits room =
    (ds, m1, refl, subst (Allocated m m1 ds) (omega arith) a)
allocate_from_lem (suc left) i n m m1 ds a ok e fits room =
    let (s, m2, got, lt, free, up) = find-some m1 ok (rw a.same_size (omega arith)) in
    let next : Allocated m m2 (set ds i (pos s)) (suc i) =
      Allocated-suc m m1 m2 ds i s a (omega arith) lt free up in
    let (ds', m', rest, all) =
      allocate_from_lem left (i + 1) n m m2 (set ds i (pos s))
        (subst (Allocated m m2 (set ds i (pos s))) (omega arith) next) up.valid (omega arith) fits
        (omega (arith, next.counted, a.counted)) in
    (ds', m', rw (got, lt→ltb i num_direct (omega arith)) rest, all)

-- With a valid free map of enough free sectors, and a size that the table of `NumDirect` entries
-- holds, `Allocate` answers TRUE, and every
-- sector that it enters was free, is on the disk, is entered once and is marked; no other bit of the
-- free map changes, and the number of free sectors falls by the number of entries.
pub allocate-Allocated :
    (hdr : FileHeader) (m : BitMap) (size : ℕ)
    → IsValid m
    → length hdr.data_sectors ≡ num_direct
    → size ≤ num_direct * sector_size
    → div_round_up size sector_size ≤ count_clear m m.num_bits
    → (hdr' : FileHeader) × (m' : BitMap) × (allocate hdr m size ≡ some (true, hdr', m'))
      × (hdr'.num_bytes ≡ size)
      × (hdr'.num_sectors ≡ div_round_up size sector_size)
      × Allocated m m' hdr'.data_sectors hdr'.num_sectors
unfolding allocate
allocate-Allocated hdr m size ok table fits room =
    let n = div_round_up size sector_size in
    let (ds, m', done, a) =
      allocate_from_lem n 0 n m m hdr.data_sectors (Allocated-zero m hdr.data_sectors ok table) ok
        (omega arith) (ground arith) room in
    (
      record { num_bytes = size; num_sectors = n; data_sectors = ds },
      m',
      rw (num_clear_lem m, not_below (count_clear m m.num_bits) n room, done),
      refl,
      refl,
      a,
    )

-- With too few free sectors it answers FALSE and leaves the free map and the table as they were.
pub allocate_refused :
    (hdr : FileHeader) (m : BitMap) (size : ℕ)
    → count_clear m m.num_bits < div_round_up size sector_size
    → (hdr' : FileHeader) × (allocate hdr m size ≡ some (false, hdr', m))
      × (hdr'.data_sectors ≡ hdr.data_sectors)
unfolding allocate
allocate_refused hdr m size h = (
  record hdr { num_bytes = size; num_sectors = div_round_up size sector_size },
  rw (num_clear_lem m, lt→ltb (count_clear m m.num_bits) (div_round_up size sector_size) h),
  refl,
)
