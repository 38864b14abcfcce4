-- ===== src/FileSys/FileHeader/Release.antt =====
-- filesys/filehdr.cc: `Deallocate` undoes `Allocate`.
use csci350_project.Base.{
  ℕ, zero, suc, ◌+◌, ◌*◌, ◌≤◌, ◌<◌, ◌≡◌, refl, subst, ◌∙◌, Bool, true, false, not, ◌||◌, ◌&&◌, List,
  some, arith, ◌==◌, ==_false, if◌then◌else◌, get_elem?, length, ℕ_discrete,
}
use csci350_project.Base.Int.{ℤ, pos}
use csci350_project.BitMap.{BitMap, div_round_up}
use csci350_project.BitMap.Laws.{is_set, IsValid, Updates, test_lem, clear-Updates}
use csci350_project.BitMap.Search.{count_clear}
use csci350_project.FileSys.FileHeader.{
  FileHeader, sector_size, num_direct, allocate, deallocate_from, deallocate,
}
use csci350_project.FileSys.FileHeader.Sectors.{uses, Sectors, uses-entry}
use csci350_project.FileSys.FileHeader.Allocation.{Allocated, allocate-Allocated}

-- `m'` is `m` without the sectors of the first `n` entries.
pub record Freed (m m' : BitMap) (ds : List ℤ) (n : ℕ) : Type 0 where
  pub members : (k : ℕ) → is_set m' k ≡ (is_set m k && not (uses ds n k))
  pub same_size : m'.num_bits ≡ m.num_bits
  pub valid : IsValid m'

or_and_not : (a b : Bool) → (a && b) ≡ false → ((a || b) && not b) ≡ a
or_and_not a b h = ground arith

and_not : (a b c : Bool) → (if b then false else (a && not c)) ≡ (a && not (b || c))
and_not a b c = ground arith

Freed-suc :
    (m m1 m2 : BitMap) (ds : List ℤ) (i s : ℕ)
    → Freed m m1 ds i
    → get_elem? ds i ≡ some (pos s)
    → Updates m1 m2 s false
    → Freed m m2 ds (suc i)
Freed-suc m m1 m2 ds i s f e up = record {
  members = λ k. up.member k ∙ rw (f.members k, e) (and_not (is_set m k) (s == k) (uses ds i k));
  same_size = up.same_size ∙ f.same_size;
  valid = up.valid;
}

deallocate_from_lem :
    (left i n : ℕ) (m m1 : BitMap) (ds : List ℤ)
    → Sectors true m ds n
    → Freed m m1 ds i
    → i + left ≡ n
    → (m' : BitMap) × (deallocate_from left i ds m1 ≡ some m') × Freed m m' ds n
unfolding deallocate_from
deallocate_from_lem zero i n m m1 ds all f e = (m1, refl, subst (Freed m m1 ds) (omega arith) f)
deallocate_from_lem (suc left) i n m m1 ds all f e =
    let p = all i (omega arith) in
    let on_disk : p.sector < m1.num_bits = omega (arith, p.on_disk, f.same_size) in
    let marked : is_set m1 p.sector ≡ true = f.members p.sector ∙ rw (p.marked, p.fresh) in
    let (m2, done, up) = clear-Updates m1 p.sector f.valid on_disk in
    let (m', rest, freed) =
      deallocate_from_lem left (i + 1) n m m2 ds all
        (subst (Freed m m2 ds) (omega arith) (Freed-suc m m1 m2 ds i p.sector f p.entry up))
        (omega arith) in
    (m', rw (p.entry, test_lem m1 p.sector on_disk, marked, done) rest, freed)

-- On a valid free map, where the table's entries are distinct marked sectors, no ASSERT of `Deallocate` fails, and it
-- clears those bits of the free map and no other.
pub deallocate-Freed :
    (hdr : FileHeader) (m : BitMap)
    → IsValid m
    → Sectors true m hdr.data_sectors hdr.num_sectors
    → (m' : BitMap) × (deallocate hdr m ≡ some m') × Freed m m' hdr.data_sectors hdr.num_sectors
unfolding deallocate
deallocate-Freed hdr m ok all =
    deallocate_from_lem hdr.num_sectors 0 hdr.num_sectors m m hdr.data_sectors all
      (record { members = λ k. ground arith; same_size = refl; valid = ok }) (omega arith)

-- What `Allocate` entered is what `Deallocate` asks for.
pub Allocated-Sectors :
    (m m' : BitMap) (ds : List ℤ) (n : ℕ) → Allocated m m' ds n → Sectors true m' ds n
Allocated-Sectors m m' ds n a i h =
    let p = a.sectors i h in
    record {
      sector = p.sector;
      entry = p.entry;
      on_disk = omega (arith, p.on_disk, a.same_size);
      marked = a.members p.sector ∙ rw (p.marked, uses-entry ds n i p.sector h p.entry);
      fresh = p.fresh;
    }

pub uses_free :
    (m : BitMap) (ds : List ℤ) (n k : ℕ)
    → Sectors false m ds n
    → (is_set m k && uses ds n k) ≡ false
uses_free m ds zero k all = ground arith
uses_free m ds (suc n) k all =
    let p = all n (omega arith) in
    rw p.entry (elim (ℕ_discrete p.sector k) [
      | yes e ↦ rw (← e, p.marked)
      | no d ↦ rw (==_false p.sector k d) (uses_free m ds n k (λ i h. all i (omega arith)))
    ])

-- With a valid free map of enough free sectors, and a size that the table of `NumDirect` entries
-- holds, `Allocate` and then `Deallocate` succeed and leave the free map with its first members.
pub deallocate-allocate :
    (hdr : FileHeader) (m : BitMap) (size : ℕ)
    → IsValid m
    → length hdr.data_sectors ≡ num_direct
    → size ≤ num_direct * sector_size
    → div_round_up size sector_size ≤ count_clear m m.num_bits
    → (hdr' : FileHeader) × (m1 m2 : BitMap) × (allocate hdr m size ≡ some (true, hdr', m1))
      × (deallocate hdr' m1 ≡ some m2)
      × ((k : ℕ) → is_set m2 k ≡ is_set m k)
deallocate-allocate hdr m size ok table fits room =
    let (hdr', m1, e, _, _, a) = allocate-Allocated hdr m size ok table fits room in
    let ds = hdr'.data_sectors in
    let n = hdr'.num_sectors in
    let (m2, d, f) = deallocate-Freed hdr' m1 a.valid (Allocated-Sectors m m1 ds n a) in
    (
      hdr',
      m1,
      m2,
      e,
      d,
      λ k.
          f.members k
          ∙ rw (a.members k) (or_and_not (is_set m k) (uses ds n k) (uses_free m ds n k a.sectors)),
    )
