-- ===== src/FileSys/FileHeader/Sectors.antt =====
-- The sectors that the table of filesys/filehdr.h names, as a set of numbers.
use csci350_project.Base.{
  ℕ, zero, suc, ◌≤◌, ◌<◌, ◌≡◌, refl, ap₂, Bool, true, false, ◌||◌, List, Option, none, some, arith,
  ◌==◌, get_elem?, set, get_elem?-set_ne, ℕ_discrete,
}
use csci350_project.Base.Int.{ℤ, pos, negsuc}
use csci350_project.BitMap.{BitMap}
use csci350_project.BitMap.Laws.{is_set}

abbrev pub is_sector : Option ℤ → ℕ → Bool
is_sector (some (pos s)) k = s == k
is_sector (some (negsuc s)) k = false
is_sector none k = false

-- `k` is among the first `n` entries of the table.
abbrev pub uses : List ℤ → ℕ → ℕ → Bool
uses ds zero k = false
uses ds (suc n) k = is_sector (get_elem? ds n) k || uses ds n k

-- The entry `i` names a sector of the disk that no entry before it names, and whose bit in `m` is
-- `v`.
pub record Placed (v : Bool) (m : BitMap) (ds : List ℤ) (i : ℕ) : Type 0 where
  pub sector : ℕ
  pub entry : get_elem? ds i ≡ some (pos sector)
  pub on_disk : sector < m.num_bits
  pub marked : is_set m sector ≡ v
  pub fresh : uses ds i sector ≡ false

abbrev pub Sectors : Bool → BitMap → List ℤ → ℕ → Type 0
Sectors v m ds n = (i : ℕ) → i < n → Placed v m ds i

pub uses-set : (ds : List ℤ) (n p k : ℕ) (s : ℤ) → n ≤ p → uses (set ds p s) n k ≡ uses ds n k
uses-set ds zero p k s h = refl
uses-set ds (suc n) p k s h =
    ap₂ (λ e r. is_sector e k || r) (get_elem?-set_ne ds s (λ e. omega arith))
      (uses-set ds n p k s (omega arith))

-- What an entry names is among the entries.
pub uses-entry :
    (ds : List ℤ) (n i s : ℕ) → i < n → get_elem? ds i ≡ some (pos s) → uses ds n s ≡ true
uses-entry ds zero i s h e = elim h [ ]
uses-entry ds (suc n) i s h e = elim (ℕ_discrete i n) [
  | yes q ↦ rw (← q, e) (ground arith)
  | no q ↦ rw (uses-entry ds n i s (omega arith) e) (ground arith)
]
