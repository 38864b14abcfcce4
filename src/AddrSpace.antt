-- ===== src/AddrSpace.antt =====
-- userprog/addrspace.cc: the table of open files of an address space. Each method is one step, as a
-- thread runs it that no other interrupts; the lock, which covers the map but not the store in `Put`,
-- is left out. An entry is a pointer, `none` for 0, and the outer `none` of a method is a failed
-- ASSERT or an access outside of the array.
pub mod Handles
pub mod Paging
pub mod Load
use csci350_project.Base.{
  ℕ, List, [], ◌∷◌, Bool, true, false, ◌&&◌, Option, none, some, ltb, if◌then◌else◌, ◌>>=◌,
  get_elem?, set, length, get_or,
}
use csci350_project.Base.Int.{ℤ, pos, negsuc, minus_one}
use csci350_project.BitMap
use csci350_project.BitMap.{BitMap}

-- The class, without its lock.
pub record Table {ℓ} (A : Type ℓ) : Type ℓ where
  pub map : BitMap
  pub table : List (Option A)
  pub size : ℕ

module _ {ℓ} {A : Type ℓ} where
  -- An element of the array.
  pub entry : Table A → ℕ → Option (Option A)
  entry t i = get_elem? t.table i

  -- `Table::Get`
  pub get : Table A → ℤ → Option (Option A)
  get t (negsuc i) = some none
  get t (pos i) =
      if ltb i t.size
      then (BitMap.test t.map (pos i) >>= λ there. if there then entry t i else some none)
      else some none

  -- `Table::Put`
  pub put : Table A → Option A → Option (ℤ × Table A)
  put t f = BitMap.find t.map >>= λ (i, map'). elim i [
    | negsuc n ↦ some (negsuc n, record t { map = map' })
    | pos n ↦
        if ltb n (length t.table)
        then some (pos n, record t { map = map'; table = set t.table n f })
        else none
  ]

  -- `Table::Remove`
  pub remove : Table A → ℤ → Option (Option A × Table A)
  remove t (negsuc i) = some (none, t)
  remove t (pos i) =
      if ltb i t.size
      then (BitMap.test t.map (pos i) >>= λ there.
          if there
          then (BitMap.clear t.map (pos i) >>= λ map'.
              entry t i >>= λ f. some (f, record t { map = map'; table = set t.table i none }))
          else some (none, t))
      else some (none, t)
