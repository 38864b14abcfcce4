-- ===== src/Machine/Translate/Laws.antt =====
-- machine/translate.cc: every way `Machine::Translate` can end, for a page table and for a TLB.
use csci350_project.Base.{
  ℕ, zero, suc, ◌+◌, ◌*◌, ◌%◌, ◌≤◌, ◌<◌, ◌≡◌, refl, ap, Bool, true, false, not, ◌||◌, ◌&&◌, List,
  [], ◌∷◌, some, arith, leb, leb→le, le→leb, ◌==◌, if◌then◌else◌, get_elem?, set, Bool-cases, inl,
  inr,
}
use csci350_project.Bits.{bit_and-mask}
use csci350_project.Machine.{
  TranslationEntry, read_only_exception, bus_error_exception, page_size, num_phys_pages,
  memory_size,
}
use csci350_project.Machine.Translate.{
  Translation, fault, phys, is_misaligned, translate_entry, use_entry,
}

-- The sizes of an access: a byte, a short, a word.
pub data IsSize : ℕ → Type 0 where
  one : {n : ℕ} → n ≡ 1 → IsSize n
  two : {n : ℕ} → n ≡ 2 → IsSize n
  four : {n : ℕ} → n ≡ 4 → IsSize n

pub is_misaligned_lem : (va size : ℕ) → IsSize size → is_misaligned va size ≡ not (va % size == 0)
is_misaligned_lem va size (one e) = rw e (ground arith)
is_misaligned_lem va size (two e) = rw (e, bit_and-mask 1 va) (ground arith)
is_misaligned_lem va size (four e) = rw (e, bit_and-mask 2 va) (ground arith)

-- An aligned access does not cross the end of its page.
page_room : (va size : ℕ) → IsSize size → va % size ≡ 0 → va % page_size + size ≤ page_size
page_room va size (one e) h = rw e (omega arith)
page_room va size (two e) h = rw e (omega (arith, rw e at h))
page_room va size (four e) h = rw e (omega (arith, rw e at h))

set-get_elem? :
    (table : List TranslationEntry) (i : ℕ) {e : TranslationEntry}
    → get_elem? table i ≡ some e
    → set table i e ≡ table
set-get_elem? [] i h = refl
set-get_elem? (x ∷ xs) zero h = ground arith
set-get_elem? (x ∷ xs) (suc i) h = ap (◌∷◌ x) (set-get_elem? xs i h)

-- How an access through the valid entry `e` ends: the answer `t` and the table that it leaves.
pub data EntryOutcome (table : List TranslationEntry) (i : ℕ) (e : TranslationEntry) (va size : ℕ)
    (writing : Bool) (t : Translation) (table' : List TranslationEntry) : Type 0 where
  read_only :
      e.read_only ≡ true
      → writing ≡ true
      → t ≡ fault read_only_exception
      → table' ≡ table
      → EntryOutcome table i e va size writing t table'
  bus_error :
      (e.read_only && writing) ≡ false
      → num_phys_pages ≤ e.physical_page
      → t ≡ fault bus_error_exception
      → table' ≡ table
      → EntryOutcome table i e va size writing t table'
  mapped :
      (e.read_only && writing) ≡ false
      → e.physical_page < num_phys_pages
      → t ≡ phys (e.physical_page * page_size + va % page_size)
      → e.physical_page * page_size + va % page_size + size ≤ memory_size
      → table' ≡ set table i (record e { use_bit = true; dirty = e.dirty || writing })
      → EntryOutcome table i e va size writing t table'

or_comm : (a b : Bool) → (if a then true else b) ≡ (b || a)
or_comm a b = ground arith

pub use_entry-EntryOutcome :
    (table : List TranslationEntry) (i : ℕ) (e : TranslationEntry) (va size : ℕ) (writing : Bool)
    → IsSize size
    → va % size ≡ 0
    → get_elem? table i ≡ some e
    → (t : Translation) × (table' : List TranslationEntry) × (use_entry table i
          (va % page_size)
          size
          writing
        ≡ some (t, table'))
      × EntryOutcome table i e va size writing t table'
unfolding use_entry translate_entry
use_entry-EntryOutcome table i e va size writing s aligned at =
    elim (Bool-cases (e.read_only && writing)) [
      | inl no_write ↦ (
        fault read_only_exception,
        table,
        rw (at, no_write, set-get_elem? table i at),
        read_only (ground arith) (ground arith) refl refl,
      )
      | inr may ↦ elim (Bool-cases (leb num_phys_pages e.physical_page)) [
        | inl big ↦ (
          fault bus_error_exception,
          table,
          rw (at, may, big, set-get_elem? table i at),
          bus_error may (leb→le _ _ big) refl refl,
        )
        | inr small ↦
            let frame : e.physical_page < num_phys_pages = ground arith in
            let p = e.physical_page * page_size + va % page_size in
            let fits : p + size ≤ memory_size = omega (arith, page_room va size s aligned) in
            (
              phys p,
              set table i (record e { use_bit = true; dirty = e.dirty || writing }),
              rw (at, may, small, le→leb _ _ fits, or_comm writing e.dirty),
              mapped may frame refl fits refl,
            )
      ]
    ]
