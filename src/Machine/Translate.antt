-- ===== src/Machine/Translate.antt =====
-- machine/translate.cc, `Machine::Translate`: from a virtual address to a physical one.
pub mod Laws
pub mod PageTable
pub mod Tlb
use csci350_project.Base.{
  ℕ, zero, suc, ◌+◌, ◌-◌, ◌*◌, ◌/◌, ◌%◌, ◌^◌, bit_and, Bool, true, false, not, ◌||◌, ◌&&◌, List, [],
  ◌∷◌, Option, none, some, leb, ltb, ◌==◌, if◌then◌else◌, ◌>>=◌, get_elem?, set,
}
use csci350_project.Machine.{
  Machine, TranslationEntry, ExceptionType, no_exception, page_fault_exception, read_only_exception,
  bus_error_exception, address_error_exception, page_size, num_phys_pages, memory_size,
}

-- The answer: an exception, or the address that goes into `*physAddr`.
pub data Translation : Type 0 where
  fault : ExceptionType → Translation
  phys : ℕ → Translation

-- `((size == 4) && (virtAddr & 0x3)) || ((size == 2) && (virtAddr & 0x1))`
abbrev pub is_misaligned : ℕ → ℕ → Bool
is_misaligned virt_addr size =
    (size == 4 && not (bit_and virt_addr 3 == 0)) || (size == 2 && not (bit_and virt_addr 1 == 0))

-- From the read-only check on: the answer, and the entry with its use and dirty bits.
pub translate_entry : TranslationEntry → ℕ → Bool → Translation × TranslationEntry
translate_entry entry offset writing =
    if entry.read_only && writing
    then (fault read_only_exception, entry)
    else (if leb num_phys_pages entry.physical_page then (fault bus_error_exception, entry) else (
      phys (entry.physical_page * page_size + offset),
      record entry { use_bit = true; dirty = if writing then true else entry.dirty },
    ))

-- The last ASSERT, on the physical address.
abbrev pub check_phys : Translation → ℕ → Option Translation
check_phys (fault e) size = some (fault e)
check_phys (phys p) size = if leb (p + size) memory_size then some (phys p) else none

-- The loop over the TLB.
pub find_entry : List TranslationEntry → ℕ → Option ℕ
find_entry [] vpn = none
find_entry (e ∷ es) vpn =
    let rest = find_entry es vpn in
    if e.valid && e.virtual_page == vpn
    then some 0
    else elim rest [ none ↦ none | some i ↦ some (suc i) ]

abbrev pub Tables : Type 0
Tables = Translation × List TranslationEntry

-- What follows once the entry is chosen.
pub use_entry : List TranslationEntry → ℕ → ℕ → ℕ → Bool → Option Tables
use_entry table i offset size writing = do
  entry ← get_elem? table i
  let (answer, entry') = translate_entry entry offset writing
  answer' ← check_phys answer size
  some (answer', set table i entry')

pub translate_by_page_table : List TranslationEntry → ℕ → ℕ → ℕ → Bool → Option Tables
translate_by_page_table table table_size virt_addr size writing =
    let vpn = virt_addr / page_size in
    let offset = virt_addr % page_size in
    if leb table_size vpn
    then some (fault address_error_exception, table)
    else (get_elem? table vpn >>= λ e.
        if not e.valid
        then some (fault page_fault_exception, table)
        else use_entry table vpn offset size writing)

pub translate_by_tlb : List TranslationEntry → ℕ → ℕ → Bool → Option Tables
translate_by_tlb table virt_addr size writing =
    let vpn = virt_addr / page_size in
    let offset = virt_addr % page_size in
    elim (find_entry table vpn) [
      | none ↦ some (fault page_fault_exception, table)
      | some i ↦ use_entry table i offset size writing
    ]

-- `Machine::Translate`: exactly one of the two tables is there, or an ASSERT fails.
unfoldable pub translate : Machine → ℕ → ℕ → Bool → Option (Translation × Machine)
translate m virt_addr size writing =
    if is_misaligned virt_addr size then some (fault address_error_exception, m) else elim m.tlb [
      | none ↦ elim m.page_table [
        | none ↦ none
        | some pt ↦
            translate_by_page_table pt m.page_table_size virt_addr size writing >>= λ (t, pt').
            some (t, record m { page_table = some pt' })
      ]
      | some tlb ↦ elim m.page_table [
        | none ↦ translate_by_tlb tlb virt_addr size writing >>= λ (t, tlb').
            some (t, record m { tlb = some tlb' })
        | some _ ↦ none
      ]
    ]
