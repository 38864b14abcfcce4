-- ===== src/Machine/Translate/PageTable.antt =====
-- machine/translate.cc, `Machine::Translate` with a linear page table.
use csci350_project.Base.{
  ℕ, ◌/◌, ◌%◌, ◌≤◌, ◌<◌, ◌≡◌, ◌≢◌, refl, Bool, true, false, List, Option, none, some, arith, leb,
  leb→le, ==_false, ◌>>=◌, ◌∙◌, get_elem?, get_elem?-lt, length, Bool-cases, inl, inr, ℕ_discrete,
}
use csci350_project.Machine.{
  Machine, TranslationEntry, address_error_exception, page_fault_exception, page_size,
}
use csci350_project.Machine.Translate.{
  Translation, fault, is_misaligned, translate_by_page_table, translate,
}
use csci350_project.Machine.Translate.Laws.{
  IsSize, is_misaligned_lem, EntryOutcome, use_entry-EntryOutcome,
}

-- The ways to end: a bad alignment, a page beyond the table, an invalid page, or an access through
-- the page's entry.
pub data PageTableOutcome (table : List TranslationEntry) (table_size va size : ℕ) (writing : Bool)
    (t : Translation) (table' : List TranslationEntry) : Type 0 where
  misaligned :
      va % size ≢ 0
      → t ≡ fault address_error_exception
      → table' ≡ table
      → PageTableOutcome table table_size va size writing t table'
  beyond :
      va % size ≡ 0
      → table_size ≤ va / page_size
      → t ≡ fault address_error_exception
      → table' ≡ table
      → PageTableOutcome table table_size va size writing t table'
  invalid :
      (e : TranslationEntry)
      → va % size ≡ 0
      → va / page_size < table_size
      → get_elem? table (va / page_size) ≡ some e
      → e.valid ≡ false
      → t ≡ fault page_fault_exception
      → table' ≡ table
      → PageTableOutcome table table_size va size writing t table'
  by_entry :
      (e : TranslationEntry)
      → va % size ≡ 0
      → va / page_size < table_size
      → get_elem? table (va / page_size) ≡ some e
      → e.valid ≡ true
      → EntryOutcome table (va / page_size) e va size writing t table'
      → PageTableOutcome table table_size va size writing t table'

same_table :
    {m : Machine} {table : List TranslationEntry} {t : Translation}
    → m.page_table ≡ some table
    → ◌≡◌ {A = Option (Translation × Machine)}
        (some (t, m))
        (some (t, record m { page_table = some table }))
same_table h = ground arith

enters :
    (m : Machine) (table : List TranslationEntry) (va size : ℕ) (writing : Bool)
    → is_misaligned va size ≡ false
    → m.tlb ≡ none
    → m.page_table ≡ some table
    → translate m va size writing ≡ (
        translate_by_page_table table m.page_table_size va size writing >>= λ (t, table').
        some (t, record m { page_table = some table' }))
unfolding translate
enters m table va size writing h no_tlb here = ground arith

-- With no TLB, and a page table of at least `pageTableSize` entries, an access of 1, 2 or 4 bytes at
-- any address fails no ASSERT, and it ends in one of those ways; the machine changes in its page
-- table alone.
pub translate-PageTableOutcome :
    (m : Machine) (table : List TranslationEntry) (va size : ℕ) (writing : Bool)
    → IsSize size
    → m.tlb ≡ none
    → m.page_table ≡ some table
    → m.page_table_size ≤ length table
    → (t : Translation) × (table' : List TranslationEntry) × (translate m va size writing
        ≡ some (t, record m { page_table = some table' }))
      × PageTableOutcome table m.page_table_size va size writing t table'
unfolding translate_by_page_table
translate-PageTableOutcome m table va size writing s no_tlb here room =
    elim (ℕ_discrete (va % size) 0) [
      | no d ↦
          let bad : is_misaligned va size ≡ true =
            rw (is_misaligned_lem va size s, ==_false (va % size) 0 d) in
          (
            fault address_error_exception,
            table,
            (unfold translate in rw bad (same_table here)),
            misaligned d refl refl,
          )
      | yes aligned ↦
          let good : is_misaligned va size ≡ false = rw (is_misaligned_lem va size s, aligned) in
          let start = enters m table va size writing good no_tlb here in
          elim (Bool-cases (leb m.page_table_size (va / page_size))) [
            | inl big ↦ (
              fault address_error_exception,
              table,
              start ∙ rw big,
              beyond aligned (leb→le _ _ big) refl refl,
            )
            | inr small ↦
                let inside : va / page_size < m.page_table_size = ground arith in
                let (e, at) = get_elem?-lt table (va / page_size) (omega arith) in
                elim (Bool-cases e.valid) [
                  | inr bad ↦ (
                    fault page_fault_exception,
                    table,
                    start ∙ rw (small, at, bad),
                    invalid e aligned inside at bad refl refl,
                  )
                  | inl ok ↦
                      let (t, table', done, how) =
                        use_entry-EntryOutcome table (va / page_size) e va size writing s aligned
                          at in
                      (
                        t,
                        table',
                        start ∙ rw (small, at, ok, done),
                        by_entry e aligned inside at ok how,
                      )
                ]
          ]
    ]
