-- ===== src/Machine/Memory/RoundTrip.antt =====
-- machine/translate.cc: `WriteMem` and then `ReadMem`, through a page table.
use csci350_project.Base.{
  ℕ, ◌+◌, ◌*◌, ◌/◌, ◌%◌, ◌≤◌, ◌<◌, ◌≡◌, refl, sym, ap, subst, ◌∙◌, Bool, true, false, ◌||◌, List,
  none, some, arith, get_elem?, get_or, set, length, length-set, get_elem?-set_self, ◌⊎◌,
}
use csci350_project.Machine.{
  Machine, Handler, TranslationEntry, page_size, num_phys_pages, memory_size,
}
use csci350_project.Machine.Translate.{phys, translate}
use csci350_project.Machine.Translate.Laws.{IsSize, read_only, bus_error, mapped}
use csci350_project.Machine.Translate.PageTable.{
  misaligned, beyond, invalid, by_entry, translate-PageTableOutcome,
}
use csci350_project.Machine.Memory.{touch, read_mem, write_mem}
use csci350_project.Machine.Memory.Bytes.{loaded, load-store}

-- A machine that runs a user program: a page table that is all there, and its memory.
pub record IsRunning (m : Machine) (table : List TranslationEntry) : Type 0 where
  pub no_tlb : m.tlb ≡ none
  pub has_table : m.page_table ≡ some table
  pub whole_table : m.page_table_size ≤ length table
  pub whole_memory : length m.main_memory ≡ memory_size

-- The page of `va` is there, may be written, and lies in the frame of the entry `e`.
pub record IsWritable (m : Machine) (table : List TranslationEntry) (e : TranslationEntry) (va : ℕ)
    : Type 0 where
  pub inside : va / page_size < m.page_table_size
  pub entry : get_elem? table (va / page_size) ≡ some e
  pub valid : e.valid ≡ true
  pub writable : e.read_only ≡ false
  pub in_memory : e.physical_page < num_phys_pages

abbrev pub phys_addr : TranslationEntry → ℕ → ℕ
phys_addr e va = e.physical_page * page_size + va % page_size

-- An aligned access to such a page translates, and marks the entry.
pub translate_writable :
    (m : Machine) (table : List TranslationEntry) (e : TranslationEntry) (va size : ℕ)
    (writing : Bool)
    → IsSize size
    → va % size ≡ 0
    → IsRunning m table
    → IsWritable m table e va
    → (translate m va size writing
        ≡ some (
          phys (phys_addr e va),
          record m {
            page_table = some (
                set table
                  (va / page_size)
                  (record e { use_bit = true; dirty = e.dirty || writing }));
          },
        ))
      × (phys_addr e va + size ≤ memory_size)
translate_writable m table e va size writing s aligned r w =
    let (t, table', done, how) =
      translate-PageTableOutcome m table va size writing s r.no_tlb r.has_table r.whole_table in
    elim how [
      | misaligned bad _ _ ↦ absurd (bad aligned)
      | beyond _ big _ _ ↦ absurd (omega (arith, w.inside))
      | invalid x _ _ at bad _ _ ↦ cc (ap (λ y. y.valid) (same_entry x at))
      | by_entry x _ _ at ok how' ↦
          let q : x ≡ e = same_entry x at in
          elim how' [
            | read_only ro _ _ _ ↦ cc (ap (λ y. y.read_only) q)
            | bus_error _ big _ _ ↦ absurd (omega (arith, ap (λ y. y.physical_page) q, w.in_memory))
            | mapped _ _ answer fits tables ↦ (
              done ∙ rw (answer, tables, q),
              subst (λ y. phys_addr y va + size ≤ memory_size) q fits,
            )
          ]
    ]
  where
    same_entry : (x : TranslationEntry) → get_elem? table (va / page_size) ≡ some x → x ≡ e
    same_entry x at = cc (sym at ∙ w.entry)

-- On a machine with a page table and all its memory, an aligned write of 1, 2 or 4 bytes to a valid,
-- writable page in memory answers TRUE, and a read of the same size from the same address then gives
-- what was written, cut to that size; a byte comes back as a `char`. No byte of the memory but those
-- of the access changes.
pub read_mem-write_mem :
    (handler : Handler) (m : Machine) (table : List TranslationEntry) (e : TranslationEntry)
    (va size v : ℕ)
    → IsSize size
    → va % size ≡ 0
    → IsRunning m table
    → IsWritable m table e va
    → (m1 m2 : Machine) × (write_mem handler m va size v ≡ some (true, m1))
      × (read_mem handler m1 va size ≡ some (some (loaded size v), m2))
      × ((j : ℕ)
          → (j < phys_addr e va) ⊎ (phys_addr e va + size ≤ j)
          → get_or m1.main_memory j 0 ≡ get_or m.main_memory j 0)
unfolding write_mem read_mem
read_mem-write_mem handler m table e va size v s aligned r w =
    let (went, fits) = translate_writable m table e va size true s aligned r w in
    let (mem, stored, gives, outside, len) =
      load-store m.main_memory (phys_addr e va) size v s (omega (arith, r.whole_memory)) in
    let e1 : TranslationEntry = record e { use_bit = true; dirty = e.dirty || true } in
    let table1 : List TranslationEntry = set table (va / page_size) e1 in
    let m1 : Machine =
      touch (record m { page_table = some table1; main_memory = mem }) (phys_addr e va) in
    let r1 : IsRunning m1 table1 = record {
      no_tlb = r.no_tlb;
      has_table = refl;
      whole_table = rw (length-set table (va / page_size) e1) r.whole_table;
      whole_memory = len ∙ r.whole_memory;
    } in
    let w1 : IsWritable m1 table1 e1 va = record {
      inside = w.inside;
      entry = get_elem?-set_self table (va / page_size) e1 (omega (arith, w.inside, r.whole_table));
      valid = w.valid;
      writable = w.writable;
      in_memory = w.in_memory;
    } in
    let m2 : Machine =
      touch
        (record m1 {
          page_table = some (
              set table1 (va / page_size)
                (record e1 { use_bit = true; dirty = e1.dirty || false }));
        })
        (phys_addr e va) in
    let (again, _) = translate_writable m1 table1 e1 va size false s aligned r1 w1 in
    (m1, m2, rw (went, stored), rw (again, gives), outside)
