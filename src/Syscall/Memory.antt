-- ===== src/Syscall/Memory.antt =====
-- userprog/exception.cc: single bytes of a program's memory, through the page table of its address
-- space.
use csci350_project.Base.{
  ℕ, ◌+◌, ◌*◌, ◌/◌, ◌%◌, ◌≤◌, ◌<◌, ◌≡◌, refl, sym, ap, ◌∙◌, arith, Bool, true, false, ◌||◌, List,
  some, length, length-set, get_or, set, get_elem?, get_elem?-set_self, get_elem?-set_ne,
  ℕ_discrete,
}
use csci350_project.Machine.{
  Machine, Handler, TranslationEntry, page_size, num_phys_pages, memory_size,
}
use csci350_project.Machine.Translate.{phys, translate}
use csci350_project.Machine.Translate.Laws.{one}
use csci350_project.Machine.Memory.{
  touch, read_mem, write_mem, load, store, load_le, store_le, sign_extend8,
}
use csci350_project.Machine.Memory.RoundTrip.{IsRunning, IsWritable, phys_addr, translate_writable}

-- The first `n` pages of the program are the first pages of the memory, and may be written.
pub record Maps (m : Machine) (n : ℕ) : Type 0 where
  pub table : List TranslationEntry
  pub running : IsRunning m table
  pub size : m.page_table_size ≡ n
  pub small : n ≤ num_phys_pages
  pub page :
      (i : ℕ)
      → i < n
      → (e : TranslationEntry) × (get_elem? table i ≡ some e)
        × (e.physical_page ≡ i)
        × (e.valid ≡ true)
        × (e.read_only ≡ false)

-- Every cell of the memory is a byte.
abbrev pub IsBytes : List ℕ → Type 0
IsBytes mem = (j : ℕ) → get_or mem j 0 < 256

-- The machine after an access to `va`, with the memory `mem`.
pub record Accessed (m m' : Machine) (n : ℕ) (mem : List ℕ) : Type 0 where
  pub maps : Maps m' n
  pub memory : m'.main_memory ≡ mem
  pub registers : m'.registers ≡ m.registers

module _ (m : Machine) (n va : ℕ) (ok : Maps m n) (inside : va < n * page_size) where
  vpn : va / page_size < n
  vpn = omega (arith, inside)

  -- The page of `va`.
  entry_of :
      (e : TranslationEntry) × (get_elem? ok.table (va / page_size) ≡ some e)
      × (e.physical_page ≡ va / page_size)
      × (e.valid ≡ true)
      × (e.read_only ≡ false)
  entry_of = ok.page (va / page_size) vpn

  abbrev marked : Bool → TranslationEntry
  marked writing = let e = entry_of.0 in record e { use_bit = true; dirty = e.dirty || writing }

  abbrev new_table : Bool → List TranslationEntry
  new_table writing = set ok.table (va / page_size) (marked writing)

  translates :
      (writing : Bool)
      → translate m va 1 writing
        ≡ some (phys va, record m { page_table = some (new_table writing) })
  translates writing =
      let (e, at, frame, valid, free) = entry_of in
      let w : IsWritable m ok.table e va = record {
        inside = omega (arith, vpn, ok.size);
        entry = at;
        valid = valid;
        writable = free;
        in_memory = omega (arith, frame, vpn, ok.small);
      } in
      let (went, fits) =
        translate_writable m ok.table e va 1 writing (one refl) (omega arith) ok.running w in
      let here : phys_addr e va ≡ va = omega (arith, frame) in
      went ∙ ap (λ p. some (phys p, record m { page_table = some (new_table writing) })) here

  -- The pages after the access.
  marked-Maps :
      (writing : Bool) (mem last_used : List ℕ)
      → length mem ≡ memory_size
      → Maps
          (record m {
            page_table = some (new_table writing);
            main_memory = mem;
            last_used = last_used;
          })
          n
  marked-Maps writing mem last_used whole = record {
    table = new_table writing;
    running = record {
      no_tlb = ok.running.no_tlb;
      has_table = refl;
      whole_table =
          rw (length-set ok.table (va / page_size) (marked writing)) ok.running.whole_table;
      whole_memory = whole;
    };
    size = ok.size;
    small = ok.small;
    page = λ i h. elim (ℕ_discrete (va / page_size) i) [
      | yes same ↦
          let (e, at, frame, valid, free) = entry_of in
          let there : get_elem? (new_table writing) (va / page_size) ≡ some (marked writing) =
            get_elem?-set_self ok.table (va / page_size) (marked writing)
              (omega (arith, vpn, ok.size, ok.running.whole_table)) in
          (
            marked writing,
            ap (get_elem? (new_table writing)) (sym same) ∙ there,
            frame ∙ same,
            valid,
            free,
          )
      | no other ↦
          let (e, at, frame, valid, free) = ok.page i h in
          (e, get_elem?-set_ne ok.table (marked writing) other ∙ at, frame, valid, free)
    ];
  }

  -- A byte of the program, read.
  pub read_byte :
      (handler : Handler)
      → (m' : Machine) × (read_mem handler m va 1
          ≡ some (some (sign_extend8 (get_or m.main_memory va 0)), m'))
        × Accessed m m' n m.main_memory
  unfolding read_mem load load_le
  read_byte handler =
      let m1 : Machine = record m { page_table = some (new_table false) } in
      let byte : get_or m.main_memory va 0 + 256 * 0 ≡ get_or m.main_memory va 0 = omega arith in
      (
        touch m1 va,
        rw (translates false, byte) refl,
        record {
          maps =
              marked-Maps false m.main_memory (set m.last_used (va / page_size) m.total_ticks)
                ok.running.whole_memory;
          memory = refl;
          registers = refl;
        },
      )

  -- A byte of the program, written.
  pub write_byte :
      (handler : Handler) (b : ℕ)
      → b < 256
      → (m' : Machine) × (write_mem handler m va 1 (sign_extend8 b) ≡ some (true, m'))
        × Accessed m m' n (set m.main_memory va b)
  unfolding write_mem store store_le
  write_byte handler b small =
      let mem = set m.main_memory va b in
      let m1 : Machine = record m { page_table = some (new_table true); main_memory = mem } in
      let byte : sign_extend8 b % 256 ≡ b = ground arith in
      (
        touch m1 va,
        rw (translates true, byte) refl,
        record {
          maps =
              marked-Maps true mem (set m.last_used (va / page_size) m.total_ticks)
                (length-set m.main_memory va b ∙ ok.running.whole_memory);
          memory = refl;
          registers = refl;
        },
      )
