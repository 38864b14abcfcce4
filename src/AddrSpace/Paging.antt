-- ===== src/AddrSpace/Paging.antt =====
-- userprog/addrspace.cc: the page table that an address space builds, and what the machine makes of it.
-- The sizes are those of the executable's segments, words of 32 bits.
use csci350_project.Base.{
  ℕ, zero, suc, ◌+◌, ◌*◌, ◌/◌, ◌%◌, ◌^◌, ◌≤◌, ◌≡◌, refl, sym, ap, subst, ◌∙◌, arith, List, [], ◌∷◌,
  Bool, true, false, ◌&&◌, Option, none, some, if◌then◌else◌, leb, ltb, leb→le, lt→ltb, ◌==◌,
  ==_false, get_elem?, length, Bool-cases, inl, inr,
}
use csci350_project.BitMap.{div_round_up}
use csci350_project.Machine.{
  Machine, TranslationEntry, page_size, num_phys_pages, address_error_exception,
}
use csci350_project.Machine.Translate.{Translation, fault, phys, translate}
use csci350_project.Machine.Translate.Laws.{IsSize, EntryOutcome, read_only, bus_error, mapped}
use csci350_project.Machine.Translate.PageTable.{
  PageTableOutcome, misaligned, beyond, invalid, by_entry, translate-PageTableOutcome,
}

abbrev pub user_stack_size : ℕ
user_stack_size = 1024

pub record AddrSpace : Type 0 where
  pub page_table : List TranslationEntry
  pub num_pages : ℕ

-- The loop of the constructor, `n` entries from the page `i` on.
unfoldable pub page_entries : ℕ → ℕ → List TranslationEntry
page_entries i zero = []
page_entries i (suc n) =
    record {
      virtual_page = i;
      physical_page = i;
      valid = true;
      use_bit = false;
      dirty = false;
      read_only = false;
    }
    ∷ page_entries (i + 1) n

-- The constructor's part on pages, with its ASSERT.
unfoldable pub set_up_pages : ℕ → ℕ → ℕ → Option AddrSpace
set_up_pages code_size init_size uninit_size =
    let size = (code_size + init_size + uninit_size) % 2 ^ 32 in
    let num_pages = div_round_up size page_size + div_round_up user_stack_size page_size in
    if leb num_pages num_phys_pages
    then some (record { page_table = page_entries 0 num_pages; num_pages = num_pages })
    else none

-- `AddrSpace::RestoreState`
unfoldable pub restore_state : Machine → AddrSpace → Machine
restore_state m s = record m { page_table = some s.page_table; page_table_size = s.num_pages }

-- A page's entry: the page itself, writable.
pub page_entries-get :
    (i n j : ℕ) (e : TranslationEntry)
    → get_elem? (page_entries i n) j ≡ some e
    → (e.physical_page ≡ i + j) × (e.valid ≡ true) × (e.read_only ≡ false)
unfolding page_entries
page_entries-get i zero j e h = cc
page_entries-get i (suc n) zero e h = (
  ap (λ (o : Option TranslationEntry). elim o [ none ↦ 0 | some x ↦ x.physical_page ]) (sym h)
      ∙ omega arith,
  ap (λ (o : Option TranslationEntry). elim o [ none ↦ true | some x ↦ x.valid ]) (sym h),
  ap (λ (o : Option TranslationEntry). elim o [ none ↦ false | some x ↦ x.read_only ]) (sym h),
)
page_entries-get i (suc n) (suc j) e h =
    let (frame, valid, free) = page_entries-get (i + 1) n j e h in
    (omega (arith, frame), valid, free)

pub length-page_entries : (i n : ℕ) → length (page_entries i n) ≡ n
unfolding page_entries
length-page_entries i zero = refl
length-page_entries i (suc n) = ap suc (length-page_entries (i + 1) n)

-- What the constructor gives.
pub set_up_pages-some :
    (code_size init_size uninit_size : ℕ) (s : AddrSpace)
    → set_up_pages code_size init_size uninit_size ≡ some s
    → (s.page_table ≡ page_entries 0 s.num_pages) × (s.num_pages ≤ num_phys_pages)
unfolding set_up_pages
set_up_pages-some code_size init_size uninit_size s h =
    let n =
      div_round_up ((code_size + init_size + uninit_size) % 2 ^ 32) page_size
      + div_round_up user_stack_size page_size in
    elim (Bool-cases (leb n num_phys_pages)) [
      | inl small ↦
          let same : record { page_table = page_entries 0 n; num_pages = n } ≡ s =
            let made = rw small at h in cc in
          subst
            (λ (r : AddrSpace).
              (r.page_table ≡ page_entries 0 r.num_pages) × (r.num_pages ≤ num_phys_pages))
            same (refl, leb→le n num_phys_pages small)
      | inr big ↦ absurd (ground (arith, rw big at h))
    ]

-- Where an address of the program leads: to itself, inside of the pages and aligned.
abbrev pub place : ℕ → ℕ → ℕ → Translation
place num_pages va size =
    if va % size == 0 && ltb va (num_pages * page_size)
    then phys va
    else fault address_error_exception

PageTableOutcome-place :
    (n va size : ℕ) (writing : Bool) (t : Translation) (table' : List TranslationEntry)
    → n ≤ num_phys_pages
    → PageTableOutcome (page_entries 0 n) n va size writing t table'
    → t ≡ place n va size
PageTableOutcome-place n va size writing t table' room (misaligned odd e same) =
    rw (==_false (va % size) 0 odd) e
PageTableOutcome-place n va size writing t table' room (beyond aligned out e same) =
    let far : n * page_size ≤ va = omega (arith, out) in
    let outside : ltb va (n * page_size) ≡ false = ground (arith, far) in rw (aligned, outside) e
PageTableOutcome-place n va size writing t table' room (invalid e aligned inside at bad f same) =
    let (frame, valid, free) = page_entries-get 0 n (va / page_size) e at in cc
PageTableOutcome-place n va size writing t table' room (by_entry e aligned inside at ok how) =
    let (frame, valid, free) = page_entries-get 0 n (va / page_size) e at in
    let within : ltb va (n * page_size) ≡ true =
      lt→ltb va (n * page_size) (omega (arith, inside)) in
    rw (aligned, within) (by_identity how frame free)
  where
    by_identity :
        EntryOutcome (page_entries 0 n) (va / page_size) e va size writing t table'
        → e.physical_page ≡ 0 + va / page_size
        → e.read_only ≡ false
        → t ≡ phys va
    by_identity (read_only barred w f same) frame free = cc
    by_identity (bus_error may big f same) frame free =
        absurd (omega (arith, big, frame, inside, room))
    by_identity (mapped may small f fits same) frame free = f ∙ ap phys (omega (arith, frame))

-- On a machine with no TLB, after RestoreState of an address space whose constructor passed its ASSERT,
-- an access of 1, 2 or 4 bytes fails no ASSERT; at an aligned address below the end of the last page
-- it leads to the same physical address, to read and to write, and at any other address it is an
-- address error.
pub translate-restore_state :
    (m : Machine) (code_size init_size uninit_size : ℕ) (s : AddrSpace) (va size : ℕ)
    (writing : Bool)
    → m.tlb ≡ none
    → set_up_pages code_size init_size uninit_size ≡ some s
    → IsSize size
    → (m' : Machine) × (translate (restore_state m s) va size writing
        ≡ some (place s.num_pages va size, m'))
unfolding restore_state
translate-restore_state m code_size init_size uninit_size s va size writing no_tlb made sized =
    let (table, room) = set_up_pages-some code_size init_size uninit_size s made in
    let long : s.num_pages ≤ length s.page_table =
      omega (arith, ap length table, length-page_entries 0 s.num_pages) in
    let (t, table', done, how) =
      translate-PageTableOutcome (restore_state m s) s.page_table va size writing sized no_tlb refl
        long in
    let how' =
      subst
        (λ (pt : List TranslationEntry). PageTableOutcome pt s.num_pages va size writing t table')
        table how in
    let answer = PageTableOutcome-place s.num_pages va size writing t table' room how' in
    (
      record m { page_table = some table'; page_table_size = s.num_pages },
      done
          ∙ ap
              (λ (u : Translation).
                some (u, record m { page_table = some table'; page_table_size = s.num_pages }))
              answer,
    )
