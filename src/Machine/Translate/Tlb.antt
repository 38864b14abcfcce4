-- ===== src/Machine/Translate/Tlb.antt =====
-- machine/translate.cc, `Machine::Translate` with a translation lookaside buffer.
use csci350_project.Base.{
  ℕ, zero, suc, ◌/◌, ◌%◌, ◌<◌, ◌≡◌, ◌≢◌, refl, ◌∙◌, Bool, true, false, ◌&&◌, List, [], ◌∷◌, Option,
  none, some, arith, ◌==◌, ==_false, ◌>>=◌, get_elem?, Bool-cases, inl, inr, ℕ_discrete,
}
use csci350_project.Machine.{
  Machine, TranslationEntry, address_error_exception, page_fault_exception, page_size,
}
use csci350_project.Machine.Translate.{
  Translation, fault, is_misaligned, find_entry, translate_by_tlb, translate,
}
use csci350_project.Machine.Translate.Laws.{
  IsSize, is_misaligned_lem, EntryOutcome, use_entry-EntryOutcome,
}

-- The entry that the loop over the TLB finds: the first valid one for the page.
pub data FindOutcome (table : List TranslationEntry) (vpn : ℕ) (r : Option ℕ) : Type 0 where
  missing :
      r ≡ none
      → ((j : ℕ) (e : TranslationEntry)
          → get_elem? table j ≡ some e
          → (e.valid && e.virtual_page == vpn) ≡ false)
      → FindOutcome table vpn r
  at_entry :
      (i : ℕ) (e : TranslationEntry)
      → r ≡ some i
      → get_elem? table i ≡ some e
      → e.valid ≡ true
      → e.virtual_page ≡ vpn
      → ((j : ℕ) (x : TranslationEntry)
          → j < i
          → get_elem? table j ≡ some x
          → (x.valid && x.virtual_page == vpn) ≡ false)
      → FindOutcome table vpn r

abbrev serves : ℕ → TranslationEntry → Bool
serves vpn e = e.valid && e.virtual_page == vpn

later :
    (x : TranslationEntry) (xs : List TranslationEntry) (vpn : ℕ)
    → serves vpn x ≡ false
    → ((j : ℕ) (e : TranslationEntry) → get_elem? xs j ≡ some e → serves vpn e ≡ false)
    → (j : ℕ) (e : TranslationEntry) → get_elem? (x ∷ xs) j ≡ some e
    → serves vpn e ≡ false
later x xs vpn away rest zero e h = ground arith
later x xs vpn away rest (suc j) e h = rest j e h

earlier :
    (x : TranslationEntry) (xs : List TranslationEntry) (vpn i : ℕ)
    → serves vpn x ≡ false
    → ((j : ℕ) (e : TranslationEntry) → j < i → get_elem? xs j ≡ some e → serves vpn e ≡ false)
    → (j : ℕ) (e : TranslationEntry) → j < suc i
    → get_elem? (x ∷ xs) j ≡ some e
    → serves vpn e ≡ false
earlier x xs vpn i away rest zero e lt h = ground arith
earlier x xs vpn i away rest (suc j) e lt h = rest j e (omega arith) h

find_entry-FindOutcome :
    (table : List TranslationEntry) (vpn : ℕ) → FindOutcome table vpn (find_entry table vpn)
unfolding find_entry
find_entry-FindOutcome [] vpn = missing refl (λ j e h. cc)
find_entry-FindOutcome (x ∷ xs) vpn = elim (Bool-cases (x.valid && x.virtual_page == vpn)) [
  | inl here ↦ at_entry 0 x (rw here) refl (ground arith) (ground arith) (λ j e h. elim h [ ])
  | inr away ↦ elim (find_entry-FindOutcome xs vpn) [
    | missing e none_later ↦ missing (rw (away, e)) (later x xs vpn away none_later)
    | at_entry i y e at ok page before ↦
        at_entry (suc i) y (rw (away, e)) at ok page (earlier x xs vpn i away before)
  ]
]

-- The ways to end: a bad alignment, no entry for the page, or an access through the first entry
-- for it.
pub data TlbOutcome (table : List TranslationEntry) (va size : ℕ) (writing : Bool) (t : Translation)
    (table' : List TranslationEntry) : Type 0 where
  misaligned :
      va % size ≢ 0
      → t ≡ fault address_error_exception
      → table' ≡ table
      → TlbOutcome table va size writing t table'
  missed :
      va % size ≡ 0
      → ((j : ℕ) (e : TranslationEntry)
          → get_elem? table j ≡ some e
          → (e.valid && e.virtual_page == va / page_size) ≡ false)
      → t ≡ fault page_fault_exception
      → table' ≡ table
      → TlbOutcome table va size writing t table'
  by_entry :
      (i : ℕ) (e : TranslationEntry)
      → va % size ≡ 0
      → get_elem? table i ≡ some e
      → e.valid ≡ true
      → e.virtual_page ≡ va / page_size
      → ((j : ℕ) (x : TranslationEntry)
          → j < i
          → get_elem? table j ≡ some x
          → (x.valid && x.virtual_page == va / page_size) ≡ false)
      → EntryOutcome table i e va size writing t table'
      → TlbOutcome table va size writing t table'

same_table :
    {m : Machine} {table : List TranslationEntry} {t : Translation}
    → m.tlb ≡ some table
    → ◌≡◌ {A = Option (Translation × Machine)}
        (some (t, m))
        (some (t, record m { tlb = some table }))
same_table h = ground arith

enters :
    (m : Machine) (table : List TranslationEntry) (va size : ℕ) (writing : Bool)
    → is_misaligned va size ≡ false
    → m.tlb ≡ some table
    → m.page_table ≡ none
    → translate m va size writing ≡ (
        translate_by_tlb table va size writing >>= λ (t, table').
        some (t, record m { tlb = some table' }))
unfolding translate
enters m table va size writing h here no_table = ground arith

-- With a TLB and no page table, an access of 1, 2 or 4 bytes at any address fails no ASSERT, and it
-- ends in one of those ways; the machine changes in its TLB alone.
pub translate-TlbOutcome :
    (m : Machine) (table : List TranslationEntry) (va size : ℕ) (writing : Bool)
    → IsSize size
    → m.tlb ≡ some table
    → m.page_table ≡ none
    → (t : Translation) × (table' : List TranslationEntry) × (translate m va size writing
        ≡ some (t, record m { tlb = some table' }))
      × TlbOutcome table va size writing t table'
unfolding translate_by_tlb
translate-TlbOutcome m table va size writing s here no_table = elim (ℕ_discrete (va % size) 0) [
  | no d ↦
      let bad : is_misaligned va size ≡ true =
        rw (is_misaligned_lem va size s, ==_false (va % size) 0 d) in
      (
        fault address_error_exception,
        table,
        (unfold translate in rw bad (same_table here)),
        misaligned d refl refl,
      )
  | yes aligned ↦
      let good : is_misaligned va size ≡ false = rw (is_misaligned_lem va size s, aligned) in
      let start = enters m table va size writing good here no_table in
      elim (find_entry-FindOutcome table (va / page_size)) [
        | missing e all ↦ (
          fault page_fault_exception,
          table,
          start ∙ rw (e, translate_by_tlb),
          missed aligned all refl refl,
        )
        | at_entry i x e at ok page before ↦
            let (t, table', done, how) =
              use_entry-EntryOutcome table i x va size writing s aligned at in
            (
              t,
              table',
              start ∙ rw (e, translate_by_tlb) (rw done),
              by_entry i x aligned at ok page before how,
            )
      ]
]
