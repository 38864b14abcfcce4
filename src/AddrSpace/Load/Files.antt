-- ===== src/AddrSpace/Load/Files.antt =====
-- userprog/addrspace.cc: the table of open files of a new address space.
use csci350_project.Base.{
  ℕ, ◌*◌, ◌≤◌, ◌<◌, dec_lt, ◌≡◌, refl, subst, ℕ_discrete, ◌∙◌, arith, true, false, List, Option,
  none, some, ltb, lt→ltb, ltb-false, ◌==◌, if◌then◌else◌, ◌>>=◌, length,
}
use csci350_project.Base.Int.{pos}
use csci350_project.BitMap.{BitMap}
use csci350_project.BitMap.Laws.{is_set, IsValid, init_lem}
use csci350_project.AddrSpace
use csci350_project.AddrSpace.{Table}
use csci350_project.AddrSpace.Handles.{IsTable, no_room, placed, get_lem, put-PutOutcome}
use csci350_project.FileSys.OpenFile.{OpenFile}
use csci350_project.AddrSpace.Load.{max_open_files, file_table}

-- A new table: the program has no file open, and 0 and 1 are in use, for the console.
pub record IsNew (t : Table OpenFile) : Type 0 where
  pub table : IsTable t
  pub size : t.size ≡ max_open_files
  pub nothing : (i : ℕ) → AddrSpace.get t (pos i) ≡ some none
  pub reserved : (i : ℕ) → i < max_open_files → is_set t.map i ≡ ltb i 2

module _ (map : BitMap) (slots : List (Option OpenFile))
    (clear : (j : ℕ) → j < max_open_files → is_set map j ≡ false)
    (bits : map.num_bits ≡ max_open_files) (valid : IsValid map)
    (entries : length slots ≡ max_open_files) where
  abbrev empty : Table OpenFile
  empty = record { map = map; table = slots; size = max_open_files }

  empty-IsTable : IsTable empty
  empty-IsTable = record { valid = valid; bits = bits; room = entries }

  none_open : (j : ℕ) → AddrSpace.get empty (pos j) ≡ some none
  none_open j = get_lem empty j empty-IsTable ∙ elim (dec_lt j max_open_files) [
    | yes h ↦ rw (clear j h, lt→ltb j max_open_files h) refl
    | no h ↦ rw (ltb-false j max_open_files (omega arith)) refl
  ]

  at_least : (i : ℕ) → ((j : ℕ) → j < i → is_set map j ≡ true) → i ≡ 0
  at_least i before = elim (dec_lt 0 i) [
    | yes h ↦ cc (before 0 h, clear 0 (omega arith))
    | no h ↦ omega arith
  ]

  one_marked :
      (t : Table OpenFile) (i : ℕ)
      → i ≡ 0
      → ((j : ℕ) → is_set t.map j ≡ (if i == j then true else is_set map j))
      → (j : ℕ) → j < max_open_files
      → is_set t.map j ≡ (0 == j)
  one_marked t i e marks j h = ground (arith, marks j, clear j h, e)

  two_entries :
      (t : Table OpenFile) × ((AddrSpace.put empty none >>= λ (i, t1).
      AddrSpace.put t1 none >>= λ (k, t2). some t2)
        ≡ some t)
      × IsNew t
  two_entries = elim (put-PutOutcome empty none empty-IsTable) [
    | no_room _ all ↦ cc (all 0 (omega arith), clear 0 (omega arith))
    | placed i t1 put1 on1 size1 before1 _ marks1 _ holds1 ok1 ↦
        let one = one_marked t1 i (at_least i before1) marks1 in
        elim (put-PutOutcome t1 none ok1) [
          | no_room _ all ↦ cc (all 1 (omega (arith, size1)), one 1 (omega arith))
          | placed k t2 put2 on2 size2 before2 free2 marks2 _ holds2 ok2 ↦
              let second : k ≡ 1 = elim (dec_lt 1 k) [
                | yes h ↦ cc (before2 1 h, one 1 (omega arith))
                | no h ↦ elim (ℕ_discrete k 0) [
                  | yes e ↦ cc (one 0 (omega arith), subst (λ x. is_set t1.map x ≡ false) e free2)
                  | no d ↦ omega arith
                ]
              ] in
              (
                t2,
                rw (put1, put2) refl,
                record {
                  table = ok2;
                  size = size2 ∙ size1;
                  nothing = λ j. ground (arith, holds2 j, holds1 j, none_open j);
                  reserved = λ j h. ground (arith, marks2 j, one j h, second);
                },
              )
        ]
  ]

pub file_table_lem :
    (words : List ℕ) (slots : List (Option OpenFile))
    → max_open_files ≤ 32 * length words
    → length slots ≡ max_open_files
    → (t : Table OpenFile) × (file_table words slots ≡ some t) × IsNew t
unfolding file_table
file_table_lem words slots room entries =
    let (map, made, clear, bits, valid) = init_lem max_open_files words room in
    let (t, done, new) = two_entries map slots clear bits valid entries in (t, rw made done, new)
