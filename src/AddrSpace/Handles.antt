-- ===== src/AddrSpace/Handles.antt =====
-- userprog/addrspace.cc: the table as a map from numbers to what was put there.
use csci350_project.Base.{
  ℕ, ◌<◌, ◌≡◌, refl, sym, ap, subst, ◌∙◌, arith, inl, inr, Bool, true, false, Bool-cases, ◌&&◌,
  Option, none, some, ltb, lt→ltb, ltb-false, ◌==◌, ==_self, ==_false, if◌then◌else◌, get_elem?,
  set, length, length-set, ℕ_discrete, dec_lt, get_elem?-set_ne, get_elem?-set_self, get_elem?-lt,
}
use csci350_project.Base.Int.{ℤ, pos, minus_one}
use csci350_project.BitMap.{BitMap}
use csci350_project.BitMap.Laws.{is_set, IsValid, Updates, test_lem, clear-Updates}
use csci350_project.BitMap.Search.{found, full, find-FindResult}
use csci350_project.AddrSpace.{Table, entry, get, put, remove}

module _ {ℓ} {A : Type ℓ} where
  -- The array and the map have one place for each number below `size`.
  pub record IsTable (t : Table A) : Type 0 where
    pub valid : IsValid t.map
    pub bits : t.map.num_bits ≡ t.size
    pub room : length t.table ≡ t.size

  -- What stands at the number `i`.
  abbrev pub pointer : Option (Option A) → Option A
  pointer none = none
  pointer (some f) = f

  abbrev pub held : Table A → ℕ → Option A
  held t i = if ltb i t.size && is_set t.map i then pointer (get_elem? t.table i) else none

  pub get_lem : (t : Table A) (i : ℕ) → IsTable t → get t (pos i) ≡ some (held t i)
  unfolding get entry
  get_lem t i ok = elim (dec_lt i t.size) [
    | no out ↦ rw (ltb-false i t.size (omega arith)) refl
    | yes h ↦
        let (f, there) = get_elem?-lt t.table i (omega (arith, ok.room)) in
        let tested = test_lem t.map i (omega (arith, ok.bits)) in
        elim (Bool-cases (is_set t.map i)) [
          | inl used ↦ rw (lt→ltb i t.size h, tested, used, there) refl
          | inr free ↦ rw (lt→ltb i t.size h, tested, free) refl
        ]
  ]

  -- How `Put` ends.
  pub data PutOutcome (t : Table A) (f : Option A) (r : Option (ℤ × Table A)) : Type ℓ where
    no_room :
        r ≡ some (minus_one, t) → ((i : ℕ) → i < t.size → is_set t.map i ≡ true) → PutOutcome t f r
    placed :
        (i : ℕ) (t' : Table A)
        → r ≡ some (pos i, t')
        → i < t.size
        → t'.size ≡ t.size
        → ((j : ℕ) → j < i → is_set t.map j ≡ true)
        → is_set t.map i ≡ false
        → ((j : ℕ) → is_set t'.map j ≡ (if i == j then true else is_set t.map j))
        → get t (pos i) ≡ some none
        → ((j : ℕ) → get t' (pos j) ≡ (if i == j then some f else get t (pos j)))
        → IsTable t'
        → PutOutcome t f r

  held-set :
      (t : Table A) (map' : BitMap) (f : Option A) (i j : ℕ) (v : Bool)
      → IsTable t
      → i < t.size
      → Updates t.map map' i v
      → held (record t { map = map'; table = set t.table i f }) j
        ≡ (if i == j then (if v then f else none) else held t j)
  held-set t map' f i j v ok h up = elim (ℕ_discrete i j) [
    | yes e ↦
        let here = get_elem?-set_self t.table i f (omega (arith, ok.room)) in
        let bit = up.member i in
        subst
          (λ k.
            held (record t { map = map'; table = set t.table i f }) k
            ≡ (if i == k then (if v then f else none) else held t k))
          e (rw (lt→ltb i t.size h, bit, ==_self i, here) refl)
    | no d ↦ rw (up.member j, ==_false i j d, get_elem?-set_ne t.table f d) refl
  ]

  table_after :
      (t : Table A) (map' : BitMap) (f : Option A) (i : ℕ) (v : Bool)
      → IsTable t
      → Updates t.map map' i v
      → IsTable (record t { map = map'; table = set t.table i f })
  table_after t map' f i v ok up = record {
    valid = up.valid;
    bits = up.same_size ∙ ok.bits;
    room = length-set t.table i f ∙ ok.room;
  }

  if_some : (b : Bool) (x y : Option A) → some (if b then x else y) ≡ (if b then some x else some y)
  if_some b x y = ground arith

  -- `Put` on a table with a place for each number enters its argument at a number that held nothing,
  -- and changes no other, or it answers -1 and changes nothing where all numbers are in use.
  pub put-PutOutcome : (t : Table A) (f : Option A) → IsTable t → PutOutcome t f (put t f)
  unfolding put
  put-PutOutcome t f ok = elim (find-FindResult t.map ok.valid) [
    | full e all ↦ no_room (rw e refl) (λ i h. all i (omega (arith, ok.bits)))
    | found i map' e on free before up ↦
        let t' : Table A = record t { map = map'; table = set t.table i f } in
        let here : i < t.size = omega (arith, on, ok.bits) in
        let ok' = table_after t map' f i true ok up in
        placed i t' (rw (e, lt→ltb i (length t.table) (omega (arith, ok.room))) refl) here refl
          before free up.member (get_lem t i ok ∙ rw (lt→ltb i t.size here, free) refl)
          (λ j.
            get_lem t' j ok'
            ∙ ap some (held-set t map' f i j true ok here up)
            ∙ if_some (i == j) f (held t j)
            ∙ ap (λ x. if i == j then some f else x) (sym (get_lem t j ok)))
          ok'
  ]

  -- `Remove` gives what stood at the number and leaves nothing there; the others stay.
  pub get-remove :
      (t : Table A) (i : ℕ)
      → IsTable t
      → (f : Option A) × (t' : Table A) × (get t (pos i) ≡ some f)
        × (remove t (pos i) ≡ some (f, t'))
        × ((j : ℕ) → get t' (pos j) ≡ (if i == j then some none else get t (pos j)))
        × IsTable t'
  unfolding remove entry
  get-remove t i ok = elim (Bool-cases (ltb i t.size && is_set t.map i)) [
    | inr off ↦
        let nothing : get t (pos i) ≡ some none = get_lem t i ok ∙ rw off refl in
        (
          none,
          t,
          nothing,
          elim (dec_lt i t.size) [
            | no out ↦ rw (ltb-false i t.size (omega arith)) refl
            | yes h ↦
                let free : is_set t.map i ≡ false = ground (arith, lt→ltb i t.size h) in
                rw (lt→ltb i t.size h, test_lem t.map i (omega (arith, ok.bits)), free) refl
          ],
          λ j. elim (ℕ_discrete i j) [
            | yes e ↦
                subst (λ k. get t (pos k) ≡ (if i == k then some none else get t (pos k))) e
                  (nothing ∙ rw (==_self i) refl)
            | no d ↦ rw (==_false i j d) refl
          ],
          ok,
        )
    | inl used ↦
        let here : i < t.size = ground arith in
        let bit : is_set t.map i ≡ true = ground arith in
        let (f, there) = get_elem?-lt t.table i (omega (arith, ok.room)) in
        let (map', cleared, up) = clear-Updates t.map i ok.valid (omega (arith, ok.bits)) in
        let t' : Table A = record t { map = map'; table = set t.table i none } in
        let ok' = table_after t map' none i false ok up in
        (
          f,
          t',
          get_lem t i ok ∙ rw (used, there) refl,
          rw (lt→ltb i t.size here, test_lem t.map i (omega (arith, ok.bits)), bit, cleared, there)
              refl,
          λ j.
              get_lem t' j ok'
              ∙ ap some (held-set t map' none i j false ok here up)
              ∙ if_some (i == j) none (held t j)
              ∙ ap (λ x. if i == j then some none else x) (sym (get_lem t j ok)),
          ok',
        )
  ]
