-- ===== src/Threads/Switch/Registers.antt =====
-- threads/thread.cc: what the loops over the registers copy.
use csci350_project.Base.{
  [], ◌∷◌, ℕ, zero, suc, ◌+◌, ◌<◌, ◌≡◌, refl, sym, ap, ◌∙◌, arith, List, some, leb, lt→ltb, ◌==◌,
  if◌then◌else◌, ℕ_discrete, length, length-set, get_or, get_elem?, get_elem?-lt, set,
  get_or-set_self, get_or-set_ne,
}
use csci350_project.Machine.{Machine, num_total_regs, read_register, write_register}
use csci350_project.FileSys.OpenFile.Contents.{same_bytes}
use csci350_project.Threads.Switch.{
  UserThread, save_registers, restore_registers, save_user_state, restore_user_state,
}

-- Copying one value more.
set-copied :
    (to from : List ℕ) (i j : ℕ)
    → i < length to
    → get_or (set to i (get_or from i 0)) j 0 ≡ (if i == j then get_or from j 0 else get_or to j 0)
set-copied to from i j h = elim (ℕ_discrete i j) [
  | yes e ↦ ground (
    arith,
    get_or-set_self to i (get_or from i 0) 0 h,
    ap (λ k. get_or (set to i (get_or from i 0)) k 0) e,
    ap (λ k. get_or from k 0) e,
    e,
  )
  | no d ↦ ground (arith, get_or-set_ne to {i = i} {j = j} (get_or from i 0) 0 d, d)
]

save_registers_lem :
    (left i : ℕ) (m : Machine) (saved : List ℕ)
    → i + left ≡ num_total_regs
    → length saved ≡ num_total_regs
    → (rs : List ℕ) × (save_registers m saved i left ≡ some rs)
      × (length rs ≡ num_total_regs)
      × ((j : ℕ)
          → j < num_total_regs
          → get_or rs j 0 ≡ (if leb i j then get_or m.registers j 0 else get_or saved j 0))
unfolding save_registers read_register
save_registers_lem zero i m saved all whole = (saved, refl, whole, λ j h. ground (arith, all))
save_registers_lem (suc left) i m saved all whole =
    let on : i < num_total_regs = omega (arith, all) in
    let (rs, done, len, gives) =
      save_registers_lem left (i + 1) m (set saved i (get_or m.registers i 0)) (omega (arith, all))
        (length-set saved i (get_or m.registers i 0) ∙ whole) in
    (
      rs,
      rw (lt→ltb i num_total_regs on, whole) (rw (lt→ltb i num_total_regs on) done),
      len,
      λ j h. ground (arith, gives j h, set-copied saved m.registers i j (omega (arith, whole))),
    )

-- `SaveUserState` keeps the machine's registers.
pub save_user_state_lem :
    (m : Machine) (t : UserThread)
    → length m.registers ≡ num_total_regs
    → length t.user_registers ≡ num_total_regs
    → save_user_state m t ≡ some (record t { user_registers = m.registers })
unfolding save_user_state
save_user_state_lem m t whole room =
    let (rs, done, len, gives) = save_registers_lem num_total_regs 0 m t.user_registers refl room in
    let same : rs ≡ m.registers =
      same_bytes rs m.registers (len ∙ sym whole)
        (λ j h. ground (arith, gives j (omega (arith, len)))) in
    rw done (ap (λ x. some (record t { user_registers = x })) same)

get_or-get_elem? : (xs : List ℕ) (i v : ℕ) → get_elem? xs i ≡ some v → get_or xs i 0 ≡ v
get_or-get_elem? [] i v h = cc
get_or-get_elem? (x ∷ xs) zero v h = ground arith
get_or-get_elem? (x ∷ xs) (suc i) v h = get_or-get_elem? xs i v h

restore_registers_lem :
    (left i : ℕ) (m : Machine) (saved : List ℕ)
    → i + left ≡ num_total_regs
    → length saved ≡ num_total_regs
    → length m.registers ≡ num_total_regs
    → (rs : List ℕ) × (restore_registers m saved i left ≡ some (record m { registers = rs }))
      × (length rs ≡ num_total_regs)
      × ((j : ℕ)
          → j < num_total_regs
          → get_or rs j 0 ≡ (if leb i j then get_or saved j 0 else get_or m.registers j 0))
unfolding restore_registers write_register
restore_registers_lem zero i m saved all whole room =
    (m.registers, refl, room, λ j h. ground (arith, all))
restore_registers_lem (suc left) i m saved all whole room =
    let on : i < num_total_regs = omega (arith, all) in
    let (v, there) = get_elem?-lt saved i (omega (arith, whole)) in
    let here : get_or saved i 0 ≡ v = get_or-get_elem? saved i v there in
    let m' : Machine = record m { registers = set m.registers i v } in
    let (rs, done, len, gives) =
      restore_registers_lem left (i + 1) m' saved (omega (arith, all)) whole
        (length-set m.registers i v ∙ room) in
    (
      rs,
      rw (there, lt→ltb i num_total_regs on) done,
      len,
      λ j h.
          let copied : get_or (set m.registers i v) j 0
              ≡ (if i == j then get_or saved j 0 else get_or m.registers j 0) =
            ap (λ x. get_or (set m.registers i x) j 0) (sym here)
            ∙ set-copied m.registers saved i j (omega (arith, room)) in
          ground (arith, gives j h, copied),
    )

-- `RestoreUserState` gives the machine the registers that were kept.
pub restore_user_state_lem :
    (m : Machine) (t : UserThread)
    → length m.registers ≡ num_total_regs
    → length t.user_registers ≡ num_total_regs
    → restore_user_state m t ≡ some (record m { registers = t.user_registers })
unfolding restore_user_state
restore_user_state_lem m t room whole =
    let (rs, done, len, gives) =
      restore_registers_lem num_total_regs 0 m t.user_registers refl whole room in
    let same : rs ≡ t.user_registers =
      same_bytes rs t.user_registers (len ∙ sym whole)
        (λ j h. ground (arith, gives j (omega (arith, len)))) in
    done ∙ ap (λ x. some (record m { registers = x })) same
