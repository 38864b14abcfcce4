-- ===== src/Threads/Switch/Back.antt =====
-- threads/scheduler.cc, `Run`: a user program that gets the machine back.
use csci350_project.Base.{
  ℕ, ◌≡◌, ◌≢◌, refl, sym, ap, subst, ◌∙◌, List, Option, Option-cases, inl, inr, none, some, ==_iff,
  ==_self, ==_false, ℕ_discrete, ◌>>=◌, >>=-eq-some, length, true, Bool-cases, ◌==◌,
}
use csci350_project.Machine.{Machine, TranslationEntry, num_total_regs}
use csci350_project.AddrSpace.Paging.{AddrSpace, restore_state}
use csci350_project.Threads.Switch.{
  UserThread, Processor, save_state, put_thread, save_user_state, restore_user_state, give_up,
  take_over, switch_to, check_overflow, may_destroy, stack_fencepost,
}
use csci350_project.Threads.Switch.Registers.{save_user_state_lem, restore_user_state_lem}

-- The machine and every thread have all their registers, and no stack has overrun its fencepost.
pub record IsWhole (p : Processor) : Type 0 where
  pub machine : length p.machine.registers ≡ num_total_regs
  pub threads : (i : ℕ) → length (p.threads i).user_registers ≡ num_total_regs
  pub stacks : (i : ℕ) → check_overflow (p.threads i) ≡ true

-- What the others do while the thread `t` does not have the machine: a program works, which may change
-- all of the machine, or a thread finishes, or it gives the machine to another.
pub data Others (t : ℕ) (p : Processor) : Processor → Type 0 where
  idle_yet : Others t p p
  works :
      (q : Processor) (m : Machine)
      → Others t p q
      → q.current ≢ t
      → length m.registers ≡ num_total_regs
      → Others t p (record q { machine = m })
  finishes :
      (q : Processor)
      → Others t p q
      → q.current ≢ t
      → Others t p (record q { thread_to_be_destroyed = some q.current })
  switches :
      (q r : Processor) (next : ℕ)
      → Others t p q
      → q.current ≢ t
      → switch_to q next ≡ some r
      → Others t p r

module _ (m : Machine) (t : UserThread) (whole : length m.registers ≡ num_total_regs)
    (room : length t.user_registers ≡ num_total_regs) where
  give_up_program :
      (s : AddrSpace)
      → t.space ≡ some s
      → give_up m t
        ≡ some (record t { user_registers = m.registers; space = some (save_state m s) })
  unfolding give_up
  give_up_program s h =
      ap
        (λ (o : Option AddrSpace). elim o [
          | none ↦ some t
          | some x ↦
              save_user_state m t >>= λ t'. some (record t' { space = some (save_state m x) })
        ])
        h
      ∙ rw (save_user_state_lem m t whole room) refl

  take_over_program :
      (s : AddrSpace)
      → t.space ≡ some s
      → take_over m t ≡ some (restore_state (record m { registers = t.user_registers }) s)
  unfolding take_over
  take_over_program s h =
      ap
        (λ (o : Option AddrSpace). elim o [
          | none ↦ some m
          | some x ↦ restore_user_state m t >>= λ m'. some (restore_state m' x)
        ])
        h
      ∙ rw (restore_user_state_lem m t whole room) refl

  give_up_lem :
      (t' : UserThread) × (give_up m t ≡ some t')
      × (length t'.user_registers ≡ num_total_regs)
      × (t'.stack ≡ t.stack)
  unfolding give_up
  give_up_lem = elim (Option-cases t.space) [
    | inl kernel ↦ (t, rw kernel refl, room, refl)
    | inr user ↦ (
      record t { user_registers = m.registers; space = some (save_state m user.0) },
      give_up_program user.0 user.1,
      whole,
      refl,
    )
  ]

  take_over_lem :
      (m' : Machine) × (take_over m t ≡ some m') × (length m'.registers ≡ num_total_regs)
  unfolding take_over restore_state
  take_over_lem = elim (Option-cases t.space) [
    | inl kernel ↦ (m, rw kernel refl, whole)
    | inr user ↦ (
      restore_state (record m { registers = t.user_registers }) user.0,
      take_over_program user.0 user.1,
      room,
    )
  ]

same_result {ℓ} : {A : Type ℓ} (x y : A) → some x ≡ some y → x ≡ y
same_result x y h = ap (λ o. elim o [ none ↦ x | some z ↦ z ]) h

-- How a switch ends.
record Switched (p r : Processor) (next : ℕ) : Type 0 where
  pub whole : IsWhole r
  pub destroyed : r.thread_to_be_destroyed ≡ none
  pub others : (i : ℕ) → i ≢ p.current → r.threads i ≡ p.threads i
  pub gave :
      (old : UserThread)
      → give_up p.machine (p.threads p.current) ≡ some old
      → r.threads p.current ≡ old

-- The two ASSERTs on the way.
check_overflow-kept :
    (t t' : UserThread) → t'.stack ≡ t.stack → check_overflow t' ≡ check_overflow t
check_overflow-kept t t' same =
    ap (λ (o : Option ℕ). elim o [ none ↦ true | some word ↦ word == stack_fencepost ]) same

may_destroy-other : (t u : ℕ) → t ≢ u → may_destroy (some t) u ≡ true
may_destroy-other t u d = rw (==_false t u d) refl

switch_to_lem :
    (p : Processor) (next : ℕ)
    → IsWhole p
    → may_destroy p.thread_to_be_destroyed next ≡ true
    → (r : Processor) × (switch_to p next ≡ some r) × Switched p r next
unfolding switch_to
switch_to_lem p next ok other =
    let t = p.threads p.current in
    let (old, gave, kept, stack) = give_up_lem p.machine t ok.machine (ok.threads p.current) in
    let sound : check_overflow old ≡ true = check_overflow-kept t old stack ∙ ok.stacks p.current in
    let threads = put_thread p.threads p.current old in
    let room : (i : ℕ) → length (threads i).user_registers ≡ num_total_regs = λ i.
      elim (ℕ_discrete p.current i) [
        | yes e ↦ rw ((==_iff p.current i).1 e) kept
        | no d ↦ rw (==_false p.current i d) (ok.threads i)
      ] in
    let stacks : (i : ℕ) → check_overflow (threads i) ≡ true = λ i. elim (ℕ_discrete p.current i) [
      | yes e ↦ rw ((==_iff p.current i).1 e) sound
      | no d ↦ rw (==_false p.current i d) (ok.stacks i)
    ] in
    let (m, took, all) = take_over_lem p.machine (threads next) ok.machine (room next) in
    (
      record { machine = m; current = next; thread_to_be_destroyed = none; threads = threads },
      rw (gave, sound, other, took) refl,
      record {
        whole = record { machine = all; threads = room; stacks = stacks };
        destroyed = refl;
        others = λ i d. rw (==_false p.current i (λ e. d (sym e))) refl;
        gave = λ old' gives. rw (==_self p.current) (same_result old old' (sym gave ∙ gives));
      },
    )

-- The thread that gets the machine is not the one that has finished.
switched-other :
    (p r : Processor) (next : ℕ)
    → switch_to p next ≡ some r
    → may_destroy p.thread_to_be_destroyed next ≡ true
unfolding switch_to
switched-other p r next went =
    let (old, gave, rest) = >>=-eq-some (give_up p.machine (p.threads p.current)) _ went in
    elim (Bool-cases (may_destroy p.thread_to_be_destroyed next)) [
      | inl other ↦ other
      | inr own ↦ elim (Bool-cases (check_overflow old)) [
        | inl sound ↦ let stuck = rw (sound, own) at rest in cc
        | inr over ↦ let stuck = rw over at rest in cc
      ]
    ]

-- What is known of a switch that was made.
switched_lem :
    (p r : Processor) (next : ℕ) → IsWhole p → switch_to p next ≡ some r → Switched p r next
switched_lem p r next ok went =
    let (r', went', s) = switch_to_lem p next ok (switched-other p r next went) in
    subst (λ (x : Processor). Switched p x next) (same_result r' r (sym went' ∙ went)) s

-- A thread without the machine keeps what it has, and is not the one that has finished.
Others-kept :
    (t : ℕ) (p r : Processor)
    → IsWhole p
    → may_destroy p.thread_to_be_destroyed t ≡ true
    → Others t p r
    → IsWhole r × (r.threads t ≡ p.threads t) × (may_destroy r.thread_to_be_destroyed t ≡ true)
Others-kept t p _ ok lives idle_yet = (ok, refl, lives)
Others-kept t p _ ok lives (works q m before other whole) =
    let (kept, same, alive) = Others-kept t p q ok lives before in
    (record { machine = whole; threads = kept.threads; stacks = kept.stacks }, same, alive)
Others-kept t p _ ok lives (finishes q before other) =
    let (kept, same, alive) = Others-kept t p q ok lives before in
    (
      record { machine = kept.machine; threads = kept.threads; stacks = kept.stacks },
      same,
      may_destroy-other q.current t other,
    )
Others-kept t p _ ok lives (switches q r next before other went) =
    let (kept, same, alive) = Others-kept t p q ok lives before in
    let s = switched_lem q r next kept went in
    (s.whole, s.others t (λ d. other (sym d)) ∙ same, rw s.destroyed refl)

-- Where all threads and the machine have all their registers, no thread's stack has overrun its
-- fencepost, and the machine walks the page table of the program that has it: once that program's
-- thread gave the machine to another, whatever the others do with it and however often they give it
-- to one another or finish, `Run` of that thread fails no ASSERT, and the program has its registers,
-- its page table and the table's size as before; the memory is as the others left it.
pub switch_to-back :
    (p q r : Processor) (next : ℕ) (s : AddrSpace) (table : List TranslationEntry)
    → IsWhole p
    → (p.threads p.current).space ≡ some s
    → p.machine.page_table ≡ some table
    → p.machine.page_table_size ≡ s.num_pages
    → switch_to p next ≡ some q
    → Others p.current q r
    → r.current ≢ p.current
    → (b : Processor) × (switch_to r p.current ≡ some b)
      × (b.machine.registers ≡ p.machine.registers)
      × (b.machine.page_table ≡ p.machine.page_table)
      × (b.machine.page_table_size ≡ p.machine.page_table_size)
      × (b.machine.main_memory ≡ r.machine.main_memory)
unfolding switch_to restore_state
switch_to-back p q r next s table ok user walks size gave others away =
    let t = p.threads p.current in
    let s' : AddrSpace = record s { page_table = table } in
    let kept : UserThread = record t { user_registers = p.machine.registers; space = some s' } in
    let saved : save_state p.machine s ≡ s' =
      ap
        (λ (o : Option (List TranslationEntry)). elim o [
          | none ↦ s
          | some x ↦ record s { page_table = x }
        ])
        walks in
    let gives : give_up p.machine t ≡ some kept =
      give_up_program p.machine t ok.machine (ok.threads p.current) s user
      ∙ ap (λ x. some (record t { user_registers = p.machine.registers; space = some x })) saved in
    let sw = switched_lem p q next ok gave in
    let in_q : q.threads p.current ≡ kept = sw.gave kept gives in
    let (whole, same, alive) = Others-kept p.current q r sw.whole (rw sw.destroyed refl) others in
    let (old, left, _, stack) =
      give_up_lem r.machine (r.threads r.current) whole.machine (whole.threads r.current) in
    let sound : check_overflow old ≡ true =
      check_overflow-kept (r.threads r.current) old stack ∙ whole.stacks r.current in
    let threads = put_thread r.threads r.current old in
    let mine : threads p.current ≡ kept = rw (==_false r.current p.current away) (same ∙ in_q) in
    let room : length (threads p.current).user_registers ≡ num_total_regs =
      ap (λ (x : UserThread). length x.user_registers) mine ∙ ok.machine in
    let took =
      take_over_program r.machine (threads p.current) whole.machine room s'
        (ap (λ (x : UserThread). x.space) mine) in
    let m =
      restore_state (record r.machine { registers = (threads p.current).user_registers }) s' in
    (
      record { machine = m; current = p.current; thread_to_be_destroyed = none; threads = threads },
      rw (left, sound, alive, took) refl,
      ap (λ (x : UserThread). x.user_registers) mine,
      sym walks,
      sym size,
      refl,
    )
