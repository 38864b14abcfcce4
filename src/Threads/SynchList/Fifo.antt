-- ===== src/Threads/SynchList/Fifo.antt =====
-- threads/synchlist.cc: the items that threads append and remove, in any order of their calls.
use csci350_project.Base.{
  ℕ, ◌≡◌, ◌≢◌, ◌⊎◌, refl, sym, ap, subst, ◌∙◌, List, [], ◌∷◌, ◌++◌, Option, none, some, ==_self,
  inl, inr,
}
use mathlib.Core.List.{append_assoc}
use csci350_project.Threads.Chain.{ListElement, append, items, remove-cases}
use csci350_project.Threads.Chain.Order.{items-append}
use csci350_project.Threads.Scheduler.{Kernel, Asleep, sleep}
use csci350_project.Threads.Lock.{Lock, Acquiring, acquire, release, returns, waits}
use csci350_project.Threads.Condition.{Condition, new_condition, wait, asleep}
use csci350_project.Threads.Condition.Waiters.{signal-lock}
use csci350_project.Threads.SynchList.{
  SynchList, new_synch_list, entered, queued, enter_by, wait_by, next_item, enter, synch_append,
  removed, sleeps, spins, synch_remove,
}

-- A list in use at the address `a` of its lock: what was appended and what was removed so far.
pub record Traffic (X : Type 0) : Type 0 where
  pub synch : SynchList X
  pub given : List X
  pub taken : List X

abbrev pub start : {X : Type 0} → Option ℕ → Traffic X
start owner = record { synch = new_synch_list owner none; given = []; taken = [] }

-- A thread gets in or sleeps in `Acquire`, or goes on with `Append` or with a turn of `Remove`.
pub data Step {X : Type 0} (a : ℕ) (t t' : Traffic X) : Type 0 where
  enters :
      (k k' : Kernel) (s : SynchList X)
      → enter t.synch k ≡ entered s k'
      → t' ≡ record t { synch = s }
      → Step a t t'
  queues :
      (k : Kernel) (s : SynchList X) (z : Asleep)
      → enter t.synch k ≡ queued s z
      → t' ≡ record t { synch = s }
      → Step a t t'
  appends :
      (k : Kernel) (x : X)
      → t' ≡ record t { synch = (synch_append a x t.synch k).0; given = t.given ++ (x ∷ []) }
      → Step a t t'
  removes :
      (k k' : Kernel) (x : X) (s : SynchList X)
      → synch_remove a t.synch k ≡ removed x s k'
      → t' ≡ record t { synch = s; taken = t.taken ++ (x ∷ []) }
      → Step a t t'
  waits_for_item :
      (k : Kernel) (s : SynchList X) (z : Asleep)
      → synch_remove a t.synch k ≡ sleeps s z
      → t' ≡ record t { synch = s }
      → Step a t t'

pub data Reachable {X : Type 0} (a : ℕ) (owner : Option ℕ) : Traffic X → Type 0 where
  begin : (t : Traffic X) → t ≡ start owner → Reachable a owner t
  after : (t t' : Traffic X) → Reachable a owner t → Step a t t' → Reachable a owner t'

-- What was removed, and then what the list holds, is what was appended; a thread that finds the list
-- empty sleeps, as the condition has no lock yet or the list's.
pub record IsFifo {X : Type 0} (a : ℕ) (t : Traffic X) : Type 0 where
  pub order : t.given ≡ t.taken ++ items t.synch.list
  pub listens :
      (t.synch.list_empty.waiting_lock ≡ none) ⊎ (t.synch.list_empty.waiting_lock ≡ some a)

-- `Wait` on such a condition sleeps, and the condition has the list's lock then.
abbrev Sleeps : ℕ → Condition → Lock → Kernel → Type 0
Sleeps a c l k =
    (c' : Condition) × (l' : Lock) × (z : Asleep) × (wait c (some a) l k ≡ asleep c' l' z)
    × (c'.waiting_lock ≡ some a)

wait-Sleeps :
    (a : ℕ) (c : Condition) (l : Lock) (k : Kernel)
    → (c.waiting_lock ≡ none) ⊎ (c.waiting_lock ≡ some a)
    → Sleeps a c l k
unfolding wait
wait-Sleeps a c l k (inl fresh) =
    let (l1, k1) = release l k in
    (
      record { wait_queue = append c.wait_queue k1.current; waiting_lock = some a },
      l1,
      sleep k1,
      rw fresh refl,
      refl,
    )
wait-Sleeps a c l k (inr set) =
    let (l1, k1) = release l k in
    (
      record c { wait_queue = append c.wait_queue k1.current },
      l1,
      sleep k1,
      rw (set, ==_self a) refl,
      set,
    )

-- With the lock or asleep in `Acquire`, the list and the condition are as they were.
abbrev SameList : {X : Type 0} → SynchList X → SynchList X → Type 0
SameList s s' = (s'.list ≡ s.list) × (s'.list_empty ≡ s.list_empty)

entered-SameList :
    {X : Type 0} (s s' : SynchList X) (r : Acquiring) (k : Kernel)
    → enter_by s r ≡ entered s' k
    → SameList s s'
entered-SameList s s' (returns l k1) k h =
    let same : record s { lock = l } ≡ s' = cc in
    (ap (λ (r : SynchList _). r.list) (sym same), ap (λ (r : SynchList _). r.list_empty) (sym same))
entered-SameList s s' (waits l z) k h = cc

queued-SameList :
    {X : Type 0} (s s' : SynchList X) (r : Acquiring) (z : Asleep)
    → enter_by s r ≡ queued s' z
    → SameList s s'
queued-SameList s s' (returns l k1) z h = cc
queued-SameList s s' (waits l z1) z h =
    let same : record s { lock = l } ≡ s' = cc in
    (ap (λ (r : SynchList _). r.list) (sym same), ap (λ (r : SynchList _). r.list_empty) (sym same))

SameList-IsFifo :
    {X : Type 0} (a : ℕ) (t t' : Traffic X) (s : SynchList X)
    → IsFifo a t
    → SameList t.synch s
    → t' ≡ record t { synch = s }
    → IsFifo a t'
SameList-IsFifo a t t' s ok (same, cond) e = subst (IsFifo a) (sym e) (record {
  order = ok.order ∙ ap (λ l. t.taken ++ items l) (sym same);
  listens = rw cond ok.listens;
})

append-IsFifo :
    {X : Type 0} (a : ℕ) (t : Traffic X) (k : Kernel) (x : X)
    → IsFifo a t
    → IsFifo a (record t { synch = (synch_append a x t.synch k).0; given = t.given ++ (x ∷ []) })
unfolding synch_append
append-IsFifo a t k x ok = record {
  order =
      ap (λ xs. xs ++ (x ∷ [])) ok.order
      ∙ append_assoc t.taken (items t.synch.list) (x ∷ [])
      ∙ ap (λ xs. t.taken ++ xs) (sym (items-append t.synch.list x));
  listens = rw (signal-lock t.synch.list_empty (some a) k) ok.listens;
}

-- A turn of `Remove` on a list that is empty, and on one that is not.
module _ {X : Type 0} (a : ℕ) (t : Traffic X) (k : Kernel) (ok : IsFifo a t) where
  remove-empty :
      t.synch.list ≡ []
      → (s : SynchList X) × (z : Asleep) × (synch_remove a t.synch k ≡ sleeps s z)
        × (s.list ≡ t.synch.list)
        × (s.list_empty.waiting_lock ≡ some a)
  unfolding synch_remove
  remove-empty e =
      let (c, l, z, slept, lock) = wait-Sleeps a t.synch.list_empty t.synch.lock k ok.listens in
      (
        record t.synch { lock = l; list_empty = c },
        z,
        ap (next_item a t.synch k) e ∙ ap (wait_by t.synch) slept,
        refl,
        lock,
      )

  remove-first :
      (first : ListElement X) (rest : List (ListElement X))
      → t.synch.list ≡ first ∷ rest
      → (k' : Kernel) × (s : SynchList X) × (synch_remove a t.synch k ≡ removed first.item s k')
        × (s.list ≡ rest)
        × (s.list_empty ≡ t.synch.list_empty)
  unfolding synch_remove
  remove-first first rest e = (
    (release t.synch.lock k).1,
    record t.synch { list = rest; lock = (release t.synch.lock k).0 },
    ap (next_item a t.synch k) e,
    refl,
    refl,
  )

Step-IsFifo : {X : Type 0} (a : ℕ) (t t' : Traffic X) → IsFifo a t → Step a t t' → IsFifo a t'
unfolding enter
Step-IsFifo a t t' ok (enters k k' s h e) =
    SameList-IsFifo a t t' s ok (entered-SameList t.synch s (acquire t.synch.lock k) k' h) e
Step-IsFifo a t t' ok (queues k s z h e) =
    SameList-IsFifo a t t' s ok (queued-SameList t.synch s (acquire t.synch.lock k) z h) e
Step-IsFifo a t t' ok (appends k x e) = subst (IsFifo a) (sym e) (append-IsFifo a t k x ok)
Step-IsFifo a t t' ok (removes k k' x s h e) = elim (remove-cases t.synch.list) [
  | inl empty ↦ let (s1, z, slept, same, lock) = remove-empty a t k ok empty in cc
  | inr (first, rest, held) ↦
      let (k1, s1, gone, left, cond) = remove-first a t k ok first rest held in
      let made = sym gone ∙ h in
      let same : s1 ≡ s = cc in
      let item : first.item ≡ x = cc in
      subst (IsFifo a) (sym e) (record {
        order =
            ok.order
            ∙ ap (λ l. t.taken ++ items l) held
            ∙ ap (λ y. t.taken ++ (y ∷ items rest)) item
            ∙ ap (λ l. t.taken ++ (x ∷ items l)) (sym left ∙ ap (λ (r : SynchList _). r.list) same)
            ∙ sym (append_assoc t.taken (x ∷ []) (items s.list));
        listens =
            subst (λ (c : Condition). (c.waiting_lock ≡ none) ⊎ (c.waiting_lock ≡ some a))
              (sym cond ∙ ap (λ (r : SynchList _). r.list_empty) same) ok.listens;
      })
]
Step-IsFifo a t t' ok (waits_for_item k s z h e) = elim (remove-cases t.synch.list) [
  | inl empty ↦
      let (s1, z1, slept, left, lock) = remove-empty a t k ok empty in
      let same : s1 ≡ s = let made = sym slept ∙ h in cc in
      subst (IsFifo a) (sym e) (record {
        order =
            ok.order
            ∙ ap (λ l. t.taken ++ items l) (sym left ∙ ap (λ (r : SynchList _). r.list) same);
        listens = inr (ap (λ (r : SynchList _). r.list_empty.waiting_lock) (sym same) ∙ lock);
      })
  | inr (first, rest, held) ↦
      let (k1, s1, gone, left, cond) = remove-first a t k ok first rest held in cc
]

started-IsFifo :
    {X : Type 0} (a : ℕ) (owner : Option ℕ) (t : Traffic X) → t ≡ start owner → IsFifo a t
unfolding new_synch_list new_condition
started-IsFifo a owner t e = subst (IsFifo a) (sym e) (record { order = refl; listens = inl refl })

Reachable-IsFifo :
    {X : Type 0} (a : ℕ) (owner : Option ℕ) (t : Traffic X) → Reachable a owner t → IsFifo a t
Reachable-IsFifo a owner t (begin t1 e) = started-IsFifo a owner t e
Reachable-IsFifo a owner t (after t1 t2 before step) =
    Step-IsFifo a t1 t (Reachable-IsFifo a owner t1 before) step

not_spinning :
    {X : Type 0} (a : ℕ) (t : Traffic X) (k : Kernel)
    → IsFifo a t
    → synch_remove a t.synch k ≢ spins
not_spinning a t k ok h = elim (remove-cases t.synch.list) [
  | inl empty ↦ let (s, z, slept, same, lock) = remove-empty a t k ok empty in cc
  | inr (first, rest, held) ↦
      let (k1, s, gone, left, cond) = remove-first a t k ok first rest held in cc
]

-- On a list whose condition has no lock yet when it is made, whatever calls of Append and Remove
-- threads make and in whatever order these go on, what was removed so far, and then what the list
-- holds, is what was appended, in order; and no turn of Remove goes round without sleep, as its Wait
-- never returns at once.
pub Reachable-order :
    {X : Type 0} (a : ℕ) (owner : Option ℕ) (t : Traffic X) (k : Kernel)
    → Reachable a owner t
    → (t.given ≡ t.taken ++ items t.synch.list) × (synch_remove a t.synch k ≢ spins)
Reachable-order a owner t k reached =
    let ok = Reachable-IsFifo a owner t reached in (ok.order, not_spinning a t k ok)
