-- ===== src/Interrupt/Loop.antt =====
-- machine/interrupt.cc: the loop over `CheckIfDue`.
use csci350_project.Base.{
  ℕ, zero, suc, ◌+◌, ◌<◌, ◌≡◌, refl, sym, ap, subst, ◌∙◌, arith, List, [], ◌∷◌, ◌++◌, true, false,
  some,
}
use csci350_project.Machine.{system_mode}
use csci350_project.Threads.Chain.{ListElement}
use csci350_project.Threads.Chain.Order.{
  Sorted, lower, upper, sorted_insert-Sorted, sorted_insert-lower,
}
use csci350_project.Interrupt.{PendingInterrupt, Interrupt, Handlers, is_idle, is_timer, check_all}
use csci350_project.Interrupt.Due.{
  nothing, early, lone_timer, fires, still, check_if_due-DueOutcome,
}
use csci350_project.Interrupt.Calls.{
  ComesBack, Later, Calls-Later, count_due, count_due-sorted_insert, AtLeast-count_due,
  count_due_cons,
}

-- Nothing is due any more, or the timer alone is pending on an idle machine.
pub data Quiet (s : Interrupt) : Type 0 where
  none_due : count_due s.total_ticks s.pending ≡ 0 → Quiet s
  idle_timer :
      (e : ListElement PendingInterrupt)
      → is_idle s.status ≡ true
      → is_timer e.item.type ≡ true
      → s.pending ≡ e ∷ []
      → Quiet s

-- The loop ended: at the same time, with the rest of the interrupts in order.
pub record Settled (s s' : Interrupt) : Type 0 where
  pub same_time : s'.total_ticks ≡ s.total_ticks
  pub same_level : s'.enabled ≡ s.enabled
  pub same_status : s'.status ≡ s.status
  pub sorted : Sorted s'.pending
  pub quiet : Quiet s'

-- One handler is called, and one interrupt fewer is due.
pub fire-Later :
    (h : Handlers) (now : Interrupt) (e : PendingInterrupt)
    → ComesBack h
    → (t : Interrupt) × (h e (record now { in_handler = true; status = system_mode }) ≡ some t)
      × Later now (record t { in_handler = false; status = now.status })
fire-Later h now e back =
    let (t, called, calls) = back e (record now { in_handler = true; status = system_mode }) refl in
    let later = Calls-Later (record now { in_handler = true; status = system_mode }) t calls in
    (
      t,
      called,
      record {
        same_time = later.same_time;
        same_level = later.same_level;
        same_status = refl;
        same_due = later.same_due;
        sorted = later.sorted;
      },
    )

still_early :
    (s : Interrupt) (e : ListElement PendingInterrupt) (rest : List (ListElement PendingInterrupt))
    → Sorted (e ∷ rest)
    → s.total_ticks < e.key
    → Settled s (record s { pending = lower e.key rest ++ (e ∷ upper e.key rest) })
still_early s e rest order early_yet =
    let put = sorted_insert-lower rest e.item e.key order.1 in
    record {
      same_time = refl;
      same_level = refl;
      same_status = refl;
      sorted = subst Sorted put (sorted_insert-Sorted rest e.item e.key order.1);
      quiet = none_due (
          ap (count_due s.total_ticks) (sym put)
          ∙ count_due-sorted_insert s.total_ticks rest e.item e.key early_yet
          ∙ AtLeast-count_due s.total_ticks e.key rest order.0 early_yet);
    }

-- With handlers that come back, interrupts off and the pending ones in the order of their times, the
-- loop ends once it has gone round more often than interrupts were due.
pub check_all-Settled :
    (h : Handlers)
    → ComesBack h
    → (fuel : ℕ) (s : Interrupt) → s.enabled ≡ false
    → Sorted s.pending
    → count_due s.total_ticks s.pending < fuel
    → (s' : Interrupt) × (check_all h fuel s ≡ some s') × Settled s s'
unfolding check_all
check_all-Settled h back zero s off sorted room = elim room [ ]
check_all-Settled h back (suc fuel) s off sorted room =
    elim (check_if_due-DueOutcome h s false off sorted) [
      | nothing nil e ↦ (
        s,
        rw e refl,
        record {
          same_time = refl;
          same_level = refl;
          same_status = refl;
          sorted = sorted;
          quiet = none_due (rw nil refl);
        },
      )
      | early x rest split stay later e ↦
          (_, rw e refl, still_early s x rest (rw split at sorted) later)
      | lone_timer x now split idles timer kept due waited e ↦ (
        now,
        rw e refl,
        record {
          same_time = still waited refl;
          same_level = waited.same_level;
          same_status = waited.same_status;
          sorted = rw kept (tt, tt);
          quiet = idle_timer x (ap is_idle waited.same_status ∙ idles) timer kept;
        },
      )
      | fires x now split least due waited others e ↦
          let (t, called, later) = fire-Later h now x.item back in
          let s1 : Interrupt = record t { in_handler = false; status = now.status } in
          let order : Sorted (x ∷ now.pending) = rw split at sorted in
          let same_time : s1.total_ticks ≡ s.total_ticks = later.same_time ∙ still waited refl in
          let counted : count_due s.total_ticks s.pending
              ≡ 1 + count_due s.total_ticks now.pending =
            ap (count_due s.total_ticks) split
            ∙ count_due_cons s.total_ticks x now.pending (omega (arith, still waited refl)) in
          let (s2, ended, settled) =
            check_all-Settled h back fuel s1 (later.same_level ∙ waited.same_level ∙ off)
              (later.sorted order.1)
              (omega
                (arith, later.same_due, ap (λ t. count_due t now.pending) (still waited refl))) in
          (
            s2,
            rw (e, called, ← waited.same_status) ended,
            record {
              same_time = settled.same_time ∙ same_time;
              same_level = settled.same_level ∙ later.same_level ∙ waited.same_level;
              same_status = settled.same_status ∙ later.same_status ∙ waited.same_status;
              sorted = settled.sorted;
              quiet = settled.quiet;
            },
          )
    ]
