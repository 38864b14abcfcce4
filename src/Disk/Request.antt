-- ===== src/Disk/Request.antt =====
-- machine/disk.cc and synchdisk.cc: one request at a time, and the interrupt that ends it.
use csci350_project.Base.{
  ℕ, suc, ◌+◌, ◌-◌, ◌≤◌, ◌<◌, ◌≡◌, refl, ap, ◌∙◌, arith, ℕ_discrete, ==_false, ==_self,
  get_or-set_ne, subst, ◌⊎◌, inl, inr, List, [], ◌∷◌, ◌++◌, Bool, true, false, none, some, lt→ltb,
  ◌==◌, if◌then◌else◌, length, get_or, set, get_or-set_self, length-set,
}
use csci350_project.Base.Int.{ℤ, pos, negsuc}
use csci350_project.FileSys.Store.{Store, read_sector, write_sector}
use csci350_project.Threads.Chain.{ListElement}
use csci350_project.Threads.Chain.Order.{Sorted, lower, upper}
use csci350_project.Interrupt.{PendingInterrupt, Interrupt, disk_int, schedule}
use csci350_project.Interrupt.Due.{schedule-Sorted, schedule-total_ticks}
use csci350_project.Disk.{
  Disk, rotation_time, compute_latency, update_last, read_request, write_request, handle_interrupt,
}

-- The interrupt that `d` asks for at the time `at`.
abbrev pub disk_interrupt : Disk → ℕ → ListElement PendingInterrupt
disk_interrupt d at = record {
  item = record { handler = d.disk_done; arg = d.self; when = at; type = disk_int };
  key = at;
}

-- The disk is busy with the sector `s`, and its interrupt is to come at the time `at`, behind those
-- that are due up to then.
pub record Busy (d d' : Disk) (i i' : Interrupt) (s at : ℕ) : Type 0 where
  pub active : d'.active ≡ true
  pub last : d'.last_sector ≡ s
  pub later : i.total_ticks + rotation_time ≤ at
  pub asked : i'.pending ≡ lower at i.pending ++ (disk_interrupt d at ∷ upper at i.pending)
  pub sorted : Sorted i'.pending
  pub same_time : i'.total_ticks ≡ i.total_ticks

latency_pos :
    (d : Disk) (total_ticks s : ℕ) (writing : Bool)
    → (n : ℕ) × (compute_latency d total_ticks s writing ≡ suc n) × (rotation_time ≤ suc n)
unfolding compute_latency
latency_pos d total_ticks s writing =
    let latency = compute_latency d total_ticks s writing in
    let small : rotation_time ≤ latency = ground arith in (latency - 1, omega arith, omega arith)

-- The interrupt is asked for, whatever the counters are then.
asks :
    (d : Disk) (i : Interrupt) (s : ℕ) (writing : Bool)
    → Sorted i.pending
    → let latency = compute_latency d i.total_ticks s writing in
      (i' : Interrupt) × (schedule i d.disk_done d.self (pos latency) disk_int ≡ some i')
      × ((d' : Disk)
          → d'.active ≡ true
          → d'.last_sector ≡ s
          → Busy d d' i i' s (i.total_ticks + latency))
asks d i s writing sorted =
    let (n, e, small) = latency_pos d i.total_ticks s writing in
    let (i', done, asked, order) = schedule-Sorted i d.disk_done d.self n disk_int sorted in
    (
      i',
      rw e done,
      λ d' busy at. record {
        active = busy;
        last = at;
        later = omega arith;
        asked = rw e asked;
        sorted = order;
        same_time = schedule-total_ticks i i' d.disk_done d.self n disk_int done;
      },
    )

-- With the pending interrupts in the order of their times, `WriteRequest` to a sector of a disk that
-- is not busy writes that sector, makes the disk busy and asks for an interrupt when the sector has
-- passed below the head.
pub write_request-Busy :
    (d : Disk) (st : Store) (i : Interrupt) (s : ℕ) (bytes : List ℕ)
    → d.active ≡ false
    → s < length st
    → Sorted i.pending
    → (d' : Disk) × (i' : Interrupt) × (write_request d st i (pos s) bytes
        ≡ some (set st s bytes, d', i'))
      × Busy d d' i i' s (i.total_ticks + compute_latency d i.total_ticks s true)
unfolding write_request write_sector update_last
write_request-Busy d st i s bytes free on sorted =
    let (i', done, busy) = asks d i s true sorted in
    let d' : Disk = record (update_last (record d { active = true }) i.total_ticks s) {
      num_disk_writes = d.num_disk_writes + 1;
    } in
    (d', i', simp (free, lt→ltb s (length st) on, done), busy d' refl refl)

-- In the same state `ReadRequest` gives what the sector holds.
pub read_request-Busy :
    (d : Disk) (st : Store) (i : Interrupt) (s : ℕ)
    → d.active ≡ false
    → s < length st
    → Sorted i.pending
    → (d' : Disk) × (i' : Interrupt) × (read_request d st i (pos s) ≡ some (get_or st s [], d', i'))
      × Busy d d' i i' s (i.total_ticks + compute_latency d i.total_ticks s false)
unfolding read_request read_sector update_last
read_request-Busy d st i s free on sorted =
    let (i', done, busy) = asks d i s false sorted in
    let d' : Disk = record (update_last (record d { active = true }) i.total_ticks s) {
      num_disk_reads = d.num_disk_reads + 1;
    } in
    (d', i', simp (free, lt→ltb s (length st) on, done), busy d' refl refl)

-- A busy disk takes no request, and no disk takes one for a sector that it does not have.
pub request_refused :
    (d : Disk) (st : Store) (i : Interrupt) (n : ℤ) (bytes : List ℕ)
    → (d.active ≡ true) ⊎ (read_sector st n ≡ none)
    → (read_request d st i n ≡ none) × (write_request d st i n bytes ≡ none)
unfolding read_request write_request read_sector write_sector
request_refused d st i (negsuc s) bytes h = (refl, refl)
request_refused d st i (pos s) bytes (inl busy) = (rw busy refl, rw busy refl)
request_refused d st i (pos s) bytes (inr off) = (ground arith, ground arith)

held :
    (st : Store) (s n : ℕ) (bytes : List ℕ)
    → s < length st
    → get_or (set st s bytes) n [] ≡ (if s == n then bytes else get_or st n [])
held st s n bytes on = elim (ℕ_discrete s n) [
  | yes e ↦
      subst (λ k. get_or (set st s bytes) k [] ≡ (if s == k then bytes else get_or st k [])) e
        (get_or-set_self st s bytes [] on ∙ rw (==_self s) refl)
  | no d ↦ get_or-set_ne st bytes [] d ∙ rw (==_false s n d) refl
]

-- Once the disk has interrupted after a write, and with the pending interrupts in the order of their
-- times, a read gives what was written, and that of another sector what it held before.
pub read-write_request :
    (d : Disk) (st : Store) (i : Interrupt) (s n : ℕ) (bytes : List ℕ)
    → d.active ≡ false
    → s < length st
    → n < length st
    → Sorted i.pending
    → (st' : Store) × (d' : Disk) × (i' : Interrupt) × (write_request d st i (pos s) bytes
        ≡ some (st', d', i'))
      × ((later : Interrupt)
          → Sorted later.pending
          → (d'' : Disk) × (i'' : Interrupt) × (read_request (handle_interrupt d') st' later (pos n)
              ≡ some (if s == n then bytes else get_or st n [], d'', i'')))
unfolding handle_interrupt
read-write_request d st i s n bytes free on_s on_n sorted =
    let (d', i', done, busy) = write_request-Busy d st i s bytes free on_s sorted in
    (
      set st s bytes,
      d',
      i',
      done,
      λ later order.
          let (d'', i'', read, next) =
            read_request-Busy (handle_interrupt d') (set st s bytes) later n refl
              (rw (length-set st s bytes) on_n) order in
          (d'', i'', read ∙ ap (λ b. some (b, d'', i'')) (held st s n bytes on_s)),
    )
