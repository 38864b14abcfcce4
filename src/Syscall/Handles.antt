-- ===== src/Syscall/Handles.antt =====
-- userprog/exception.cc, `Open_Syscall` and `Close_Syscall`, on the numbers of the open files.
use csci350_project.Base.{
  ℕ, suc, ◌^◌, ◌-◌, false, ◌+◌, ◌*◌, ◌^◌, ◌≤◌, ◌<◌, ◌≡◌, refl, ap, subst, ◌∙◌, inl, inr, arith,
  true, List, [], ◌∷◌, ◌++◌, Option, none, some, ◌>>=◌, ◌==◌, if◌then◌else◌, ==_false, ==_iff,
  ℕ_discrete, Option-cases,
}
use csci350_project.Base.Int.{pos, minus_one}
use csci350_project.BitMap.Laws.{is_set}
use csci350_project.Machine.{Machine, Handler, page_size}
use csci350_project.AddrSpace
use csci350_project.AddrSpace.{Table}
use csci350_project.AddrSpace.Handles.{IsTable, no_room, placed, put-PutOutcome, get-remove}
use csci350_project.FileSys.OpenFile.{OpenFile}
use csci350_project.FileSys.System.{open_file}
use csci350_project.Syscall.{
  Process, Given, as_size, as_int, fetch_name, open_named, open_syscall, close_syscall,
}
use csci350_project.Syscall.Memory.{Maps, IsBytes}
use csci350_project.Syscall.Copy.{bytes_at, copyin_lem}

-- How `Open` of the file called `name` ends.
pub data OpenOutcome (handler : Handler) (g : Given) (p : Process) (name : List ℕ) (va len : ℕ)
    : Type 0 where
  missing :
      (p' : Process)
      → open_file p.fs name ≡ none
      → open_syscall handler g p va len ≡ some (minus_one, p')
      → p'.files ≡ p.files
      → OpenOutcome handler g p name va len
  all_open :
      (p' : Process)
      → ((i : ℕ) → i < p.files.size → is_set p.files.map i ≡ true)
      → open_syscall handler g p va len ≡ some (minus_one, p')
      → p'.files ≡ p.files
      → OpenOutcome handler g p name va len
  opens :
      (id : ℕ) (f : OpenFile) (p' p'' : Process)
      → open_file p.fs name ≡ some f
      → open_syscall handler g p va len ≡ some (pos id, p')
      → AddrSpace.get p.files (pos id) ≡ some none
      → ((j : ℕ)
          → AddrSpace.get p'.files (pos j)
            ≡ (if id == j then some (some f) else AddrSpace.get p.files (pos j)))
      → close_syscall handler g p' id ≡ some p''
      → ((j : ℕ) → AddrSpace.get p''.files (pos j) ≡ AddrSpace.get p.files (pos j))
      → OpenOutcome handler g p name va len

-- Removing what was put in leaves what there was.
back_again :
    (i : ℕ) (x : Option (Option OpenFile)) (y : Option OpenFile) (j : ℕ)
    → (i ≡ j → x ≡ some none)
    → (if i == j then some none else (if i == j then some y else x)) ≡ x
back_again i x y j free = elim (ℕ_discrete i j) [
  | yes e ↦
      cc (free e, ap (λ b. if b then some none else (if b then some y else x)) ((==_iff i j).1 e))
  | no d ↦ rw (==_false i j d) refl
]

-- `Open` once the name is fetched and its file is there; then `Close`.
module _ (handler : Handler) (g : Given) (p : Process) (m : Machine) (name : List ℕ) (va len : ℕ)
    (ok : IsTable p.files) (bound : p.files.size ≤ 2 ^ 31)
    (fetched : fetch_name handler g p va len ≡ some (some name, record p { machine = m })) where
  -- `Open` once the name is fetched.
  looked_up : open_syscall handler g p va len ≡ elim (open_file p.fs name) [
    | none ↦ some (minus_one, record p { machine = m })
    | some f ↦ AddrSpace.put p.files (some f) >>= λ (id, files).
        some (id, record p { machine = m; files = files })
  ]
  unfolding open_syscall open_named
  looked_up = rw fetched refl

  opened-OpenOutcome :
      (f : OpenFile) → open_file p.fs name ≡ some f → OpenOutcome handler g p name va len
  unfolding close_syscall
  opened-OpenOutcome f there = elim (put-PutOutcome p.files (some f) ok) [
    | no_room e all ↦ all_open (record p { machine = m }) all (looked_up ∙ rw (there, e) refl) refl
    | placed id t' e on _ _ _ _ free holds ok' ↦
        let (old, t'', was, removed, after, ok'') = get-remove t' id ok' in
        let numbered : as_int id ≡ pos id = ground (arith, bound, on) in
        opens id f (record p { machine = m; files = t' }) (record p { machine = m; files = t'' })
          there (looked_up ∙ rw (there, e) refl) free holds (rw (numbered, removed) refl)
          (λ j.
            after j
            ∙ ap (λ x. if id == j then some none else x) (holds j)
            ∙ back_again id (AddrSpace.get p.files (pos j)) (some f) j
                (λ e. subst (λ k. AddrSpace.get p.files (pos k) ≡ some none) e free))
  ]

  fetched-OpenOutcome : OpenOutcome handler g p name va len
  fetched-OpenOutcome = elim (Option-cases (open_file p.fs name)) [
    | inl no_file ↦ missing (record p { machine = m }) no_file (looked_up ∙ rw no_file refl) refl
    | inr found ↦ opened-OpenOutcome found.0 found.1
  ]

-- With a table of open files that has a place for each number, 2^31 of them at most, and a name of
-- `len` bytes inside of the program's pages, which are the first of the memory: `Open` fails no
-- ASSERT. It answers -1 and leaves the open files where the file system has no file of that name or all
-- numbers are in use; else its answer is a number that stood for nothing and now stands for the file, the others stand for what
-- they did, and `Close` of that number fails no ASSERT and leaves the open files as they were before.
pub open_syscall-OpenOutcome :
    (handler : Handler) (g : Given) (p : Process) (n va len fuel : ℕ)
    → IsTable p.files
    → p.files.size ≤ 2 ^ 31
    → Maps p.machine n
    → IsBytes p.machine.main_memory
    → va + len ≤ n * page_size
    → g.fuel ≡ suc fuel
    → OpenOutcome handler g p (bytes_at p.machine.main_memory va len ++ (0 ∷ [])) va len
unfolding fetch_name
open_syscall-OpenOutcome handler g p n va len fuel ok bound pages whole inside fueled =
    let name = bytes_at p.machine.main_memory va len ++ (0 ∷ []) in
    let sized : as_size (len + 1) ≡ some (len + 1) = ground (arith, pages.small) in
    let named : (len == 2 ^ 32 - 1) ≡ false = ==_false _ _ (λ e. omega (arith, pages.small)) in
    let (m, went, a) = copyin_lem handler n len fuel va p.machine pages whole inside in
    fetched-OpenOutcome handler g p m name va len ok bound (rw (named, sized, fueled, went) refl)
