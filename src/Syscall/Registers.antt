-- ===== src/Syscall/Registers.antt =====
-- userprog/exception.cc: the kernel's work for a system call leaves the program's registers.
use csci350_project.Base.{
  Bool-cases, Option-cases, inl, inr, ℕ, zero, suc, ◌+◌, ◌-◌, ◌%◌, ◌^◌, ◌≡◌, ◌∙◌, Bool, true, false,
  List, [], ◌∷◌, ◌++◌, Option, some, >>=-eq-some, arith, ◌==◌, length, drop,
}
use csci350_project.Base.Int.{ℤ}
use csci350_project.Machine.{Machine, raise_exception}
use csci350_project.Machine.Translate.{Translation, translate}
use csci350_project.Machine.Memory.{read_mem, write_mem, sign_extend8}
use csci350_project.AddrSpace
use csci350_project.FileSys.OpenFile
use csci350_project.FileSys.OpenFile.{OpenFile}
use csci350_project.Syscall.{
  Process, Given, console_input, console_output, as_size, as_int, read_again, copyin, copyout,
  fetch_name, create_syscall, open_named, open_syscall, write_file, write_syscall, copy_back,
  read_file, read_console, read_syscall, close_syscall, keep_file,
}
use csci350_project.Syscall.Dispatch.{halt, dispatch}

translate_registers :
    (m m' : Machine) (t : Translation) (va size : ℕ) (writing : Bool)
    → translate m va size writing ≡ some (t, m')
    → m'.registers ≡ m.registers
unfolding translate
translate_registers m m' t va size writing h = ground arith

read_mem_registers :
    (m m' : Machine) (v : Option ℕ) (va size : ℕ)
    → read_mem halt m va size ≡ some (v, m')
    → m'.registers ≡ m.registers
unfolding read_mem raise_exception
read_mem_registers m m' v va size h =
    let ((t, m1), went, rest) = >>=-eq-some (translate m va size false) _ h in
    let same = translate_registers m m1 t va size false went in ground (arith, same)

write_mem_registers :
    (m m' : Machine) (v : Bool) (va size value : ℕ)
    → write_mem halt m va size value ≡ some (v, m')
    → m'.registers ≡ m.registers
unfolding write_mem raise_exception
write_mem_registers m m' v va size value h =
    let ((t, m1), went, rest) = >>=-eq-some (translate m va size true) _ h in
    let same = translate_registers m m1 t va size true went in ground (arith, same)

read_again_registers :
    (fuel : ℕ) (m m' : Machine) (b va : ℕ)
    → read_again fuel halt m va ≡ some (b, m')
    → m'.registers ≡ m.registers
unfolding read_again
read_again_registers zero m m' b va h = cc
read_again_registers (suc fuel) m m' b va h =
    let ((v, m1), went, rest) = >>=-eq-some (read_mem halt m va 1) _ h in
    let same = read_mem_registers m m1 v va 1 went in
    let later = read_again_registers fuel m1 m' b va in ground (arith, same, later)

copyin_registers :
    (fuel len : ℕ) (m m' : Machine) (bytes : List ℕ) (va : ℕ)
    → copyin fuel halt m va len ≡ some (bytes, m')
    → m'.registers ≡ m.registers
unfolding copyin
copyin_registers fuel zero m m' bytes va h = ground arith
copyin_registers fuel (suc len) m m' bytes va h =
    let ((b, m1), went, rest) = >>=-eq-some (read_again fuel halt m va) _ h in
    let ((bs, m2), more, last) = >>=-eq-some (copyin fuel halt m1 ((va + 1) % 2 ^ 32) len) _ rest in
    let one = read_again_registers fuel m m1 b va went in
    let others = copyin_registers fuel len m1 m2 bs ((va + 1) % 2 ^ 32) more in
    ground (arith, one, others)

copyout_registers :
    (bytes : List ℕ) (m m' : Machine) (done : Bool) (va : ℕ)
    → copyout halt m va bytes ≡ some (done, m')
    → m'.registers ≡ m.registers
unfolding copyout
copyout_registers [] m m' done va h = ground arith
copyout_registers (b ∷ bytes) m m' done va h =
    let ((written, m1), went, rest) = >>=-eq-some (write_mem halt m va 1 (sign_extend8 b)) _ h in
    let same = write_mem_registers m m1 written va 1 (sign_extend8 b) went in
    let later = copyout_registers bytes m1 m' done ((va + 1) % 2 ^ 32) in
    ground (arith, same, later)

module _ (g : Given) (p : Process) where
  fetch_name_registers :
      (p' : Process) (name : Option (List ℕ)) (va len : ℕ)
      → fetch_name halt g p va len ≡ some (name, p')
      → p'.machine.registers ≡ p.machine.registers
  unfolding fetch_name
  fetch_name_registers p' name va len h = elim (Bool-cases (len == 2 ^ 32 - 1)) [
    | inl short ↦ ground arith
    | inr enough ↦
        let (n, sized, h1) = >>=-eq-some (as_size (len + 1)) _ (rw enough at h) in
        let ((bytes, m), went, rest) = >>=-eq-some (copyin g.fuel halt p.machine va len) _ h1 in
        let same = copyin_registers g.fuel len p.machine m bytes va went in ground (arith, same)
  ]

  create_syscall_registers :
      (p' : Process) (va len : ℕ)
      → create_syscall halt g p va len ≡ some p'
      → p'.machine.registers ≡ p.machine.registers
  unfolding create_syscall
  create_syscall_registers p' va len h =
      let ((name, p1), went, rest) = >>=-eq-some (fetch_name halt g p va len) _ h in
      let same = fetch_name_registers p1 name va len went in ground (arith, same)

  open_named_registers :
      (p' : Process) (id : ℤ) (name : List ℕ)
      → open_named p name ≡ some (id, p')
      → p'.machine.registers ≡ p.machine.registers
  unfolding open_named
  open_named_registers p' id name h = ground arith

  write_file_registers :
      (p' : Process) (bytes : List ℕ) (n : ℕ) (id : ℤ)
      → write_file halt g p bytes n id ≡ some p'
      → p'.machine.registers ≡ p.machine.registers
  unfolding write_file
  write_file_registers p' bytes n id h = ground arith

  copy_back_registers :
      (p' : Process) (va : ℕ) (bytes : List ℕ)
      → copy_back halt g p va bytes ≡ some p'
      → p'.machine.registers ≡ p.machine.registers
  unfolding copy_back
  copy_back_registers p' va bytes h =
      let ((done, m), went, rest) = >>=-eq-some (copyout halt p.machine va bytes) _ h in
      let same = copyout_registers bytes p.machine m done va went in ground (arith, same)

  close_syscall_registers :
      (p' : Process) (fd : ℕ)
      → close_syscall halt g p fd ≡ some p'
      → p'.machine.registers ≡ p.machine.registers
  unfolding close_syscall
  close_syscall_registers p' fd h = ground arith

module _ (g : Given) (p : Process) where
  open_syscall_registers :
      (p' : Process) (id : ℤ) (va len : ℕ)
      → open_syscall halt g p va len ≡ some (id, p')
      → p'.machine.registers ≡ p.machine.registers
  unfolding open_syscall
  open_syscall_registers p' id va len h =
      let ((fetched, p1), went, rest) = >>=-eq-some (fetch_name halt g p va len) _ h in
      let same = fetch_name_registers g p p1 fetched va len went in
      elim (Option-cases fetched) [
        | inl e ↦ ground (arith, same, rw e at rest)
        | inr found ↦ open_named_registers g p1 p' id found.0 (rw found.1 at rest) ∙ same
      ]

  write_syscall_registers :
      (p' : Process) (va len id : ℕ)
      → write_syscall halt g p va len id ≡ some p'
      → p'.machine.registers ≡ p.machine.registers
  unfolding write_syscall
  write_syscall_registers p' va len id h = elim (Bool-cases (id == console_input)) [
    | inl input ↦ ground arith
    | inr other ↦
        let (n, sized, h1) = >>=-eq-some (as_size len) _ (rw other at h) in
        let ((bytes, m), went, rest) = >>=-eq-some (copyin g.fuel halt p.machine va n) _ h1 in
        let same = copyin_registers g.fuel n p.machine m bytes va went in
        let later = write_file_registers g (record p { machine = m }) p' bytes n (as_int id) in
        ground (arith, same, later)
  ]

  read_file_registers :
      (p' : Process) (r : ℤ) (va n : ℕ) (id : ℤ)
      → read_file halt g p va n id ≡ some (r, p')
      → p'.machine.registers ≡ p.machine.registers
  unfolding read_file
  read_file_registers p' r va n id h =
      let (slot, there, h1) = >>=-eq-some (AddrSpace.get p.files id) _ h in
      elim (Option-cases slot) [
        | inl e ↦ ground (arith, rw e at h1)
        | inr found ↦
            let (f, e) = found in
            let ((bytes, f'), taken, h2) = >>=-eq-some (OpenFile.read p.store f n) _ (rw e at h1) in
            let later = copy_back_registers g (record p { files = keep_file p.files id f' }) in
            let (q, back, rest) =
              >>=-eq-some (copy_back halt g (record p { files = keep_file p.files id f' }) va bytes)
                _ h2 in
            ground (arith, later q va bytes back)
      ]

  read_console_registers :
      (p' : Process) (r : ℤ) (va n : ℕ)
      → read_console halt g p va n ≡ some (r, p')
      → p'.machine.registers ≡ p.machine.registers
  unfolding read_console
  read_console_registers p' r va n h =
      let buf = g.typed ++ (0 ∷ drop (length g.typed + 1) g.buffer) in
      elim (Option-cases (copy_back halt g p va buf)) [
        | inl stopped ↦ ground arith
        | inr went ↦ ground (arith, copy_back_registers g p went.0 va buf went.1)
      ]

  read_syscall_registers :
      (p' : Process) (r : ℤ) (va len id : ℕ)
      → read_syscall halt g p va len id ≡ some (r, p')
      → p'.machine.registers ≡ p.machine.registers
  unfolding read_syscall
  read_syscall_registers p' r va len id h = elim (Bool-cases (id == console_output)) [
    | inl output ↦ ground arith
    | inr other ↦
        let (n, sized, rest) = >>=-eq-some (as_size len) _ (rw other at h) in
        ground (arith, read_file_registers p' r va n (as_int id), read_console_registers p' r va n)
  ]

  pub dispatch_registers :
      (p' : Process) (r : ℤ) (type a b c : ℕ)
      → dispatch g p type a b c ≡ some (r, p')
      → p'.machine.registers ≡ p.machine.registers
  unfolding dispatch
  dispatch_registers p' r type a b c h = ground (
    arith,
    create_syscall_registers g p p' a b,
    open_syscall_registers p' r a b,
    write_syscall_registers p' a b c,
    read_syscall_registers p' r a b c,
    close_syscall_registers g p p' a,
  )
