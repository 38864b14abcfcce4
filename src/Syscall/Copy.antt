-- ===== src/Syscall/Copy.antt =====
-- userprog/exception.cc, `copyin` and `copyout`, against the program's memory as a list of bytes.
use csci350_project.Base.{
  ℕ, zero, suc, ◌+◌, ◌*◌, ◌%◌, ◌^◌, ◌≤◌, ◌<◌, ◌≡◌, refl, sym, ap, subst, ◌∙◌, arith, true, List, [],
  ◌∷◌, ◌++◌, some, length, take, drop, get_or, set, take-append-drop, ◌-◌, ◌⊎◌,
}
use csci350_project.Machine.{Machine, Handler, page_size}
use csci350_project.Machine.Memory.{sign_extend8}
use csci350_project.FileSys.OpenFile.{splice}
use csci350_project.FileSys.OpenFile.Contents.{get_or-splice}
use csci350_project.Syscall.{read_again, copyin, copyout}
use csci350_project.Syscall.Memory.{Maps, IsBytes, Accessed, read_byte, write_byte}

-- The `len` bytes of the memory from `va` on.
abbrev pub bytes_at : List ℕ → ℕ → ℕ → List ℕ
bytes_at mem va len = take len (drop va mem)

take-drop-suc :
    (mem : List ℕ) (va len : ℕ)
    → va < length mem
    → bytes_at mem va (suc len) ≡ get_or mem va 0 ∷ bytes_at mem (suc va) len
take-drop-suc [] va len h = absurd (omega arith)
take-drop-suc (x ∷ xs) zero len h = refl
take-drop-suc (x ∷ xs) (suc va) len h = take-drop-suc xs va len (omega arith)

next_byte :
    (mem : List ℕ) (va len : ℕ)
    → va < length mem
    → bytes_at mem va (suc len) ≡ get_or mem va 0 ∷ bytes_at mem (va + 1) len
next_byte mem va len h =
    let one : suc va ≡ va + 1 = omega arith in
    take-drop-suc mem va len h ∙ ap (λ k. get_or mem va 0 ∷ bytes_at mem k len) one

drop-set : (mem : List ℕ) (at n b : ℕ) → at < n → drop n (set mem at b) ≡ drop n mem
drop-set [] at n b h = refl
drop-set (x ∷ xs) at zero b h = absurd (omega arith)
drop-set (x ∷ xs) zero (suc n) b h = refl
drop-set (x ∷ xs) (suc at) (suc n) b h = drop-set xs at n b (omega arith)

take-set :
    (mem : List ℕ) (at b : ℕ)
    → at < length mem
    → take (suc at) (set mem at b) ≡ take at mem ++ (b ∷ [])
take-set [] at b h = absurd (omega arith)
take-set (x ∷ xs) zero b h = refl
take-set (x ∷ xs) (suc at) b h = ap (λ t. x ∷ t) (take-set xs at b (omega arith))

append_cons : (xs ys : List ℕ) (b : ℕ) → (xs ++ (b ∷ [])) ++ ys ≡ xs ++ (b ∷ ys)
append_cons [] ys b = refl
append_cons (x ∷ xs) ys b = ap (λ t. x ∷ t) (append_cons xs ys b)

-- A byte and then the ones behind it.
splice-set :
    (mem bytes : List ℕ) (va b : ℕ)
    → va < length mem
    → splice (set mem va b) (va + 1) bytes ≡ splice mem va (b ∷ bytes)
splice-set mem bytes va b h =
    let shift : va + 1 + length bytes ≡ va + suc (length bytes) = omega arith in
    let one : va + 1 ≡ suc va = omega arith in
    let behind : drop (va + 1 + length bytes) (set mem va b) ≡ drop (va + suc (length bytes)) mem =
      drop-set mem va (va + 1 + length bytes) b (omega arith) ∙ ap (λ n. drop n mem) shift in
    ap (λ t. t ++ (bytes ++ drop (va + 1 + length bytes) (set mem va b)))
      (ap (λ k. take k (set mem va b)) one ∙ take-set mem va b h)
    ∙ append_cons (take va mem) (bytes ++ drop (va + 1 + length bytes) (set mem va b)) b
    ∙ ap (λ t. take va mem ++ (b ∷ (bytes ++ t))) behind

nothing : (mem : List ℕ) (va : ℕ) → mem ≡ splice mem va []
nothing mem va = let e : va + 0 ≡ va = omega arith in sym (rw e (take-append-drop va mem))

byte_back : (b : ℕ) → b < 256 → sign_extend8 b % 256 ≡ b
byte_back b h = ground arith

module _ (handler : Handler) (n : ℕ) where
  -- `copyin` of bytes inside of the program's pages.
  pub copyin_lem :
      (len fuel va : ℕ) (m : Machine)
      → Maps m n
      → IsBytes m.main_memory
      → va + len ≤ n * page_size
      → (m' : Machine) × (copyin (suc fuel) handler m va len
          ≡ some (bytes_at m.main_memory va len, m'))
        × Accessed m m' n m.main_memory
  unfolding copyin read_again
  copyin_lem zero fuel va m ok bytes h =
      (m, refl, record { maps = ok; memory = refl; registers = refl })
  copyin_lem (suc len) fuel va m ok bytes h =
      let (m1, went, a) = read_byte m n va ok (omega arith) handler in
      let (m2, rest, b) =
        copyin_lem len fuel (va + 1) m1 a.maps (subst IsBytes (sym a.memory) bytes) (omega arith) in
      let next : (va + 1) % 2 ^ 32 ≡ va + 1 = omega (arith, ok.small) in
      let again : copyin (suc fuel) handler m1 (va + 1) len
          ≡ some (bytes_at m.main_memory (va + 1) len, m2) =
        rest ∙ ap (λ mem. some (bytes_at mem (va + 1) len, m2)) a.memory in
      let first =
        next_byte m.main_memory va len (omega (arith, ok.running.whole_memory, ok.small)) in
      (
        m2,
        rw (went, byte_back (get_or m.main_memory va 0) (bytes va), next, again, first) refl,
        record {
          maps = b.maps;
          memory = b.memory ∙ a.memory;
          registers = b.registers ∙ a.registers;
        },
      )

  -- `copyout` of bytes to a place inside of the program's pages.
  pub copyout_lem :
      (bytes : List ℕ) (va : ℕ) (m : Machine)
      → Maps m n
      → ((j : ℕ) → get_or bytes j 0 < 256)
      → va + length bytes ≤ n * page_size
      → (m' : Machine) × (copyout handler m va bytes ≡ some (true, m'))
        × Accessed m m' n (splice m.main_memory va bytes)
  unfolding copyout
  copyout_lem [] va m ok small h =
      (m, refl, record { maps = ok; memory = nothing m.main_memory va; registers = refl })
  copyout_lem (b ∷ bytes) va m ok small h =
      let (m1, went, a) = write_byte m n va ok (omega arith) handler b (small 0) in
      let (m2, rest, c) = copyout_lem bytes (va + 1) m1 a.maps (λ j. small (suc j)) (omega arith) in
      let next : (va + 1) % 2 ^ 32 ≡ va + 1 = omega (arith, ok.small) in
      let inside : va < length m.main_memory = omega (arith, ok.running.whole_memory, ok.small) in
      (
        m2,
        rw (went, next, rest) refl,
        record {
          maps = c.maps;
          memory =
              c.memory
              ∙ ap (λ mem. splice mem (va + 1) bytes) a.memory
              ∙ splice-set m.main_memory bytes va b inside;
          registers = c.registers ∙ a.registers;
        },
      )

bytes_at-splice :
    (mem bytes : List ℕ) (va : ℕ)
    → va + length bytes ≤ length mem
    → bytes_at (splice mem va bytes) va (length bytes) ≡ bytes
bytes_at-splice mem bytes va h =
    ap (take (length bytes))
      (drop-append mem (bytes ++ drop (va + length bytes) mem) va (omega arith))
    ∙ take-append bytes (drop (va + length bytes) mem)
  where
    drop-append : (xs ys : List ℕ) (k : ℕ) → k ≤ length xs → drop k (take k xs ++ ys) ≡ ys
    drop-append xs ys zero h = refl
    drop-append [] ys (suc k) h = absurd (omega arith)
    drop-append (x ∷ xs) ys (suc k) h = drop-append xs ys k (omega arith)

    take-append : (xs ys : List ℕ) → take (length xs) (xs ++ ys) ≡ xs
    take-append [] ys = refl
    take-append (x ∷ xs) ys = ap (λ t. x ∷ t) (take-append xs ys)

splice-IsBytes :
    (mem bytes : List ℕ) (va : ℕ)
    → IsBytes mem
    → IsBytes bytes
    → va + length bytes ≤ length mem
    → IsBytes (splice mem va bytes)
splice-IsBytes mem bytes va whole small h j =
    ground (arith, get_or-splice mem bytes va j h, whole j, small (j - va))

-- In a machine that runs a program whose `n` pages are the first pages of the memory, with bytes in
-- every cell: `copyout` of bytes to addresses inside of those pages answers that all were written,
-- `copyin` from there then gives them back, each byte at its first try, and no other cell of the
-- memory changes.
pub copyin-copyout :
    (handler : Handler) (fuel n va : ℕ) (m : Machine) (bytes : List ℕ)
    → Maps m n
    → IsBytes m.main_memory
    → IsBytes bytes
    → va + length bytes ≤ n * page_size
    → (m1 m2 : Machine) × (copyout handler m va bytes ≡ some (true, m1))
      × (copyin (suc fuel) handler m1 va (length bytes) ≡ some (bytes, m2))
      × ((j : ℕ)
          → (j < va) ⊎ (va + length bytes ≤ j)
          → get_or m2.main_memory j 0 ≡ get_or m.main_memory j 0)
copyin-copyout handler fuel n va m bytes ok whole small h =
    let fits : va + length bytes ≤ length m.main_memory =
      omega (arith, ok.running.whole_memory, ok.small) in
    let (m1, went, a) = copyout_lem handler n bytes va m ok small h in
    let (m2, back, c) =
      copyin_lem handler n (length bytes) fuel va m1 a.maps
        (subst IsBytes (sym a.memory) (splice-IsBytes m.main_memory bytes va whole small fits)) h in
    (
      m1,
      m2,
      went,
      back
          ∙ ap (λ x. some (x, m2))
              (ap (λ mem. bytes_at mem va (length bytes)) a.memory
                ∙ bytes_at-splice m.main_memory bytes va fits),
      λ j out.
          ap (λ mem. get_or mem j 0) (c.memory ∙ a.memory)
          ∙ ground (arith, get_or-splice m.main_memory bytes va j fits),
    )
