-- ===== src/Machine/Memory.antt =====
-- machine/translate.cc, `ReadMem` and `WriteMem`, on a little-endian host with signed `char`s. An
-- exception goes to the kernel's handler, and the answer is then FALSE.
pub mod Bytes
pub mod RoundTrip
use csci350_project.Base.{
  ℕ, zero, suc, ◌+◌, ◌-◌, ◌*◌, ◌/◌, ◌%◌, ◌^◌, Bool, true, false, List, Option, none, some, leb,
  ◌==◌, if◌then◌else◌, ◌>>=◌, get_or, set,
}
use csci350_project.Machine.{Machine, Handler, raise_exception, page_size}
use csci350_project.Machine.Translate.{Translation, fault, phys, translate}

-- `n` bytes from address `p` on, the lowest first; and the same for a write.
unfoldable pub load_le : List ℕ → ℕ → ℕ → ℕ
load_le mem p zero = 0
load_le mem p (suc n) = get_or mem p 0 + 256 * load_le mem (p + 1) n

unfoldable pub store_le : List ℕ → ℕ → ℕ → ℕ → List ℕ
store_le mem p zero v = mem
store_le mem p (suc n) v = store_le (set mem p (v % 256)) (p + 1) n (v / 256)

-- A `char` as an `int`.
abbrev pub sign_extend8 : ℕ → ℕ
sign_extend8 b = if leb 128 b then b + (2 ^ 32 - 256) else b

-- The switches on the size; `none` is ASSERT(FALSE).
unfoldable pub load : List ℕ → ℕ → ℕ → Option ℕ
load mem p size =
    if size == 1
    then some (sign_extend8 (load_le mem p 1))
    else (if size == 2
        then some (load_le mem p 2)
        else (if size == 4 then some (load_le mem p 4) else none))

unfoldable pub store : List ℕ → ℕ → ℕ → ℕ → Option (List ℕ)
store mem p size v =
    if size == 1
    then some (store_le mem p 1 v)
    else (if size == 2
        then some (store_le mem p 2 v)
        else (if size == 4 then some (store_le mem p 4 v) else none))

-- `machine->lastUsed[ppn] = stats->totalTicks`
abbrev pub touch : Machine → ℕ → Machine
touch m p = record m { last_used = set m.last_used (p / page_size) m.total_ticks }

-- `Machine::ReadMem`: the value where the answer is TRUE.
unfoldable pub read_mem : Handler → Machine → ℕ → ℕ → Option (Option ℕ × Machine)
read_mem handler m addr size = do
  (t, m1) ← translate m addr size false
  elim t [
    | fault e ↦ raise_exception handler m1 e addr >>= λ m2. some (none, m2)
    | phys p ↦ load m1.main_memory p size >>= λ v. some (some v, touch m1 p)
  ]

-- `Machine::WriteMem`: its answer.
unfoldable pub write_mem : Handler → Machine → ℕ → ℕ → ℕ → Option (Bool × Machine)
write_mem handler m addr size value = do
  (t, m1) ← translate m addr size true
  elim t [
    | fault e ↦ raise_exception handler m1 e addr >>= λ m2. some (false, m2)
    | phys p ↦ store m1.main_memory p size value >>= λ mem.
        some (true, touch (record m1 { main_memory = mem }) p)
  ]
