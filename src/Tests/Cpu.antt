-- ===== src/Tests/Cpu.antt =====
-- The machine and its instructions at concrete inputs.
use csci350_project.Base.{
  ℕ, ◌+◌, ◌-◌, ◌/◌, ◌^◌, ◌<◌, ◌≤◌, ◌≡◌, refl, true, false, List, [], ◌∷◌, none, some, arith, bit_or,
  get_or, replicate, length-replicate, ◌⊎◌, ◌↔◌,
}
use csci350_project.Base.Int.{◌*ℤ◌, ◌+ℤ◌, ◌-ℤ◌}
use csci350_project.Machine.{Machine, Handler, TranslationEntry, user_mode, set_reg}
use csci350_project.Machine.Translate.{Translation, translate}
use csci350_project.Machine.Translate.Laws.{four}
use csci350_project.Machine.Translate.PageTable.{PageTableOutcome, translate-PageTableOutcome}
use csci350_project.Machine.Translate.Tlb.{TlbOutcome, translate-TlbOutcome}
use csci350_project.Machine.Memory.{read_mem, write_mem}
use csci350_project.Machine.Memory.Bytes
use csci350_project.Machine.Memory.Bytes.{load-store}
use csci350_project.Machine.Memory.RoundTrip.{IsRunning, IsWritable, phys_addr, read_mem-write_mem}
use csci350_project.Mips.Mult.{mult}
use csci350_project.Mips.Mult.Product.{value}
use csci350_project.Mips.Mult.Signed.{signed32, signed64, mult-signed}
use csci350_project.Mips.Word.{sra32}
use csci350_project.Mips.Decode.{Instruction, Opcode}
use csci350_project.Mips.Execute.{proceed}
use csci350_project.Mips.Run.{exec}
use csci350_project.Bits.{bit}
use csci350_project.Mips.Run.Arithmetic.{checked, exec-add, exec-sub, exec-or, exec-srl}

mult-signed_example :
    signed64 (value (mult (2 ^ 32 - 3) 5 true)) ≡ signed32 (2 ^ 32 - 3) *ℤ signed32 5
mult-signed_example = mult-signed (2 ^ 32 - 3) 5 (omega arith) (omega arith)

-- The page 1 lies in the frame 3, and may be written.
abbrev entry : TranslationEntry
entry = record {
  virtual_page = 1;
  physical_page = 3;
  valid = true;
  read_only = false;
  use_bit = false;
  dirty = false;
}

abbrev unmapped : TranslationEntry
unmapped = record {
  virtual_page = 0;
  physical_page = 0;
  valid = false;
  read_only = false;
  use_bit = false;
  dirty = false;
}

-- Registers 8 and 9 hold 0x80000000 and 5; a load of 77 into register 10 is in progress.
abbrev file : List ℕ
file =
    0 ∷ 0 ∷ 0 ∷ 0 ∷ 0 ∷ 0 ∷ 0 ∷ 0 ∷ 0x80000000 ∷ 5 ∷ 0 ∷ 0 ∷ 0 ∷ 0 ∷ 0 ∷ 0 ∷ 0 ∷ 0 ∷ 0 ∷ 0 ∷ 0 ∷ 0
    ∷ 0 ∷ 0 ∷ 0 ∷ 0 ∷ 0 ∷ 0 ∷ 0 ∷ 0 ∷ 0 ∷ 0 ∷ 0 ∷ 0 ∷ 128 ∷ 132 ∷ 124 ∷ 10 ∷ 77 ∷ 0 ∷ []

abbrev running : Machine
running = record {
  registers = file;
  main_memory = replicate 4096 0;
  tlb = none;
  page_table = some (unmapped ∷ entry ∷ []);
  page_table_size = 2;
  last_used = replicate 32 0;
  total_ticks = 10;
  status = user_mode;
}

abbrev tlb_running : Machine
tlb_running = record running { tlb = some (unmapped ∷ entry ∷ []); page_table = none }

-- A kernel that comes back without a change.
abbrev quiet : Handler
quiet which m = some m

running-IsRunning : IsRunning running (unmapped ∷ entry ∷ [])
running-IsRunning = record {
  no_tlb = refl;
  has_table = refl;
  whole_table = omega arith;
  whole_memory = length-replicate {A = ℕ} 4096 0;
}

running-IsWritable : IsWritable running (unmapped ∷ entry ∷ []) entry 136
running-IsWritable = record {
  inside = omega arith;
  entry = refl;
  valid = refl;
  writable = refl;
  in_memory = omega arith;
}

read_mem-write_mem_example :
    (m1 m2 : Machine) × (write_mem quiet running 136 4 1234567 ≡ some (true, m1))
    × (read_mem quiet m1 136 4 ≡ some (some (Bytes.loaded 4 1234567), m2))
    × ((j : ℕ)
        → (j < phys_addr entry 136) ⊎ (phys_addr entry 136 + 4 ≤ j)
        → get_or m1.main_memory j 0 ≡ get_or running.main_memory j 0)
read_mem-write_mem_example =
    read_mem-write_mem quiet running (unmapped ∷ entry ∷ []) entry 136 4 1234567 (four refl) refl
      running-IsRunning running-IsWritable

translate-PageTableOutcome_example :
    (t : Translation) × (table' : List TranslationEntry) × (translate running 136 4 true
      ≡ some (t, record running { page_table = some table' }))
    × PageTableOutcome (unmapped ∷ entry ∷ []) 2 136 4 true t table'
translate-PageTableOutcome_example =
    translate-PageTableOutcome running (unmapped ∷ entry ∷ []) 136 4 true (four refl) refl refl
      (omega arith)

translate-TlbOutcome_example :
    (t : Translation) × (table' : List TranslationEntry) × (translate tlb_running 136 4 true
      ≡ some (t, record tlb_running { tlb = some table' }))
    × TlbOutcome (unmapped ∷ entry ∷ []) 136 4 true t table'
translate-TlbOutcome_example =
    translate-TlbOutcome tlb_running (unmapped ∷ entry ∷ []) 136 4 true (four refl) refl refl

-- rs is register 9, rt register 8, rd register 11.
abbrev instruction : Instruction
instruction = record { value = 0; op_code = Opcode.op_add; rs = 9; rt = 8; rd = 11; extra = 4 }

exec-add_example :
    exec quiet Opcode.op_add instruction running 140
    ≡ checked running 11 (signed32 5 +ℤ signed32 0x80000000) 140
exec-add_example = exec-add quiet instruction running 140 (omega arith) (omega arith)

exec-sub_example :
    exec quiet Opcode.op_sub instruction running 140
    ≡ checked running 11 (signed32 5 -ℤ signed32 0x80000000) 140
exec-sub_example = exec-sub quiet instruction running 140 (omega arith) (omega arith)

exec-or_example :
    (exec quiet Opcode.op_or instruction running 140 ≡ proceed (set_reg running 11 5) 140)
    × ((exec quiet Opcode.op_or instruction running 140
          ≡ proceed (set_reg running 11 (bit_or 5 0x80000000)) 140)
        ↔ ((k : ℕ) → bit 0x80000000 k ≤ bit 5 k))
exec-or_example = exec-or quiet instruction running 140 refl (omega arith)

exec-srl_example :
    (exec quiet Opcode.op_srl instruction running 140
      ≡ exec quiet Opcode.op_sra instruction running 140)
    × (exec quiet Opcode.op_srl instruction running 140
        ≡ proceed (set_reg running 11 (sra32 0x80000000 4)) 140)
    × ((exec quiet Opcode.op_srl instruction running 140
          ≡ proceed (set_reg running 11 (0x80000000 / 2 ^ 4)) 140)
        ↔ ((0x80000000 < 2 ^ 31) ⊎ (instruction.extra ≡ 0)))
exec-srl_example = exec-srl quiet instruction running 140 refl (omega arith) (omega arith)
