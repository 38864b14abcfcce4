-- ===== src/Tests/Drive.antt =====
-- The disk, its head and the table of open files at concrete inputs.
use csci350_project.AddrSpace.Paging.{AddrSpace, page_entries}
use csci350_project.Machine.{Machine, user_mode}
use csci350_project.Base.{ℕ, ◌+◌, ◌≡◌, arith, [], true, false, none}
use csci350_project.Disk.{Disk, rotation_time, compute_latency}
use csci350_project.Disk.Latency.{FirstPass, compute_latency-FirstPass}

-- The head is on track 1, and the buffer began to fill at 1000.
abbrev drive : Disk
drive = record {
  active = false;
  last_sector = 40;
  buffer_init = 1000;
  disk_done = 3;
  self = 5;
  num_disk_reads = 0;
  num_disk_writes = 0;
}

compute_latency-FirstPass_example :
    (start : ℕ) × FirstPass (1234 + 1000) 100 start
    × (1234 + compute_latency drive 1234 100 true ≡ start + rotation_time)
compute_latency-FirstPass_example = compute_latency-FirstPass drive 1234 100 (omega arith)

-- A machine before any program, and the address space of a program of 550 bytes.
abbrev bare : Machine
bare = record {
  registers = [];
  main_memory = [];
  tlb = none;
  page_table = none;
  page_table_size = 0;
  last_used = [];
  total_ticks = 0;
  status = user_mode;
}

abbrev program : AddrSpace
program = record { page_table = page_entries 0 13; num_pages = 13 }
