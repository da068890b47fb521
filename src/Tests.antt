-- ===== src/Tests.antt =====
-- A context in the middle of its life, for the tests in the children: the output ring of 4 bytes
-- holds "ba" round its end, "c" is pending, and the input ring of 4 bytes holds "h\n".
use dmlog.Base.{
  ℕ, ◌<◌, ◌≢◌, ◌≡◌, refl, true, false, List, [], ◌∷◌, arith, replicate, set, length,
  length-replicate, length-set,
}
use dmlog.Word.{has}
use dmlog.Context.{Context, magic_number, max_entry_size, zeros}
use dmlog.Context.Invariant.{WellFormed}
use dmlog.Context.Lock.{Locked}
use dmlog.Output.Putc.{Ready}
mod Output
mod Reader
mod Input
mod Life
mod Kernel
mod Monitor
mod Transfer
mod GdbServer
mod Gdb
mod Host
mod History
mod CommandLine
mod Snapshot
mod Delivery

abbrev pub sample : Context
sample = record {
  ring = record {
    magic = magic_number;
    flags = 0;
    head_offset = 1;
    tail_offset = 3;
    buffer_size = 4;
    buffer = 1000;
    input_head_offset = 3;
    input_tail_offset = 1;
    input_buffer_size = 4;
    input_buffer = 1004;
    file_transfer = 0;
  };
  write_buffer = set (zeros max_entry_size) 0 99;
  write_entry_offset = 1;
  read_buffer = set (set (zeros max_entry_size) 0 120) 1 10;
  read_entry_offset = 0;
  input_read_buffer = zeros max_entry_size;
  input_read_entry_offset = 0;
  lock_recursion = 0;
  buffer_address = 1000;
  buffer = 97 ∷ 0 ∷ 0 ∷ 98 ∷ 0 ∷ 104 ∷ 10 ∷ 0 ∷ [];
}

pub sample-WellFormed : WellFormed sample
unfolding replicate
sample-WellFormed = record {
  magic = refl;
  sizes = omega arith;
  memory = refl;
  placed = refl;
  head_in = omega arith;
  tail_in = omega arith;
  input_head_in = omega arith;
  input_tail_in = omega arith;
  write_buffer_size = refl;
  write_offset_in = omega arith;
  read_buffer_size = refl;
  read_offset_in = omega arith;
  input_read_buffer_size = refl;
  input_read_offset_in = omega arith;
}

pub sample-Ready : Ready sample
unfolding has
sample-Ready = record { well = sample-WellFormed; big = omega arith; no_clear = refl }

pub sample-Locked : Locked 0 sample
unfolding has
sample-Locked = record { depth = refl; busy = refl }
