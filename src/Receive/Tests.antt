-- ===== src/Receive/Tests.antt =====
-- The theorems on receive_input at a concrete run of the writer.
use rpi_rt_ether_cat_slave_i.Common.{
  ◌+◌, ◌%◌, ◌≤◌, ◌⊎◌, ℕ, zero, suc, ◌≡◌, refl, List, [], ◌∷◌, some, arith, get_elem?-replicate,
  done,
}
use rpi_rt_ether_cat_slave_i.Base.{Machine, spi_read_proc_ram_fifo, ecat_pram_rd_cmd}
use rpi_rt_ether_cat_slave_i.Base.Exchange.{read_started}
use rpi_rt_ether_cat_slave_i.Spi.Transaction.{read, issue}
use rpi_rt_ether_cat_slave_i.Spi.Polling.{polled}
use rpi_rt_ether_cat_slave_i.Demo.{Chip, chip, chip_bus, garbage, machine, blank}
use rpi_rt_ether_cat_slave_i.Receive.Refines.{Shows, receive_input-spi_read_proc_ram_fifo}
use rpi_rt_ether_cat_slave_i.Receive.{
  idle, storing, Shared, Move, Runs, none_yet, then_moves, begin, store, finish, put, receive_input,
}
use rpi_rt_ether_cat_slave_i.Receive.Consistency.{
  IsConsistent, cells_from, receive_input-whole, receive_input-returns,
}
use rpi_rt_ether_cat_slave_i.Receive.Torn.{old, new, at_rest, half_stored, receive_input-torn}

-- The writer replaces (1, 2) by (3, 4): two accesses before the moment 1, two before the moment 4; it
-- rests from then on.
abbrev stored_all : Shared
stored_all = record (half_stored 1 2 3 4) {
  cells = put (put (old 1 2 3 4) 0 3) 1 4;
  pc = storing 2;
}

abbrev ended : Shared
ended = record stored_all { ticks = 2; pc = idle; stored = new 1 2 3 4 }

abbrev run : ℕ → Shared
run zero = at_rest 1 2 3 4
run (suc zero) = half_stored 1 2 3 4
run (suc (suc zero)) = half_stored 1 2 3 4
run (suc (suc (suc zero))) = half_stored 1 2 3 4
run (suc (suc (suc (suc t)))) = ended

run-moves : (t : ℕ) → Runs 2 (run t) (run (suc t))
run-moves zero =
    then_moves (then_moves none_yet (begin (new 1 2 3 4) refl)) (store 0 refl (omega arith))
run-moves (suc zero) = none_yet
run-moves (suc (suc zero)) = none_yet
run-moves (suc (suc (suc zero))) =
    then_moves (then_moves none_yet (store 1 refl (omega arith))) (finish refl)
run-moves (suc (suc (suc (suc t)))) = none_yet

-- The first round, from moment 0 to 3, sees the counter change; the second begins at 4.
receives : receive_input 2 2 run 0 ≡ some (4, 3 ∷ 4 ∷ [])
unfolding receive_input
receives = refl

receive_input-whole_example : ◌≡◌ {A = List ℕ} (3 ∷ 4 ∷ []) (cells_from (new 1 2 3 4) 2 0)
receive_input-whole_example =
    receive_input-whole 2 run run-moves (refl, λ j lt. refl) 2 0 4 (3 ∷ 4 ∷ []) receives refl
      (omega arith)

receive_input-returns_example :
    (t0 : ℕ) × (out : List ℕ) × (receive_input 3 2 run 0 ≡ some (t0, out))
    × (0 ≤ t0)
    × (t0 + 2 + 2 ≤ 12)
    × ((run (t0 + 1 + 2)).ticks ≡ (run t0).ticks)
    × (((run t0).ticks % 2 ≡ 1) ⊎ (out ≡ cells_from (run t0).stored 2 0))
receive_input-returns_example =
    receive_input-returns 2 run run-moves (refl, λ j lt. refl) 3 0 (omega arith) (omega arith)

receive_input-torn_example :
    (mem : ℕ → Shared) × ((t : ℕ) → Move 2 (mem t) (mem (suc t)))
    × IsConsistent 2 (mem 0) (mem 0).pc
    × ((mem 0).stored ≡ old 1 2 3 4)
    × ((mem 2).incoming ≡ new 1 2 3 4)
    × (receive_input 1 2 mem 2 ≡ some (2, 3 ∷ 2 ∷ []))
receive_input-torn_example = receive_input-torn 1 2 3 4

-- the members of an object that has exchanged nothing
abbrev at_start : Shared
at_start = record { cells = λ j. 0; ticks = 0; pc = idle; incoming = λ j. 0; stored = λ j. 0 }

at_start-Shows : Shows at_start blank
at_start-Shows = record {
  at_rest = refl;
  counted = refl;
  bytes = λ j lt. get_elem?-replicate 32 j 0 lt;
}

receive_input-spi_read_proc_ram_fifo_example :
    (t : Machine Chip) × (m : Shared) × (spi_read_proc_ram_fifo chip_bus garbage 3 machine
      ≡ done tt t)
    × Runs 32 at_start m
    × Shows m t.base
    × (receive_input 1 32 (λ u. m) 0 ≡ some (0, t.base.buffer_out.bytes))
    × (t.base.buffer_out.bytes
        ≡ (issue chip_bus
            (read 0x00 32)
            (polled chip_bus ecat_pram_rd_cmd 0 (read_started chip_bus chip))).0)
unfolding issue
receive_input-spi_read_proc_ram_fifo_example =
    receive_input-spi_read_proc_ram_fifo chip_bus garbage 3 0 machine at_start at_start-Shows refl
      (omega arith) refl
