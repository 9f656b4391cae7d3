-- ===== src/Base/Tests.antt =====
-- Tests of the buffers and of the EtherCAT task, and their theorems at a concrete chip.
use rpi_rt_ether_cat_slave_i.Common.{
  fault, ◌<◌, ◌≤◌, List, ℕ, ◌≡◌, ◌↔◌, refl, [], ◌∷◌, some, true, false, done, arith, get_elem?,
  replicate,
}
use rpi_rt_ether_cat_slave_i.Word.{zeroed}
use rpi_rt_ether_cat_slave_i.Spi.{write_reg, read_reg, read_bytes, poll, read_reg_wait}
use rpi_rt_ether_cat_slave_i.Spi.Transaction.{write, issue}
use rpi_rt_ether_cat_slave_i.Spi.Polling.{Clears}
use rpi_rt_ether_cat_slave_i.Base.{
  construct, RpiBase, Machine, send_output, main_task, transfers, spi_read_proc_ram_fifo,
  spi_write_proc_ram_fifo, read_fifo, write_fifo, ecat_pram_wr_cmd, ecat_pram_rd_cmd,
  is_write_pending, is_read_pending, esm_op,
}
use rpi_rt_ether_cat_slave_i.Base.Exchange.{write_started, read_started}
use rpi_rt_ether_cat_slave_i.Base.Queue.{
  IsValid, of_words, Words, buffer_of, send_each, send_each-keeps_slot,
}
use rpi_rt_ether_cat_slave_i.Base.Cycle.{
  is_exchanging, sent_from, cycle, cycle_status, main_task-cycle,
}
use rpi_rt_ether_cat_slave_i.Base.Valid.{Same, main_task-IsValid}
use rpi_rt_ether_cat_slave_i.Base.Outcome.{
  main_task-status, main_task-keeps_copy, send_output-main_task,
}
use rpi_rt_ether_cat_slave_i.Base.Construct.{IsSized, construct-main_task}
use rpi_rt_ether_cat_slave_i.Base.Interleaved.{Event, send, task, run_events, run_events-latest}
use rpi_rt_ether_cat_slave_i.Demo.{
  zeroed_slots, two_polls, responds, zeroed_slots, blank-IsValid, Chip, chip, chip_safe_op,
  chip_bus, garbage, blank, machine,
}

-- The status of an operational slave is 8, and the first bytes are those of the process RAM.
main_task_operational :
    (t : Machine Chip) × (main_task chip_bus garbage 3 machine ≡ done 8 t)
    × (t.base.atomiccounter ≡ 2)
    × (get_elem? t.base.buffer_out_eth_to_slave.bytes 1 ≡ some 8)
unfolding main_task transfers spi_read_proc_ram_fifo spi_write_proc_ram_fifo read_fifo write_fifo
    read_reg_wait write_reg read_reg read_bytes poll
main_task_operational = (_, refl, refl, refl)

write-Clears : Clears chip_bus is_write_pending ecat_pram_wr_cmd 0 (write_started chip_bus chip)
unfolding issue
write-Clears = refl

read-Clears : Clears chip_bus is_read_pending ecat_pram_rd_cmd 0 (read_started chip_bus chip)
unfolding issue
read-Clears = refl

main_task-cycle_example :
    main_task chip_bus garbage 3 machine
    ≡ done (cycle_status chip_bus two_polls chip) (cycle chip_bus two_polls zeroed machine)
main_task-cycle_example =
    main_task-cycle chip_bus garbage 3 two_polls zeroed machine refl refl refl (responds chip)

after_one_cycle :
    (status : ℕ) × (t : Machine Chip) × (main_task chip_bus garbage 3 machine ≡ done status t)
    × IsValid t.base
    × Same blank t.base
after_one_cycle =
    main_task-IsValid chip_bus garbage 3 two_polls machine blank-IsValid (responds chip)

operational_status :
    (status : ℕ) × (t : Machine Chip) × (main_task chip_bus garbage 3 machine ≡ done status t)
    × ((status ≡ esm_op) ↔ (is_exchanging chip_bus two_polls chip ≡ true))
operational_status =
    main_task-status chip_bus garbage 3 two_polls machine blank-IsValid (responds chip)

-- an object that has taken outputs from the master
abbrev held : RpiBase
held = record blank { buffer_out_eth_to_slave = record { bytes = replicate 32 7 } }

held-IsValid : IsValid held
held-IsValid = record {
  next_in = omega arith;
  out_in = omega arith;
  slots = refl;
  sized = zeroed_slots;
  out_sized = refl;
}

safe_op : is_exchanging chip_bus two_polls chip_safe_op ≡ false
unfolding issue
safe_op = refl

main_task-keeps_copy_example :
    (status : ℕ) × (t : Machine Chip) × (main_task chip_bus garbage 3
        (record { base = held; world = chip_safe_op })
      ≡ done status t)
    × (t.base.buffer_out ≡ zeroed)
    × (t.base.buffer_out_eth_to_slave ≡ record { bytes = replicate 32 7 })
    × (t.base.atomiccounter ≡ 0)
main_task-keeps_copy_example =
    main_task-keeps_copy chip_bus garbage 3 two_polls (record { base = held; world = chip_safe_op })
      held-IsValid (responds chip_safe_op) safe_op

sent_by_next_cycle :
    (u : RpiBase) × (status : ℕ) × (t : Machine Chip) × (send_output (5 ∷ 6 ∷ 1 ∷ 2 ∷ []) blank
      ≡ done tt u)
    × (main_task chip_bus garbage 3 (record { base = u; world = chip }) ≡ done status t)
    × (t.world
        ≡ (issue chip_bus
            (write 0x20 (of_words 5 6 1 2).bytes)
            (sent_from chip_bus two_polls chip)).1)
    × (t.base.buffer_in ≡ of_words 5 6 1 2)
sent_by_next_cycle =
    send_output-main_task chip_bus garbage 3 two_polls machine 5 6 1 2 [] blank-IsValid
      (responds chip)

abbrev ones : Words
ones = record { a = 1; b = 1; c = 1; d = 1 }

abbrev two_ones : Words
two_ones = record ones { a = 2 }

ten_calls :
    (t : RpiBase) × (send_each (ones ∷ replicate 9 ones) blank ≡ done tt t)
    × (get_elem? t.from_slave_buffer_in 0 ≡ some (buffer_of ones))
ten_calls = send_each-keeps_slot ones (replicate 9 ones) blank blank-IsValid (omega arith)

-- Eleven calls come back to the second slot.
send_each_round :
    (t : RpiBase) × (send_each (replicate 11 ones) blank ≡ done tt t) × (t.curqidx ≡ 1)
unfolding send_each send_output
send_each_round = (_, refl, refl)

-- Two calls around a cycle.
abbrev turns : List Event
turns = send ones ∷ task ∷ send two_ones ∷ []

run_events-latest_example :
    (t u : Machine Chip) × (status : ℕ) × (run_events chip_bus garbage 3 turns machine ≡ done tt t)
    × (main_task chip_bus garbage 3 t ≡ done status u)
    × (u.base.buffer_in ≡ buffer_of two_ones)
    × (u.world
        ≡ (issue chip_bus
            (write 0x20 (buffer_of two_ones).bytes)
            (sent_from chip_bus two_polls t.world)).1)
run_events-latest_example =
    run_events-latest chip_bus garbage 3 (λ c. two_polls) responds turns zeroed machine
      (blank-IsValid, refl)

-- memory that the constructor does not clear
abbrev raw : RpiBase
raw = record blank { curqoutidx = 99 }

raw-IsSized : IsSized raw
raw-IsSized = record { slots = refl; sized = zeroed_slots; out_sized = refl }

construct-main_task_example :
    (99 < 10 → IsValid (construct raw))
    × (10 ≤ 99
        → main_task chip_bus garbage 3 (record { base = construct raw; world = chip }) ≡ fault)
construct-main_task_example =
    construct-main_task chip_bus garbage 3 two_polls raw chip raw-IsSized (responds chip)
