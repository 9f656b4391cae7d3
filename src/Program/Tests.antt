-- ===== src/Program/Tests.antt =====
-- Rounds of main and cycles on the concrete platform; every number is printed as a 7.
use rpi_rt_ether_cat_slave_i.Common.{
  ℕ, ◌/◌, ◌≡◌, refl, List, [], ◌∷◌, done, replicate, arith, false, some, none, ◌+◌,
}
use rpi_rt_ether_cat_slave_i.Common.Int.{pos, neg, negsuc}
use rpi_rt_ether_cat_slave_i.Spi.Transaction.{write, issue}
use rpi_rt_ether_cat_slave_i.Base.{Machine, main_task}
use rpi_rt_ether_cat_slave_i.Base.Cycle.{sent_from}
use rpi_rt_ether_cat_slave_i.Demo.{two_polls, responds, Chip, chip_bus, garbage, blank-IsValid}
use rpi_rt_ether_cat_slave_i.Word.{zeroed}
use rpi_rt_ether_cat_slave_i.ThreadName.Laws.{NoZero}
use rpi_rt_ether_cat_slave_i.Thread.{construct_base}
use rpi_rt_ether_cat_slave_i.Shield.Demo.{platform, empty, board}
use rpi_rt_ether_cat_slave_i.Program.{Program, Calls, main}
use rpi_rt_ether_cat_slave_i.Shield.Init.{started, no_device}
use rpi_rt_ether_cat_slave_i.Program.Start.{Ran, resumed, closed, initialised, main-stage}
use rpi_rt_ether_cat_slave_i.Sleep.{Times}
use rpi_rt_ether_cat_slave_i.Program.Rounds.{Pauses}
use rpi_rt_ether_cat_slave_i.Program.Latest.{Last, Turn, round, task, run_turns, run_turns-latest}

abbrev calls : Calls Chip
calls = record {
  printf = λ text c. c;
  nanosleep = λ t c. (pos 0, c);
  spi_end = λ c. c;
  close = λ c. c;
}

abbrev print_seven : ℕ → List ℕ
print_seven v = b'7' ∷ []

print_seven-NoZero : (v : ℕ) → NoZero (print_seven v)
print_seven-NoZero v = (omega arith, tt)

abbrev exact_times : Times
exact_times = record {
  bits = 32;
  whole_seconds = λ ms. elim ms [ pos n ↦ pos (n / 1000) | negsuc n ↦ neg ((n + 1) / 1000) ];
}

exact_times-Pauses : Pauses exact_times
exact_times-Pauses = record { some_bits = omega arith; whole = refl; in_long = refl }

abbrev started_program : Program Chip ℕ
started_program = record {
  board = board;
  outbuffer = replicate 256 0;
  mytestthread = construct_base (pos 88) (neg 1) false;
  system = record { threadunique = 0; sc_cpu = 0; nproc = neg 1; calls = [] };
  buffer_from_eth_cat = zeroed;
  input_buffer = 0 ∷ 0 ∷ 0 ∷ 0 ∷ [];
  counter = 0;
}

abbrev turns : List (Turn ℕ)
turns = round ∷ task empty empty ∷ round ∷ []

run_turns-latest_example :
    (r : Program Chip ℕ) × (s : Machine Chip) × (status : ℕ) × (run_turns platform calls print_seven
        exact_times garbage 3 turns started_program
      ≡ done tt r)
    × (r.counter ≡ 2)
    × (main_task chip_bus garbage 3 r.board.machine ≡ done status s)
    × Last platform calls print_seven exact_times garbage 3 turns started_program s.base.buffer_in
    × (let w = r.board.machine.world in
        s.world
        ≡ (issue chip_bus (write 0x20 s.base.buffer_in.bytes) (sent_from chip_bus two_polls w)).1)
run_turns-latest_example =
    run_turns-latest platform calls print_seven exact_times garbage 3 print_seven-NoZero
      exact_times-Pauses (λ c. two_polls) responds turns zeroed started_program
      (blank-IsValid, refl, refl) (omega arith) (omega arith, (omega arith, tt)) (omega arith)

-- The program with its thread created, before `main`.
abbrev loaded : Program Chip ℕ
loaded = record started_program {
  mytestthread = record started_program.mytestthread { imp_buf = some (record { handle = 77 }) };
}

-- The chip is ready, and the program runs.
main-stage_example :
    (r : Program Chip ℕ) × (main platform calls print_seven exact_times garbage 3 4 loaded
      ≡ done none r)
    × Ran platform calls print_seven exact_times print_seven-NoZero exact_times-Pauses 4
        (resumed platform calls print_seven exact_times print_seven-NoZero exact_times-Pauses
          garbage 3 2 4 loaded
          (initialised platform calls print_seven exact_times print_seven-NoZero exact_times-Pauses
            garbage 3 2 4 loaded started))
        r
unfolding issue
main-stage_example =
    main-stage platform calls print_seven exact_times print_seven-NoZero exact_times-Pauses garbage
      3 2 4 loaded zeroed (record { handle = 77 }) (blank-IsValid, refl, refl) (omega arith)
      (omega arith) refl (omega arith) (refl, (refl, refl))

-- Without the device `main` returns its error.
gives_up :
    main
      (record platform { open_device = λ w. (neg 1, w) })
      calls
      print_seven
      exact_times
      garbage
      3
      4
      loaded
    ≡ done (some (neg 27)) (
        closed
          (record platform { open_device = λ w. (neg 1, w) })
          calls
          print_seven
          exact_times
          print_seven-NoZero
          exact_times-Pauses
          garbage
          3
          2
          4
          loaded
          (initialised
            (record platform { open_device = λ w. (neg 1, w) })
            calls
            print_seven
            exact_times
            print_seven-NoZero
            exact_times-Pauses
            garbage
            3
            2
            4
            loaded
            no_device))
unfolding issue
gives_up =
    main-stage (record platform { open_device = λ w. (neg 1, w) }) calls print_seven exact_times
      print_seven-NoZero exact_times-Pauses garbage 3 2 4 loaded zeroed (record { handle = 77 })
      (blank-IsValid, refl, refl) (omega arith) (omega arith) refl (omega arith)
      (refl, (refl, refl))
