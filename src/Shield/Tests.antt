-- ===== src/Shield/Tests.antt =====
-- Starting the shield and running its loop on a concrete platform.
use rpi_rt_ether_cat_slave_i.Common.{
  ℕ, ◌+◌, ◌*◌, ◌^◌, ◌≡◌, refl, true, done, arith, ◌<◌, ◌%◌, if◌then◌else◌, Post, List, [], ◌∷◌,
}
use rpi_rt_ether_cat_slave_i.Common.Int.{ℤ, pos, neg, is_zero, ltz}
use rpi_rt_ether_cat_slave_i.Spi.{is_csr_busy, ecat_csr_cmd, ecat_csr_data, esc_write}
use rpi_rt_ether_cat_slave_i.Spi.Transaction.{issue}
use rpi_rt_ether_cat_slave_i.Spi.Polling.{Clears, commanded, written}
use rpi_rt_ether_cat_slave_i.Demo.{
  blank, blank-IsTyped, two_polls, responds, Chip, chip, chip_bus, garbage, machine, whole,
  blank-IsValid,
}
use rpi_rt_ether_cat_slave_i.Word.{Ulong}
use rpi_rt_ether_cat_slave_i.Driver.{driver_unioctl}
use rpi_rt_ether_cat_slave_i.Driver.Timeout.{InTime}
use rpi_rt_ether_cat_slave_i.Driver.Counting.{successes}
use rpi_rt_ether_cat_slave_i.Driver.Demo.{
  Linux, linux, boot, context, device_file, linux-KeepsTime, linux-CountsUps, took_down-grows,
}
use rpi_rt_ether_cat_slave_i.Shield.Starting.{IsTypedBoard}
use rpi_rt_ether_cat_slave_i.Shield.Safe.{Turn, sends, rounds, run_turns, run_turns-IsTypedBoard}
use rpi_rt_ether_cat_slave_i.Shield.Demo.{platform, empty, board}
use rpi_rt_ether_cat_slave_i.Shield.Irq.{Connects, waitforirq_or_timeout-driver}
use rpi_rt_ether_cat_slave_i.Shield.{
  waitforirq_or_timeout, Platform, Board, init, execute_fromthread,
}
use rpi_rt_ether_cat_slave_i.Shield.Init.{
  started, error_of, stage, hardware_at, handle_at, shield_ready, spi_ready, init-stage,
}
use rpi_rt_ether_cat_slave_i.Shield.Wait.{Spares}
use rpi_rt_ether_cat_slave_i.Shield.Taken.{Runs, execute_fromthread-taken}
use rpi_rt_ether_cat_slave_i.Base.Cycle.{Waits, Responds}
use rpi_rt_ether_cat_slave_i.Shield.Loop.{InStep, execute_fromthread-InStep}

mask-Clears : Clears chip_bus is_csr_busy ecat_csr_cmd 2 (
    commanded chip_bus 0x204 4 esc_write
      (written chip_bus ecat_csr_data 0x100 (shield_ready platform (spi_ready platform chip))))
unfolding issue
mask-Clears = (refl, (refl, refl))

started_board :
    init platform garbage 3 board
    ≡ done (error_of (stage platform garbage 3 2 board)) (record board {
      machine = record machine {
        world = hardware_at platform garbage 3 2 board (stage platform garbage 3 2 board);
      };
      devhndl = handle_at platform garbage 3 2 board (stage platform garbage 3 2 board);
    })
started_board = init-stage platform garbage 3 2 board (omega arith) mask-Clears

-- The chip is ready and shows its pattern, and the device opens.
stage-started : stage platform garbage 3 2 board ≡ started
unfolding issue
stage-started = refl

execute_fromthread-InStep_example :
    (c : Board Chip ℕ) × (execute_fromthread platform garbage 3 ⦃d = whole⦄ 4 board ≡ done tt c)
    × InStep platform garbage 3 ⦃d = whole⦄ 4 c
execute_fromthread-InStep_example =
    execute_fromthread-InStep platform garbage 3 ⦃d = whole⦄ (λ c. two_polls) responds 4 0 board
      (omega arith) (blank-IsValid, refl, refl, refl)

-- The start, and calls and rounds.
abbrev turns : List Turn
turns =
    sends (record { a = 1; b = 2; c = 3; d = 4 })
    ∷ rounds
    ∷ sends (record { a = 5; b = 6; c = 7; d = 8 })
    ∷ rounds
    ∷ []

run_turns-IsTypedBoard_example :
    Post (λ u c. IsTypedBoard c) (run_turns platform garbage 3 ⦃d = whole⦄ turns board)
run_turns-IsTypedBoard_example =
    run_turns-IsTypedBoard platform garbage 3 ⦃d = whole⦄ turns board
      (blank-IsTyped, omega arith, omega arith)

-- the platform over the kernel of the driver's tests, with a bus that answers 0
abbrev linux_platform : Platform Linux ℕ
linux_platform = record {
  bus = record { transfer = λ b w. (0, w); gpio_write = λ level w. w };
  bcm2835_init = λ w. (true, w);
  bcm2835_spi_begin = λ w. (true, w);
  set_up = λ s w. w;
  usleep = λ us w. w;
  open_device = λ w. (pos 3, w);
  ioctl = λ h r a w. elim (driver_unioctl linux 100001 device_file r a w) [
    | done err w' ↦ (if ltz err (pos 0) then neg 1 else err, w')
    | _ ↦ (neg 1, w)
  ];
  iow = λ t n size. 2 ^ 30 + 65536 * size + 256 * t + n;
  clock_gettime = λ w. ((0, w.clock), w);
  gpio_out = λ level w. w;
  milli = 1;
  micro = 1;
}

abbrev zero_word : Ulong
zero_word = record { byte0 = 0; byte1 = 0; byte2 = 0; byte3 = 0 }

abbrev pending : Linux
pending = record boot { value = 1; ups = 1 }

abbrev linux_board : Board Linux ℕ
linux_board = record {
  machine = record { base = blank; world = pending };
  devhndl = pos 3;
  runtime = empty;
  period = empty;
}

linked : Connects linux_platform linux 100001 device_file (pos 3) 100
linked = record { ioctl = λ w err w' e. ground (arith, e); number = refl; accessible = refl }

waitforirq_or_timeout-driver_example :
    (err : ℤ) × (w : Linux) × (waitforirq_or_timeout linux_platform
        (λ w. zero_word)
        3
        100
        linux_board
      ≡ done err (record linux_board { machine = record { base = blank; world = w } }))
    × InTime linux linux-KeepsTime 7 boot 100000000 err w
    × (w.value + successes err + 1 ≡ 1 + w.ups)
    × (0 < 1 → 0 < 1000000 * 100 % 2 ^ 32 → is_zero err ≡ true)
waitforirq_or_timeout-driver_example =
    waitforirq_or_timeout-driver linux_platform linux (λ w. zero_word) 3 100001 device_file context
      linux-KeepsTime (linux-CountsUps 7) 100 100000 linux_board refl refl refl linked (omega arith)
      (omega arith) (omega arith)

-- with a bus that answers 9, so that the core is never busy
abbrev ready_platform : Platform Linux ℕ
ready_platform = record linux_platform {
  bus = record { transfer = λ b w. (9, w); gpio_write = λ level w. w };
}

ready_link : Connects ready_platform linux 100001 device_file (pos 3) 100
ready_link = record { ioctl = λ w err w' e. ground (arith, e); number = refl; accessible = refl }

ready-Spares : Spares ready_platform linux 7 (linux-CountsUps 7)
ready-Spares = record {
  transfer = λ b w. (omega arith, omega arith);
  gpio_write = λ level w. (omega arith, omega arith);
  clock_gettime = λ w. (omega arith, omega arith);
  gpio_out = λ level w. (omega arith, omega arith);
  down_timeout = λ j w. took_down-grows (j * 1000) w;
}

abbrev no_polls : Waits
no_polls = record { wdog = 0; al = 0; input = 0; output = 0 }

ready_core : (w : Linux) → Responds ready_platform.bus no_polls w 1
unfolding issue
ready_core w = record {
  wdog_clears = refl;
  al_clears = refl;
  input_clears = λ e. cc;
  output_clears = refl;
  wdog_fuel = omega arith;
  al_fuel = omega arith;
  input_fuel = omega arith;
  output_fuel = omega arith;
}

execute_fromthread-taken_example :
    Runs ready_platform linux
      (linux-CountsUps 7)
      linux-KeepsTime
      (λ w. zero_word)
      1
      ⦃d = whole⦄
      2
      linux_board
execute_fromthread-taken_example =
    execute_fromthread-taken ready_platform linux 100001 device_file context (linux-CountsUps 7)
      ready-Spares linux-KeepsTime (λ w. zero_word) 1 refl refl (omega arith) 100000 (omega arith)
      (omega arith) ⦃d = whole⦄ (λ w. no_polls) ready_core 2 linux_board blank-IsValid refl
      ready_link
