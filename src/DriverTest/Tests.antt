-- ===== src/DriverTest/Tests.antt =====
-- The test over a concrete kernel.
use rpi_rt_ether_cat_slave_i.Common.{
  ◌⊎◌, ◌<◌, ℕ, ◌+◌, ◌-◌, ◌*◌, ◌%◌, ◌^◌, ◌≡◌, refl, true, done, arith, if◌then◌else◌, pure, ◌>>=◌,
}
use rpi_rt_ether_cat_slave_i.Common.Int.{ℤ, pos, neg, is_zero, ltz}
use rpi_rt_ether_cat_slave_i.Driver.{driver_unioctl, my_api, down_timeoutms, wait_until}
use rpi_rt_ether_cat_slave_i.Driver.Demo.{
  Linux, linux, boot, linux-KeepsTime, linux-CountsUps, context, device_file, waited,
}
use rpi_rt_ether_cat_slave_i.DriverTest.{Calls, Trial, wait_and_count, test_round, test_main}
use rpi_rt_ether_cat_slave_i.DriverTest.Halves.{Reaches, Reach, start, irq, round, Reach-halves}

no_signal : (w : Linux) (err : ℤ) (w' : Linux) → waited w ≡ done err w' → is_zero err ≡ true
no_signal w err w' e = ground arith

wakes : (w : Linux) → 0 < w.value → (err : ℤ) × (w' : Linux) × (waited w ≡ done err w')
wakes w more = (pos 0, record w { value = w.value - 1 }, ground arith)

abbrev system : ℕ → Calls Linux
system rounds = record {
  open_device = λ w. (pos 3, w);
  ioctl = λ dev cmd arg. driver_unioctl linux rounds device_file cmd arg >>= λ err.
      pure (if ltz err (pos 0) then neg 1 else err);
  usleep = λ us w. record w { clock = w.clock + us * 1000 };
  iow = λ magic number size. 2 ^ 30 + size * 2 ^ 16 + magic * 2 ^ 8 + number;
  unset = λ w. 77;
}

system-Reaches :
    (rounds : ℕ)
    → Reaches (system rounds) linux rounds device_file context (pos 3) (linux-CountsUps 7)
system-Reaches rounds = record {
  ioctl = λ cmd arg w. refl;
  opened = refl;
  writable = refl;
  timeout_number = refl;
  accessible = refl;
  wait_number = refl;
  wait_reads_not = refl;
  wait_writes_not = refl;
  sleep_takes = λ us w. refl;
}

-- Two interrupts, and the round that takes both.
abbrev interrupted : Trial Linux
interrupted = record { i = 1; world = record boot { clock = 10005010; ups = 2 } }

counts_one :
    Reach
      (system 100001)
      linux
      100001
      device_file
      context
      (pos 3)
      (linux-CountsUps 7)
      (system-Reaches 100001)
      no_signal
      boot
      interrupted
unfolding test_round driver_unioctl my_api down_timeoutms wait_until
counts_one =
    round
      (irq (record boot { value = 2; ups = 2 })
        (irq (record boot { value = 1; ups = 1 }) start refl) refl)
      refl

Reach-halves_example :
    (counted : ℕ) × (1 ≡ counted % 2 ^ 64)
    × ◌≡◌ {A = ℕ} 2 (0 + 2 * counted + 0)
    × (((t : Trial Linux) × (test_round (system 100001) (pos 3) interrupted ≡ done tt t))
        ⊎ ((w : Linux) × (w.value ≡ 0)
            × (w.ups ≡ 0 + 2 * counted + 1)
            × (test_round (system 100001) (pos 3) interrupted
                ≡ (wait_and_count (system 100001) (pos 3) >>= λ u t.
                      done tt (record t { world = (system 100001).usleep 10000 t.world }))
                    (record { i = 1; world = w }))))
Reach-halves_example =
    Reach-halves (system 100001) linux 100001 device_file context (pos 3) (linux-CountsUps 7)
      (system-Reaches 100001) no_signal linux-KeepsTime wakes 100000 counts_one refl (omega arith)
      (omega arith) (omega arith)

-- Without a device the program ends.
no_device :
    test_main (record (system 1) { open_device = λ w. (neg 1, w) }) 5 boot ≡ done (neg 1) boot
unfolding test_main
no_device = refl
