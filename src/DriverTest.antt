-- ===== src/DriverTest.antt =====
-- gpioirq_kdriver/user_space_test/test.cpp: the program that tries out the driver. Its messages are left
-- out.
pub mod Halves
mod Tests
use rpi_rt_ether_cat_slave_i.Common.{
  ℕ, zero, suc, ◌+◌, ◌%◌, ◌^◌, done, fault, spins, M, pure, ◌>>=◌, ◌>>◌, if◌then◌else◌,
}
use rpi_rt_ether_cat_slave_i.Common.Int.{ℤ, pos, neg, is_zero, is_minus_one}
use rpi_rt_ether_cat_slave_i.Driver.{irqmoddev_wait_irq, irqmoddev_down_timeout}

-- What the program calls of the system, over the state `W` of the system.
pub record Calls (W : Type 0) : Type 0 where
  -- `open` of "/dev/gpioirq" with O_RDWR
  pub open_device : W → ℤ × W
  -- `ioctl(handle, request, argument)`, which need not return
  pub ioctl : ℤ → ℕ → ℕ → M W ℤ
  pub usleep : ℕ → W → W
  -- the macro `_IOW(magic, number, int)`, with the size of an int
  pub iow : ℕ → ℕ → ℕ → ℕ
  -- what stands where an `ioctl` without its last argument has one
  pub unset : W → ℕ

-- The variable `i` of `main`, and the system.
pub record Trial (W : Type 0) : Type 0 where
  pub i : ℕ
  pub world : W

module _ {W : Type 0} (c : Calls W) where
  -- `IRQMOD_DOWN_TIMEOUT`
  abbrev pub irqmod_down_timeout : ℕ
  irqmod_down_timeout = c.iow b'B' irqmoddev_down_timeout 4

  abbrev on_system : {A : Type 0} → M W A → M (Trial W) A
  on_system m t = elim (m t.world) [
    | done a w ↦ done a (record t { world = w })
    | fault ↦ fault
    | spins ↦ spins
  ]

  -- the body of `if (err == 0)`
  abbrev pub wait_and_count : ℤ → M (Trial W) (Unit {0})
  wait_and_count dev = do
    err ← on_system (λ w. c.ioctl dev irqmoddev_wait_irq (c.unset w) w)
    λ t. done tt (record t { i = (t.i + 1) % 2 ^ 64 })

  -- the body of `while (true)`
  unfoldable pub test_round : ℤ → M (Trial W) (Unit {0})
  test_round dev = do
    err ← on_system (c.ioctl dev irqmod_down_timeout 100)
    if is_zero err then wait_and_count dev else pure tt
    λ t. done tt (record t { world = c.usleep 10000 t.world })

  -- a number of rounds of the loop
  unfoldable pub test_loop : ℕ → ℤ → M (Trial W) (Unit {0})
  test_loop zero dev = pure tt
  test_loop (suc n) dev = do test_round dev; test_loop n dev

  -- `main`, for a number of rounds
  unfoldable pub test_main : ℕ → M W ℤ
  test_main n w =
      let (dev, w') = c.open_device w in
      if is_minus_one dev
      then done (neg 1) w'
      else elim (test_loop n dev (record { i = 0; world = w' })) [
        | done u t ↦ done (pos 0) t.world
        | fault ↦ fault
        | spins ↦ spins
      ]
