-- ===== src/Driver/Counting.antt =====
-- The driver loses no interrupt and hands none out twice.
use rpi_rt_ether_cat_slave_i.Common.{
  ℕ, zero, suc, ◌+◌, ◌-◌, ◌*◌, ◌%◌, ◌^◌, ◌≡◌, ◌<◌, ◌≤◌, true, false, some, done, arith,
  if◌then◌else◌,
}
use rpi_rt_ether_cat_slave_i.Common.Int.{ℤ, neg, is_zero}
use rpi_rt_ether_cat_slave_i.Driver.{
  Services, Context, DeviceFile, is_positive, jiffies_of, r_irq_handler, wait_until, down_timeoutms,
  my_api, driver_unioctl,
}

-- 1 for a call that succeeds
abbrev pub successes : ℤ → ℕ
successes err = if is_zero err then 1 else 0

-- What the kernel documents of the semaphore at an address, once it is initialised: a call of `up` adds
-- 1 to its value, and a call that waits takes 1 away if it returns 0, and nothing otherwise; it succeeds if the
-- value is not 0. `ups` is the number of calls of `up` so far, which go on during a wait.
pub record CountsUps {W : Type 0} (s : Services W) (sem : ℕ) : Type 0 where
  pub value : W → ℕ
  pub ups : W → ℕ
  pub up_adds :
      (w : W)
      → (w' : W) × (s.up sem w ≡ done tt w') × (value w' ≡ value w + 1) × (ups w' ≡ ups w + 1)
  pub interruptible_takes :
      (w : W) (err : ℤ) (w' : W)
      → s.down_interruptible sem w ≡ done err w'
      → value w' + successes err + ups w ≡ value w + ups w'
  pub timeout_takes :
      (j : ℕ) (w : W)
      → let (err, w') = s.down_timeout sem j w in
        value w' + successes err + ups w ≡ value w + ups w'
  pub clock_takes :
      (w : W) → let w' = (s.ktime_get_mono_fast_ns w).1 in value w' + ups w ≡ value w + ups w'
  pub clock_grows : (w : W) → ups w ≤ ups (s.ktime_get_mono_fast_ns w).1
  pub timeout_ready : (j : ℕ) (w : W) → 0 < value w → is_zero (s.down_timeout sem j w).0 ≡ true
  pub errors : (0 < s.efault) × (0 < s.einval) × (0 < s.enotty)

module _ {W : Type 0} (s : Services W) (fuel : ℕ) (file : DeviceFile) (md : Context)
    (c : CountsUps s md.address) where
  -- `n` successes from one state of the kernel to another
  abbrev pub Takes : W → W → ℕ → Type 0
  Takes w w' n = c.value w' + n + c.ups w ≡ c.value w + c.ups w'

  wait_until-Takes :
      (rounds endtime rest_ns : ℕ) (err : ℤ) (w : W) (err' : ℤ) (w' : W)
      → is_zero err ≡ false
      → wait_until s rounds md.address endtime rest_ns err w ≡ done err' w'
      → Takes w w' (successes err')
  unfolding wait_until
  wait_until-Takes zero endtime rest_ns err w err' w' failed e = cc
  wait_until-Takes (suc rounds) endtime rest_ns err w err' w' failed e =
      let j = jiffies_of s rest_ns in
      let w1 = (s.down_timeout md.address j w).1 in
      let now = (s.ktime_get_mono_fast_ns w1).0 in
      ground (
        arith,
        c.timeout_takes j w,
        c.clock_takes w1,
        wait_until-Takes rounds endtime ((endtime + 2 ^ 64 - now) % 2 ^ 64)
            (s.down_timeout md.address j w).0 (s.ktime_get_mono_fast_ns w1).1 err' w',
      )

  my_api-Takes :
      (cmd arg : ℕ) (w : W) (err : ℤ) (w' : W)
      → my_api s fuel cmd md arg w ≡ done err w'
      → Takes w w' (successes err)
  unfolding my_api down_timeoutms
  my_api-Takes cmd arg w err w' e =
      let rest_ns = 1000000 * arg % 2 ^ s.bits in
      let now = (s.ktime_get_mono_fast_ns w).0 in
      ground (
        arith,
        c.errors,
        c.interruptible_takes w err w',
        c.clock_takes w,
        wait_until-Takes fuel ((now + rest_ns) % 2 ^ 64) rest_ns (neg 1)
            (s.ktime_get_mono_fast_ns w).1 err w',
      )

  pub driver_unioctl-Takes :
      (cmd arg : ℕ) (w : W) (err : ℤ) (w' : W)
      → file.private_data ≡ some md
      → driver_unioctl s fuel file cmd arg w ≡ done err w'
      → Takes w w' (successes err)
  unfolding driver_unioctl
  driver_unioctl-Takes cmd arg w err w' opened e =
      ground (arith, c.errors, my_api-Takes cmd arg w err w')

  wait_until-ready :
      (rounds endtime rest_ns : ℕ) (w : W) (err : ℤ) (w' : W)
      → 0 < c.value w
      → is_positive rest_ns ≡ true
      → wait_until s rounds md.address endtime rest_ns (neg 1) w ≡ done err w'
      → is_zero err ≡ true
  unfolding wait_until
  wait_until-ready zero endtime rest_ns w err w' pending more e = cc
  wait_until-ready (suc rounds) endtime rest_ns w err w' pending more e =
      ground (arith, c.timeout_ready (jiffies_of s rest_ns) w)

  -- A pending interrupt is handed out at once, unless the time to wait is 0 or overflows.
  pub down_timeoutms-ready :
      (timeout_ms : ℕ) (w : W) (err : ℤ) (w' : W)
      → 0 < c.value w
      → is_positive (1000000 * timeout_ms % 2 ^ s.bits) ≡ true
      → down_timeoutms s fuel md.address timeout_ms w ≡ done err w'
      → is_zero err ≡ true
  unfolding down_timeoutms
  down_timeoutms-ready timeout_ms w err w' pending more e =
      let rest_ns = 1000000 * timeout_ms % 2 ^ s.bits in
      let w1 = (s.ktime_get_mono_fast_ns w).1 in
      let still : 0 < c.value w1 = omega (arith, c.clock_takes w, c.clock_grows w) in
      wait_until-ready fuel (((s.ktime_get_mono_fast_ns w).0 + rest_ns) % 2 ^ 64) rest_ns w1 err w'
        still more e

  -- The state of the kernel, and how many calls have returned 0.
  pub record Device : Type 0 where
    pub world : W
    pub taken : ℕ

  -- Interrupts and calls on the open file, in any order.
  pub data Reach (d0 : Device) : Device → Type 0 where
    start : Reach d0 d0
    irq :
        {d : Device} (w : W)
        → Reach d0 d
        → r_irq_handler s md.address d.world ≡ done tt w
        → Reach d0 (record d { world = w })
    ioctl :
        {d : Device} (cmd arg : ℕ) (err : ℤ) (w : W)
        → Reach d0 d
        → driver_unioctl s fuel file cmd arg d.world ≡ done err w
        → Reach d0 (record { world = w; taken = d.taken + successes err })

  Reach-Takes :
      {d0 d : Device}
      → file.private_data ≡ some md
      → Reach d0 d
      → Takes d0.world d.world (d.taken - d0.taken) × (d0.taken ≤ d.taken)
  Reach-Takes opened start = (omega arith, omega arith)
  Reach-Takes opened (irq {d} w r e) =
      let (w', e', value_adds, ups_adds) = c.up_adds d.world in
      ground (arith, Reach-Takes opened r, e', value_adds, ups_adds)
  Reach-Takes opened (ioctl {d} cmd arg err w r e) =
      ground (arith, Reach-Takes opened r, driver_unioctl-Takes cmd arg d.world err w opened e)

  -- If the semaphore of an open device counts as `CountsUps` documents and starts at 0, then in
  -- every state that interrupts and ioctl calls reach, in any order and whatever the commands and
  -- arguments, the number of `up` calls since the start is the number of ioctl calls that
  -- returned 0 plus the value of the semaphore: no interrupt is lost and none is handed out
  -- twice.
  pub Reach-taken :
      {d0 d : Device}
      → file.private_data ≡ some md
      → c.value d0.world ≡ 0
      → d0.taken ≡ 0
      → Reach d0 d
      → c.ups d.world ≡ c.ups d0.world + d.taken + c.value d.world
  Reach-taken opened empty none_taken r = omega (arith, Reach-Takes opened r)
