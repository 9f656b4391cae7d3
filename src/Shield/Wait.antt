-- ===== src/Shield/Wait.antt =====
-- The wait of the real-time loop over the kernel driver: the interrupts it takes.
use rpi_rt_ether_cat_slave_i.Common.{
  ℕ, zero, suc, ◌+◌, ◌-◌, ◌*◌, ◌%◌, ◌^◌, ◌≤◌, ◌<◌, ◌≡◌, ◌∙◌, Bool, true, false, some, done, arith,
  if◌then◌else◌,
}
use native.Mathlib.Decide.{dec_lt}
use rpi_rt_ether_cat_slave_i.Common.Int.{ℤ, pos, neg, is_minus_one, ltz}
use rpi_rt_ether_cat_slave_i.Word.{Ulong}
use rpi_rt_ether_cat_slave_i.Driver.{
  Services, Context, DeviceFile, jiffies_of, wait_until, down_timeoutms,
}
use rpi_rt_ether_cat_slave_i.Driver.Timeout.{KeepsTime, down_timeoutms-InTime}
use rpi_rt_ether_cat_slave_i.Driver.Counting.{
  successes, CountsUps, driver_unioctl-Takes, down_timeoutms-ready,
}
use rpi_rt_ether_cat_slave_i.Shield.{Platform, Board, waitforirq_or_timeout}
use rpi_rt_ether_cat_slave_i.Shield.Irq.{request, Connects, driver_unioctl-waits}

-- From one state of the hardware to another, `k` interrupts are taken from the semaphore, and
-- interrupts come but do not go.
abbrev pub Passes : {W : Type 0} {s : Services W} {a : ℕ} → CountsUps s a → W → W → ℕ → Type 0
Passes c w w' k = (c.value w' + k + c.ups w ≡ c.value w + c.ups w') × (c.ups w ≤ c.ups w')

-- What the calls of the loop do to the interrupts: only the wait takes them.
pub record Spares {W D : Type 0} (p : Platform W D) (s : Services W) (a : ℕ) (c : CountsUps s a)
    : Type 0 where
  pub transfer : (b : ℕ) (w : W) → Passes c w (p.bus.transfer b w).1 0
  pub gpio_write : (level : Bool) (w : W) → Passes c w (p.bus.gpio_write level w) 0
  pub clock_gettime : (w : W) → Passes c w (p.clock_gettime w).1 0
  pub gpio_out : (level : Bool) (w : W) → Passes c w (p.gpio_out level w) 0
  pub down_timeout : (j : ℕ) (w : W) → c.ups w ≤ c.ups (s.down_timeout a j w).1

-- the latest time at which a wait of a round that starts now returns
abbrev pub wait_end : {W : Type 0} → (s : Services W) → KeepsTime s → W → ℕ
wait_end s t w = t.now w + 1000000 * 100 % 2 ^ s.bits + t.jiffy + 4 * t.delay

module _ {W D : Type 0} (p : Platform W D) (s : Services W) (rounds : ℕ) (file : DeviceFile)
    (md : Context) (c : CountsUps s md.address) (spares : Spares p s md.address c) where
  wait_until-grows :
      (fuel endtime rest_ns : ℕ) (err : ℤ) (w : W) (err' : ℤ) (w' : W)
      → wait_until s fuel md.address endtime rest_ns err w ≡ done err' w'
      → c.ups w ≤ c.ups w'
  unfolding wait_until
  wait_until-grows zero endtime rest_ns err w err' w' e = cc
  wait_until-grows (suc fuel) endtime rest_ns err w err' w' e =
      let j = jiffies_of s rest_ns in
      let w1 = (s.down_timeout md.address j w).1 in
      let now = (s.ktime_get_mono_fast_ns w1).0 in
      ground (
        arith,
        spares.down_timeout j w,
        c.clock_grows w1,
        wait_until-grows fuel endtime ((endtime + 2 ^ 64 - now) % 2 ^ 64)
            (s.down_timeout md.address j w).0 (s.ktime_get_mono_fast_ns w1).1 err' w',
      )

  down_timeoutms-grows :
      (timeout_ms : ℕ) (w : W) (err : ℤ) (w' : W)
      → down_timeoutms s rounds md.address timeout_ms w ≡ done err w'
      → c.ups w ≤ c.ups w'
  unfolding down_timeoutms
  down_timeoutms-grows timeout_ms w err w' e =
      let rest_ns = 1000000 * timeout_ms % 2 ^ s.bits in
      let (now, w1) = s.ktime_get_mono_fast_ns w in
      omega (
        arith,
        c.clock_grows w,
        wait_until-grows rounds ((now + rest_ns) % 2 ^ 64) rest_ns (neg 1) w1 err w' e,
      )

  module _ (t : KeepsTime s) (junk : W → Ulong) (fuel : ℕ) (opened : file.private_data ≡ some md)
      (writable : md.w_open ≡ true) (some_time : 0 < 1000000 * 100 % 2 ^ s.bits) (turns : ℕ)
      (near : 1000000 * 100 % 2 ^ s.bits ≤ turns * t.step) (few : turns < rounds) where
    -- The wait of a round takes an interrupt exactly if it returns 0, and does so if one is pending.
    pub wait_taken :
        (b : Board W D)
        → is_minus_one b.devhndl ≡ false
        → Connects p s rounds file b.devhndl 100
        → wait_end s t b.machine.world < 2 ^ 63
        → let w = b.machine.world in
          (err : ℤ) × (w' : W) × (k : ℕ) × (waitforirq_or_timeout p junk fuel 100 b
            ≡ done err (record b { machine = record b.machine { world = w' } }))
          × Passes c w w' k
          × (k ≤ 1)
          × (1 ≤ k + (1 - c.value w))
    unfolding waitforirq_or_timeout
    wait_taken b valid link early =
        let w = b.machine.world in
        let (err, w', down, h) =
          down_timeoutms-InTime s t md.address rounds turns 100 w early near few in
        let e =
          driver_unioctl-waits p s rounds file md 100 b.devhndl w opened writable link ∙ down in
        let passed = link.ioctl w err w' e in
        let takes = driver_unioctl-Takes s rounds file md c (request p) 100 w err w' opened e in
        (
          if ltz err (pos 0) then neg 1 else err,
          w',
          successes err,
          ground (arith, passed, valid),
          (omega (arith, takes), down_timeoutms-grows 100 w err w' down),
          ground arith,
          elim (dec_lt 0 (c.value w)) [
            | yes pending ↦
                let got =
                  down_timeoutms-ready s rounds file md c 100 w err w' pending (ground arith)
                    down in
                ground (arith, got)
            | no none_pending ↦ omega arith
          ],
        )
