-- ===== src/Shield/Irq.antt =====
-- The wait of the real-time loop, through the kernel driver.
use rpi_rt_ether_cat_slave_i.Common.{
  ℕ, ◌+◌, ◌*◌, ◌%◌, ◌^◌, ◌≡◌, ◌≤◌, ◌<◌, ◌∙◌, true, false, some, done, arith, if◌then◌else◌,
}
use rpi_rt_ether_cat_slave_i.Common.Int.{ℤ, pos, neg, is_zero, is_minus_one, ltz}
use rpi_rt_ether_cat_slave_i.Driver.{
  Services, Context, DeviceFile, down_timeoutms, my_api, driver_unioctl, irqmoddev_down_timeout,
}
use rpi_rt_ether_cat_slave_i.Driver.Timeout.{KeepsTime, InTime, down_timeoutms-InTime}
use rpi_rt_ether_cat_slave_i.Driver.Counting.{
  successes, CountsUps, driver_unioctl-Takes, down_timeoutms-ready,
}
use rpi_rt_ether_cat_slave_i.Word.{Ulong}
use rpi_rt_ether_cat_slave_i.Shield.{Platform, Board, waitforirq_or_timeout}

-- the request of the wait, `IRQMOD_DOWN_TIMEOUT`
abbrev pub request : {W D : Type 0} → Platform W D → ℕ
request p = p.iow b'B' 42 4

-- The system passes an `ioctl` on the handle to the driver, and turns a negative result into -1; the
-- request names the driver's command, and the time is a pointer that `access_ok` accepts.
pub record Connects {W D : Type 0} (p : Platform W D) (s : Services W) (fuel : ℕ)
    (file : DeviceFile) (handle : ℤ) (arg : ℕ) : Type 0 where
  pub ioctl :
      (w : W) (err : ℤ) (w' : W)
      → driver_unioctl s fuel file (request p) arg w ≡ done err w'
      → p.ioctl handle (request p) arg w ≡ (if ltz err (pos 0) then neg 1 else err, w')
  pub number : s.ioc_nr (request p) ≡ irqmoddev_down_timeout
  pub accessible : s.access_ok arg (s.ioc_size (request p)) ≡ true

module _ {W D : Type 0} (p : Platform W D) (s : Services W) (rounds : ℕ) (file : DeviceFile)
    (md : Context) where
  -- On an open file the call of the driver is a wait.
  pub driver_unioctl-waits :
      (timeoutms : ℕ) (handle : ℤ) (w : W)
      → file.private_data ≡ some md
      → md.w_open ≡ true
      → Connects p s rounds file handle timeoutms
      → driver_unioctl s rounds file (request p) timeoutms w
        ≡ down_timeoutms s rounds md.address timeoutms w
  unfolding driver_unioctl my_api
  driver_unioctl-waits timeoutms handle w opened writable link =
      ground (arith, opened, writable, link.number, link.accessible)

module _ {W D : Type 0} (p : Platform W D) (s : Services W) (junk : W → Ulong) (fuel rounds : ℕ)
    (file : DeviceFile) (md : Context) (t : KeepsTime s) (c : CountsUps s md.address) where
  -- If the system passes the request of `waitforirq_or_timeout` to the driver as `Connects` says,
  -- the file is open for writing, the kernel keeps time and counts interrupts as `KeepsTime` and
  -- `CountsUps` document, the time computed (modulo the width of a long) ends below 2 ^ 63 ns
  -- with a jiffy and four delays to spare and the rounds are enough, then the call of the shield
  -- returns with nothing changed but the hardware; a result that is not 0 comes only once the
  -- time is over, and no result later than a jiffy and four delays after it; a result of 0 takes
  -- exactly one interrupt and another takes none; and an interrupt that is pending is taken, if
  -- the time is not 0.
  pub waitforirq_or_timeout-driver :
      (timeoutms k : ℕ) (b : Board W D)
      → file.private_data ≡ some md
      → md.w_open ≡ true
      → is_minus_one b.devhndl ≡ false
      → Connects p s rounds file b.devhndl timeoutms
      → let rest_ns = 1000000 * timeoutms % 2 ^ s.bits in
        let w = b.machine.world in
        t.now w + rest_ns + t.jiffy + 4 * t.delay < 2 ^ 63
        → rest_ns ≤ k * t.step
        → k < rounds
        → (err : ℤ) × (w' : W) × (waitforirq_or_timeout p junk fuel timeoutms b
            ≡ done err (record b { machine = record b.machine { world = w' } }))
          × InTime s t md.address w rest_ns err w'
          × (c.value w' + successes err + c.ups w ≡ c.value w + c.ups w')
          × (0 < c.value w → 0 < rest_ns → is_zero err ≡ true)
  unfolding waitforirq_or_timeout
  waitforirq_or_timeout-driver timeoutms k b opened writable valid link small near few =
      let rest_ns = 1000000 * timeoutms % 2 ^ s.bits in
      let w = b.machine.world in
      let (err, w', e, h) =
        down_timeoutms-InTime s t md.address rounds k timeoutms w small near few in
      let e' =
        driver_unioctl-waits p s rounds file md timeoutms b.devhndl w opened writable link ∙ e in
      let passed = link.ioctl w err w' e' in
      let same : is_zero (if ltz err (pos 0) then neg 1 else err) ≡ is_zero err = ground arith in
      (
        if ltz err (pos 0) then neg 1 else err,
        w',
        ground (arith, passed, valid),
        ((λ z. h.0 (ground (arith, z))), h.1),
        ground (
          arith,
          driver_unioctl-Takes s rounds file md c (request p) timeoutms w err w' opened e',
        ),
        λ pending more.
            same
            ∙ down_timeoutms-ready s rounds file md c timeoutms w err w' pending (ground arith) e,
      )
