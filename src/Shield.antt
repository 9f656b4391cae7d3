-- ===== src/Shield.antt =====
-- shield_9252/src/shield_9252.cpp, with spi_init of rpi_base/src/rpi_base.cpp: how the shield is
-- started, and the loop of the real-time thread.
pub mod Init
pub mod Loop
pub mod Demo
pub mod Irq
pub mod Starting
pub mod Wait
pub mod Taken
pub mod Safe
mod Tests
use rpi_rt_ether_cat_slave_i.Common.{
  ℕ, zero, suc, ◌+◌, ◌-◌, ◌*◌, ◌%◌, ◌^◌, Bool, true, false, not, done, fault, spins, M, pure, ◌>>=◌,
  ◌>>◌, if◌then◌else◌, has_bit, ltb, ◌==◌,
}
use rpi_rt_ether_cat_slave_i.Common.Int.{ℤ, pos, neg, is_zero, is_minus_one}
use rpi_rt_ether_cat_slave_i.Word.{Ulong}
use rpi_rt_ether_cat_slave_i.Spi.{Bus, read_reg, write_reg, write_reg_wait}
use rpi_rt_ether_cat_slave_i.Base.{RpiBase, Machine, main_task}
use rpi_rt_ether_cat_slave_i.Stat.{Double, StatBuffer, calc}

-- The calls of bcm2835 in `spi_init` that set up pins and the SPI and return nothing.
pub data SetUp : Type 0 where
  bit_order_msb_first : SetUp
  data_mode_0 : SetUp
  clock_divider : ℕ → SetUp
  chip_select_none : SetUp
  cs0_polarity_low : SetUp
  pin_output : SetUp
  out_output : SetUp

-- What the code calls of the bcm2835 library and the system.
pub record Platform (W D : Type 0) : Type 0 where
  pub bus : Bus W
  -- `bcm2835_init` and `bcm2835_spi_begin`: whether they succeed
  pub bcm2835_init : W → Bool × W
  pub bcm2835_spi_begin : W → Bool × W
  pub set_up : SetUp → W → W
  pub usleep : ℕ → W → W
  -- `open("/dev/gpioirq", O_RDWR)`
  pub open_device : W → ℤ × W
  -- `ioctl(handle, request, argument)`
  pub ioctl : ℤ → ℕ → ℕ → W → ℤ × W
  -- `_IOW(type, nr, size)`
  pub iow : ℕ → ℕ → ℕ → ℕ
  -- `clock_gettime(CLOCK_MONOTONIC, &ts)`: `tv_sec` and `tv_nsec`
  pub clock_gettime : W → (ℕ × ℕ) × W
  -- `bcm2835_gpio_set(OUT)` and `bcm2835_gpio_clr(OUT)`
  pub gpio_out : Bool → W → W
  -- the constants 1E-3 and 1E-6
  pub milli : D
  pub micro : D

abbrev pub reset_ctl : ℕ
reset_ctl = 0x01F8

abbrev pub hw_cfg : ℕ
hw_cfg = 0x0074

abbrev pub byte_test : ℕ
byte_test = 0x0064

abbrev pub irq_cfg : ℕ
irq_cfg = 0x0054

abbrev pub int_en : ℕ
int_en = 0x005C

abbrev pub al_event_mask_reg_0 : ℕ
al_event_mask_reg_0 = 0x0204

abbrev pub digital_rst : ℕ
digital_rst = 0x00000001

-- `TempLong.Long & READY`, with READY 0x08000000
abbrev pub is_ready : ℕ → Bool
is_ready long = has_bit long 27

abbrev pub test_pattern : ℕ
test_pattern = 0x87654321

-- An object of class etherberry_9252 and the hardware.
pub record Board (W D : Type 0) : Type 0 where
  pub machine : Machine W
  pub devhndl : ℤ
  pub runtime : StatBuffer D
  pub period : StatBuffer D

-- `etherberry_9252::etherberry_9252`
abbrev pub construct_board : {W D : Type 0} → Board W D → Board W D
construct_board b = record b { devhndl = neg 1 }

-- `etherberry_9252::~etherberry_9252`, over the system's `close`
abbrev pub destruct_board : {W D : Type 0} → (ℤ → W → W) → Board W D → W → W
destruct_board close b w = if is_minus_one b.devhndl then w else close b.devhndl w

module _ {W D : Type 0} (p : Platform W D) where
  -- a call on the hardware alone
  abbrev pub call : {A : Type 0} → (W → A × W) → M W A
  call f w = done (f w).0 (f w).1

  abbrev pub command : (W → W) → M W (Unit {0})
  command f w = done tt (f w)

  unfoldable pub spi_init : M W ℤ
  spi_init = do
    inited ← call p.bcm2835_init
    if not inited then pure (neg 10) else (do
      begun ← call p.bcm2835_spi_begin
      if not begun then pure (neg 9) else (do
        command (p.set_up bit_order_msb_first)
        command (p.set_up data_mode_0)
        command (p.set_up (clock_divider 16))
        command (p.set_up chip_select_none)
        command (p.set_up cs0_polarity_low)
        command (p.set_up pin_output)
        command (p.set_up out_output)
        pure (pos 0)))

  -- `Getns`
  abbrev pub getns : M W ℕ
  getns w =
      let ((sec, nsec), w') = p.clock_gettime w in done ((sec * 1000000000 + nsec) % 2 ^ 64) w'

  module _ (junk : W → Ulong) where
    unfoldable pub is_resetneeded : M W ℤ
    is_resetneeded = do
      cfg ← read_reg p.bus junk hw_cfg 4
      if is_ready cfg
          then (do
            test ← read_reg p.bus junk byte_test 4
            pure (if not (test == test_pattern) then neg 15 else pos 0))
          else pure (neg 11)

    unfoldable pub do_resetshield : M W ℤ
    do_resetshield = do
      write_reg p.bus reset_ctl digital_rst
      command (p.usleep 2000)
      write_reg p.bus reset_ctl digital_rst
      command (p.usleep 2000)
      test ← read_reg p.bus junk byte_test 4
      pure (if test == test_pattern then pos 0 else neg 9)

    module _ (fuel : ℕ) where
      abbrev pub on_hardware : {A : Type 0} → M W A → M (Board W D) A
      on_hardware m b = elim (m b.machine.world) [
        | done a w ↦ done a (record b { machine = record b.machine { world = w } })
        | fault ↦ fault
        | spins ↦ spins
      ]

      abbrev pub open_irq : M (Board W D) ℤ
      open_irq b =
          let (h, w) = p.open_device b.machine.world in
          let b' = record b { machine = record b.machine { world = w }; devhndl = h } in
          if is_minus_one h then done (neg 27) b' else done (pos 0) b'

      unfoldable pub do_initirq : M (Board W D) ℤ
      do_initirq = do
        on_hardware (write_reg_wait p.bus junk fuel al_event_mask_reg_0 0x00000100)
        on_hardware (write_reg p.bus irq_cfg 0x00000111)
        on_hardware (write_reg p.bus int_en 0x00000001)
        open_irq

      unfoldable pub init : M (Board W D) ℤ
      init = do
        err ← on_hardware spi_init
        if not (is_zero err) then pure err else (do
          needed ← on_hardware is_resetneeded
          err' ← (if not (is_zero needed) then on_hardware do_resetshield else pure err)
          if not (is_zero err') then pure err' else do_initirq)

      -- `ioctl(m_devhndl, IRQMOD_DOWN_TIMEOUT, timeoutms)`, with IRQMOD_IOC_MAGIC 'B' and
      -- IRQMODDEV_DOWN_TIMEOUT 42 over an `int`
      unfoldable pub waitforirq_or_timeout : ℕ → M (Board W D) ℤ
      waitforirq_or_timeout timeoutms b =
          if is_minus_one b.devhndl
          then done (neg 1) b
          else on_hardware (call (p.ioctl b.devhndl (p.iow b'B' 42 4) timeoutms)) b

      -- The thread's loop keeps statistics.
      module _ ⦃d : Double D⦄ where
        abbrev pub on_machine : {A : Type 0} → M (Machine W) A → M (Board W D) A
        on_machine m b = elim (m b.machine) [
          | done a s ↦ done a (record b { machine = s })
          | fault ↦ fault
          | spins ↦ spins
        ]

        -- what a round of the loop stores after `MainTask`, from the times before and after it
        abbrev pub account : ℕ → ℕ → Board W D → Board W D
        account start_run now b =
            let o = b.machine.base in
            let lastruntime = (now + 2 ^ 64 - start_run) % 2 ^ 64 in
            let period = (start_run + 2 ^ 64 - o.laststart) % 2 ^ 64 in
            let o' = record o {
              lastruntime = lastruntime;
              count = (o.count + 1) % 2 ^ 64;
              laststart = start_run;
            } in
            let b' = record b { machine = record b.machine { base = o' } } in
            if ltb 1 o.count
            then record b' {
              runtime = calc b.runtime (d.mul (d.of_ull lastruntime) p.milli);
              period = calc b.period (d.mul (d.of_ull period) p.micro);
            }
            else b'

        -- one round of the `while (1)` of `execute_fromthread`; the error of the wait is not used
        unfoldable pub round : M (Board W D) (Unit {0})
        round = do
          err ← waitforirq_or_timeout 100
          start_run ← on_hardware getns
          on_hardware (command (p.gpio_out true))
          status ← on_machine (main_task p.bus junk fuel)
          on_hardware (command (p.gpio_out false))
          now ← on_hardware getns
          λ b. done tt (account start_run now b)

        -- the first `n` rounds of `execute_fromthread`
        unfoldable pub execute_fromthread : ℕ → M (Board W D) (Unit {0})
        execute_fromthread zero = pure tt
        execute_fromthread (suc n) = do round; execute_fromthread n
