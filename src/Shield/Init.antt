-- ===== src/Shield/Init.antt =====
-- etherberry_9252::init: the error that each failure gives, and how far the shield is set up then.
use rpi_rt_ether_cat_slave_i.Common.{
  ℕ, ◌<◌, ◌≡◌, Bool, true, not, ◌&&◌, ◌||◌, done, arith, if◌then◌else◌, ◌==◌,
}
use rpi_rt_ether_cat_slave_i.Common.Int.{ℤ, pos, neg, is_zero, is_minus_one}
use rpi_rt_ether_cat_slave_i.Word.{Ulong, le_number}
use rpi_rt_ether_cat_slave_i.Spi.{is_csr_busy, ecat_csr_cmd, ecat_csr_data, esc_write}
use rpi_rt_ether_cat_slave_i.Spi.Transaction.{read, issue, write_reg-issue, read_reg-issue}
use rpi_rt_ether_cat_slave_i.Spi.Polling.{
  Clears, after, polled, commanded, written, write_reg_wait-done,
}
use rpi_rt_ether_cat_slave_i.Shield.{
  bit_order_msb_first, data_mode_0, clock_divider, chip_select_none, cs0_polarity_low, pin_output,
  out_output, Platform, reset_ctl, hw_cfg, byte_test, irq_cfg, int_en, al_event_mask_reg_0,
  digital_rst, is_ready, test_pattern, Board, spi_init, is_resetneeded, do_resetshield, do_initirq,
  init,
}

-- how far `init` gets
pub data Stage : Type 0 where
  no_bcm2835 no_spi not_recovered no_device started : Stage

abbrev pub error_of : Stage → ℤ
error_of no_bcm2835 = neg 10
error_of no_spi = neg 9
error_of not_recovered = neg 9
error_of no_device = neg 27
error_of started = pos 0

module _ {W D : Type 0} (p : Platform W D) where
  -- the value of a register that is read directly
  abbrev pub value : ℕ → W → ℕ
  value register w = le_number (issue p.bus (read register 4) w).0

  -- the hardware once the pins and the SPI are set up
  abbrev pub spi_ready : W → W
  spi_ready w = p.set_up out_output (
      p.set_up pin_output (
        p.set_up cs0_polarity_low (
          p.set_up chip_select_none (
            p.set_up (clock_divider 16) (
              p.set_up data_mode_0
                (p.set_up bit_order_msb_first (p.bcm2835_spi_begin (p.bcm2835_init w).1).1))))))

  -- The chip says that it is ready and shows its test pattern.
  abbrev pub is_healthy : W → Bool
  is_healthy w =
      is_ready (value hw_cfg w) && (value byte_test (after p.bus hw_cfg w) == test_pattern)

  abbrev pub checked : W → W
  checked w =
      if is_ready (value hw_cfg w)
      then after p.bus byte_test (after p.bus hw_cfg w)
      else after p.bus hw_cfg w

  -- the hardware after the two resets
  abbrev pub reset_twice : W → W
  reset_twice w =
      p.usleep 2000 (
        written p.bus reset_ctl digital_rst (p.usleep 2000 (written p.bus reset_ctl digital_rst w)))

  abbrev pub is_recovered : W → Bool
  is_recovered w = value byte_test (reset_twice w) == test_pattern

  -- the hardware before the interrupt is set up
  abbrev pub shield_ready : W → W
  shield_ready w =
      if is_healthy w then checked w else after p.bus byte_test (reset_twice (checked w))

  -- the hardware once the interrupt is set up, if the chip is busy for `k` polls
  abbrev pub irq_ready : ℕ → W → W
  irq_ready k w = written p.bus int_en 0x00000001 (
      written p.bus irq_cfg 0x00000111 (
        polled p.bus ecat_csr_cmd k (
          commanded p.bus al_event_mask_reg_0 4 esc_write
            (written p.bus ecat_csr_data 0x00000100 w))))

  spi_init_lem :
      (w : W)
      → spi_init p w ≡ (
          if (p.bcm2835_init w).0
          then (if (p.bcm2835_spi_begin (p.bcm2835_init w).1).0
              then done (pos 0) (spi_ready w)
              else done (neg 9) (p.bcm2835_spi_begin (p.bcm2835_init w).1).1)
          else done (neg 10) (p.bcm2835_init w).1)
  unfolding spi_init
  spi_init_lem w = ground arith

  module _ (junk : W → Ulong) where
    is_resetneeded_lem :
        (w : W)
        → (err : ℤ) × (is_resetneeded p junk w ≡ done err (checked w))
          × (is_zero err ≡ is_healthy w)
    unfolding is_resetneeded
    is_resetneeded_lem w = (
      if is_ready (value hw_cfg w)
          then (if value byte_test (after p.bus hw_cfg w) == test_pattern then pos 0 else neg 15)
          else neg 11,
      ground (
        arith,
        read_reg-issue p.bus junk hw_cfg w,
        read_reg-issue p.bus junk byte_test (after p.bus hw_cfg w),
      ),
      ground arith,
    )

    do_resetshield_lem :
        (w : W)
        → do_resetshield p junk w
          ≡ done (if is_recovered w then pos 0 else neg 9) (after p.bus byte_test (reset_twice w))
    unfolding do_resetshield
    do_resetshield_lem w = ground (
      arith,
      write_reg-issue p.bus reset_ctl digital_rst w,
      write_reg-issue p.bus reset_ctl digital_rst
          (p.usleep 2000 (written p.bus reset_ctl digital_rst w)),
      read_reg-issue p.bus junk byte_test (reset_twice w),
    )

    module _ (fuel k : ℕ) where
      abbrev pub opened : W → ℤ × W
      opened w = p.open_device (irq_ready k w)

      do_initirq_lem :
          (b : Board W D)
          → k < fuel
          → Clears p.bus is_csr_busy ecat_csr_cmd k (
              commanded p.bus al_event_mask_reg_0 4 esc_write
                (written p.bus ecat_csr_data 0x00000100 b.machine.world))
          → do_initirq p junk fuel b
            ≡ done (if is_minus_one (opened b.machine.world).0 then neg 27 else pos 0) (record b {
              machine = record b.machine { world = (opened b.machine.world).1 };
              devhndl = (opened b.machine.world).0;
            })
      unfolding do_initirq
      do_initirq_lem b lt clears =
          let w = b.machine.world in
          let w1 = polled p.bus ecat_csr_cmd k (
            commanded p.bus al_event_mask_reg_0 4 esc_write
              (written p.bus ecat_csr_data 0x00000100 w)) in
          ground (
            arith,
            write_reg_wait-done p.bus junk fuel k al_event_mask_reg_0 0x00000100 w lt clears,
            write_reg-issue p.bus irq_cfg 0x00000111 w1,
            write_reg-issue p.bus int_en 0x00000001 (written p.bus irq_cfg 0x00000111 w1),
          )

      module _ (b : Board W D) where
        abbrev w0 : W
        w0 = b.machine.world

        -- The stage that the answers of the library, the chip and the system lead to.
        abbrev pub stage : Stage
        stage =
            if not (p.bcm2835_init w0).0
            then no_bcm2835
            else (if not (p.bcm2835_spi_begin (p.bcm2835_init w0).1).0
                then no_spi
                else (if is_healthy (spi_ready w0) || is_recovered (checked (spi_ready w0))
                    then (if is_minus_one (opened (shield_ready (spi_ready w0))).0
                        then no_device
                        else started)
                    else not_recovered))

        abbrev pub hardware_at : Stage → W
        hardware_at no_bcm2835 = (p.bcm2835_init w0).1
        hardware_at no_spi = (p.bcm2835_spi_begin (p.bcm2835_init w0).1).1
        hardware_at not_recovered = shield_ready (spi_ready w0)
        hardware_at no_device = (opened (shield_ready (spi_ready w0))).1
        hardware_at started = (opened (shield_ready (spi_ready w0))).1

        abbrev pub handle_at : Stage → ℤ
        handle_at no_device = (opened (shield_ready (spi_ready w0))).0
        handle_at started = (opened (shield_ready (spi_ready w0))).0
        handle_at _ = b.devhndl

        -- If the core is busy for `k` polls after the write of the event mask and `k` is
        -- less than the fuel, `init` returns, with the error, the hardware and the handle
        -- of the stage that the answers of the library, the chip and the system lead to.
        pub init-stage :
            k < fuel
            → Clears p.bus is_csr_busy ecat_csr_cmd k (
                commanded p.bus al_event_mask_reg_0 4 esc_write
                  (written p.bus ecat_csr_data 0x00000100 (shield_ready (spi_ready w0))))
            → init p junk fuel b
              ≡ done (error_of stage) (record b {
                machine = record b.machine { world = hardware_at stage };
                devhndl = handle_at stage;
              })
        unfolding init
        init-stage lt clears =
            let w1 = spi_ready w0 in
            let (err, e, healthy) = is_resetneeded_lem w1 in
            ground (
              arith,
              spi_init_lem w0,
              e,
              healthy,
              do_resetshield_lem (checked w1),
              do_initirq_lem (record b { machine = record b.machine { world = shield_ready w1 } })
                  lt clears,
            )

        -- Started on an object whose handle is -1, with the core busy for `k` polls after
        -- the write of the event mask and `k` less than the fuel, `init` returns, and it
        -- returns 0 exactly when the object then holds a handle other than -1.
        pub init-handle :
            is_minus_one b.devhndl ≡ true
            → k < fuel
            → Clears p.bus is_csr_busy ecat_csr_cmd k (
                commanded p.bus al_event_mask_reg_0 4 esc_write
                  (written p.bus ecat_csr_data 0x00000100 (shield_ready (spi_ready w0))))
            → (err : ℤ) × (b' : Board W D) × (init p junk fuel b ≡ done err b')
              × (is_zero err ≡ not (is_minus_one b'.devhndl))
        init-handle fresh lt clears = (_, _, init-stage lt clears, ground arith)
