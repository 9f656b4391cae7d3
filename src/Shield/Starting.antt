-- ===== src/Shield/Starting.antt =====
-- How the shield is started, whatever the chip and the system answer.
use rpi_rt_ether_cat_slave_i.Common.{
  ℕ, ◌^◌, ◌<◌, done, fault, spins, Run, M, true, false, arith, Post, returns, waits, Keeps,
  Keeps-pure, Keeps-then, ◌⟫◌, if◌then◌else◌, Bool, Keeps-if, not,
}
use rpi_rt_ether_cat_slave_i.Common.Int.{neg, is_minus_one, pos, is_zero}
use rpi_rt_ether_cat_slave_i.Spi.Safe.{Quiet, read_reg-Quiet, write_reg-Quiet, write_reg_wait-Quiet}
use rpi_rt_ether_cat_slave_i.Shield.{
  bit_order_msb_first, data_mode_0, clock_divider, chip_select_none, cs0_polarity_low, pin_output,
  out_output, spi_init, is_resetneeded, do_resetshield, open_irq, do_initirq, init, hw_cfg,
  byte_test, reset_ctl, digital_rst, is_ready, al_event_mask_reg_0, irq_cfg, int_en, Platform,
  Board, on_hardware, call, command,
}
use rpi_rt_ether_cat_slave_i.Word.{Ulong}
use rpi_rt_ether_cat_slave_i.Base.Typed.{IsTyped}

-- The members of the board have values of their types.
abbrev pub IsTypedBoard : {W D : Type 0} → Board W D → Type 0
IsTypedBoard b = IsTyped b.machine.base × (b.runtime.count < 2 ^ 64) × (b.period.count < 2 ^ 64)

abbrev pub SafeBoard : {W D A : Type 0} → M (Board W D) A → Type 0
SafeBoard m = Keeps IsTypedBoard m

module _ {W D : Type 0} (p : Platform W D) (junk : W → Ulong) (fuel : ℕ) where
  pub on_hardware-Safe : {A : Type 0} {m : M W A} → Quiet m → SafeBoard (on_hardware p junk fuel m)
  on_hardware-Safe {A} {m} q = record {
    post = λ b h. lifted b h (m b.machine.world) (q.post b.machine.world tt);
  }
    where
      lifted :
          (b : Board W D)
          → IsTypedBoard b
          → (r : Run W A) → Post (λ a w. Unit {0}) r
          → Post
              (λ a c. IsTypedBoard c)
              (elim r [
                | done a w ↦ done a (record b { machine = record b.machine { world = w } })
                | fault ↦ fault
                | spins ↦ spins
              ])
      lifted b h _ (returns u) = returns h
      lifted b h _ waits = waits

  call-Quiet : {A : Type 0} (f : W → A × W) → Quiet (call p f)
  call-Quiet f = record { post = λ w u. returns tt }

  pub command-Quiet : (f : W → W) → Quiet (command p f)
  command-Quiet f = record { post = λ w u. returns tt }

  spi_init-Quiet : Quiet (spi_init p)
  unfolding spi_init
  spi_init-Quiet = Keeps-then (call-Quiet p.bcm2835_init) (λ inited.
      Keeps-if (not inited) (Keeps-pure (neg 10)) (
        Keeps-then (call-Quiet p.bcm2835_spi_begin) (λ begun.
          Keeps-if (not begun) (Keeps-pure (neg 9)) (
            command-Quiet (p.set_up bit_order_msb_first)
            ⟫ command-Quiet (p.set_up data_mode_0)
            ⟫ command-Quiet (p.set_up (clock_divider 16))
            ⟫ command-Quiet (p.set_up chip_select_none)
            ⟫ command-Quiet (p.set_up cs0_polarity_low)
            ⟫ command-Quiet (p.set_up pin_output)
            ⟫ command-Quiet (p.set_up out_output)
            ⟫ Keeps-pure (pos 0)))))

  is_resetneeded-Quiet : Quiet (is_resetneeded p junk)
  unfolding is_resetneeded
  is_resetneeded-Quiet = Keeps-then (read_reg-Quiet p.bus junk hw_cfg 4 (omega arith)) (λ cfg.
      Keeps-if (is_ready cfg)
        (Keeps-then (read_reg-Quiet p.bus junk byte_test 4 (omega arith)) (λ test. Keeps-pure _))
        (Keeps-pure (neg 11)))

  do_resetshield-Quiet : Quiet (do_resetshield p junk)
  unfolding do_resetshield
  do_resetshield-Quiet =
      write_reg-Quiet p.bus reset_ctl digital_rst
      ⟫ command-Quiet (p.usleep 2000)
      ⟫ write_reg-Quiet p.bus reset_ctl digital_rst
      ⟫ command-Quiet (p.usleep 2000)
      ⟫ Keeps-then (read_reg-Quiet p.bus junk byte_test 4 (omega arith)) (λ test. Keeps-pure _)

  open_irq-Safe : SafeBoard (open_irq p junk fuel)
  open_irq-Safe = record {
    post = λ b h. opened b h (is_minus_one (p.open_device b.machine.world).0);
  }
    where
      opened :
          (b : Board W D)
          → IsTypedBoard b
          → (failed : Bool)
          → let (handle, w) = p.open_device b.machine.world in
            let b' = record b { machine = record b.machine { world = w }; devhndl = handle } in
            Post (λ a c. IsTypedBoard c) (if failed then done (neg 27) b' else done (pos 0) b')
      opened b h true = returns h
      opened b h false = returns h

  do_initirq-Safe : SafeBoard (do_initirq p junk fuel)
  unfolding do_initirq
  do_initirq-Safe =
      on_hardware-Safe (write_reg_wait-Quiet p.bus junk fuel al_event_mask_reg_0 0x00000100)
      ⟫ on_hardware-Safe (write_reg-Quiet p.bus irq_cfg 0x00000111)
      ⟫ on_hardware-Safe (write_reg-Quiet p.bus int_en 0x00000001)
      ⟫ open_irq-Safe

  pub init-Safe : SafeBoard (init p junk fuel)
  unfolding init
  init-Safe = Keeps-then (on_hardware-Safe spi_init-Quiet) (λ err.
      Keeps-if (not (is_zero err)) (Keeps-pure err) (
        Keeps-then (on_hardware-Safe is_resetneeded-Quiet) (λ needed.
          Keeps-then
            (Keeps-if (not (is_zero needed)) (on_hardware-Safe do_resetshield-Quiet)
              (Keeps-pure err))
            (λ err'. Keeps-if (not (is_zero err')) (Keeps-pure err') do_initirq-Safe))))
