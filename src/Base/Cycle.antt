-- ===== src/Base/Cycle.antt =====
-- MainTask: which transfers a cycle makes, and what it returns.
use rpi_rt_ether_cat_slave_i.Common.{
  ℕ, ◌+◌, ◌%◌, ◌≡◌, ◌<◌, ◌∙◌, ap, Bool, true, not, ◌&&◌, ◌||◌, List, done, arith, length, get_elem?,
  some, if◌then◌else◌, has_bit, ◌==◌, Bool-cases, inl, inr, >>=-done, ◌>>=◌, ◌>>◌, pure, ap₂, M,
  spins, fault,
}
use rpi_rt_ether_cat_slave_i.Word.{Ulong, ProcBuffer, le_number, zeroed}
use rpi_rt_ether_cat_slave_i.Word.Laws.{set_ul-all}
use rpi_rt_ether_cat_slave_i.Spi.{
  Bus, is_csr_busy, ecat_csr_cmd, ecat_csr_data, esc_read, read_reg_wait,
}
use rpi_rt_ether_cat_slave_i.Spi.Transaction.{read, write, issue}
use rpi_rt_ether_cat_slave_i.Spi.Polling.{Clears, polled, commanded, read_reg_wait-done}
use rpi_rt_ether_cat_slave_i.Base.{
  RpiBase, Machine, incremented, is_read_pending, is_write_pending, ecat_pram_rd_cmd,
  ecat_pram_wr_cmd, wdog_status, al_status_reg_0, esm_op, or_watchdog, reset_words, main_task,
  transfers, spi_write_proc_ram_fifo, on_bus, reset_out, spi_read_proc_ram_fifo,
}
use rpi_rt_ether_cat_slave_i.Base.Fifo.{reset_out-done}
use rpi_rt_ether_cat_slave_i.Base.Exchange.{
  read_started, write_started, spi_read_proc_ram_fifo-done, spi_write_proc_ram_fifo-done,
}

-- How often the chip is found busy in each of the four waits of a cycle.
pub record Waits : Type 0 where
  pub wdog : ℕ
  pub al : ℕ
  pub input : ℕ
  pub output : ℕ

pub reset_words-zeroed : (p : ProcBuffer) → length p.bytes ≡ 32 → reset_words 4 0 p ≡ done tt zeroed
unfolding reset_words
reset_words-zeroed p h = ap (λ q. done tt q) (set_ul-all p 0 0 0 0 h)

module _ {W : Type 0} (bus : Bus W) where
  -- the byte that an indirect read of one byte gets, and the hardware before and after it
  abbrev pub ready : ℕ → ℕ → W → W
  ready address k w = polled bus ecat_csr_cmd k (commanded bus address 1 esc_read w)

  abbrev pub register_byte : ℕ → ℕ → W → ℕ
  register_byte address k w = le_number (issue bus (read ecat_csr_data 1) (ready address k w)).0

  abbrev pub register_read : ℕ → ℕ → W → W
  register_read address k w = (issue bus (read ecat_csr_data 1) (ready address k w)).1

  module _ (n : Waits) (w : W) where
    abbrev pub wdog_byte : ℕ
    wdog_byte = register_byte wdog_status n.wdog w

    abbrev pub al_byte : ℕ
    al_byte = register_byte al_status_reg_0 n.al (register_read wdog_status n.wdog w)

    abbrev pub status_read : W
    status_read = register_read al_status_reg_0 n.al (register_read wdog_status n.wdog w)

    -- The watchdog has not expired and the state machine is in the operational state.
    abbrev pub is_exchanging : Bool
    is_exchanging = has_bit wdog_byte 0 && (al_byte % 16 == esm_op)

    -- the answer to the read of the process RAM, and the hardware after it
    abbrev pub outputs : List ℕ
    outputs =
        (issue bus (read 0x00 32)
          (polled bus ecat_pram_rd_cmd n.input (read_started bus status_read))).0

    abbrev pub inputs_due : W
    inputs_due =
        if is_exchanging
        then (issue bus (read 0x00 32)
            (polled bus ecat_pram_rd_cmd n.input (read_started bus status_read))).1
        else status_read

    abbrev pub sent_from : W
    sent_from = polled bus ecat_pram_wr_cmd n.output (write_started bus inputs_due)

    -- The chip ends each wait of the cycle after the number of polls given.
    pub record Responds (fuel : ℕ) : Type 0 where
      pub wdog_clears :
          Clears bus is_csr_busy ecat_csr_cmd n.wdog (commanded bus wdog_status 1 esc_read w)
      pub al_clears :
          Clears bus is_csr_busy ecat_csr_cmd n.al
            (commanded bus al_status_reg_0 1 esc_read (register_read wdog_status n.wdog w))
      pub input_clears :
          is_exchanging ≡ true
          → Clears bus is_read_pending ecat_pram_rd_cmd n.input (read_started bus status_read)
      pub output_clears :
          Clears bus is_write_pending ecat_pram_wr_cmd n.output (write_started bus inputs_due)
      pub wdog_fuel : n.wdog < fuel
      pub al_fuel : n.al < fuel
      pub input_fuel : n.input < fuel
      pub output_fuel : n.output < fuel

  -- what a cycle does to the output data: takes what the chip sends, or resets `BufferOut`
  abbrev pub base_due : Waits → Machine W → RpiBase
  base_due n s =
      if is_exchanging n s.world
      then record (incremented (incremented s.base)) {
        buffer_out = record { bytes = outputs n s.world };
        buffer_out_eth_to_slave = record { bytes = outputs n s.world };
      }
      else record s.base { buffer_out = zeroed }

  -- `MainTask` as one function of the answers of the chip.
  abbrev pub cycle : Waits → ProcBuffer → Machine W → Machine W
  cycle n p s = record {
    base = record (base_due n s) { buffer_in = p };
    world = (issue bus (write 0x20 p.bytes) (sent_from n s.world)).1;
  }

  abbrev pub cycle_status : Waits → W → ℕ
  cycle_status n w = if has_bit (wdog_byte n w) 0 then al_byte n w % 16 else al_byte n w % 16 + 0x80

  on_bus-done :
      {A : Type 0} (m : M W A) (s : Machine W) {a : A} {w : W}
      → m s.world ≡ done a w
      → on_bus bus m s ≡ done a (record s { world = w })
  on_bus-done m s e =
      ap
        (λ r. elim r [ done a w ↦ done a (record s { world = w }) | fault ↦ fault | spins ↦ spins ])
        e

  module _ (junk : W → Ulong) (fuel : ℕ) (n : Waits) (p : ProcBuffer) (s : Machine W) where
    abbrev middle : Machine W
    middle = record { base = base_due n s; world = inputs_due n s.world }

    slot_kept :
        get_elem? s.base.from_slave_buffer_in s.base.curqoutidx ≡ some p
        → get_elem? middle.base.from_slave_buffer_in middle.base.curqoutidx ≡ some p
    slot_kept h = ground arith

    -- what the cycle does before it writes the outputs
    pub choice :
        length s.base.buffer_out.bytes ≡ 32
        → Responds n s.world fuel
        → (c : Bool) → c ≡ not (is_exchanging n s.world)
        → (if c then reset_out bus junk fuel else spi_read_proc_ram_fifo bus junk fuel)
            (record s { world = status_read n s.world })
          ≡ done tt middle
    choice size r c e = elim (Bool-cases (is_exchanging n s.world)) [
      | inl on ↦
          rw (e, on)
            (spi_read_proc_ram_fifo-done bus junk fuel n.input
              (record s { world = status_read n s.world }) size r.input_fuel (r.input_clears on))
      | inr off ↦
          rw (e, off)
            (reset_out-done bus junk fuel (record s { world = status_read n s.world }) zeroed
              (reset_words-zeroed s.base.buffer_out size))
    ]

    transfers-cycle :
        get_elem? s.base.from_slave_buffer_in s.base.curqoutidx ≡ some p
        → length p.bytes ≡ 32
        → length s.base.buffer_out.bytes ≡ 32
        → Responds n s.world fuel
        → transfers bus junk fuel
            (wdog_byte n s.world)
            (al_byte n s.world)
            (record s { world = status_read n s.world })
          ≡ done (cycle_status n s.world) (cycle n p s)
    unfolding transfers
    transfers-cycle slot size size_out r =
        >>=-done (if c then reset_out bus junk fuel else spi_read_proc_ram_fifo bus junk fuel)
          (λ _. spi_write_proc_ram_fifo bus junk fuel >> pure status)
          (record s { world = status_read n s.world }) (choice size_out r c (ground arith))
        ∙ >>=-done (spi_write_proc_ram_fifo bus junk fuel) (λ _. pure status) middle
            (spi_write_proc_ram_fifo-done bus junk fuel n.output middle p (slot_kept slot) size
              r.output_fuel r.output_clears)
        ∙ ap (λ v. done v (cycle n p s)) (ground arith)
      where
        c : Bool
        c = not (has_bit (wdog_byte n s.world) 0) || not (al_byte n s.world % 16 == esm_op)

        status : ℕ
        status =
            if not (has_bit (wdog_byte n s.world) 0)
            then or_watchdog (al_byte n s.world % 16)
            else al_byte n s.world % 16

    -- `MainTask` reads the two registers and goes on with their low bytes.
    pub main_task-transfers :
        Responds n s.world fuel
        → main_task bus junk fuel s
          ≡ transfers bus junk fuel
              (wdog_byte n s.world)
              (al_byte n s.world)
              (record s { world = status_read n s.world })
    unfolding main_task
    main_task-transfers r =
        let w1 = register_read wdog_status n.wdog s.world in
        let (v1, e1, low1) =
          read_reg_wait-done bus junk fuel n.wdog wdog_status 1 s.world (omega arith) r.wdog_fuel
            r.wdog_clears in
        let (v2, e2, low2) =
          read_reg_wait-done bus junk fuel n.al al_status_reg_0 1 w1 (omega arith) r.al_fuel
            r.al_clears in
        >>=-done (on_bus bus (read_reg_wait bus junk fuel wdog_status 1))
          (λ wdog. on_bus bus (read_reg_wait bus junk fuel al_status_reg_0 1) >>= λ al.
            transfers bus junk fuel (wdog % 256) (al % 256))
          s (on_bus-done (read_reg_wait bus junk fuel wdog_status 1) s e1)
        ∙ >>=-done (on_bus bus (read_reg_wait bus junk fuel al_status_reg_0 1))
            (λ al. transfers bus junk fuel (v1 % 256) (al % 256)) (record s { world = w1 })
            (on_bus-done (read_reg_wait bus junk fuel al_status_reg_0 1) (record s { world = w1 })
              e2)
        ∙ ap₂ (λ a b. transfers bus junk fuel a b (record s { world = status_read n s.world })) low1
            low2

    -- If the slot last published exists and holds 32 bytes, `BufferOut` holds 32 bytes and the
    -- chip ends the waits of the cycle within the fuel, `MainTask` returns, with the status and
    -- the machine that `cycle_status` and `cycle` give as a sequence of whole transactions: the
    -- two status reads, the inputs read from the process RAM if the watchdog allows it and the
    -- slave is operational and `BufferOut` reset otherwise, and the outputs written to the
    -- process RAM.
    pub main_task-cycle :
        get_elem? s.base.from_slave_buffer_in s.base.curqoutidx ≡ some p
        → length p.bytes ≡ 32
        → length s.base.buffer_out.bytes ≡ 32
        → Responds n s.world fuel
        → main_task bus junk fuel s ≡ done (cycle_status n s.world) (cycle n p s)
    main_task-cycle slot size size_out r =
        main_task-transfers r ∙ transfers-cycle slot size size_out r
