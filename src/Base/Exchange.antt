-- ===== src/Base/Exchange.antt =====
-- SPIReadProcRamFifo and SPIWriteProcRamFifo: 32 bytes in one transaction with the process RAM.
use rpi_rt_ether_cat_slave_i.Common.{
  ℕ, ◌≡◌, ◌<◌, refl, sym, [], ◌∷◌, done, arith, length, append-nil, get_elem?, some,
}
use rpi_rt_ether_cat_slave_i.Word.{Ulong, ProcBuffer}
use rpi_rt_ether_cat_slave_i.Spi.{Bus, low}
use rpi_rt_ether_cat_slave_i.Spi.Transaction.{read, write, exchange, issue, write_reg-issue}
use rpi_rt_ether_cat_slave_i.Spi.Polling.{Clears, polled, written, poll-done}
use rpi_rt_ether_cat_slave_i.Base.{
  Machine, incremented, is_read_pending, is_write_pending, ecat_pram_rd_addr_len, ecat_pram_rd_cmd,
  ecat_pram_wr_addr_len, ecat_pram_wr_cmd, write_fifo, spi_read_proc_ram_fifo,
  spi_write_proc_ram_fifo, write_fetched,
}
use rpi_rt_ether_cat_slave_i.Base.Fifo.{read_fifo-exchange, write_fifo-exchange, write_fifo-suc}

module _ {W : Type 0} (bus : Bus W) where
  -- the hardware once a transfer of 32 bytes has been set up at an offset and started
  abbrev pub started : ℕ → ℕ → ℕ → W → W
  started addr_len command set_up w = written bus command 0x80000000 (written bus addr_len set_up w)

  abbrev pub write_started : W → W
  write_started = started ecat_pram_wr_addr_len ecat_pram_wr_cmd 0x00201200

  abbrev pub read_started : W → W
  read_started = started ecat_pram_rd_addr_len ecat_pram_rd_cmd 0x00201000

  write_loop :
      (s : Machine W)
      → length s.base.buffer_in.bytes ≡ 32
      → write_fifo bus 32 0 s
        ≡ done tt (record s { world = (exchange bus s.base.buffer_in.bytes s.world).1 })
  write_loop s h =
      write_fifo-exchange bus 32 0 [] s.base.buffer_in.bytes [] s refl (sym h)
        (sym (append-nil s.base.buffer_in.bytes))

  module _ (junk : W → Ulong) (fuel k : ℕ) (s : Machine W) where
    -- If `BufferIn` holds 32 bytes and the fifo is not ready for `k` polls with `k` less than
    -- the fuel, `SPIWriteProcRamFifo` returns from all but its first statement: the 32 bytes go
    -- to the process RAM in one transaction, the last one.
    pub write_fetched-done :
        length s.base.buffer_in.bytes ≡ 32
        → k < fuel
        → Clears bus is_write_pending ecat_pram_wr_cmd k (write_started s.world)
        → let w = polled bus ecat_pram_wr_cmd k (write_started s.world) in
          write_fetched bus junk fuel s
          ≡ done tt (record s { world = (issue bus (write 0x20 s.base.buffer_in.bytes) w).1 })
    unfolding issue
    write_fetched-done size lt clears = ground (
      arith,
      write_reg-issue bus ecat_pram_wr_addr_len 0x00201200 s.world,
      write_reg-issue bus ecat_pram_wr_cmd 0x80000000
          (written bus ecat_pram_wr_addr_len 0x00201200 s.world),
      poll-done bus junk fuel ecat_pram_wr_cmd k is_write_pending (write_started s.world) lt clears,
      write_fifo-suc bus 31 0 inner,
      write_loop inner size,
    )
      where
        inner : Machine W
        inner = record s {
          world =
              (exchange bus (0x02 ∷ 0x00 ∷ 0x20 ∷ [])
                (bus.gpio_write low (polled bus ecat_pram_wr_cmd k (write_started s.world)))).1;
        }

    -- If `BufferOut` holds 32 bytes and the fifo is not ready for `k` polls with `k` less than
    -- the fuel, `SPIReadProcRamFifo` returns: the 32 bytes that the process RAM sends in the
    -- last transaction are both `BufferOut` and the copy for the application, and the counter
    -- has gone up by two.
    pub spi_read_proc_ram_fifo-done :
        length s.base.buffer_out.bytes ≡ 32
        → k < fuel
        → Clears bus is_read_pending ecat_pram_rd_cmd k (read_started s.world)
        → let w = polled bus ecat_pram_rd_cmd k (read_started s.world) in
          let p : ProcBuffer = record { bytes = (issue bus (read 0x00 32) w).0 } in
          spi_read_proc_ram_fifo bus junk fuel s
          ≡ done tt (record {
            base = record (incremented (incremented s.base)) {
              buffer_out = p;
              buffer_out_eth_to_slave = p;
            };
            world = (issue bus (read 0x00 32) w).1;
          })
    unfolding spi_read_proc_ram_fifo issue
    spi_read_proc_ram_fifo-done size lt clears = ground (
      arith,
      write_reg-issue bus ecat_pram_rd_addr_len 0x00201000 s.world,
      write_reg-issue bus ecat_pram_rd_cmd 0x80000000
          (written bus ecat_pram_rd_addr_len 0x00201000 s.world),
      poll-done bus junk fuel ecat_pram_rd_cmd k is_read_pending (read_started s.world) lt clears,
      read_fifo-exchange bus 32 0 [] s.base.buffer_out.bytes inner refl (sym size) (omega arith)
          refl,
    )
      where
        inner : Machine W
        inner = record {
          base = incremented s.base;
          world =
              (exchange bus (0x03 ∷ 0x00 ∷ 0x00 ∷ [])
                (bus.gpio_write low (polled bus ecat_pram_rd_cmd k (read_started s.world)))).1;
        }

  -- If the slot last published exists and holds 32 bytes, and the fifo is not ready for `k` polls
  -- with `k` less than the fuel, `SPIWriteProcRamFifo` returns: the slot is the new `BufferIn`,
  -- and its 32 bytes go to the process RAM in one transaction, the last one.
  pub spi_write_proc_ram_fifo-done :
      (junk : W → Ulong) (fuel k : ℕ) (s : Machine W) (p : ProcBuffer)
      → get_elem? s.base.from_slave_buffer_in s.base.curqoutidx ≡ some p
      → length p.bytes ≡ 32
      → k < fuel
      → Clears bus is_write_pending ecat_pram_wr_cmd k (write_started s.world)
      → let w = polled bus ecat_pram_wr_cmd k (write_started s.world) in
        spi_write_proc_ram_fifo bus junk fuel s
        ≡ done tt (record {
          base = record s.base { buffer_in = p };
          world = (issue bus (write 0x20 p.bytes) w).1;
        })
  unfolding spi_write_proc_ram_fifo
  spi_write_proc_ram_fifo-done junk fuel k s p slot size lt clears =
      let s' : Machine W = record s { base = record s.base { buffer_in = p } } in
      ground (arith, slot, write_fetched-done junk fuel k s' size lt clears)
