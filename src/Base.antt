-- ===== src/Base.antt =====
-- rpi_base/src/rpi_base.cpp: the state of class rpi_base, the buffers between the application and the
-- EtherCAT task, and the EtherCAT task itself.
pub mod Fifo
pub mod Cycle
pub mod Queue
pub mod Valid
pub mod Outcome
pub mod Construct
pub mod Interleaved
pub mod Preserves
pub mod Typed
pub mod Safe
mod Tests
pub mod Exchange
use rpi_rt_ether_cat_slave_i.Common.{
  ℕ, zero, suc, ◌+◌, ◌%◌, ◌^◌, Bool, true, false, not, ◌||◌, Option, none, some, List, [], ◌∷◌,
  done, fault, spins, M, pure, ◌>>=◌, ◌>>◌, if◌then◌else◌, has_bit, ltb, leb, ◌==◌, get_elem?, set,
}
use rpi_rt_ether_cat_slave_i.Word.{Ulong, ulong_of, ProcBuffer, set_ul}
use rpi_rt_ether_cat_slave_i.Spi.{
  Bus, scs_low, scs_high, spi_write, spi_read, write_reg, poll, read_reg_wait, comm_spi_read,
  comm_spi_write, dummy_byte,
}

-- `QINSize`
abbrev pub qin_size : ℕ
qin_size = 10

abbrev pub wdog_status : ℕ
wdog_status = 0x0440

abbrev pub al_status_reg_0 : ℕ
al_status_reg_0 = 0x0130

abbrev pub esm_op : ℕ
esm_op = 0x08

abbrev pub ecat_pram_rd_addr_len : ℕ
ecat_pram_rd_addr_len = 0x0308

abbrev pub ecat_pram_rd_cmd : ℕ
ecat_pram_rd_cmd = 0x030C

abbrev pub ecat_pram_wr_addr_len : ℕ
ecat_pram_wr_addr_len = 0x0310

abbrev pub ecat_pram_wr_cmd : ℕ
ecat_pram_wr_cmd = 0x0314

-- The data members of class rpi_base that the cyclic exchange uses.
pub record RpiBase : Type 0 where
  pub curqidx : ℕ
  pub curqoutidx : ℕ
  pub buffer_out_eth_to_slave : ProcBuffer
  pub buffer_out : ProcBuffer
  pub from_slave_buffer_in : List ProcBuffer
  pub buffer_in : ProcBuffer
  pub lastruntime : ℕ
  pub laststart : ℕ
  pub count : ℕ
  pub atomiccounter : ℕ

-- `rpi_base::rpi_base`, on the memory that the object is made in: what it does not assign stays as it
-- was. Its call of `isrealtime` touches no member.
unfoldable pub construct : RpiBase → RpiBase
construct raw = record raw {
  curqidx = 0;
  atomiccounter = 0;
  count = 0;
  laststart = 0;
  lastruntime = 0;
}

-- the store `ul[i] = v` into a PROCBUFFER, a fault if there is no `ul[i]`
abbrev pub store_ul : ℕ → ℕ → M ProcBuffer (Unit {0})
store_ul i v p = if ltb i 4 then done tt (set_ul p i v) else fault

-- the store `fromSlaveBufferIn[m_curqidx].ul[i] = v`
abbrev pub store_word : ℕ → ℕ → M RpiBase (Unit {0})
store_word i v s = elim (get_elem? s.from_slave_buffer_in s.curqidx) [
  | none ↦ fault
  | some p ↦ elim (store_ul i v p) [
    | done u q ↦
        done tt (record s { from_slave_buffer_in = set s.from_slave_buffer_in s.curqidx q })
    | fault ↦ fault
    | spins ↦ spins
  ]
]

-- the loop of `send_output`, with `n` rounds left; reading past the end of `source` is a fault
unfoldable pub copy_words : ℕ → ℕ → List ℕ → M RpiBase (Unit {0})
copy_words zero i source = pure tt
copy_words (suc n) i [] = λ s. fault
copy_words (suc n) i (v ∷ source) = do store_word i v; copy_words n (i + 1) source

abbrev pub advance : ℕ → ℕ
advance idx = let next = (idx + 1) % 2 ^ 32 in if leb qin_size next then 0 else next

unfoldable pub send_output : List ℕ → M RpiBase (Unit {0})
unfolding copy_words
send_output source = do
  copy_words 4 0 source
  λ s. done tt (record s { curqoutidx = s.curqidx; curqidx = advance s.curqidx })

-- The object and the hardware.
pub record Machine (W : Type 0) : Type 0 where
  pub base : RpiBase
  pub world : W

-- `!(TempLong.Byte[0] & PRAM_READ_AVAIL) || (TempLong.Byte[1] != 8)`
abbrev pub is_read_pending : Ulong → Bool
is_read_pending u = not (has_bit u.byte0 0) || not (u.byte1 == 8)

-- `!(TempLong.Byte[0] & PRAM_WRITE_AVAIL) || (TempLong.Byte[1] < 8)`
abbrev pub is_write_pending : Ulong → Bool
is_write_pending u = not (has_bit u.byte0 0) || ltb u.byte1 8

abbrev pub incremented : RpiBase → RpiBase
incremented s = record s { atomiccounter = (s.atomiccounter + 1) % 2 ^ 32 }

-- `Status |= 0x80`
abbrev pub or_watchdog : ℕ → ℕ
or_watchdog status = if has_bit status 7 then status else status + 0x80

-- the loop `BufferOut.ul[i] = 0` of `MainTask`, with `n` rounds left
unfoldable pub reset_words : ℕ → ℕ → M ProcBuffer (Unit {0})
reset_words zero i = pure tt
reset_words (suc n) i = do store_ul i 0; reset_words n (i + 1)

module _ {W : Type 0} (bus : Bus W) where
  abbrev pub on_bus : {A : Type 0} → M W A → M (Machine W) A
  on_bus m s = elim (m s.world) [
    | done a w ↦ done a (record s { world = w })
    | fault ↦ fault
    | spins ↦ spins
  ]

  abbrev pub modify : (RpiBase → RpiBase) → M (Machine W) (Unit {0})
  modify f s = done tt (record s { base = f s.base })

  -- the store `BufferOut.Byte[i] = b`, a fault if there is no `Byte[i]`
  abbrev pub store_out : ℕ → ℕ → M (Machine W) (Unit {0})
  store_out i b =
      if ltb i 32
      then (modify λ s. record s { buffer_out = record { bytes = set s.buffer_out.bytes i b } })
      else (λ s. fault)

  -- the loop that fills `BufferOut.Byte` from the read fifo, with `n` rounds left
  unfoldable pub read_fifo : ℕ → ℕ → M (Machine W) (Unit {0})
  read_fifo zero i = pure tt
  read_fifo (suc n) i = do b ← on_bus (spi_read bus dummy_byte); store_out i b; read_fifo n (i + 1)

  -- `SPI_Write(BufferIn.Byte[i])`
  abbrev pub write_in : ℕ → M (Machine W) (Unit {0})
  write_in i s = elim (get_elem? s.base.buffer_in.bytes i) [
    | none ↦ fault
    | some b ↦ on_bus (spi_write bus b) s
  ]

  -- the loop that sends `BufferIn.Byte`, with `n` rounds left
  unfoldable pub write_fifo : ℕ → ℕ → M (Machine W) (Unit {0})
  write_fifo zero i = pure tt
  write_fifo (suc n) i = do write_in i; write_fifo n (i + 1)

  -- `BufferIn = fromSlaveBufferIn[m_curqoutidx]`
  abbrev pub fetch : M (Machine W) (Unit {0})
  fetch s = elim (get_elem? s.base.from_slave_buffer_in s.base.curqoutidx) [
    | none ↦ fault
    | some p ↦ modify (λ b. record b { buffer_in = p }) s
  ]

  module _ (junk : W → Ulong) (fuel : ℕ) where
    unfoldable pub spi_read_proc_ram_fifo : M (Machine W) (Unit {0})
    spi_read_proc_ram_fifo = do
      modify incremented
      on_bus (write_reg bus ecat_pram_rd_addr_len 0x00201000)
      on_bus (write_reg bus ecat_pram_rd_cmd 0x80000000)
      on_bus (poll bus junk fuel ecat_pram_rd_cmd is_read_pending)
      on_bus (scs_low bus)
      on_bus (spi_write bus comm_spi_read)
      on_bus (spi_write bus 0x00)
      on_bus (spi_write bus 0x00)
      read_fifo 32 0
      modify λ s. record s { buffer_out_eth_to_slave = s.buffer_out }
      on_bus (scs_high bus)
      modify incremented

    -- `SPIWriteProcRamFifo` after its first statement
    abbrev pub write_fetched : M (Machine W) (Unit {0})
    write_fetched = do
      on_bus (write_reg bus ecat_pram_wr_addr_len 0x00201200)
      on_bus (write_reg bus ecat_pram_wr_cmd 0x80000000)
      on_bus (poll bus junk fuel ecat_pram_wr_cmd is_write_pending)
      on_bus (scs_low bus)
      on_bus (spi_write bus comm_spi_write)
      on_bus (spi_write bus 0x00)
      on_bus (spi_write bus 0x20)
      write_fifo 31 0
      write_in 31
      on_bus (scs_high bus)

    unfoldable pub spi_write_proc_ram_fifo : M (Machine W) (Unit {0})
    spi_write_proc_ram_fifo = do fetch; write_fetched

    abbrev pub reset_out : M (Machine W) (Unit {0})
    reset_out s = elim (reset_words 4 0 s.base.buffer_out) [
      | done u p ↦ done tt (record s { base = record s.base { buffer_out = p } })
      | fault ↦ fault
      | spins ↦ spins
    ]

    -- `MainTask` after the two reads, on the low bytes that they gave
    unfoldable pub transfers : ℕ → ℕ → M (Machine W) ℕ
    transfers wdog al =
        let watch_dog = not (has_bit wdog 0) in
        let status = al % 16 in
        let operational = status == esm_op in
        do
          if watch_dog || not operational then reset_out else spi_read_proc_ram_fifo
          spi_write_proc_ram_fifo
          pure (if watch_dog then or_watchdog status else status)

    unfoldable pub main_task : M (Machine W) ℕ
    main_task = do
      wdog ← on_bus (read_reg_wait bus junk fuel wdog_status 1)
      al ← on_bus (read_reg_wait bus junk fuel al_status_reg_0 1)
      transfers (ulong_of wdog).byte0 (ulong_of al).byte0
