-- ===== src/Spi.antt =====
-- rpi_base/src/rpi_base.cpp: the SPI transfers and the registers of the LAN9252.
pub mod Transaction
pub mod Polling
pub mod Wire
pub mod Safe
mod Tests
use rpi_rt_ether_cat_slave_i.Common.{
  ℕ, zero, suc, ◌+◌, ◌%◌, Bool, true, false, Option, none, some, Run, done, fault, spins, M, pure,
  ◌>>=◌, ◌>>◌, if◌then◌else◌, has_bit,
}
use rpi_rt_ether_cat_slave_i.Word.{Uword, uword_of, Ulong, ulong_of, long_of, set_byte}

-- What the code calls of the bcm2835 library to reach the chip, over the state `W` of the hardware.
pub record Bus (W : Type 0) : Type 0 where
  -- `bcm2835_spi_transfer`: sends a byte and returns the one received
  pub transfer : ℕ → W → ℕ × W
  -- `bcm2835_gpio_write(PIN, level)`, on the chip select pin
  pub gpio_write : Bool → W → W

abbrev pub low : Bool
low = false

abbrev pub high : Bool
high = true

abbrev pub comm_spi_read : ℕ
comm_spi_read = 0x03

abbrev pub comm_spi_write : ℕ
comm_spi_write = 0x02

abbrev pub dummy_byte : ℕ
dummy_byte = 0xFF

abbrev pub esc_write : ℕ
esc_write = 0x80

abbrev pub esc_read : ℕ
esc_read = 0xC0

abbrev pub ecat_csr_data : ℕ
ecat_csr_data = 0x0300

abbrev pub ecat_csr_cmd : ℕ
ecat_csr_cmd = 0x0304

-- `Byte[3] & ECAT_CSR_BUSY`, with ECAT_CSR_BUSY 0x80
abbrev pub is_csr_busy : Ulong → Bool
is_csr_busy u = has_bit u.byte3 7

module _ {W : Type 0} (bus : Bus W) where
  abbrev pub scs_low : M W (Unit {0})
  scs_low w = done tt (bus.gpio_write low w)

  abbrev pub scs_high : M W (Unit {0})
  scs_high w = done tt (bus.gpio_write high w)

  abbrev pub spi_write : ℕ → M W (Unit {0})
  spi_write byte w = done tt (bus.transfer byte w).1

  -- the result is an `unsigned char`
  abbrev pub spi_read : ℕ → M W ℕ
  spi_read byte w = done ((bus.transfer byte w).0 % 256) (bus.transfer byte w).1

  unfoldable pub write_reg : ℕ → ℕ → M W (Unit {0})
  write_reg address data_out =
      let addr = uword_of address in
      let long = ulong_of data_out in
      do
        scs_low
        spi_write comm_spi_write
        spi_write addr.byte1
        spi_write addr.byte0
        spi_write long.byte0
        spi_write long.byte1
        spi_write long.byte2
        spi_write long.byte3
        scs_high

  -- the store of one received byte; one past the union is outside the object
  abbrev pub store_byte : Ulong → ℕ → ℕ → M W Ulong
  store_byte result i v w = elim (set_byte result i v) [ none ↦ fault | some u ↦ done u w ]

  -- the loop of `Read_Reg`, with `n` rounds left
  unfoldable pub read_bytes : ℕ → ℕ → Ulong → M W Ulong
  read_bytes zero i result = pure result
  read_bytes (suc n) i result = do
    v ← spi_read dummy_byte
    r ← store_byte result i v
    read_bytes n (i + 1) r

  -- `junk` is what the uninitialised `Result` holds.
  module _ (junk : W → Ulong) where
    unfoldable pub read_reg : ℕ → ℕ → M W ℕ
    unfolding read_bytes
    read_reg address len w =
        let addr = uword_of address in
        (do
          scs_low
          spi_write comm_spi_read
          spi_write addr.byte1
          spi_write addr.byte0
          result ← read_bytes len 0 (junk w)
          scs_high
          pure (long_of result))
          w

    -- `do { TempLong.Long = Read_Reg(register, 4) } while (again TempLong)`, on fuel
    unfoldable pub poll : ℕ → ℕ → (Ulong → Bool) → M W (Unit {0})
    poll zero register again w = spins
    poll (suc fuel) register again w =
        let rest = λ (w' : W). poll fuel register again w' in
        (do long ← read_reg register 4; λ w'. if again (ulong_of long) then rest w' else done tt w')
          w

    unfoldable pub read_reg_wait : ℕ → ℕ → ℕ → M W ℕ
    read_reg_wait fuel address len =
        let addr = uword_of address in
        let command : Ulong = record {
          byte0 = addr.byte0;
          byte1 = addr.byte1;
          byte2 = len;
          byte3 = esc_read;
        } in
        do
          write_reg ecat_csr_cmd (long_of command)
          poll fuel ecat_csr_cmd is_csr_busy
          read_reg ecat_csr_data len

    unfoldable pub write_reg_wait : ℕ → ℕ → ℕ → M W (Unit {0})
    write_reg_wait fuel address data_out =
        let addr = uword_of address in
        let command : Ulong = record {
          byte0 = addr.byte0;
          byte1 = addr.byte1;
          byte2 = 4;
          byte3 = esc_write;
        } in
        do
          write_reg ecat_csr_data data_out
          write_reg ecat_csr_cmd (long_of command)
          poll fuel ecat_csr_cmd is_csr_busy
