-- ===== src/Spi/Tests.antt =====
-- Tests of the register accesses, and their theorems at a concrete chip.
use rpi_rt_ether_cat_slave_i.Common.{
  ℕ, ◌+◌, ◌^◌, ◌%◌, ◌≡◌, refl, List, [], ◌∷◌, some, done, spins, arith,
}
use rpi_rt_ether_cat_slave_i.Word.{le_bytes, le_number}
use rpi_rt_ether_cat_slave_i.Spi.{
  read_reg, write_reg, read_bytes, poll, read_reg_wait, write_reg_wait, is_csr_busy, ecat_csr_cmd,
  ecat_csr_data, esc_read, esc_write,
}
use rpi_rt_ether_cat_slave_i.Spi.Transaction.{read, write, issue}
use rpi_rt_ether_cat_slave_i.Spi.Polling.{
  Clears, polled, commanded, written, read_reg_wait-done, write_reg_wait-done,
}
use rpi_rt_ether_cat_slave_i.Spi.Wire.{recorder, decode, write_reg-decode, read_reg-decode}
use rpi_rt_ether_cat_slave_i.Demo.{chip, chip_bus, garbage}

-- The byte test register, read directly.
read_byte_test :
    read_reg chip_bus garbage 0x64 4 chip
    ≡ done 0x87654321 (record chip { log = 3 ∷ 0 ∷ 0x64 ∷ 255 ∷ 255 ∷ 255 ∷ 255 ∷ [] })
unfolding read_reg read_bytes
read_byte_test = refl

-- With two rounds of fuel the loop does not see the end of the command.
spins_example : read_reg_wait chip_bus garbage 2 0x440 1 chip ≡ spins
unfolding read_reg_wait read_reg read_bytes write_reg poll
spins_example = refl

watchdog-Clears :
    Clears chip_bus is_csr_busy ecat_csr_cmd 2 (commanded chip_bus 0x440 1 esc_read chip)
unfolding issue
watchdog-Clears = (refl, (refl, refl))

read_reg_wait-done_example :
    let w2 = polled chip_bus ecat_csr_cmd 2 (commanded chip_bus 0x440 1 esc_read chip) in
    (v : ℕ) × (read_reg_wait chip_bus garbage 3 0x440 1 chip
      ≡ done v (issue chip_bus (read ecat_csr_data 1) w2).1)
    × (v % 256 ^ 1 ≡ le_number (issue chip_bus (read ecat_csr_data 1) w2).0)
read_reg_wait-done_example =
    read_reg_wait-done chip_bus garbage 3 2 0x440 1 chip (omega arith) (omega arith) watchdog-Clears

mask-Clears :
    Clears chip_bus is_csr_busy ecat_csr_cmd 2
      (commanded chip_bus 0x204 4 esc_write (written chip_bus ecat_csr_data 0x100 chip))
unfolding issue
mask-Clears = (refl, (refl, refl))

mask_written :
    write_reg_wait chip_bus garbage 5 0x204 0x100 chip
    ≡ done tt (
        polled chip_bus ecat_csr_cmd 2
          (commanded chip_bus 0x204 4 esc_write (written chip_bus ecat_csr_data 0x100 chip)))
mask_written = write_reg_wait-done chip_bus garbage 5 2 0x204 0x100 chip (omega arith) mask-Clears

write_reg-decode_example :
    (sent : List ℕ) × (write_reg (recorder (λ i. 0)) 0x304 0xC0010440 [] ≡ done tt sent)
    × (decode sent ≡ some (write 0x304 (le_bytes 4 0xC0010440)))
write_reg-decode_example = write_reg-decode (λ i. 0) 0x304 0xC0010440 [] (omega arith)

read_reg-decode_example :
    (sent : List ℕ) × (v : ℕ) × (read_reg
        (recorder (λ i. i + 30))
        (λ l. record { byte0 = 9; byte1 = 9; byte2 = 9; byte3 = 9 })
        0x64
        4
        []
      ≡ done v sent)
    × (decode sent ≡ some (read 0x64 4))
    × (v ≡ le_number (33 ∷ 34 ∷ 35 ∷ 36 ∷ []))
read_reg-decode_example =
    read_reg-decode (λ i. i + 30) (λ l. record { byte0 = 9; byte1 = 9; byte2 = 9; byte3 = 9 }) 0x64
      [] (omega arith)
