-- ===== src/Spi/Transaction.antt =====
-- What the register accesses of Spi.antt amount to: one SPI transaction each, which is one command of
-- the LAN9252 in the format of its data sheet (operation, address with the high byte first, data).
use rpi_rt_ether_cat_slave_i.Common.{
  ℕ, ◌/◌, ◌%◌, ◌≡◌, refl, List, [], ◌∷◌, done, arith, replicate, drop,
}
use rpi_rt_ether_cat_slave_i.Word.{Ulong, le_bytes, le_number}
use rpi_rt_ether_cat_slave_i.Spi.{
  Bus, low, high, comm_spi_read, comm_spi_write, dummy_byte, write_reg, read_reg,
}

pub data Command : Type 0 where
  read : (address len : ℕ) → Command
  write : (address : ℕ) (payload : List ℕ) → Command

abbrev pub encode : Command → List ℕ
encode (read a n) = comm_spi_read ∷ a / 256 % 256 ∷ a % 256 ∷ replicate n dummy_byte
encode (write a p) = comm_spi_write ∷ a / 256 % 256 ∷ a % 256 ∷ p

module _ {W : Type 0} (bus : Bus W) where
  -- sends the bytes in turn and collects those received
  unfoldable pub exchange : List ℕ → W → List ℕ × W
  exchange [] w = ([], w)
  exchange (b ∷ bs) w =
      let (r, w') = bus.transfer b w in let (rs, w'') = exchange bs w' in (r % 256 ∷ rs, w'')

  -- one transaction, chip select low to chip select high; what comes back behind the three bytes of
  -- operation and address
  unfoldable pub issue : Command → W → List ℕ × W
  unfolding exchange
  issue c w =
      let (rs, w') = exchange (encode c) (bus.gpio_write low w) in
      (drop 3 rs, bus.gpio_write high w')

  pub write_reg-issue :
      (a v : ℕ) (w : W) → write_reg bus a v w ≡ done tt (issue (write a (le_bytes 4 v)) w).1
  unfolding write_reg issue
  write_reg-issue a v w = refl

  module _ (junk : W → Ulong) where
    pub read_reg-issue :
        (a : ℕ) (w : W)
        → read_reg bus junk a 4 w ≡ done (le_number (issue (read a 4) w).0) (issue (read a 4) w).1
    unfolding read_reg issue
    read_reg-issue a w = ground arith
