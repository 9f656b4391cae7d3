-- ===== src/Spi/Wire.antt =====
-- The bytes that a register access puts on the wire, as the LAN9252 reads them.
use rpi_rt_ether_cat_slave_i.Common.{
  ℕ, ◌+◌, ◌*◌, ◌%◌, ◌^◌, ◌<◌, ◌≡◌, refl, List, [], ◌∷◌, ◌++◌, Option, none, some, done, arith,
  length, if◌then◌else◌, ◌==◌,
}
use rpi_rt_ether_cat_slave_i.Word.{Ulong, le_bytes, le_number}
use rpi_rt_ether_cat_slave_i.Spi.{Bus, write_reg, read_reg, read_bytes}
use rpi_rt_ether_cat_slave_i.Spi.Transaction.{Command, read, write}

-- A chip that answers `reply n` to the n-th byte of a transaction and keeps what was sent since the
-- last falling edge of chip select.
abbrev pub recorder : (ℕ → ℕ) → Bus (List ℕ)
recorder reply = record {
  transfer = λ b log. (reply (length log), log ++ b ∷ []);
  gpio_write = λ level log. if level then log else [];
}

-- The command that a transaction carries, in the format of the data sheet.
abbrev pub decode : List ℕ → Option Command
decode [] = none
decode (o ∷ []) = none
decode (o ∷ h ∷ []) = none
decode (o ∷ h ∷ l ∷ rest) =
    if o == 0x03
    then some (read (256 * h + l) (length rest))
    else (if o == 0x02 then some (write (256 * h + l) rest) else none)

-- For a register address below 2 ^ 16, the bytes that `Write_Reg` sends decode as a write of the 4
-- bytes of the value, lowest first, to that register.
pub write_reg-decode :
    (reply : ℕ → ℕ) (a v : ℕ) (log : List ℕ)
    → a < 2 ^ 16
    → (sent : List ℕ) × (write_reg (recorder reply) a v log ≡ done tt sent)
      × (decode sent ≡ some (write a (le_bytes 4 v)))
unfolding write_reg
write_reg-decode reply a v log h = (_, refl, ground arith)

-- For a register address below 2 ^ 16, the bytes that `Read_Reg` sends decode as a read of 4 bytes
-- from that register, and the value returned is the number that the 4 replies behind the command
-- stand for, lowest first.
pub read_reg-decode :
    (reply : ℕ → ℕ) (junk : List ℕ → Ulong) (a : ℕ) (log : List ℕ)
    → a < 2 ^ 16
    → (sent : List ℕ) × (v : ℕ) × (read_reg (recorder reply) junk a 4 log ≡ done v sent)
      × (decode sent ≡ some (read a 4))
      × (v ≡ le_number (reply 3 % 256 ∷ reply 4 % 256 ∷ reply 5 % 256 ∷ reply 6 % 256 ∷ []))
unfolding read_reg read_bytes
read_reg-decode reply junk a log h = (_, _, refl, ground arith, ground arith)
