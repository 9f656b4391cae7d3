-- ===== src/Spi/Polling.antt =====
-- The loops that wait for the LAN9252, against the replies of the chip: `k` polls that find it busy
-- and one that does not end the loop, and `k + 1` rounds are enough.
use rpi_rt_ether_cat_slave_i.Common.{
  ℕ, zero, suc, ◌/◌, ◌%◌, ◌^◌, ◌≤◌, ◌<◌, ◌≡◌, refl, Bool, true, false, [], ◌∷◌, done, spins, fault,
  arith,
}
use rpi_rt_ether_cat_slave_i.Word.{Ulong, ulong_of, long_of, le_bytes, le_number}
use rpi_rt_ether_cat_slave_i.Word.Laws.{le_bytes-long_of}
use rpi_rt_ether_cat_slave_i.Spi.{
  Bus, read_reg, poll, read_reg_wait, write_reg_wait, is_csr_busy, ecat_csr_cmd, ecat_csr_data,
  esc_read, esc_write,
}
use rpi_rt_ether_cat_slave_i.Spi.Transaction.{
  Command, read, write, issue, write_reg-issue, read_reg-issue,
}

module _ {W : Type 0} (bus : Bus W) where
  -- what the chip answers to a poll of a register, and the hardware after it
  abbrev pub answer : ℕ → W → Ulong
  answer register w = ulong_of (le_number (issue bus (read register 4) w).0)

  abbrev pub after : ℕ → W → W
  after register w = (issue bus (read register 4) w).1

  -- The chip answers `busy` to the first `k` polls and not to the next.
  abbrev pub Clears : (Ulong → Bool) → ℕ → ℕ → W → Type 0
  Clears busy register zero w = busy (answer register w) ≡ false
  Clears busy register (suc k) w =
      (busy (answer register w) ≡ true) × Clears busy register k (after register w)

  -- The chip answers `busy` to the first `k` polls at least.
  abbrev pub Stuck : (Ulong → Bool) → ℕ → ℕ → W → Type 0
  Stuck busy register zero w = Unit {0}
  Stuck busy register (suc k) w =
      (busy (answer register w) ≡ true) × Stuck busy register k (after register w)

  -- the hardware after `k + 1` polls
  abbrev pub polled : ℕ → ℕ → W → W
  polled register zero w = after register w
  polled register (suc k) w = polled register k (after register w)

  module _ (junk : W → Ulong) where
    pub poll-done :
        (fuel register k : ℕ) (busy : Ulong → Bool) (w : W)
        → k < fuel
        → Clears busy register k w
        → poll bus junk fuel register busy w ≡ done tt (polled register k w)
    unfolding poll
    poll-done zero register k busy w lt h = absurd (omega arith)
    poll-done (suc fuel) register zero busy w lt h =
        ground (arith, read_reg-issue bus junk register w)
    poll-done (suc fuel) register (suc k) busy w lt h = ground (
      arith,
      read_reg-issue bus junk register w,
      poll-done fuel register k busy (after register w),
    )

    pub poll-spins :
        (fuel register : ℕ) (busy : Ulong → Bool) (w : W)
        → Stuck busy register fuel w
        → poll bus junk fuel register busy w ≡ spins
    unfolding poll
    poll-spins zero register busy w h = refl
    poll-spins (suc fuel) register busy w h = ground (
      arith,
      read_reg-issue bus junk register w,
      poll-spins fuel register busy (after register w),
    )

    -- A read of 1 to 4 bytes, and of none, is one transaction; the low bytes of the value are
    -- those received, and the others are what the uninitialised union held.
    pub read_reg-low_bytes :
        (a len : ℕ) (w : W)
        → len ≤ 4
        → (v : ℕ) × (read_reg bus junk a len w ≡ done v (issue bus (read a len) w).1)
          × (v % 256 ^ len ≡ le_number (issue bus (read a len) w).0)
    unfolding read_reg issue
    read_reg-low_bytes a zero w h = (_, refl, omega arith)
    read_reg-low_bytes a (suc zero) w h = (_, refl, omega arith)
    read_reg-low_bytes a (suc (suc zero)) w h = (_, refl, omega arith)
    read_reg-low_bytes a (suc (suc (suc zero))) w h = (_, refl, omega arith)
    read_reg-low_bytes a (suc (suc (suc (suc zero)))) w h = (_, refl, omega arith)
    read_reg-low_bytes a (suc (suc (suc (suc (suc n))))) w h = absurd (omega arith)

    -- A read of more than 4 bytes writes past the end of `Result`.
    pub read_reg-fault :
        (a n : ℕ) (w : W) → read_reg bus junk a (suc (suc (suc (suc (suc n))))) w ≡ fault
    unfolding read_reg
    read_reg-fault a n w = refl

-- the command word that the code composes for the EtherCAT core: register address, low byte first,
-- number of bytes, operation
abbrev pub csr_command : ℕ → ℕ → ℕ → Command
csr_command address len operation =
    write ecat_csr_cmd (address % 256 ∷ address / 256 % 256 ∷ len ∷ operation ∷ [])

module _ {W : Type 0} (bus : Bus W) where
  -- the hardware after a command to the EtherCAT core
  abbrev pub commanded : ℕ → ℕ → ℕ → W → W
  commanded address len operation w = (issue bus (csr_command address len operation) w).1

  -- the hardware after a direct write
  abbrev pub written : ℕ → ℕ → W → W
  written register value w = (issue bus (write register (le_bytes 4 value)) w).1

module _ {W : Type 0} (bus : Bus W) (junk : W → Ulong) where
  -- If the core is busy for `k` polls after the command and `k` is less than the fuel, an
  -- indirect read of at most 4 bytes returns: it sends the command, polls until the core is no
  -- longer busy and reads the data register once, and the low bytes of its value are the bytes of
  -- that read, lowest first.
  pub read_reg_wait-done :
      (fuel k address len : ℕ) (w : W)
      → len ≤ 4
      → k < fuel
      → Clears bus is_csr_busy ecat_csr_cmd k (commanded bus address len esc_read w)
      → let w2 = polled bus ecat_csr_cmd k (commanded bus address len esc_read w) in
        (v : ℕ) × (read_reg_wait bus junk fuel address len w
          ≡ done v (issue bus (read ecat_csr_data len) w2).1)
        × (v % 256 ^ len ≡ le_number (issue bus (read ecat_csr_data len) w2).0)
  unfolding read_reg_wait
  read_reg_wait-done fuel k address len w small lt clears =
      let w1 = commanded bus address len esc_read w in
      let w2 = polled bus ecat_csr_cmd k w1 in
      let (v, e, b) = read_reg-low_bytes bus junk ecat_csr_data len w2 small in
      let command : Ulong = record {
        byte0 = address % 256;
        byte1 = address / 256 % 256;
        byte2 = len;
        byte3 = esc_read;
      } in
      (
        v,
        ground (
          arith,
          le_bytes-long_of command (omega arith),
          write_reg-issue bus ecat_csr_cmd (long_of command) w,
          poll-done bus junk fuel ecat_csr_cmd k is_csr_busy w1 lt clears,
          e,
        ),
        b,
      )

  -- If the core is busy for `k` polls after the command and `k` is less than the fuel, an
  -- indirect write returns: it writes the data register, sends the command for 4 bytes and polls
  -- until the core is no longer busy.
  pub write_reg_wait-done :
      (fuel k address value : ℕ) (w : W)
      → k < fuel
      → Clears bus is_csr_busy ecat_csr_cmd k
          (commanded bus address 4 esc_write (written bus ecat_csr_data value w))
      → write_reg_wait bus junk fuel address value w
        ≡ done tt (
            polled bus ecat_csr_cmd k
              (commanded bus address 4 esc_write (written bus ecat_csr_data value w)))
  unfolding write_reg_wait
  write_reg_wait-done fuel k address value w lt clears =
      let w1 = written bus ecat_csr_data value w in
      let command : Ulong = record {
        byte0 = address % 256;
        byte1 = address / 256 % 256;
        byte2 = 4;
        byte3 = esc_write;
      } in
      ground (
        arith,
        le_bytes-long_of command (omega arith),
        write_reg-issue bus ecat_csr_data value w,
        write_reg-issue bus ecat_csr_cmd (long_of command) w1,
        poll-done bus junk fuel ecat_csr_cmd k is_csr_busy (commanded bus address 4 esc_write w1) lt
            clears,
      )
