-- ===== src/Base/Preserves.antt =====
-- What the transfers and the chip select leave alone, a cycle leaves alone.
use rpi_rt_ether_cat_slave_i.Common.{ℕ, zero, suc, Bool, List, [], ◌∷◌, Bool-cases, inl, inr}
use rpi_rt_ether_cat_slave_i.Word.{ProcBuffer}
use rpi_rt_ether_cat_slave_i.Spi.{Bus, low, high}
use rpi_rt_ether_cat_slave_i.Spi.Transaction.{Command, read, write, encode, exchange, issue}
use rpi_rt_ether_cat_slave_i.Spi.Polling.{polled, after}
use rpi_rt_ether_cat_slave_i.Base.{
  Machine, al_status_reg_0, wdog_status, ecat_pram_rd_cmd, ecat_pram_wr_cmd,
}
use rpi_rt_ether_cat_slave_i.Base.Cycle.{
  Waits, is_exchanging, register_read, status_read, inputs_due, cycle,
}

module _ {W : Type 0} (bus : Bus W) (P : W → Type 0)
    (sends : (b : ℕ) (w : W) → P w → P (bus.transfer b w).1)
    (selects : (level : Bool) (w : W) → P w → P (bus.gpio_write level w)) where
  exchange-keeps : (bs : List ℕ) (w : W) → P w → P (exchange bus bs w).1
  unfolding exchange
  exchange-keeps [] w h = h
  exchange-keeps (b ∷ bs) w h = exchange-keeps bs (bus.transfer b w).1 (sends b w h)

  issue-keeps : (c : Command) (w : W) → P w → P (issue bus c w).1
  unfolding issue
  issue-keeps c w h =
      selects high _ (exchange-keeps (encode c) (bus.gpio_write low w) (selects low w h))

  polled-keeps : (register k : ℕ) (w : W) → P w → P (polled bus register k w)
  polled-keeps register zero w h = issue-keeps (read register 4) w h
  polled-keeps register (suc k) w h =
      polled-keeps register k (after bus register w) (issue-keeps (read register 4) w h)

  register_read-keeps : (address k : ℕ) (w : W) → P w → P (register_read bus address k w)
  register_read-keeps address k w h = issue-keeps _ _ (polled-keeps _ k _ (issue-keeps _ w h))

  inputs_due-keeps : (n : Waits) (w : W) → P w → P (inputs_due bus n w)
  inputs_due-keeps n w h =
      let statuses =
        register_read-keeps al_status_reg_0 n.al _ (register_read-keeps wdog_status n.wdog w h) in
      let started = issue-keeps _ _ (issue-keeps _ (status_read bus n w) statuses) in
      elim (Bool-cases (is_exchanging bus n w)) [
        | inl e ↦
            rw e (issue-keeps (read 0x00 32) _ (polled-keeps ecat_pram_rd_cmd n.input _ started))
        | inr e ↦ rw e statuses
      ]

  pub cycle-keeps :
      (n : Waits) (p : ProcBuffer) (s : Machine W) → P s.world → P (cycle bus n p s).world
  cycle-keeps n p s h = issue-keeps (write 0x20 p.bytes) _ (
      polled-keeps ecat_pram_wr_cmd n.output _
        (issue-keeps _ _ (issue-keeps _ (inputs_due bus n s.world) (inputs_due-keeps n s.world h))))
