-- ===== src/Base/Outcome.antt =====
-- What a cycle of MainTask means for the application on one side and the master on the other.
use rpi_rt_ether_cat_slave_i.Common.{ℕ, ◌≡◌, ◌↔◌, refl, true, false, List, ◌∷◌, done, arith}
use rpi_rt_ether_cat_slave_i.Word.{Ulong, zeroed}
use rpi_rt_ether_cat_slave_i.Spi.{Bus}
use rpi_rt_ether_cat_slave_i.Spi.Transaction.{write, issue}
use rpi_rt_ether_cat_slave_i.Base.{RpiBase, Machine, esm_op, send_output, main_task}
use rpi_rt_ether_cat_slave_i.Base.Queue.{
  IsValid, of_words, published, published-IsValid, published-slots, send_output-published,
}
use rpi_rt_ether_cat_slave_i.Base.Cycle.{
  Waits, Responds, is_exchanging, sent_from, cycle, cycle_status, main_task-cycle,
}
use rpi_rt_ether_cat_slave_i.Base.Valid.{fetched}

module _ {W : Type 0} (bus : Bus W) (junk : W → Ulong) (fuel : ℕ) (n : Waits) (s : Machine W) where
  -- On a valid object, `MainTask` returns, if the chip ends its waits within the fuel, and its
  -- status is ESM_OP exactly in the cycles in which it takes the outputs of the master.
  pub main_task-status :
      IsValid s.base
      → Responds bus n s.world fuel
      → (status : ℕ) × (t : Machine W) × (main_task bus junk fuel s ≡ done status t)
        × ((status ≡ esm_op) ↔ (is_exchanging bus n s.world ≡ true))
  main_task-status v r =
      let (p, slot) = fetched bus s v in
      (
        cycle_status bus n s.world,
        cycle bus n p s,
        main_task-cycle bus junk fuel n p s slot (v.sized _ p slot) v.out_sized r,
        ground arith,
      )

  -- On a valid object, a cycle without an exchange (the watchdog has expired or the slave is not
  -- operational) returns, if the chip ends its waits within the fuel, with `BufferOut` reset to
  -- zeros, while the copy that `receive_input` reads and its counter stay as they were.
  pub main_task-keeps_copy :
      IsValid s.base
      → Responds bus n s.world fuel
      → is_exchanging bus n s.world ≡ false
      → (status : ℕ) × (t : Machine W) × (main_task bus junk fuel s ≡ done status t)
        × (t.base.buffer_out ≡ zeroed)
        × (t.base.buffer_out_eth_to_slave ≡ s.base.buffer_out_eth_to_slave)
        × (t.base.atomiccounter ≡ s.base.atomiccounter)
  main_task-keeps_copy v r off =
      let (p, slot) = fetched bus s v in
      (
        cycle_status bus n s.world,
        cycle bus n p s,
        main_task-cycle bus junk fuel n p s slot (v.sized _ p slot) v.out_sized r,
        ground (arith, off),
        ground (arith, off),
        ground (arith, off),
      )

  -- On a valid object, the call of `send_output` with at least four words and the cycle after it
  -- return, if the chip ends the waits of the cycle within the fuel; the cycle's last transaction
  -- writes those four words to the process RAM, 32 bytes with the lowest byte of each word first,
  -- and they are the new `BufferIn`.
  pub send_output-main_task :
      (a b c d : ℕ) (rest : List ℕ)
      → IsValid s.base
      → Responds bus n s.world fuel
      → (u : RpiBase) × (status : ℕ) × (t : Machine W) × (send_output (a ∷ b ∷ c ∷ d ∷ rest) s.base
          ≡ done tt u)
        × (main_task bus junk fuel (record s { base = u }) ≡ done status t)
        × (t.world ≡ (issue bus (write 0x20 (of_words a b c d).bytes) (sent_from bus n s.world)).1)
        × (t.base.buffer_in ≡ of_words a b c d)
  send_output-main_task a b c d rest v r =
      let p = of_words a b c d in
      let u = published s.base p in
      let v' = published-IsValid s.base p refl v in
      (
        u,
        cycle_status bus n s.world,
        cycle bus n p (record s { base = u }),
        send_output-published a b c d rest s.base v,
        main_task-cycle bus junk fuel n p (record s { base = u }) (published-slots s.base p v).0
            refl v'.out_sized r,
        refl,
        refl,
      )
