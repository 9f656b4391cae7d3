-- ===== src/Ring/Sent.antt =====
-- What SPIWriteProcRamFifo sends, beside calls of send_output.
use rpi_rt_ether_cat_slave_i.Common.{ℕ, ◌+◌, ◌≤◌, ◌<◌, ◌≡◌, refl, ap, ◌∙◌, done, arith}
use rpi_rt_ether_cat_slave_i.Word.{Ulong, ProcBuffer}
use rpi_rt_ether_cat_slave_i.Spi.{Bus}
use rpi_rt_ether_cat_slave_i.Spi.Transaction.{write, issue}
use rpi_rt_ether_cat_slave_i.Spi.Polling.{Clears, polled}
use rpi_rt_ether_cat_slave_i.Base.{RpiBase, is_write_pending, ecat_pram_wr_cmd, write_fetched}
use rpi_rt_ether_cat_slave_i.Base.Exchange.{write_started, write_fetched-done}
use rpi_rt_ether_cat_slave_i.Ring.{Ring, fetching, latest, IsFresh, Reach}
use rpi_rt_ether_cat_slave_i.Ring.Whole.{Reach-whole}
use rpi_rt_ether_cat_slave_i.Ring.Refines.{words_of}

-- Buffers with the same words are the same.
words_of-ext : (f g : ℕ → ℕ) → ((j : ℕ) → j < 4 → f j ≡ g j) → words_of f ≡ words_of g
words_of-ext f g same =
    rw (same 0 (omega arith), same 1 (omega arith), same 2 (omega arith), same 3 (omega arith)) refl

-- From the constructor's state, whatever the order of the accesses of `send_output` and of the copy
-- of a slot in `SPIWriteProcRamFifo`: when the task has copied the four words of the slot that call
-- `number`, at least the first, had published when the index was read, at most nine more calls have
-- begun, and the write fifo is not ready for `k` polls with `k` less than the fuel, then that call
-- is among those published, `BufferIn` holds exactly its words, and the rest of
-- `SPIWriteProcRamFifo` returns and its last transaction writes exactly them to the process RAM.
pub Reach-sent :
    {W : Type 0} (bus : Bus W) (junk : W → Ulong) (fuel k slot number : ℕ) (o : RpiBase) (w : W)
    {s0 s : Ring}
    → IsFresh s0
    → Reach 4 s0 s
    → s.task ≡ fetching slot number 4
    → 0 < number
    → s.begun ≤ number + 9
    → o.buffer_in ≡ words_of s.buffer_in
    → k < fuel
    → Clears bus is_write_pending ecat_pram_wr_cmd k (write_started bus w)
    → (number ≤ latest s)
      × (o.buffer_in ≡ words_of (s.source number))
      × (write_fetched bus junk fuel (record { base = o; world = w })
          ≡ done tt (record {
            base = o;
            world =
                (issue bus
                  (write 0x20 (words_of (s.source number)).bytes)
                  (polled bus ecat_pram_wr_cmd k (write_started bus w))).1;
          }))
Reach-sent bus junk fuel k slot number o w {s0} {s} fresh r at_end some_call few shown lt clears =
    let (known, cells) = Reach-whole slot number fresh r at_end some_call few in
    let same = shown ∙ words_of-ext s.buffer_in (s.source number) cells in
    let sent =
      write_fetched-done bus junk fuel k (record { base = o; world = w }) (rw shown refl) lt
        clears in
    let w' = polled bus ecat_pram_wr_cmd k (write_started bus w) in
    (
      known,
      same,
      sent
          ∙ ap
              (λ (p : ProcBuffer).
                done tt (record { base = o; world = (issue bus (write 0x20 p.bytes) w').1 }))
              same,
    )
