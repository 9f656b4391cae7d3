-- ===== src/Base/Valid.antt =====
-- MainTask keeps the invariant of the buffers, and leaves the ring and the time keeping alone.
use rpi_rt_ether_cat_slave_i.Common.{
  ℕ, zero, suc, ◌+◌, ◌≡◌, ◌<◌, ◌∙◌, List, [], ◌∷◌, done, arith, length, length-replicate, subst,
  drop, get_elem?, some,
}
use rpi_rt_ether_cat_slave_i.Word.{Ulong, ProcBuffer}
use rpi_rt_ether_cat_slave_i.Spi.{Bus, dummy_byte, low}
use rpi_rt_ether_cat_slave_i.Spi.Transaction.{read, encode, exchange, issue}
use rpi_rt_ether_cat_slave_i.Spi.Polling.{polled}
use rpi_rt_ether_cat_slave_i.Base.Exchange.{read_started}
use rpi_rt_ether_cat_slave_i.Base.{ecat_pram_rd_cmd, RpiBase, Machine, main_task}
use rpi_rt_ether_cat_slave_i.Base.Fifo.{length-exchange}
use rpi_rt_ether_cat_slave_i.Base.Queue.{IsValid, slot_at}
use rpi_rt_ether_cat_slave_i.Base.Cycle.{
  status_read, Waits, Responds, base_due, cycle, main_task-cycle,
}

length-drop : (k : ℕ) (xs : List ℕ) (n : ℕ) → length xs ≡ k + n → length (drop k xs) ≡ n
length-drop zero xs n h = omega arith
length-drop (suc k) [] n h = absurd (omega arith)
length-drop (suc k) (x ∷ xs) n h = length-drop k xs n (omega arith)

-- What the call leaves alone.
pub record Same (b c : RpiBase) : Type 0 where
  pub curqidx : c.curqidx ≡ b.curqidx
  pub curqoutidx : c.curqoutidx ≡ b.curqoutidx
  pub ring : c.from_slave_buffer_in ≡ b.from_slave_buffer_in
  pub count : c.count ≡ b.count
  pub laststart : c.laststart ≡ b.laststart
  pub lastruntime : c.lastruntime ≡ b.lastruntime

pub in_ring : (b : RpiBase) → IsValid b → b.curqoutidx < length b.from_slave_buffer_in
in_ring b v = omega (arith, v.out_in, v.slots)

module _ {W : Type 0} (bus : Bus W) where
  pub length-issue : (a n : ℕ) (w : W) → length (issue bus (read a n) w).0 ≡ n
  unfolding issue
  length-issue a n w = length-drop 3 (exchange bus (encode (read a n)) (bus.gpio_write low w)).0 n (
      length-exchange bus (encode (read a n)) (bus.gpio_write low w)
      ∙ omega (arith, length-replicate n dummy_byte))

  -- the buffer in the slot that is published
  abbrev pub fetched :
      (s : Machine W)
      → IsValid s.base
      → (p : ProcBuffer) × (get_elem? s.base.from_slave_buffer_in s.base.curqoutidx ≡ some p)
  fetched s v = slot_at s.base.from_slave_buffer_in s.base.curqoutidx (in_ring s.base v)

  -- On a valid object, a cycle returns, if the chip ends its waits within the fuel; the object is
  -- valid again, with the ring and the time keeping as they were.
  pub main_task-IsValid :
      (junk : W → Ulong) (fuel : ℕ) (n : Waits) (s : Machine W)
      → IsValid s.base
      → Responds bus n s.world fuel
      → (status : ℕ) × (t : Machine W) × (main_task bus junk fuel s ≡ done status t)
        × IsValid t.base
        × Same s.base t.base
  main_task-IsValid junk fuel n s v r =
      let (p, slot) = fetched s v in
      let size = v.sized s.base.curqoutidx p slot in
      (
        _,
        cycle bus n p s,
        main_task-cycle bus junk fuel n p s slot size v.out_sized r,
        kept,
        ground arith,
      )
    where
      same : (base_due bus n s).from_slave_buffer_in ≡ s.base.from_slave_buffer_in
      same = ground arith

      kept : IsValid (record (base_due bus n s) { buffer_in = (fetched s v).0 })
      kept = record {
        next_in = ground (arith, v.next_in);
        out_in = ground (arith, v.out_in);
        slots = ground (arith, v.slots);
        sized = λ i q e. v.sized i q (subst (λ xs. get_elem? xs i ≡ some q) same e);
        out_sized = ground (
          arith,
          v.out_sized,
          length-issue 0x00 32
              (polled bus ecat_pram_rd_cmd n.input (read_started bus (status_read bus n s.world))),
        );
      }
