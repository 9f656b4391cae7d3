-- ===== src/Base/Safe.antt =====
-- The exchange, whatever the chip answers: no access leaves a buffer or the ring, and the members keep
-- to the ranges of their types.
use rpi_rt_ether_cat_slave_i.Common.{
  ℕ, zero, suc, ◌+◌, ◌%◌, ◌≡◌, subst, ◌≤◌, ◌<◌, ltb, true, sym, List, [], ◌∷◌, done, fault, spins,
  Run, M, arith, set, Post, returns, waits, Keeps, Keeps-pure, Keeps-then, Keeps-if, ◌⟫◌,
}
use rpi_rt_ether_cat_slave_i.Word.{Ulong, ulong_of}
use rpi_rt_ether_cat_slave_i.Spi.{Bus, dummy_byte, comm_spi_read, comm_spi_write}
use rpi_rt_ether_cat_slave_i.Spi.Safe.{
  Quiet, scs_low-Quiet, scs_high-Quiet, spi_write-Quiet, write_reg-Quiet, poll-Quiet,
  read_reg_wait-Quiet,
}
use rpi_rt_ether_cat_slave_i.Base.{
  RpiBase, Machine, wdog_status, al_status_reg_0, ecat_pram_rd_addr_len, ecat_pram_rd_cmd,
  ecat_pram_wr_addr_len, ecat_pram_wr_cmd, main_task, transfers, on_bus, modify, incremented,
  read_fifo, write_fifo, write_in, fetch, store_out, reset_out, is_read_pending, is_write_pending,
  spi_read_proc_ram_fifo, spi_write_proc_ram_fifo,
}
use rpi_rt_ether_cat_slave_i.Base.Queue.{
  Words, buffer_of, published, send_output-published, slot_at,
}
use rpi_rt_ether_cat_slave_i.Base.Fifo.{reset_out-done}
use rpi_rt_ether_cat_slave_i.Base.Typed.{
  IsTyped, set-IsBuffer, reset_words-IsBuffer, with_buffers, of_words-IsBuffer, published-IsTyped,
}
use rpi_rt_ether_cat_slave_i.Base.Interleaved.{Event, send, task, event, run_events}

-- A step of the machine that has no fault and leaves the members typed.
abbrev pub Safe : {W A : Type 0} → M (Machine W) A → Type 0
Safe m = Keeps (λ s. IsTyped s.base) m

module _ {W : Type 0} (bus : Bus W) where
  on_bus-Safe : {A : Type 0} {m : M W A} → Quiet m → Safe (on_bus bus m)
  on_bus-Safe {A} {m} q = record { post = λ s h. lifted s h (m s.world) (q.post s.world tt) }
    where
      lifted :
          (s : Machine W)
          → IsTyped s.base
          → (r : Run W A) → Post (λ a w. Unit {0}) r
          → Post
              (λ a t. IsTyped t.base)
              (elim r [
                | done a w ↦ done a (record s { world = w })
                | fault ↦ fault
                | spins ↦ spins
              ])
      lifted s h _ (returns u) = returns h
      lifted s h _ waits = waits

  modify-Safe :
      (f : RpiBase → RpiBase) → ((b : RpiBase) → IsTyped b → IsTyped (f b)) → Safe (modify bus f)
  modify-Safe f k = record { post = λ s h. returns (k s.base h) }

  incremented-Safe : Safe (modify bus incremented)
  incremented-Safe = modify-Safe incremented (λ b h.
      with_buffers b b.buffer_out b.buffer_out_eth_to_slave b.buffer_in _ h h.out h.copied h.inward
        (omega arith))

  -- what `read_fifo` receives is a byte
  store_out-Safe : (i b : ℕ) → i < 32 → b < 256 → Safe (store_out bus i b)
  store_out-Safe i b lt small =
      let inside : ltb i 32 ≡ true = ground (arith, lt) in
      rw inside (
        modify-Safe _ (λ m h.
          with_buffers m (record { bytes = set m.buffer_out.bytes i b }) _ _ _ h
            (set-IsBuffer m.buffer_out i b h.out small) h.copied h.inward h.counter))

  read_fifo-Safe : (n i : ℕ) → n + i ≤ 32 → Safe (read_fifo bus n i)
  unfolding read_fifo
  read_fifo-Safe zero i le = Keeps-pure tt
  read_fifo-Safe (suc n) i le = record {
    post = λ s h.
        let b = (bus.transfer dummy_byte s.world).0 % 256 in
        (Keeps-then (store_out-Safe i b (omega arith) (omega arith))
            (λ u. read_fifo-Safe n (i + 1) (omega arith))).post
          _ h;
  }

  write_in-Safe : (i : ℕ) → i < 32 → Safe (write_in bus i)
  write_in-Safe i lt = record {
    post = λ s h.
        let (b, here) = slot_at s.base.buffer_in.bytes i (omega (arith, h.inward.sized)) in
        rw (write_in, here) (returns h);
  }

  write_fifo-Safe : (n i : ℕ) → n + i ≤ 32 → Safe (write_fifo bus n i)
  unfolding write_fifo
  write_fifo-Safe zero i le = Keeps-pure tt
  write_fifo-Safe (suc n) i le =
      Keeps-then (write_in-Safe i (omega arith)) (λ x. write_fifo-Safe n (i + 1) (omega arith))

  -- The index is in the ring.
  fetch-Safe : Safe (fetch bus)
  fetch-Safe = record {
    post = λ s h.
        let (p, here) =
          slot_at s.base.from_slave_buffer_in s.base.curqoutidx
            (omega (arith, h.valid.out_in, h.valid.slots)) in
        rw (fetch, here)
          (returns (
            with_buffers s.base _ _ p _ h h.out h.copied (h.slots s.base.curqoutidx p here)
              h.counter));
  }

  module _ (junk : W → Ulong) (fuel : ℕ) where
    spi_read_proc_ram_fifo-Safe : Safe (spi_read_proc_ram_fifo bus junk fuel)
    unfolding spi_read_proc_ram_fifo
    spi_read_proc_ram_fifo-Safe =
        incremented-Safe
        ⟫ on_bus-Safe (write_reg-Quiet bus ecat_pram_rd_addr_len 0x00201000)
        ⟫ on_bus-Safe (write_reg-Quiet bus ecat_pram_rd_cmd 0x80000000)
        ⟫ on_bus-Safe (poll-Quiet bus junk fuel ecat_pram_rd_cmd is_read_pending)
        ⟫ on_bus-Safe (scs_low-Quiet bus)
        ⟫ on_bus-Safe (spi_write-Quiet bus comm_spi_read)
        ⟫ on_bus-Safe (spi_write-Quiet bus 0x00)
        ⟫ on_bus-Safe (spi_write-Quiet bus 0x00)
        ⟫ read_fifo-Safe 32 0 (omega arith)
        ⟫ modify-Safe (λ b. record b { buffer_out_eth_to_slave = b.buffer_out })
            (λ b h.
              with_buffers b b.buffer_out b.buffer_out b.buffer_in _ h h.out h.out h.inward
                h.counter)
        ⟫ on_bus-Safe (scs_high-Quiet bus)
        ⟫ incremented-Safe

    spi_write_proc_ram_fifo-Safe : Safe (spi_write_proc_ram_fifo bus junk fuel)
    unfolding spi_write_proc_ram_fifo
    spi_write_proc_ram_fifo-Safe =
        fetch-Safe
        ⟫ on_bus-Safe (write_reg-Quiet bus ecat_pram_wr_addr_len 0x00201200)
        ⟫ on_bus-Safe (write_reg-Quiet bus ecat_pram_wr_cmd 0x80000000)
        ⟫ on_bus-Safe (poll-Quiet bus junk fuel ecat_pram_wr_cmd is_write_pending)
        ⟫ on_bus-Safe (scs_low-Quiet bus)
        ⟫ on_bus-Safe (spi_write-Quiet bus comm_spi_write)
        ⟫ on_bus-Safe (spi_write-Quiet bus 0x00)
        ⟫ on_bus-Safe (spi_write-Quiet bus 0x20)
        ⟫ write_fifo-Safe 31 0 (omega arith)
        ⟫ write_in-Safe 31 (omega arith)
        ⟫ on_bus-Safe (scs_high-Quiet bus)

    reset_out-Safe : Safe (reset_out bus junk fuel)
    reset_out-Safe = record {
      post = λ s h.
          let (q, e, typed) = reset_words-IsBuffer 4 0 s.base.buffer_out (omega arith) h.out in
          let b = s.base in
          rw (reset_out-done bus junk fuel s q e) (
            returns (
              with_buffers b q b.buffer_out_eth_to_slave b.buffer_in _ h typed h.copied h.inward
                h.counter));
    }

    transfers-Safe : (wdog al : ℕ) → Safe (transfers bus junk fuel wdog al)
    unfolding transfers
    transfers-Safe wdog al =
        Keeps-if _ reset_out-Safe spi_read_proc_ram_fifo-Safe
        ⟫ spi_write_proc_ram_fifo-Safe
        ⟫ Keeps-pure _

    pub main_task-Safe : Safe (main_task bus junk fuel)
    unfolding main_task
    main_task-Safe =
        Keeps-then (on_bus-Safe (read_reg_wait-Quiet bus junk fuel wdog_status 1 (omega arith)))
          (λ wdog.
            Keeps-then
              (on_bus-Safe (read_reg_wait-Quiet bus junk fuel al_status_reg_0 1 (omega arith)))
              (λ al. transfers-Safe (ulong_of wdog).byte0 (ulong_of al).byte0))

    pub send-Safe : (w : Words) → Safe (event bus junk fuel (send w))
    send-Safe w = record {
      post = λ s h.
          let p = buffer_of w in
          let (q, here) =
            slot_at s.base.from_slave_buffer_in s.base.curqidx
              (omega (arith, h.valid.next_in, h.valid.slots)) in
          let typed : IsTyped (published s.base p) =
            published-IsTyped s.base p (of_words-IsBuffer q w (h.slots s.base.curqidx q here)) h in
          let call = send_output-published w.a w.b w.c w.d [] s.base h.valid in
          let e : event bus junk fuel (send w) s
              ≡ done tt (record s { base = published s.base p }) =
            ground (arith, call) in
          subst (Post (λ u t. IsTyped t.base)) (sym e) (returns typed);
    }

    events-Safe : (es : List Event) → Safe (run_events bus junk fuel es)
    unfolding run_events
    events-Safe [] = Keeps-pure tt
    events-Safe (send w ∷ es) = send-Safe w ⟫ events-Safe es
    events-Safe (task ∷ es) = Keeps-then main_task-Safe (λ status. Keeps-pure tt) ⟫ events-Safe es

    -- Whatever the chip answers and whatever the fuel, calls of `send_output` and cycles in any
    -- order keep the object typed: from an object with the indices in the ring, ten slots and
    -- buffers of 32 bytes below 256 and the counter below 2 ^ 32, no access leaves a buffer, a
    -- union or the ring, and if the calls return, the object is like that again.
    pub run_events-IsTyped :
        (es : List Event) (s : Machine W)
        → IsTyped s.base
        → Post (λ u t. IsTyped t.base) (run_events bus junk fuel es s)
    run_events-IsTyped es s h = (events-Safe es).post s h
