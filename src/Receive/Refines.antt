-- ===== src/Receive/Refines.antt =====
-- With no other thread in between, the moves of the writer are SPIReadProcRamFifo, on bytes as cells, and
-- the reader gets the buffer that it has stored.
use rpi_rt_ether_cat_slave_i.Common.{
  ℕ, zero, suc, ◌+◌, ◌<◌, ◌≡◌, refl, sym, subst, ap, ap₂, ◌∙◌, arith, List, [], ◌∷◌, none, some,
  done, length, get_elem?,
}
use rpi_rt_ether_cat_slave_i.Word.{Ulong}
use rpi_rt_ether_cat_slave_i.Spi.{Bus}
use rpi_rt_ether_cat_slave_i.Spi.Transaction.{read, issue}
use rpi_rt_ether_cat_slave_i.Spi.Polling.{Clears, polled}
use rpi_rt_ether_cat_slave_i.Base.{
  RpiBase, Machine, is_read_pending, ecat_pram_rd_cmd, spi_read_proc_ram_fifo,
}
use rpi_rt_ether_cat_slave_i.Base.Exchange.{read_started, spi_read_proc_ram_fifo-done}
use rpi_rt_ether_cat_slave_i.Base.Valid.{length-issue}
use rpi_rt_ether_cat_slave_i.Receive.{
  idle, storing, Shared, counter, put, Runs, none_yet, then_moves, begin, store, finish, copy,
  receive_input,
}
use rpi_rt_ether_cat_slave_i.Receive.Consistency.{cells_from, copy-cells_from}

-- The memory shows the members of the object, outside SPIReadProcRamFifo.
pub record Shows (m : Shared) (b : RpiBase) : Type 0 where
  pub at_rest : m.pc ≡ idle
  pub counted : counter m ≡ b.atomiccounter
  pub bytes : (j : ℕ) → j < 32 → get_elem? b.buffer_out_eth_to_slave.bytes j ≡ some (m.cells j)

abbrev byte_at : List ℕ → ℕ → ℕ
byte_at bs j = elim (get_elem? bs j) [ none ↦ 0 | some b ↦ b ]

get_elem?-byte_at : (bs : List ℕ) (j : ℕ) → j < length bs → get_elem? bs j ≡ some (byte_at bs j)
get_elem?-byte_at [] j lt = absurd (omega arith)
get_elem?-byte_at (b ∷ bs) zero lt = refl
get_elem?-byte_at (b ∷ bs) (suc j) lt = get_elem?-byte_at bs j (omega arith)

-- Cells that are the bytes of a list, from the i-th on.
cells_from-bytes :
    (bs : List ℕ) (f : ℕ → ℕ) (i : ℕ)
    → ((j : ℕ) → j < length bs → get_elem? bs j ≡ some (f (i + j)))
    → cells_from f (length bs) i ≡ bs
cells_from-bytes [] f i h = refl
cells_from-bytes (b ∷ bs) f i h =
    let first : f i ≡ b = ground (arith, h 0 (omega arith)) in
    ap₂ ◌∷◌ first (
      cells_from-bytes bs f (i + 1) (λ j lt.
        let e : i + suc j ≡ i + 1 + j = omega arith in
        h (suc j) (omega arith) ∙ ap (λ k. some (f k)) e))

module _ {n : ℕ} {m : Shared} where
  -- The rest of the stores.
  stores_all :
      (k i : ℕ) (s : Shared)
      → s.pc ≡ storing i
      → i + k ≡ n
      → ((j : ℕ) → j < i → s.cells j ≡ s.incoming j)
      → Runs n m s
      → (t : Shared) × Runs n m t
        × (t.pc ≡ storing n)
        × (t.ticks ≡ s.ticks)
        × (t.incoming ≡ s.incoming)
        × ((j : ℕ) → j < n → t.cells j ≡ s.incoming j)
  stores_all zero i s e all below r =
      (s, r, e ∙ ap storing (omega arith), refl, refl, λ j lt. below j (omega arith))
  stores_all (suc k) i s e all below r =
      let s1 : Shared = record s { cells = put s.cells i (s.incoming i); pc = storing (i + 1) } in
      stores_all k (i + 1) s1 refl (omega arith) (λ j lt. ground (arith, below j))
        (then_moves r (store i e (omega arith)))

-- What the writer does for a buffer of bytes.
stored_whole :
    (m : Shared) (bs : List ℕ)
    → m.pc ≡ idle
    → (t : Shared) × Runs (length bs) m t
      × (t.pc ≡ idle)
      × (t.ticks ≡ m.ticks + 2)
      × ((j : ℕ) → j < length bs → t.cells j ≡ byte_at bs j)
      × (cells_from t.stored (length bs) 0 ≡ bs)
stored_whole m bs rest =
    let s0 : Shared = record m { ticks = m.ticks + 1; pc = storing 0; incoming = byte_at bs } in
    let (s1, r1, e1, ticks1, new1, cells1) =
      stores_all {n = length bs} {m = m} (length bs) 0 s0 refl (omega arith)
        (λ j lt. absurd (omega arith)) (then_moves none_yet (begin (byte_at bs) rest)) in
    let t : Shared = record s1 { ticks = s1.ticks + 1; pc = idle; stored = s1.incoming } in
    (
      t,
      then_moves r1 (finish e1),
      refl,
      omega (arith, ticks1),
      cells1,
      ap (λ f. cells_from f (length bs) 0) new1
          ∙ cells_from-bytes bs (byte_at bs) 0 (λ j lt.
            let e : j ≡ 0 + j = omega arith in
            get_elem?-byte_at bs j lt ∙ ap (λ k. some (byte_at bs k)) e),
    )

module _ {W : Type 0} (bus : Bus W) (junk : W → Ulong) (fuel k : ℕ) (s : Machine W) where
  -- If the memory shows the members of an object outside `SPIReadProcRamFifo`, `BufferOut` holds
  -- 32 bytes and the fifo is not ready for `k` polls with `k` less than the fuel,
  -- `SPIReadProcRamFifo` returns, moves of the writer alone lead to a memory that shows the
  -- members of the new object, and one round of `receive_input` there returns the new
  -- `BufferOut`, the 32 bytes that the process RAM sent in the last transaction.
  pub receive_input-spi_read_proc_ram_fifo :
      (m : Shared)
      → Shows m s.base
      → length s.base.buffer_out.bytes ≡ 32
      → k < fuel
      → Clears bus is_read_pending ecat_pram_rd_cmd k (read_started bus s.world)
      → (t : Machine W) × (m' : Shared) × (spi_read_proc_ram_fifo bus junk fuel s ≡ done tt t)
        × Runs 32 m m'
        × Shows m' t.base
        × (receive_input 1 32 (λ u. m') 0 ≡ some (0, t.base.buffer_out.bytes))
        × (t.base.buffer_out.bytes
            ≡ (issue bus
                (read 0x00 32)
                (polled bus ecat_pram_rd_cmd k (read_started bus s.world))).0)
  unfolding receive_input
  receive_input-spi_read_proc_ram_fifo m shown size lt clears =
      let bs =
        (issue bus (read 0x00 32) (polled bus ecat_pram_rd_cmd k (read_started bus s.world))).0 in
      let whole : length bs ≡ 32 =
        length-issue bus 0x00 32 (polled bus ecat_pram_rd_cmd k (read_started bus s.world)) in
      let (m', r, rest, ticks, cells, stored) = stored_whole m bs shown.at_rest in
      let shown' : (j : ℕ) → j < 32 → get_elem? bs j ≡ some (m'.cells j) = λ j lt.
        get_elem?-byte_at bs j (omega arith) ∙ ap (λ b. some b) (sym (cells j (omega arith))) in
      let copied : copy (λ u. m') 32 0 1 ≡ bs =
        copy-cells_from (λ u. m') m'.cells 32 0 1 (λ u lo hi. refl)
        ∙ ap (λ n. cells_from m'.cells n 0) (sym whole)
        ∙ cells_from-bytes bs m'.cells 0 (λ j lt.
          let e : j ≡ 0 + j = omega arith in
          shown' j (omega arith) ∙ ap (λ i. some (m'.cells i)) e) in
      (
        _,
        m',
        spi_read_proc_ram_fifo-done bus junk fuel k s size lt clears,
        subst (λ n. Runs n m m') whole r,
        record { at_rest = rest; counted = omega (arith, ticks, shown.counted); bytes = shown' },
        ground (arith, copied),
        refl,
      )
