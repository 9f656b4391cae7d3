-- ===== src/Base/Construct.antt =====
-- The first cycle of an object that the constructor has made.
use rpi_rt_ether_cat_slave_i.Common.{
  ℕ, zero, suc, ◌∷◌, [], >>=-fault, ◌%◌, ◌≡◌, ◌<◌, ◌≤◌, ◌∙◌, refl, Bool, not, ◌||◌, List, none,
  some, fault, pure, ◌>>◌, >>=-done, if◌then◌else◌, has_bit, ◌==◌, length, get_elem?, arith,
}
use rpi_rt_ether_cat_slave_i.Word.{Ulong, ProcBuffer, zeroed}
use rpi_rt_ether_cat_slave_i.Spi.{Bus}
use rpi_rt_ether_cat_slave_i.Base.{
  RpiBase, Machine, construct, main_task, transfers, qin_size, esm_op, or_watchdog, reset_out,
  spi_read_proc_ram_fifo, spi_write_proc_ram_fifo,
}
use rpi_rt_ether_cat_slave_i.Base.Queue.{IsValid}
use rpi_rt_ether_cat_slave_i.Base.Cycle.{
  Waits, Responds, wdog_byte, al_byte, status_read, inputs_due, base_due, choice,
  main_task-transfers,
}

-- The memory has the sizes of the members.
pub record IsSized (raw : RpiBase) : Type 0 where
  pub slots : length raw.from_slave_buffer_in ≡ qin_size
  pub sized :
      (i : ℕ) (p : ProcBuffer) → get_elem? raw.from_slave_buffer_in i ≡ some p → length p.bytes ≡ 32
  pub out_sized : length raw.buffer_out.bytes ≡ 32

past-none : {A : Type 0} (xs : List A) (i : ℕ) → length xs ≤ i → get_elem? xs i ≡ none
past-none [] i h = refl
past-none (x ∷ xs) zero h = absurd (omega arith)
past-none (x ∷ xs) (suc i) h = past-none xs i (omega arith)

module _ {W : Type 0} (bus : Bus W) (junk : W → Ulong) (fuel : ℕ) (n : Waits) (raw : RpiBase)
    (w : W) where
  abbrev pub fresh : Machine W
  fresh = record { base = construct raw; world = w }

  unsent :
      (s : Machine W)
      → get_elem? s.base.from_slave_buffer_in s.base.curqoutidx ≡ none
      → spi_write_proc_ram_fifo bus junk fuel s ≡ fault
  unfolding spi_write_proc_ram_fifo
  unsent s e = ground (arith, e)

  abbrev due : Machine W
  due = record { base = base_due bus n fresh; world = inputs_due bus n w }

  transfers-fault :
      IsSized raw
      → Responds bus n w fuel
      → qin_size ≤ raw.curqoutidx
      → transfers bus junk fuel
          (wdog_byte bus n w)
          (al_byte bus n w)
          (record fresh { world = status_read bus n w })
        ≡ fault
  unfolding transfers construct
  transfers-fault z r past =
      let none_there = past-none raw.from_slave_buffer_in raw.curqoutidx (omega (arith, z.slots)) in
      >>=-done (if c then reset_out bus junk fuel else spi_read_proc_ram_fifo bus junk fuel)
        (λ _. spi_write_proc_ram_fifo bus junk fuel >> pure status)
        (record fresh { world = status_read bus n w })
        (choice bus junk fuel n zeroed fresh z.out_sized r c (ground arith))
      ∙ >>=-fault (spi_write_proc_ram_fifo bus junk fuel) (λ _. pure status) due
          (unsent due (ground (arith, none_there)))
    where
      c : Bool
      c = not (has_bit (wdog_byte bus n w) 0) || not (al_byte bus n w % 16 == esm_op)

      status : ℕ
      status =
          if not (has_bit (wdog_byte bus n w) 0)
          then or_watchdog (al_byte bus n w % 16)
          else al_byte bus n w % 16

  constructed-IsValid : IsSized raw → raw.curqoutidx < qin_size → IsValid (construct raw)
  unfolding construct
  constructed-IsValid z lt = record {
    next_in = omega arith;
    out_in = lt;
    slots = z.slots;
    sized = z.sized;
    out_sized = z.out_sized;
  }

  -- For memory with the sizes of the members and a chip that ends the waits of a cycle within the
  -- fuel: if the memory held an index of the ring where `m_curqoutidx` lies, the constructor
  -- makes a valid object; if it held a larger number, the first `MainTask` reads outside the
  -- ring.
  pub construct-main_task :
      IsSized raw
      → Responds bus n w fuel
      → (raw.curqoutidx < qin_size → IsValid (construct raw))
        × (qin_size ≤ raw.curqoutidx → main_task bus junk fuel fresh ≡ fault)
  construct-main_task z r = (
    constructed-IsValid z,
    λ past. main_task-transfers bus junk fuel n zeroed fresh r ∙ transfers-fault z r past,
  )
