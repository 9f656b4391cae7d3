-- ===== src/Receive.antt =====
-- rpi_base/src/rpi_base.cpp: receive_input beside SPIReadProcRamFifo, which another thread runs. The
-- memory that they share is given for every moment at which the reader makes an access; in between the
-- writer makes any number of accesses. Accesses are taken to be seen in program order.
pub mod Consistency
pub mod Refines
pub mod Torn
mod Tests
use rpi_rt_ether_cat_slave_i.Common.{
  ℕ, zero, suc, ◌+◌, ◌%◌, ◌^◌, ◌<◌, ◌≡◌, List, [], ◌∷◌, Option, none, some, if◌then◌else◌, ◌==◌,
}

-- where SPIReadProcRamFifo stands: outside its two increments of m_atomiccounter, or between them with
-- `i` cells of m_BufferOutEthToSlaveBuffer stored
pub data WriterPc : Type 0 where
  idle : WriterPc
  storing : (i : ℕ) → WriterPc

-- The shared memory, with what the proofs keep track of: the number of increments so far, the buffer
-- being stored, and the one stored last.
pub record Shared : Type 0 where
  pub cells : ℕ → ℕ
  pub ticks : ℕ
  pub pc : WriterPc
  pub incoming : ℕ → ℕ
  pub stored : ℕ → ℕ

-- `m_atomiccounter`, an `unsigned int`
abbrev pub counter : Shared → ℕ
counter s = s.ticks % 2 ^ 32

abbrev pub put : (ℕ → ℕ) → ℕ → ℕ → ℕ → ℕ
put f i v j = if i == j then v else f j

-- One access of the writer, with a buffer of `n` cells, or none.
pub data Move (n : ℕ) (s : Shared) : Shared → Type 0 where
  stay : Move n s s
  begin :
      (new : ℕ → ℕ)
      → s.pc ≡ idle
      → Move n s (record s { ticks = s.ticks + 1; pc = storing 0; incoming = new })
  store :
      (i : ℕ)
      → s.pc ≡ storing i
      → i < n
      → Move n s (record s { cells = put s.cells i (s.incoming i); pc = storing (i + 1) })
  finish :
      s.pc ≡ storing n → Move n s (record s { ticks = s.ticks + 1; pc = idle; stored = s.incoming })

-- Any number of accesses of the writer in a row.
pub data Runs (n : ℕ) (s : Shared) : Shared → Type 0 where
  none_yet : Runs n s s
  then_moves : {t u : Shared} → Runs n s t → Move n t u → Runs n s u

-- `*pBufferOut = m_BufferOutEthToSlaveBuffer`, a cell at a time: `n` cells from the i-th on
unfoldable pub copy : (ℕ → Shared) → ℕ → ℕ → ℕ → List ℕ
copy mem zero i t = []
copy mem (suc n) i t = (mem t).cells i ∷ copy mem n (i + 1) (t + 1)

-- `receive_input` from moment `t` on, with `fuel` rounds of its loop: the moment at which the round
-- that was accepted began, and the buffer
unfoldable pub receive_input : ℕ → ℕ → (ℕ → Shared) → ℕ → Option (ℕ × List ℕ)
unfolding copy
receive_input zero n mem t = none
receive_input (suc fuel) n mem t =
    let rest = receive_input fuel n mem (t + n + 2) in
    let localcounter = counter (mem t) in
    if localcounter == counter (mem (t + 1 + n)) then some (t, copy mem n 0 (t + 1)) else rest
