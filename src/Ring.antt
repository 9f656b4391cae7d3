-- ===== src/Ring.antt =====
-- rpi_base/src/rpi_base.cpp: send_output beside the first statement of SPIWriteProcRamFifo, which another
-- thread runs. A buffer has `n` cells; accesses are taken to be seen in program order.
pub mod Whole
pub mod Runs
pub mod Torn
pub mod Refines
pub mod Sent
mod Tests
use rpi_rt_ether_cat_slave_i.Common.{ℕ, suc, ◌+◌, ◌-◌, ◌<◌, ◌≡◌, if◌then◌else◌, ◌==◌}
use rpi_rt_ether_cat_slave_i.Base.{advance}

-- where send_output stands: outside a call, with `i` cells stored, and behind the store to m_curqoutidx
pub data SenderPc : Type 0 where
  ready : SenderPc
  storing : (i : ℕ) → SenderPc
  published : SenderPc

-- where SPIWriteProcRamFifo stands: outside its statement, or with `i` cells copied from a slot, where
-- `number` is that of the call that had published the slot when the index was read
pub data TaskPc : Type 0 where
  waiting : TaskPc
  fetching : (slot number i : ℕ) → TaskPc

-- The shared members and BufferIn, with what the proofs keep track of: how many calls have begun, and
-- the source of each, by its number.
pub record Ring : Type 0 where
  pub cells : ℕ → ℕ → ℕ
  pub curqidx : ℕ
  pub curqoutidx : ℕ
  pub buffer_in : ℕ → ℕ
  pub sender : SenderPc
  pub task : TaskPc
  pub begun : ℕ
  pub source : ℕ → ℕ → ℕ

abbrev pub update {ℓ} : {A : Type ℓ} → (ℕ → A) → ℕ → A → ℕ → A
update f i a j = if i == j then a else f j

-- the number of the call that published last
abbrev pub latest : Ring → ℕ
latest s = elim s.sender [ ready ↦ s.begun | storing i ↦ s.begun - 1 | published ↦ s.begun ]

-- What one of the threads does.
pub data Act (n : ℕ) (s : Ring) : Ring → Type 0 where
  calls :
      (new : ℕ → ℕ)
      → s.sender ≡ ready
      → Act n s (record s {
        sender = storing 0;
        begun = s.begun + 1;
        source = update s.source (s.begun + 1) new;
      })
  stores :
      (i : ℕ)
      → s.sender ≡ storing i
      → i < n
      → Act n s (record s {
        cells = update s.cells s.curqidx (update (s.cells s.curqidx) i (s.source s.begun i));
        sender = storing (i + 1);
      })
  publishes :
      s.sender ≡ storing n → Act n s (record s { curqoutidx = s.curqidx; sender = published })
  moves_on :
      s.sender ≡ published → Act n s (record s { curqidx = advance s.curqidx; sender = ready })
  reads_index : s.task ≡ waiting → Act n s (record s { task = fetching s.curqoutidx (latest s) 0 })
  copies :
      (slot number i : ℕ)
      → s.task ≡ fetching slot number i
      → i < n
      → Act n s (record s {
        buffer_in = update s.buffer_in i (s.cells slot i);
        task = fetching slot number (i + 1);
      })
  goes_on :
      (slot number : ℕ) → s.task ≡ fetching slot number n → Act n s (record s { task = waiting })

-- The object as its constructor leaves it in zeroed memory, before the first call.
pub record IsFresh (s : Ring) : Type 0 where
  pub first : s.curqidx ≡ 0
  pub none_out : s.curqoutidx ≡ 0
  pub no_call : s.sender ≡ ready
  pub no_task : s.task ≡ waiting
  pub none_begun : s.begun ≡ 0

pub data Reach (n : ℕ) (s0 : Ring) : Ring → Type 0 where
  start : Reach n s0 s0
  later : {s t : Ring} → Reach n s0 s → Act n s t → Reach n s0 t
