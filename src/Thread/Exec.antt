-- ===== src/Thread/Exec.antt =====
-- thread/src/thread.cpp: ExecThread, and the start of a thread: __Start_thread beside the constructor
-- of rtthread and its Resume, which run in another thread.
pub mod Executes
pub mod Order
pub mod Progress
mod Tests
use rpi_rt_ether_cat_slave_i.Common.{
  ℕ, ◌≡◌, Bool, true, false, Option, none, some, M, pure, ◌>>=◌, ◌>>◌, if◌then◌else◌,
}
use rpi_rt_ether_cat_slave_i.Common.Int.{ℤ, is_zero, is_minus_one}
use rpi_rt_ether_cat_slave_i.Scheduler.{Kernel, call, setscheduler}

-- `threadbase::ExecThread` on the members that it reads. The bound of a thread to a processor and
-- `Execute`, which is virtual, are arguments, like `SCHED_FIFO`; failures are only printed.
module _ {W : Type 0} (k : Kernel W) (fuel sched_fifo : ℕ) (set_affinity : ℤ → W → ℤ × W)
    (execute : M W ℕ) where
  unfoldable pub exec_thread : Bool → ℤ → ℤ → M W ℕ
  exec_thread isrt priority rcpu = do
    if isrt then (setscheduler k fuel sched_fifo priority >>= λ err. pure tt) else pure tt
    if is_minus_one rcpu then pure tt else (call k (set_affinity rcpu) >>= λ err. pure tt)
    execute

-- where the constructor of rtthread stands, after `pthread_create`
pub data CreatorPc : Type 0 where
  created : CreatorPc
  assigned : CreatorPc
  finished : CreatorPc

-- where __Start_thread stands: before the start mutex, behind it, in ExecThread before and after the
-- affinity is set, at its end
pub data StartPc : Type 0 where
  starting : StartPc
  entered : StartPc
  active : StartPc
  executing : StartPc
  ended : StartPc

-- The object and the start mutex, with the processor that the thread has asked for, and whether
-- Resume has been called.
pub record Start : Type 0 where
  pub rcpu : ℤ
  pub locked : Bool
  pub creator : CreatorPc
  pub pc : StartPc
  pub activ : Bool
  pub bound : Option ℤ
  pub resumed : Bool

abbrev pub bound_to : ℤ → Option ℤ
bound_to rcpu = if is_minus_one rcpu then none else some rcpu

-- `cpu` and `crrunning` are the constructor's arguments, and `next` is what get_nextcpu gives.
module _ (cpu next : ℤ) (crrunning : Bool) where
  abbrev pub chosen : ℤ
  chosen = if is_minus_one cpu then next else cpu

  abbrev pub launched : Start
  launched = record {
    rcpu = cpu;
    locked = true;
    creator = created;
    pc = starting;
    activ = false;
    bound = none;
    resumed = false;
  }

  pub data Step (s : Start) : Start → Type 0 where
    choose : s.creator ≡ created → Step s (record s { creator = assigned; rcpu = chosen })
    finish :
        s.creator ≡ assigned
        → Step s (record s { creator = finished; locked = if crrunning then false else s.locked })
    release : s.creator ≡ finished → Step s (record s { locked = false; resumed = true })
    enter : s.pc ≡ starting → s.locked ≡ false → Step s (record s { pc = entered; locked = true })
    activate : s.pc ≡ entered → Step s (record s { pc = active; activ = true })
    bind : s.pc ≡ active → Step s (record s { pc = executing; bound = bound_to s.rcpu })
    leave : s.pc ≡ executing → Step s (record s { pc = ended; activ = false })

  pub data Reach : Start → Type 0 where
    start : Reach launched
    later : {s t : Start} → Reach s → Step s t → Reach t
