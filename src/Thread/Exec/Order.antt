-- ===== src/Thread/Exec/Order.antt =====
-- What the start mutex orders: nothing of a thread runs before its constructor is done.
use rpi_rt_ether_cat_slave_i.Common.{◌≡◌, ◌≢◌, Bool, true, false, arith}
use rpi_rt_ether_cat_slave_i.Common.Int.{ℤ}
use rpi_rt_ether_cat_slave_i.Thread.Exec.{
  created, finished, starting, executing, Start, bound_to, chosen, Step, choose, finish, release,
  enter, activate, bind, leave, Reach, start, later,
}

module _ (cpu next : ℤ) (crrunning : Bool) where
  -- Who may have done what: while the mutex is free, or the thread has begun, the constructor is done;
  -- it has chosen the processor before that, and a thread that is held has not begun.
  abbrev pub IsOrderly : Start → Type 0
  IsOrderly s =
      (s.locked ≡ false → s.creator ≡ finished)
      × (s.pc ≢ starting → s.creator ≡ finished)
      × (s.creator ≢ created → s.rcpu ≡ chosen cpu next crrunning)
      × (s.pc ≡ executing → s.bound ≡ bound_to (chosen cpu next crrunning))
      × (s.activ ≡ true → s.pc ≢ starting)
      × (crrunning ≡ false → s.resumed ≡ false → (s.locked ≡ true) × (s.pc ≡ starting))

  Step-IsOrderly : {s t : Start} → Step cpu next crrunning s t → IsOrderly s → IsOrderly t
  Step-IsOrderly (choose e) h = ground arith
  Step-IsOrderly (finish e) h = ground arith
  Step-IsOrderly (release e) h = ground arith
  Step-IsOrderly (enter e f) h = ground arith
  Step-IsOrderly (activate e) h = ground arith
  Step-IsOrderly (bind e) h = ground arith
  Step-IsOrderly (leave e) h = ground arith

  Reach-IsOrderly : {s : Start} → Reach cpu next crrunning s → IsOrderly s
  Reach-IsOrderly start = ground arith
  Reach-IsOrderly (later r step) = Step-IsOrderly step (Reach-IsOrderly r)

  -- In every state that the constructor of rtthread, `Resume` and the new thread can reach, a
  -- thread that is in `Execute` has asked to be bound to the processor that its constructor
  -- chose, if that is not -1 (and to none otherwise), and the constructor is done and has stored
  -- that processor.
  pub Reach-bound :
      {s : Start}
      → Reach cpu next crrunning s
      → s.pc ≡ executing
      → (s.bound ≡ bound_to (chosen cpu next crrunning))
        × (s.creator ≡ finished)
        × (s.rcpu ≡ chosen cpu next crrunning)
  Reach-bound r e = let h = Reach-IsOrderly r in ground (arith, h)

  -- A thread that is not to run at once is, in every state that can be reached without a call of
  -- `Resume`, still before its start mutex and not marked as active.
  pub Reach-held :
      {s : Start}
      → Reach cpu next crrunning s
      → crrunning ≡ false
      → s.resumed ≡ false
      → (s.pc ≡ starting) × (s.activ ≡ false)
  Reach-held r off still = let h = Reach-IsOrderly r in ground (arith, h)
