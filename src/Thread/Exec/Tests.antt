-- ===== src/Thread/Exec/Tests.antt =====
-- The start of a thread on processor 2, and ExecThread on a system that raises the limit.
use rpi_rt_ether_cat_slave_i.Common.{◌≡◌, refl, inr, true, false, some, pure, done, arith}
use rpi_rt_ether_cat_slave_i.Common.Int.{pos, neg}
use rpi_rt_ether_cat_slave_i.Demo.{limits_kernel, kernel-KeepsLimits, zero_limit}
use rpi_rt_ether_cat_slave_i.Scheduler.{Rlimit, setscheduler, raise_soft_prio}
use rpi_rt_ether_cat_slave_i.Thread.Exec.{
  exec_thread, finished, starting, executing, Start, launched, choose, finish, enter, activate,
  bind, release, bind, Reach, start, later,
}
use rpi_rt_ether_cat_slave_i.Thread.Exec.Executes.{exec_thread-execute}
use rpi_rt_ether_cat_slave_i.Thread.Exec.Order.{Reach-bound, Reach-held}
use rpi_rt_ether_cat_slave_i.Thread.Exec.Progress.{GetsTo, Reach-executes}

exec_thread-execute_example :
    (w : Rlimit) × (exec_thread limits_kernel 2 1
        (λ cpu r. (pos 0, r))
        (pure 7)
        true
        (pos 88)
        (pos 2)
        zero_limit
      ≡ pure 7 w)
exec_thread-execute_example =
    exec_thread-execute limits_kernel kernel-KeepsLimits 2 1 (λ cpu r. (pos 0, r)) (pure 7) true 88
      (pos 2) zero_limit (omega arith) (omega arith)

raised_first :
    exec_thread limits_kernel 2 1 (λ cpu r. (pos 0, r)) (pure 7) true (pos 88) (pos 2) zero_limit
    ≡ done 7 (record { rlim_cur = 88; rlim_max = 99 })
unfolding exec_thread setscheduler raise_soft_prio
raised_first = refl

-- the thread behind the setting of its affinity
abbrev on_processor : Start
on_processor = record {
  rcpu = pos 2;
  locked = true;
  creator = finished;
  pc = executing;
  activ = true;
  bound = some (pos 2);
  resumed = false;
}

processor_run : Reach (neg 1) (pos 2) true on_processor
processor_run =
    later
      (later (later (later (later start (choose refl)) (finish refl)) (enter refl refl))
        (activate refl))
      (bind refl)

Reach-bound_example :
    (on_processor.bound ≡ some (pos 2))
    × (on_processor.creator ≡ finished)
    × (on_processor.rcpu ≡ pos 2)
Reach-bound_example = Reach-bound (neg 1) (pos 2) true processor_run refl

abbrev waiting : Start
waiting = record (launched (neg 1) (pos 2) false) { rcpu = pos 2; creator = finished }

waiting_run : Reach (neg 1) (pos 2) false waiting
waiting_run = later (later start (choose refl)) (finish refl)

waiting_held : (waiting.pc ≡ starting) × (waiting.activ ≡ false)
waiting_held = Reach-held (neg 1) (pos 2) false waiting_run refl refl

abbrev woken : Start
woken = record waiting { locked = false; resumed = true }

Reach-executes_example : GetsTo (neg 1) (pos 2) false 5 woken
Reach-executes_example =
    Reach-executes (neg 1) (pos 2) false (later waiting_run (release refl)) (inr refl)
      (ground arith)
