-- ===== src/Scheduler/Tests.antt =====
-- setscheduler on a system that grants a priority once the soft limit reaches it.
use rpi_rt_ether_cat_slave_i.Common.{◌≡◌, refl, done, arith}
use rpi_rt_ether_cat_slave_i.Common.Int.{ℤ, pos}
use rpi_rt_ether_cat_slave_i.Demo.{limits_kernel, kernel-KeepsLimits, zero_limit}
use rpi_rt_ether_cat_slave_i.Scheduler.{Rlimit, raise_soft_prio, setscheduler}
use rpi_rt_ether_cat_slave_i.Scheduler.Termination.{setscheduler-returns}

raised :
    setscheduler limits_kernel 2 1 (pos 88) zero_limit
    ≡ done (pos 0) (record { rlim_cur = 88; rlim_max = 99 })
unfolding setscheduler raise_soft_prio
raised = refl

setscheduler-returns_example :
    (err : ℤ) × (r : Rlimit) × (setscheduler limits_kernel 2 1 (pos 88) zero_limit ≡ done err r)
setscheduler-returns_example =
    setscheduler-returns limits_kernel kernel-KeepsLimits 1 88 (omega arith) 2 zero_limit
      (omega arith)
