-- ===== src/Thread/Exec/Executes.antt =====
-- A thread goes on to Execute, whatever the system answers.
use rpi_rt_ether_cat_slave_i.Common.{
  ℕ, ◌^◌, ◌≡◌, ◌<◌, ◌≤◌, Bool, true, false, refl, ◌∙◌, M, pure, done, ◌>>=◌, ◌>>◌, >>=-done,
  if◌then◌else◌, Bool-cases, inl, inr,
}
use rpi_rt_ether_cat_slave_i.Common.Int.{ℤ, pos, is_minus_one}
use rpi_rt_ether_cat_slave_i.Scheduler.{Kernel, call, setscheduler}
use rpi_rt_ether_cat_slave_i.Scheduler.Termination.{KeepsLimits, setscheduler-returns}
use rpi_rt_ether_cat_slave_i.Thread.Exec.{exec_thread}

module _ {W : Type 0} (k : Kernel W) (l : KeepsLimits k) (fuel sched_fifo : ℕ)
    (set_affinity : ℤ → W → ℤ × W) (execute : M W ℕ) where
  abbrev scheduling : Bool → ℤ → M W (Unit {0})
  scheduling isrt priority =
      if isrt then (setscheduler k fuel sched_fifo priority >>= λ err. pure tt) else pure tt

  abbrev binding : ℤ → M W (Unit {0})
  binding rcpu =
      if is_minus_one rcpu then pure tt else (call k (set_affinity rcpu) >>= λ err. pure tt)

  scheduling-returns :
      (isrt : Bool) (prio : ℕ) (w : W)
      → prio < 2 ^ 31
      → 2 ≤ fuel
      → (w' : W) × (scheduling isrt (pos prio) w ≡ done tt w')
  scheduling-returns true prio w small enough =
      let (err, w', e) = setscheduler-returns k l sched_fifo prio small fuel w enough in
      (w', >>=-done (setscheduler k fuel sched_fifo (pos prio)) (λ err. pure tt) w e)
  scheduling-returns false prio w small enough = (w, refl)

  binding-returns : (rcpu : ℤ) (w : W) → (w' : W) × (binding rcpu w ≡ done tt w')
  binding-returns rcpu w = elim (Bool-cases (is_minus_one rcpu)) [
    | inl e ↦ (w, rw e refl)
    | inr e ↦ ((set_affinity rcpu w).1, rw e refl)
  ]

  -- If the calls of the system keep and report the limits as `KeepsLimits` says, the priority is
  -- from 0 to 2 ^ 31 - 1 and there are two rounds of fuel, `ExecThread` comes to `Execute`,
  -- whether or not the priority and the affinity are granted, and has its result.
  pub exec_thread-execute :
      (isrt : Bool) (prio : ℕ) (rcpu : ℤ) (w : W)
      → prio < 2 ^ 31
      → 2 ≤ fuel
      → (w' : W) × (exec_thread k fuel sched_fifo set_affinity execute isrt (pos prio) rcpu w
          ≡ execute w')
  unfolding exec_thread
  exec_thread-execute isrt prio rcpu w small enough =
      let (w1, e1) = scheduling-returns isrt prio w small enough in
      let (w2, e2) = binding-returns rcpu w1 in
      (
        w2,
        >>=-done (scheduling isrt (pos prio)) (λ u. binding rcpu >> execute) w e1
            ∙ >>=-done (binding rcpu) (λ u. execute) w1 e2,
      )
