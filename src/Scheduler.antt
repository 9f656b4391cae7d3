-- ===== src/Scheduler.antt =====
-- thread/src/thread.cpp: raise_soft_prio and setscheduler.
pub mod Termination
mod Tests
use rpi_rt_ether_cat_slave_i.Common.{
  ℕ, zero, suc, ◌%◌, ◌^◌, ◌-◌, Bool, ◌&&◌, not, done, fault, spins, M, pure, ◌>>=◌, if◌then◌else◌,
  ◌==◌,
}
use rpi_rt_ether_cat_slave_i.Common.Int.{ℤ, pos, negsuc, neg, is_zero, is_minus_one, ltz, int_of}

-- `struct rlimit`
pub record Rlimit : Type 0 where
  pub rlim_cur : ℕ
  pub rlim_max : ℕ

-- The calls of the system; each returns an `int` that is 0 (or, for `sched_get_priority_max`, not -1)
-- on success.
pub record Kernel (W : Type 0) : Type 0 where
  pub errno : W → ℤ
  pub sched_get_priority_max : ℕ → W → ℤ × W
  pub getrlimit : W → (ℤ × Rlimit) × W
  pub setrlimit : Rlimit → W → ℤ × W
  pub sched_setscheduler : ℕ → ℤ → W → ℤ × W
  -- RLIM_INFINITY and EPERM
  pub rlim_infinity : ℕ
  pub is_eperm : ℤ → Bool

-- the conversion of an `int` to `rlim_t`
abbrev pub rlim_of : ℤ → ℕ
rlim_of (pos n) = n
rlim_of (negsuc n) = 2 ^ 64 - 1 - n

module _ {W : Type 0} (k : Kernel W) where
  abbrev pub call : {A : Type 0} → (W → A × W) → M W A
  call f w = done (f w).0 (f w).1

  abbrev pub errno_of : M W ℤ
  errno_of w = done (k.errno w) w

  -- a limit as an `int`, where RLIM_INFINITY stands for the highest priority of the policy
  abbrev pub limit_of : ℤ → ℕ → ℤ
  limit_of policy_max limit = if limit == k.rlim_infinity then policy_max else int_of limit

  unfoldable pub raise_soft_prio : ℕ → ℤ → M W ℤ
  raise_soft_prio policy prio = do
    policy_max ← call (k.sched_get_priority_max policy)
    if is_minus_one policy_max then errno_of else (do
      (err, rlim) ← call k.getrlimit
      if not (is_zero err)
          then errno_of
          else (if ltz (limit_of policy_max rlim.rlim_cur) prio
                && not (ltz (limit_of policy_max rlim.rlim_max) prio)
              then (do
                err' ← call (k.setrlimit (record rlim { rlim_cur = rlim_of prio }))
                if is_zero err' then pure err' else errno_of)
              else pure (neg 1)))

  -- the loop of `goto try_again`, on fuel
  unfoldable pub setscheduler : ℕ → ℕ → ℤ → M W ℤ
  setscheduler zero policy prio w = spins
  setscheduler (suc fuel) policy prio w =
      let again = λ (w' : W). setscheduler fuel policy prio w' in
      (do
        err ← call (k.sched_setscheduler policy prio)
        if is_zero err then pure err else (do
          err' ← errno_of
          if k.is_eperm err'
              then (do
                err1 ← raise_soft_prio policy prio
                λ w'. if is_zero err1 then again w' else done err' w')
              else pure err'))
        w
