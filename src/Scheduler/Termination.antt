-- ===== src/Scheduler/Termination.antt =====
-- setscheduler tries at most twice: once the soft limit has been raised to the priority, it is not
-- raised again.
use rpi_rt_ether_cat_slave_i.Common.{
  ℕ, zero, suc, ◌^◌, ◌≡◌, ◌<◌, ◌≢◌, refl, ◌∙◌, Bool, true, false, not, ◌&&◌, ap, ◌≤◌, done, arith,
  Bool-cases, inl, inr,
}
use rpi_rt_ether_cat_slave_i.Common.Int.{ℤ, pos, neg, is_zero, is_minus_one, ltz}
use rpi_rt_ether_cat_slave_i.Scheduler.{Rlimit, Kernel, raise_soft_prio, setscheduler, limit_of}

-- What the system documents: only `setrlimit` changes the limits, to what it is given if it succeeds;
-- a `getrlimit` that succeeds reports them; a call that fails leaves an `errno` that is not 0;
-- RLIM_INFINITY is no priority.
pub record KeepsLimits {W : Type 0} (k : Kernel W) : Type 0 where
  pub limits : W → Rlimit
  pub max_keeps : (policy : ℕ) (w : W) → limits (k.sched_get_priority_max policy w).1 ≡ limits w
  pub get_keeps : (w : W) → limits (k.getrlimit w).1 ≡ limits w
  pub get_limits : (w : W) → is_zero (k.getrlimit w).0.0 ≡ true → (k.getrlimit w).0.1 ≡ limits w
  pub set_limits :
      (r : Rlimit) (w : W) → is_zero (k.setrlimit r w).0 ≡ true → limits (k.setrlimit r w).1 ≡ r
  pub try_keeps :
      (policy : ℕ) (prio : ℤ) (w : W) → limits (k.sched_setscheduler policy prio w).1 ≡ limits w
  pub max_errno :
      (policy : ℕ) (w : W)
      → is_minus_one (k.sched_get_priority_max policy w).0 ≡ true
      → is_zero (k.errno (k.sched_get_priority_max policy w).1) ≡ false
  pub get_errno :
      (w : W) → is_zero (k.getrlimit w).0.0 ≡ false → is_zero (k.errno (k.getrlimit w).1) ≡ false
  pub set_errno :
      (r : Rlimit) (w : W)
      → is_zero (k.setrlimit r w).0 ≡ false
      → is_zero (k.errno (k.setrlimit r w).1) ≡ false
  pub infinity_large : 2 ^ 31 ≤ k.rlim_infinity

module _ {W : Type 0} (k : Kernel W) (l : KeepsLimits k) (policy prio : ℕ)
    (small : prio < 2 ^ 31) where
  abbrev highest : W → ℤ
  highest w = (k.sched_get_priority_max policy w).0

  abbrev asked : W → W
  asked w = (k.sched_get_priority_max policy w).1

  abbrev got : W → W
  got w = (k.getrlimit (asked w)).1

  abbrev found : W → Rlimit
  found w = (k.getrlimit (asked w)).0.1

  abbrev raisable : W → Bool
  raisable w =
      ltz (limit_of k (highest w) (found w).rlim_cur) (pos prio)
      && not (ltz (limit_of k (highest w) (found w).rlim_max) (pos prio))

  abbrev wanted : W → Rlimit
  wanted w = record (found w) { rlim_cur = prio }

  -- With the priority as the soft limit there is nothing to raise.
  not-raisable :
      (w : W)
      → is_zero (k.getrlimit (asked w)).0.0 ≡ true
      → (l.limits w).rlim_cur ≡ prio
      → raisable w ≡ false
  not-raisable w ok e =
      let cur : (found w).rlim_cur ≡ prio =
        ap (λ r. r.rlim_cur) (l.get_limits (asked w) ok ∙ l.max_keeps policy w) ∙ e in
      ground (arith, cur, l.infinity_large)

  -- A call that returns 0 leaves the priority as the soft limit, and with the priority as the soft
  -- limit no call returns 0.
  raise_soft_prio-limit :
      (w : W)
      → (err : ℤ) × (w' : W) × (raise_soft_prio k policy (pos prio) w ≡ done err w')
        × (is_zero err ≡ true → (l.limits w').rlim_cur ≡ prio)
        × ((l.limits w).rlim_cur ≡ prio → is_zero err ≡ false)
  unfolding raise_soft_prio
  raise_soft_prio-limit w = elim (Bool-cases (is_minus_one (highest w))) [
    | inl bad ↦
        let e = l.max_errno policy w bad in
        (k.errno (asked w), asked w, rw bad refl, λ h. absurd (ground arith), λ _. e)
    | inr good ↦ elim (Bool-cases (is_zero (k.getrlimit (asked w)).0.0)) [
      | inr failed ↦
          let e = l.get_errno (asked w) failed in
          (k.errno (got w), got w, ground arith, λ h. absurd (ground arith), λ _. e)
      | inl ok ↦ elim (Bool-cases (raisable w)) [
        | inr no_need ↦ (neg 1, got w, ground arith, λ h. absurd (ground arith), λ _. refl)
        | inl need ↦ elim (Bool-cases (is_zero (k.setrlimit (wanted w) (got w)).0)) [
          | inl set ↦ (
            (k.setrlimit (wanted w) (got w)).0,
            (k.setrlimit (wanted w) (got w)).1,
            ground arith,
            λ h. ap (λ r. r.rlim_cur) (l.set_limits (wanted w) (got w) set),
            λ e. absurd (let same = not-raisable w ok e in ground arith),
          )
          | inr denied ↦
              let e = l.set_errno (wanted w) (got w) denied in
              (
                k.errno (k.setrlimit (wanted w) (got w)).1,
                (k.setrlimit (wanted w) (got w)).1,
                ground arith,
                λ h. absurd (ground arith),
                λ _. e,
              )
        ]
      ]
    ]
  ]

  abbrev tried : W → W
  tried w = (k.sched_setscheduler policy (pos prio) w).1

  abbrev accepted : W → Bool
  accepted w = is_zero (k.sched_setscheduler policy (pos prio) w).0

  abbrev Returns : ℕ → W → Type 0
  Returns fuel w = (err : ℤ) × (w' : W) × (setscheduler k fuel policy (pos prio) w ≡ done err w')

  -- One try, and the tries that follow where the limit was raised.
  one_try :
      (fuel : ℕ) (w : W)
      → ((w' : W) → (l.limits w').rlim_cur ≡ prio → (l.limits w).rlim_cur ≢ prio → Returns fuel w')
      → Returns (suc fuel) w
  unfolding setscheduler
  one_try fuel w rest = elim (Bool-cases (accepted w)) [
    | inl ok ↦ ((k.sched_setscheduler policy (pos prio) w).0, tried w, rw ok)
    | inr refused ↦ elim (Bool-cases (k.is_eperm (k.errno (tried w)))) [
      | inr other ↦ (k.errno (tried w), tried w, ground arith)
      | inl eperm ↦
          let (err, w', e, raised, kept) = raise_soft_prio-limit (tried w) in
          elim (Bool-cases (is_zero err)) [
            | inr done_with ↦ (k.errno (tried w), w', ground arith)
            | inl again ↦
                let (r, w'', e') = rest w' (raised again) (λ same.
                  let never =
                    kept (ap (λ q. q.rlim_cur) (l.try_keeps policy (pos prio) w) ∙ same) in
                  cc) in
                (r, w'', ground arith)
          ]
    ]
  ]

  -- If the calls of the system keep and report the limits as `KeepsLimits` says, two rounds of
  -- the loop of `setscheduler` are enough for it to return, for every policy and every priority
  -- from 0 to 2 ^ 31 - 1.
  pub setscheduler-returns :
      (fuel : ℕ) (w : W)
      → 2 ≤ fuel
      → (err : ℤ) × (w' : W) × (setscheduler k fuel policy (pos prio) w ≡ done err w')
  setscheduler-returns zero w h = absurd (omega arith)
  setscheduler-returns (suc zero) w h = absurd (omega arith)
  setscheduler-returns (suc (suc fuel)) w h =
      one_try (suc fuel) w (λ w' e ne. one_try fuel w' (λ w'' e' ne'. absurd (ne' e)))
