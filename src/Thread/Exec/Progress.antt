-- ===== src/Thread/Exec/Progress.antt =====
-- A thread that is to run gets to ExecThread's call of Execute.
use rpi_rt_ether_cat_slave_i.Common.{
  ◌⊎◌, ℕ, ◌+◌, ◌≡◌, ◌≢◌, ◌≤◌, refl, ◌∙◌, Bool, true, false, arith, inl, inr,
}
use rpi_rt_ether_cat_slave_i.Common.Int.{ℤ}
use rpi_rt_ether_cat_slave_i.Thread.Exec.{
  CreatorPc, created, assigned, finished, StartPc, starting, entered, active, executing, ended,
  Start, bound_to, Step, choose, finish, release, enter, activate, bind, leave, Reach, start, later,
}

module _ (cpu next : ℤ) (crrunning : Bool) where
  -- While the thread waits for its start mutex, the mutex is free as soon as the constructor is done
  -- with a thread that is to run at once, and as soon as Resume has been called.
  abbrev IsWaking : Start → Type 0
  IsWaking s =
      (s.pc ≡ starting → s.creator ≡ finished → crrunning ≡ true → s.locked ≡ false)
      × (s.pc ≡ starting → s.resumed ≡ true → s.locked ≡ false)
      × (s.resumed ≡ true → s.creator ≡ finished)

  Step-IsWaking : {s t : Start} → Step cpu next crrunning s t → IsWaking s → IsWaking t
  Step-IsWaking (choose e) h = ground arith
  Step-IsWaking (finish e) h = ground arith
  Step-IsWaking (release e) h = ground arith
  Step-IsWaking (enter e f) h = ground arith
  Step-IsWaking (activate e) h = ground arith
  Step-IsWaking (bind e) h = ground arith
  Step-IsWaking (leave e) h = ground arith

  Reach-IsWaking : {s : Start} → Reach cpu next crrunning s → IsWaking s
  Reach-IsWaking start = ground arith
  Reach-IsWaking (later r step) = Step-IsWaking step (Reach-IsWaking r)

  -- A run of so many steps.
  pub data Runs (t : Start) : ℕ → Start → Type 0 where
    here : Runs t 0 t
    onward : {n : ℕ} {s u : Start} → Step cpu next crrunning s u → Runs t n u → Runs t (n + 1) s

  -- At most `n` steps of the constructor and of the thread, none of them Resume, lead into Execute.
  abbrev pub GetsTo : ℕ → Start → Type 0
  GetsTo n s =
      (m : ℕ) × (t : Start) × (m ≤ n) × Runs t m s × (t.pc ≡ executing) × (t.resumed ≡ s.resumed)

  from_active : (s : Start) → s.pc ≡ active → GetsTo 1 s
  from_active s e = (
    1,
    record s { pc = executing; bound = bound_to s.rcpu },
    omega arith,
    onward (bind e) here,
    refl,
    refl,
  )

  -- One more step.
  after :
      {n : ℕ} {s u : Start}
      → Step cpu next crrunning s u
      → u.resumed ≡ s.resumed
      → GetsTo n u
      → GetsTo (n + 1) s
  after step same (m, t, few, run, at_end, kept) =
      (m + 1, t, omega arith, onward step run, at_end, kept ∙ same)

  sooner : {n : ℕ} {s : Start} (k : ℕ) → n ≤ k → GetsTo n s → GetsTo k s
  sooner k le (m, t, few, run, at_end, kept) = (m, t, omega arith, run, at_end, kept)

  from_entered : (s : Start) → s.pc ≡ entered → GetsTo 2 s
  from_entered s e = after (activate e) refl (from_active _ refl)

  from_free : (s : Start) → s.pc ≡ starting → s.locked ≡ false → GetsTo 3 s
  from_free s e f = after (enter e f) refl (from_entered _ refl)

  -- The thread waits for its start mutex.
  from_starting :
      (s : Start) (c : CreatorPc)
      → s.creator ≡ c
      → s.pc ≡ starting
      → (crrunning ≡ true) ⊎ (s.resumed ≡ true)
      → IsWaking s
      → GetsTo 5 s
  from_starting s finished e p wanted h =
      let free : s.locked ≡ false = ground arith in sooner 5 (omega arith) (from_free s p free)
  from_starting s assigned e p (inl runs) h =
      sooner 5 (omega arith) (after (finish e) refl (from_free _ p (ground arith)))
  from_starting s created e p (inl runs) h =
      after (choose e) refl (after (finish refl) refl (from_free _ p (ground arith)))
  from_starting s assigned e p (inr told) h = absurd (ground arith)
  from_starting s created e p (inr told) h = absurd (ground arith)

  -- From every reachable state in which the thread has not ended, if it was made to run at once
  -- or `Resume` has been called, at most five steps of the constructor and of the thread, none of
  -- them `Resume`, lead to the call of `Execute`.
  pub Reach-executes :
      {s : Start}
      → Reach cpu next crrunning s
      → (crrunning ≡ true) ⊎ (s.resumed ≡ true)
      → s.pc ≢ ended
      → GetsTo 5 s
  Reach-executes {s} r wanted alive = go s.pc refl
    where
      go : (p : StartPc) → s.pc ≡ p → GetsTo 5 s
      go starting e = from_starting s s.creator refl e wanted (Reach-IsWaking r)
      go entered e = sooner 5 (omega arith) (from_entered s e)
      go active e = sooner 5 (omega arith) (from_active s e)
      go executing e = (0, s, omega arith, here, e, refl)
      go ended e = absurd (alive e)
