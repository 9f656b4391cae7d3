-- ===== src/Mutex/Exclusion.antt =====
-- Who can hold the mutex.
use rpi_rt_ether_cat_slave_i.Common.{
  Bool-cases, inl, inr, ℕ, ◌+◌, ◌-◌, ◌≡◌, ◌≤◌, ◌<◌, refl, ap, some, Run, done, fault, spins, arith,
  ◌==◌,
}
use rpi_rt_ether_cat_slave_i.Common.Int.{ℤ, pos}
use rpi_rt_ether_cat_slave_i.Mutex.{Semaphores, Mutex, lock, unlock, reset}

-- What the system documents of a semaphore: a wait returns if the value is not 0, and takes 1 away, as
-- long as no signal interrupts it; a post adds 1; the value can be read.
pub record Counts {W : Type 0} (s : Semaphores W) (handle : ℕ) : Type 0 where
  pub value : W → ℕ
  pub wait_ready : (w : W) → 0 < value w → (w' : W) × (s.sem_wait handle w ≡ done (pos 0) w')
  pub wait_blocks : (w : W) → value w ≡ 0 → s.sem_wait handle w ≡ spins
  pub wait_takes :
      (w : W) (err : ℤ) (w' : W) → s.sem_wait handle w ≡ done err w' → value w ≡ value w' + 1
  pub post_adds : (w : W) → value (s.sem_post handle w) ≡ value w + 1
  pub getvalue_reads : (w : W) → (s.sem_getvalue handle w).0 ≡ value w
  pub getvalue_keeps : (w : W) → value (s.sem_getvalue handle w).1 ≡ value w

-- The system, and how many threads are between a `lock` that returned and their `unlock`.
pub record Users (W : Type 0) : Type 0 where
  pub world : W
  pub holders : ℕ

module _ {W : Type 0} (s : Semaphores W) (size : ℕ) (m : Mutex) (handle : ℕ) (c : Counts s handle)
    (open_sem : m.imp_buf ≡ some (some handle)) where
  -- Threads that lock the mutex, and unlock it when they hold it.
  pub data Reach (u0 : Users W) : Users W → Type 0 where
    start : Reach u0 u0
    locks :
        {u : Users W} (w : W)
        → Reach u0 u
        → lock s size m u.world ≡ done tt w
        → Reach u0 (record { world = w; holders = u.holders + 1 })
    unlocks :
        {u : Users W} (w : W)
        → Reach u0 u
        → 0 < u.holders
        → unlock s size m u.world ≡ done tt w
        → Reach u0 (record { world = w; holders = u.holders - 1 })

  -- `lock`, from the result of the wait on
  lock-wait :
      (w : W) {r : Run W ℤ}
      → s.sem_wait handle w ≡ r
      → lock s size m w ≡ elim r [ done err w' ↦ done tt w' | fault ↦ fault | spins ↦ spins ]
  unfolding lock
  lock-wait w e =
      rw (open_sem)
        (ap (λ q. elim q [ done err w' ↦ done tt w' | fault ↦ fault | spins ↦ spins ]) e)

  lock-ready : (w : W) → 0 < c.value w → (w' : W) × (lock s size m w ≡ done tt w')
  lock-ready w free = let (w', e) = c.wait_ready w free in (w', lock-wait w e)

  lock-takes : (w w' : W) → lock s size m w ≡ done tt w' → c.value w ≡ c.value w' + 1
  lock-takes w w' e = go (s.sem_wait handle w) refl
    where
      go : (r : Run W ℤ) → s.sem_wait handle w ≡ r → c.value w ≡ c.value w' + 1
      go (done err w1) e1 =
          let locked = lock-wait w e1 in
          let taken = c.wait_takes w err w1 e1 in let same : w1 ≡ w' = cc in rw (← same) taken
      go fault e1 = let locked = lock-wait w e1 in absurd (ground arith)
      go spins e1 = let locked = lock-wait w e1 in absurd (ground arith)

  Reach-value :
      {u0 u : Users W}
      → c.value u0.world + u0.holders ≡ 1
      → Reach u0 u
      → c.value u.world + u.holders ≡ 1
  unfolding unlock
  Reach-value free start = free
  Reach-value free (locks {u} w r e) = omega (arith, lock-takes u.world w e, Reach-value free r)
  Reach-value free (unlocks {u} w r some_one e) =
      ground (arith, open_sem, c.post_adds u.world, Reach-value free r)

  -- If the mutex has an open semaphore that counts as `Counts` documents, no signal interrupts a
  -- wait, and its value and the number of holders make 1 at the start, then in every state that
  -- locks, and unlocks by a holder, reach, at most one thread holds the mutex, `lock` returns if
  -- none does, and waits if one does.
  pub Reach-excludes :
      {u0 u : Users W}
      → c.value u0.world + u0.holders ≡ 1
      → Reach u0 u
      → (u.holders ≤ 1)
        × ((u.holders ≡ 0 → (w : W) × (lock s size m u.world ≡ done tt w))
            × (u.holders ≡ 1 → lock s size m u.world ≡ spins))
  Reach-excludes {u} free r =
      let sum = Reach-value free r in
      (
        omega arith,
        (
          λ none_holds. lock-ready u.world (omega arith),
          λ one_holds. lock-wait u.world (c.wait_blocks u.world (omega arith)),
        ),
      )

  -- After a reset the semaphore is free.
  reset-free : (w : W) → (w1 : W) × ((reset s size m w ≡ done tt w1) × (0 < c.value w1))
  unfolding reset
  reset-free w = elim (Bool-cases (v == 0)) [
    | inl taken ↦
        let step : reset s size m w ≡ done tt (s.sem_post handle w') = rw (open_sem, taken) refl in
        (s.sem_post handle w', (step, omega (arith, c.post_adds w')))
    | inr free ↦
        let step : reset s size m w ≡ done tt w' = rw (open_sem, free) refl in
        (w', (step, ground (arith, c.getvalue_reads w, c.getvalue_keeps w)))
  ]
    where
      v : ℕ
      v = (s.sem_getvalue handle w).0

      w' : W
      w' = (s.sem_getvalue handle w).1

  -- After a reset a thread can lock, whoever held the mutex.
  pub lock-reset :
      (w : W)
      → (w1 : W) × ((reset s size m w ≡ done tt w1) × ((w2 : W) × (lock s size m w1 ≡ done tt w2)))
  lock-reset w = let (w1, (e, free)) = reset-free w in (w1, (e, lock-ready w1 free))
