-- ===== src/Mutex/Tests.antt =====
-- A system with one semaphore, whose state is the semaphore's value.
use rpi_rt_ether_cat_slave_i.Common.{
  [], ◌∷◌, ℕ, ◌+◌, ◌-◌, ◌≤◌, ◌<◌, ◌≡◌, refl, true, some, none, M, done, spins, fault, arith,
  if◌then◌else◌, ltb,
}
use rpi_rt_ether_cat_slave_i.Common.Int.{ℤ, pos}
use rpi_rt_ether_cat_slave_i.Mutex.{Semaphores, Mutex, construct, lock, reset, destruct}
use rpi_rt_ether_cat_slave_i.Mutex.Exclusion.{
  Counts, Users, Reach, start, locks, Reach-excludes, lock-reset,
}

abbrev wait_on : M ℕ ℤ
wait_on v = if ltb 0 v then done (pos 0) (v - 1) else spins

abbrev semaphores : Semaphores ℕ
semaphores = record {
  malloc = λ w. (true, w);
  free = λ w. w;
  sem_open = λ name w. (some 3, 1);
  sem_close = λ h w. w;
  sem_wait = λ h. wait_on;
  sem_post = λ h w. w + 1;
  sem_getvalue = λ h w. (w, w);
}

wait_on-ready : (w : ℕ) → 0 < w → (w' : ℕ) × (wait_on w ≡ done (pos 0) w')
wait_on-ready w h = (w - 1, ground arith)

wait_on-blocks : (w : ℕ) → w ≡ 0 → wait_on w ≡ spins
wait_on-blocks w h = ground arith

wait_on-takes : (w : ℕ) (err : ℤ) (w' : ℕ) → wait_on w ≡ done err w' → w ≡ w' + 1
wait_on-takes w err w' e = ground arith

abbrev semaphores-Counts : Counts semaphores 3
semaphores-Counts = record {
  value = λ w. w;
  wait_ready = wait_on-ready;
  wait_blocks = wait_on-blocks;
  wait_takes = wait_on-takes;
  post_adds = λ w. refl;
  getvalue_reads = λ w. refl;
  getvalue_keeps = λ w. refl;
}

abbrev raw : Mutex
raw = record { name = none; imp_buf_size = 0; imp_buf = none }

abbrev opened : Mutex
opened = record { name = some (b'm' ∷ []); imp_buf_size = 32; imp_buf = some (some 3) }

constructed : construct semaphores 32 (b'm' ∷ []) raw 0 ≡ done opened 1
unfolding construct
constructed = refl

abbrev contended : Users ℕ
contended = record { world = 0; holders = 1 }

-- one thread has locked the mutex
locked_run :
    Reach semaphores 32 opened 3 semaphores-Counts refl
      (record { world = 1; holders = 0 })
      contended
unfolding lock
locked_run = locks 0 start refl

Reach-excludes_example :
    (contended.holders ≤ 1)
    × ((contended.holders ≡ 0 → (w : ℕ) × (lock semaphores 32 opened 0 ≡ done tt w))
        × (contended.holders ≡ 1 → lock semaphores 32 opened 0 ≡ spins))
Reach-excludes_example =
    Reach-excludes semaphores 32 opened 3 semaphores-Counts refl refl locked_run

after_reset :
    (w1 : ℕ) × ((reset semaphores 32 opened 0 ≡ done tt w1)
      × ((w2 : ℕ) × (lock semaphores 32 opened w1 ≡ done tt w2)))
after_reset = lock-reset semaphores 32 opened 3 semaphores-Counts refl 0

-- A mutex whose semaphore could not be opened.
not_opened : lock semaphores 32 (record opened { imp_buf = some none }) 1 ≡ fault
unfolding lock
not_opened = refl

-- The name of the base class stays until its own destructor.
destructed :
    destruct semaphores 32 opened 1 ≡ done (record opened { imp_buf_size = 0; imp_buf = none }) 1
unfolding destruct
destructed = refl
