-- ===== src/Mutex.antt =====
-- thread/src/thread.cpp: class basemutex and class mutex, over the named semaphores of the system.
pub mod Exclusion
mod Tests
use rpi_rt_ether_cat_slave_i.Common.{
  ℕ, Bool, Option, none, some, List, ◌∷◌, done, fault, spins, M, pure, ◌>>=◌, ◌>>◌, if◌then◌else◌,
  ◌==◌,
}
use rpi_rt_ether_cat_slave_i.Common.Int.{ℤ}

-- What the class calls of the system. A semaphore that cannot be opened is none; a wait that does not
-- end is `spins`.
pub record Semaphores (W : Type 0) : Type 0 where
  -- whether there is memory
  pub malloc : W → Bool × W
  pub free : W → W
  -- `sem_open(name, O_CREAT, ALLPERMS, 1)`
  pub sem_open : List ℕ → W → Option ℕ × W
  pub sem_close : ℕ → W → W
  -- 0, or -1 if a signal interrupts it
  pub sem_wait : ℕ → M W ℤ
  pub sem_post : ℕ → W → W
  pub sem_getvalue : ℕ → W → ℕ × W

-- An object: its own copy of the name, and its buffer, or NULL; a buffer holds a semaphore, or NULL.
pub record Mutex : Type 0 where
  pub name : Option (List ℕ)
  pub imp_buf_size : ℕ
  pub imp_buf : Option (Option ℕ)

-- `basemutex::basemutex` and `basemutex::~basemutex`
abbrev pub construct_base : List ℕ → Mutex → Mutex
construct_base name m = record m { name = some name }

abbrev pub destruct_base : Mutex → Mutex
destruct_base m = record m { name = none }

-- `size` is `sizeof(sem_t)`.
module _ {W : Type 0} (s : Semaphores W) (size : ℕ) where
  abbrev call : {A : Type 0} → (W → A × W) → M W A
  call f w = done (f w).0 (f w).1

  -- `mutex::mutex`
  unfoldable pub construct : List ℕ → Mutex → M W Mutex
  construct name raw =
      let m = record (construct_base name raw) { imp_buf_size = size; imp_buf = none } in
      do
        memory ← call s.malloc
        if memory
            then (call (s.sem_open name) >>= λ handle. pure (record m { imp_buf = some handle }))
            else pure m

  -- `*(sem_t**)imp_buf`, for a call that wants a semaphore
  abbrev pub on_semaphore : {A : Type 0} → Mutex → (ℕ → M W A) → M W A
  on_semaphore m f = elim m.imp_buf [
    | none ↦ λ w. fault
    | some o ↦ elim o [ none ↦ λ w. fault | some handle ↦ f handle ]
  ]

  unfoldable pub lock : Mutex → M W (Unit {0})
  lock m = on_semaphore m (λ handle. s.sem_wait handle >>= λ err. pure tt)

  unfoldable pub unlock : Mutex → M W (Unit {0})
  unlock m = on_semaphore m (λ handle w. done tt (s.sem_post handle w))

  unfoldable pub reset : Mutex → M W (Unit {0})
  reset m = on_semaphore m λ handle. do
    v ← call (s.sem_getvalue handle)
    if v == 0 then (λ w. done tt (s.sem_post handle w)) else pure tt

  abbrev pub close : Mutex → M W (Unit {0})
  close m = on_semaphore m (λ handle w. done tt (s.sem_close handle w))

  -- `mutex::~mutex`, before `basemutex::~basemutex`
  unfoldable pub destruct : Mutex → M W Mutex
  destruct m = elim m.imp_buf [
    | none ↦ pure m
    | some o ↦ if m.imp_buf_size == 0 then pure m else (do
      close m
      λ w. done tt (s.free w)
      pure (record m { imp_buf = none; imp_buf_size = 0 }))
  ]
