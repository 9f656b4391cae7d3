-- ===== src/Thread.antt =====
-- thread/src/thread.cpp: the thread classes, over the calls that they make of the system.
pub mod Cpu
pub mod Exec
pub mod Helpers
pub mod Lifecycle
pub mod Endings
pub mod Lives
mod Tests
use rpi_rt_ether_cat_slave_i.Common.{
  ℕ, zero, suc, ◌+◌, ◌-◌, ◌*◌, ◌%◌, ◌^◌, Bool, true, false, not, ◌&&◌, Option, none, some, List, [],
  ◌∷◌, ◌++◌, done, fault, spins, set, M, pure, ◌>>=◌, ◌>>◌, if◌then◌else◌, ltb, ◌==◌,
}
use rpi_rt_ether_cat_slave_i.ThreadName.{fix_threadname}
use rpi_rt_ether_cat_slave_i.Common.Int.{ℤ, pos, negsuc, neg, is_zero, is_minus_one, ltz, u32_of}

-- the calls of the system, and `delete`s, that the classes make
pub data Call : Type 0 where
  mutex_init mutex_lock mutex_unlock mutex_destroy : Call
  attr_init attr_destroy sched_policy_fifo sched_param : Call
  stack_size : ℕ → Call
  create : ℕ → Call
  affinity : ℕ → ℤ → Call
  set_name : ℕ → List ℕ → Call
  cancel : ℕ → Call
  join : ℕ → Call
  free : Call

-- `HALTHREADID`: the handle, 0 for none; its mutex is what the calls make of it.
pub record HalThreadId : Type 0 where
  pub handle : ℕ

-- The data members of class threadbase; `imp_buf` is the object's own buffer, or NULL.
pub record Thread : Type 0 where
  pub priority : ℤ
  pub cpu : ℤ
  pub isrt : Bool
  pub rcpu : ℤ
  pub activ : Bool
  pub crrunning : Bool
  pub imp_buf_size : ℕ
  pub imp_buf : Option HalThreadId

-- The variables of the file, the `nproc` of `get_nextcpu`, and the calls made so far, oldest first.
pub record System : Type 0 where
  pub threadunique : ℕ
  pub sc_cpu : ℕ
  pub nproc : ℤ
  pub calls : List Call

-- What the system answers: whether `malloc` has memory, the handle of a thread that is created, and
-- `sysconf(_SC_NPROCESSORS_ONLN)`.
pub record Answers : Type 0 where
  pub has_memory : Bool
  pub new_handle : ℕ
  pub processors : ℤ

abbrev pub do_call : Call → M System (Unit {0})
do_call c s = done tt (record s { calls = s.calls ++ c ∷ [] })

abbrev pub do_if : Bool → M System (Unit {0}) → M System (Unit {0})
do_if b m = if b then m else pure tt

-- `InterlockedIncrement(&sc_cpu)` and `InterlockedIncrement(&s_threadunique)`
abbrev pub interlocked_increment : ℕ → ℕ
interlocked_increment x = (x + 1) % 2 ^ 32

-- `rtthread::get_nextcpu`
unfoldable pub get_nextcpu : Answers → M System ℤ
get_nextcpu env s =
    let s' =
      if is_minus_one s.nproc
      then record s {
        nproc = env.processors;
        sc_cpu = (u32_of env.processors + 2 ^ 32 - 1) % 2 ^ 32;
      }
      else s in
    let next = interlocked_increment s'.sc_cpu in
    done (pos (next % u32_of s'.nproc)) (record s' { sc_cpu = next })

-- `threadbase::threadbase`
abbrev pub construct_base : ℤ → ℤ → Bool → Thread
construct_base priority cpu crrunning = record {
  priority = priority;
  cpu = cpu;
  isrt = false;
  rcpu = cpu;
  activ = false;
  crrunning = crrunning;
  imp_buf_size = 0;
  imp_buf = none;
}

abbrev pub stack_of : ℕ → ℕ
stack_of stacksize = if stacksize == 0 then 128 * 1024 else stacksize

-- `fix_threadname` into `namebuf`, 64 bytes whose last is cleared, and `pthread_setname_np`
abbrev pub name_thread : ℕ → List ℕ → List ℕ → M System (Unit {0})
name_thread handle name buffer s =
    let (cname, unique) = fix_threadname name (set buffer 63 0) 63 s.threadunique in
    done tt (record s { threadunique = unique; calls = s.calls ++ set_name handle cname ∷ [] })

-- `size` is `sizeof(HALTHREADID)`.
module _ (size : ℕ) (env : Answers) where
  -- `thread::thread`
  unfoldable pub construct_thread : ℤ → ℤ → Bool → ℕ → M System Thread
  construct_thread priority cpu crrunning stacksize =
      let t = record (construct_base priority cpu crrunning) { imp_buf_size = size } in
      if not env.has_memory then pure t else (do
        do_call mutex_init
        do_call mutex_lock
        do_call attr_init
        do_if (not (stack_of stacksize == 0)) (do_call (stack_size (stack_of stacksize)))
        do_call (create env.new_handle)
        do_if (ltz cpu env.processors && not (is_minus_one cpu))
            (do_call (affinity env.new_handle cpu))
        do_call attr_destroy
        do_if crrunning (do_call mutex_unlock)
        pure (record t { imp_buf = some (record { handle = env.new_handle }) }))

  -- `rtthread::rtthread`. A failed `malloc` is written through (a fault). `name` is what `Name()`
  -- returns, and `buffer` the uninitialised `namebuf` of 64 bytes.
  unfoldable pub construct_rtthread : List ℕ → List ℕ → ℤ → ℤ → Bool → ℕ → M System Thread
  construct_rtthread name buffer priority cpu crrunning stacksize =
      if not env.has_memory then (λ s. fault) else (do
        do_call mutex_init
        do_call mutex_lock
        do_call attr_init
        do_if (not (stack_of stacksize == 0)) (do_call (stack_size (stack_of stacksize)))
        do_call sched_policy_fifo
        do_call sched_param
        do_call (create env.new_handle)
        cpu' ← (if is_minus_one cpu then get_nextcpu env else pure cpu)
        do_if (ltz cpu' env.processors) (do_call (affinity env.new_handle cpu'))
        name_thread env.new_handle name buffer
        do_call attr_destroy
        do_if crrunning (do_call mutex_unlock)
        pure (record (construct_base priority cpu crrunning) {
          isrt = true;
          rcpu = cpu';
          imp_buf_size = size;
          imp_buf = some (record { handle = env.new_handle });
        }))

-- `thread::Resume`, which does not look whether there is a buffer
unfoldable pub resume : Thread → M System (Unit {0})
resume t = elim t.imp_buf [ none ↦ λ s. fault | some h ↦ do_call mutex_unlock ]

-- `rtthread::Suspend`
unfoldable pub suspend : Thread → M System (Unit {0})
suspend t = elim t.imp_buf [ none ↦ λ s. fault | some h ↦ do_call (cancel h.handle) ]

-- `(imp_buf != NULL) && (imp_buf_size != 0)`, with the handle in the buffer
abbrev pub buffer_of : Thread → Option HalThreadId
buffer_of t = if t.imp_buf_size == 0 then none else t.imp_buf

abbrev pub stop : ℕ → M System (Unit {0})
stop handle = do do_call mutex_destroy; do_call (cancel handle); do_call (join handle)

-- `thread::Terminate`: the handle is cleared.
unfoldable pub terminate_thread : Thread → M System (Bool × Thread)
terminate_thread t = elim (buffer_of t) [
  | none ↦ pure (false, t)
  | some h ↦ if h.handle == 0 then pure (false, t) else (do
    stop h.handle
    pure (true, record t { imp_buf = some (record { handle = 0 }); activ = false }))
]

-- `rtthread::Terminate`: the handle stays.
unfoldable pub terminate_rtthread : Thread → M System (Bool × Thread)
terminate_rtthread t = elim (buffer_of t) [
  | none ↦ pure (false, t)
  | some h ↦
      if h.handle == 0
      then pure (false, t)
      else (do stop h.handle; pure (true, record t { activ = false }))
]

abbrev pub released : Thread → Thread
released t = record t { imp_buf_size = 0; imp_buf = none; activ = false }

-- `thread::~thread`, over the class's `Terminate`
unfoldable pub destruct : (Thread → M System (Bool × Thread)) → Thread → M System Thread
destruct terminate t = elim (buffer_of t) [
  | none ↦ pure (record t { activ = false })
  | some h ↦ do (term, t') ← terminate t; do_call free; pure (released t')
]
