-- ===== src/Thread/Lifecycle.antt =====
-- Creating, resuming, terminating and destroying a thread object.
use rpi_rt_ether_cat_slave_i.Common.{
  ℕ, ◌≡◌, ◌≢◌, refl, ◌∙◌, Bool, true, false, not, some, List, [], ◌∷◌, ◌++◌, done, arith, ◌==◌,
  if◌then◌else◌, append_assoc, ap, ◌&&◌,
}
use rpi_rt_ether_cat_slave_i.Common.Int.{ℤ, ltz, is_minus_one}
use rpi_rt_ether_cat_slave_i.Thread.{
  Call, mutex_init, mutex_lock, mutex_unlock, mutex_destroy, cancel, join, free, Thread, System,
  Answers, HalThreadId, construct_thread, resume, terminate_thread, terminate_rtthread, affinity,
  attr_init, attr_destroy, stack_size, stack_of, create, construct_base, destruct, released,
}

-- Whether the start mutex is held after a list of calls.
abbrev pub is_held : Bool → List Call → Bool
is_held held [] = held
is_held held (Call.mutex_init ∷ cs) = is_held false cs
is_held held (Call.mutex_lock ∷ cs) = is_held true cs
is_held held (Call.mutex_unlock ∷ cs) = is_held false cs
is_held held (_ ∷ cs) = is_held held cs

module _ (size : ℕ) (env : Answers) (memory : env.has_memory ≡ true) where
  -- the calls that a constructor makes before it looks whether the thread is to run
  abbrev pub early_calls : ℤ → ℕ → Bool → List Call
  early_calls cpu stacksize bound =
      mutex_init
      ∷ mutex_lock
      ∷ attr_init
      ∷ stack_size (stack_of stacksize)
      ∷ create env.new_handle
      ∷ (if bound then affinity env.new_handle cpu ∷ attr_destroy ∷ [] else attr_destroy ∷ [])

  abbrev pub start_calls : Bool → List Call
  start_calls crrunning = if crrunning then mutex_unlock ∷ [] else []

  abbrev pub built : ℤ → ℤ → Bool → Thread
  built priority cpu crrunning = record (construct_base priority cpu crrunning) {
    imp_buf_size = size;
    imp_buf = some (record { handle = env.new_handle });
  }

  construct_thread-calls :
      (priority cpu : ℤ) (crrunning : Bool) (stacksize : ℕ) (s : System) (bound : Bool)
      → (ltz cpu env.processors && not (is_minus_one cpu)) ≡ bound
      → construct_thread size env priority cpu crrunning stacksize s
        ≡ done (built priority cpu crrunning) (record s {
          calls = s.calls ++ (early_calls cpu stacksize bound ++ start_calls crrunning);
        })
  unfolding construct_thread
  construct_thread-calls priority cpu true stacksize s true e =
      let test : (stack_of stacksize == 0) ≡ false = ground arith in
      simp (memory, test, e, append_assoc)
  construct_thread-calls priority cpu true stacksize s false e =
      let test : (stack_of stacksize == 0) ≡ false = ground arith in
      simp (memory, test, e, append_assoc)
  construct_thread-calls priority cpu false stacksize s true e =
      let test : (stack_of stacksize == 0) ≡ false = ground arith in
      simp (memory, test, e, append_assoc)
  construct_thread-calls priority cpu false stacksize s false e =
      let test : (stack_of stacksize == 0) ≡ false = ground arith in
      simp (memory, test, e, append_assoc)

  -- If there is memory, the constructor of `thread` returns, the calls it makes leave the start
  -- mutex locked exactly if the thread is not to run at once, and `Resume` unlocks it.
  pub construct_thread-is_held :
      (priority cpu : ℤ) (crrunning : Bool) (stacksize : ℕ) (s : System)
      → (t : Thread) × (s' : System) × (new : List Call) × (construct_thread size env priority cpu
            crrunning stacksize s
          ≡ done t s')
        × (s'.calls ≡ s.calls ++ new)
        × (is_held false new ≡ not crrunning)
        × (resume t s' ≡ done tt (record s' { calls = s'.calls ++ mutex_unlock ∷ [] }))
  unfolding resume
  construct_thread-is_held priority cpu crrunning stacksize s =
      let bound = ltz cpu env.processors && not (is_minus_one cpu) in
      let new = early_calls cpu stacksize bound ++ start_calls crrunning in
      (
        built priority cpu crrunning,
        record s { calls = s.calls ++ new },
        new,
        construct_thread-calls priority cpu crrunning stacksize s bound refl,
        refl,
        ground arith,
        refl,
      )

pub assoc3 :
    {A : Type 0} (xs : List A) (a b c : A)
    → ((xs ++ a ∷ []) ++ b ∷ []) ++ c ∷ [] ≡ xs ++ a ∷ b ∷ c ∷ []
assoc3 xs a b c =
    append_assoc (xs ++ a ∷ []) (b ∷ []) (c ∷ []) ∙ append_assoc xs (a ∷ []) (b ∷ c ∷ [])

module _ (t : Thread) (h : HalThreadId) (here : t.imp_buf ≡ some h)
    (sized : t.imp_buf_size ≢ 0) where
  -- On a thread with a buffer and a handle that is not 0, `thread::Terminate` destroys the mutex,
  -- cancels and joins the handle and returns true; a second call does nothing and returns false.
  pub terminate_thread-twice :
      (s : System)
      → h.handle ≢ 0
      → (t' : Thread) × (s' : System) × (terminate_thread t s ≡ done (true, t') s')
        × (s'.calls ≡ s.calls ++ mutex_destroy ∷ cancel h.handle ∷ join h.handle ∷ [])
        × (terminate_thread t' s' ≡ done (false, t') s')
  unfolding terminate_thread
  terminate_thread-twice s live = (
    record t { imp_buf = some (record { handle = 0 }); activ = false },
    record s {
      calls = ((s.calls ++ mutex_destroy ∷ []) ++ cancel h.handle ∷ []) ++ join h.handle ∷ [];
    },
    ground arith,
    assoc3 s.calls _ _ _,
    ground arith,
  )

  -- On a thread with a buffer and a handle that is not 0, `rtthread::Terminate` returns true, and
  -- a second call destroys the mutex and cancels and joins the same handle again.
  pub terminate_rtthread-twice :
      (s : System)
      → h.handle ≢ 0
      → (t' : Thread) × (s' s'' : System) × (terminate_rtthread t s ≡ done (true, t') s')
        × (terminate_rtthread t' s' ≡ done (true, t') s'')
        × (s''.calls ≡ s'.calls ++ mutex_destroy ∷ cancel h.handle ∷ join h.handle ∷ [])
  unfolding terminate_rtthread
  terminate_rtthread-twice s live =
      let after = λ (u : System). record u {
        calls = ((u.calls ++ mutex_destroy ∷ []) ++ cancel h.handle ∷ []) ++ join h.handle ∷ [];
      } in
      (
        record t { activ = false },
        after s,
        after (after s),
        ground arith,
        ground arith,
        assoc3 (after s).calls _ _ _,
      )

  -- Destroying a thread with a buffer and a handle that is not 0 stops it and then frees its
  -- buffer, and leaves the object without one; destroying the object again makes no call.
  pub destruct-thread :
      (s : System)
      → h.handle ≢ 0
      → (s' : System) × (destruct terminate_thread t s ≡ done (released t) s')
        × (s'.calls ≡ s.calls ++ mutex_destroy ∷ cancel h.handle ∷ join h.handle ∷ free ∷ [])
        × (destruct terminate_thread (released t) s' ≡ done (released t) s')
  unfolding destruct terminate_thread
  destruct-thread s live = (
    record s {
      calls =
          (((s.calls ++ mutex_destroy ∷ []) ++ cancel h.handle ∷ []) ++ join h.handle ∷ [])
          ++ free ∷ [];
    },
    ground arith,
    ap (λ l. l ++ free ∷ []) (assoc3 s.calls _ _ _)
        ∙ append_assoc s.calls (mutex_destroy ∷ cancel h.handle ∷ join h.handle ∷ []) (free ∷ []),
    ground arith,
  )
