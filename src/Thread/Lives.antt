-- ===== src/Thread/Lives.antt =====
-- thread/src/thread.cpp: whole lives of the objects of both thread classes.
use rpi_rt_ether_cat_slave_i.Common.{
  ℕ, zero, suc, ◌≡◌, ◌≢◌, refl, sym, ap, ◌∙◌, Bool, true, false, none, some, List, [], ◌∷◌, ◌++◌,
  append-nil, done, M, ◌>>=◌, ◌>>◌, arith, ◌==◌,
}
use rpi_rt_ether_cat_slave_i.Common.Int.{ℤ}
use rpi_rt_ether_cat_slave_i.Thread.{
  Call, mutex_unlock, mutex_destroy, cancel, join, free, Thread, System, Answers, construct_thread,
  construct_rtthread, resume, terminate_thread, terminate_rtthread, destruct, released,
}
use rpi_rt_ether_cat_slave_i.Thread.Lifecycle.{assoc3}
use rpi_rt_ether_cat_slave_i.Thread.Helpers.{resume_rtthread, destruct_rtthread}
use rpi_rt_ether_cat_slave_i.Thread.Endings.{
  endings, endings-append, Ends, pure-Ends, do_call-Ends, >>=-Ends, then-Ends, Holds,
  construct_thread-Ends, construct_rtthread-Ends,
}

-- what an owner does with a thread object between its constructor and its destructor
pub data Use : Type 0 where
  resumes terminates : Use

-- The rest of the life of a thread object, over the operations of its class, with the destructor last.
abbrev pub lived :
    (Thread → M System (Unit {0}))
    → (Thread → M System (Bool × Thread))
    → (Thread → M System Thread)
    → List Use
    → Thread
    → M System Thread
lived resume_it terminate destroy [] t = destroy t
lived resume_it terminate destroy (Use.resumes ∷ us) t = do
  resume_it t
  lived resume_it terminate destroy us t
lived resume_it terminate destroy (Use.terminates ∷ us) t = do
  (term, t') ← terminate t
  lived resume_it terminate destroy us t'

-- the number of calls of `Terminate`
abbrev pub terminations : List Use → ℕ
terminations [] = 0
terminations (Use.resumes ∷ us) = terminations us
terminations (Use.terminates ∷ us) = suc (terminations us)

-- what `Terminate` calls for a handle, `n` times, and then `free`
abbrev pub stops : ℕ → ℕ → List Call
stops zero handle = free ∷ []
stops (suc n) handle = mutex_destroy ∷ cancel handle ∷ join handle ∷ stops n handle

module _ (size : ℕ) (sized : size ≢ 0) where
  resume-Ends : (handle : ℕ) (t : Thread) → Holds size handle t → Ends (resume t) (λ u. Unit {0}) []
  unfolding resume
  resume-Ends handle t (same, here) = rw here (do_call-Ends mutex_unlock)

  resume_rtthread-Ends :
      (handle : ℕ) (t : Thread) → Holds size handle t → Ends (resume_rtthread t) (λ u. Unit {0}) []
  unfolding resume_rtthread
  resume_rtthread-Ends handle t (same, here) = rw here (do_call-Ends mutex_unlock)

  -- the three calls of `Terminate`
  stop-endings :
      (calls : List Call) (handle : ℕ)
      → endings (((calls ++ mutex_destroy ∷ []) ++ cancel handle ∷ []) ++ join handle ∷ [])
        ≡ endings calls ++ mutex_destroy ∷ cancel handle ∷ join handle ∷ []
  stop-endings calls handle =
      ap endings (assoc3 calls (mutex_destroy) (cancel handle) (join handle))
      ∙ endings-append calls _

  terminate_thread-Ends :
      (handle : ℕ) (t : Thread)
      → handle ≢ 0
      → Holds size handle t
      → Ends
          (terminate_thread t)
          (λ (term, t'). Holds size 0 t')
          (mutex_destroy ∷ cancel handle ∷ join handle ∷ [])
  unfolding terminate_thread
  terminate_thread-Ends handle t live (same, here) s = (
    (true, record t { imp_buf = some (record { handle = 0 }); activ = false }),
    record s {
      calls = ((s.calls ++ mutex_destroy ∷ []) ++ cancel handle ∷ []) ++ join handle ∷ [];
    },
    ground arith,
    (same, refl),
    stop-endings s.calls handle,
  )

  terminate_rtthread-Ends :
      (handle : ℕ) (t : Thread)
      → handle ≢ 0
      → Holds size handle t
      → Ends
          (terminate_rtthread t)
          (λ (term, t'). Holds size handle t')
          (mutex_destroy ∷ cancel handle ∷ join handle ∷ [])
  unfolding terminate_rtthread
  terminate_rtthread-Ends handle t live (same, here) s = (
    (true, record t { activ = false }),
    record s {
      calls = ((s.calls ++ mutex_destroy ∷ []) ++ cancel handle ∷ []) ++ join handle ∷ [];
    },
    ground arith,
    (same, here),
    stop-endings s.calls handle,
  )

  terminate_thread-again :
      (t : Thread) → Holds size 0 t → Ends (terminate_thread t) (λ (term, t'). Holds size 0 t') []
  unfolding terminate_thread
  terminate_thread-again t (same, here) s =
      ((false, t), s, ground arith, (same, here), sym (append-nil (endings s.calls)))

  -- the destructors: `Terminate`, and then the buffer is freed
  destruct-Ends :
      (handle : ℕ) (cs : List Call) (t : Thread)
      → Holds size handle t
      → Ends (terminate_thread t) (λ r. Unit {0}) cs
      → Ends (destruct terminate_thread t) (λ t'. t'.imp_buf ≡ none) (cs ++ free ∷ [])
  unfolding destruct
  destruct-Ends handle cs t (same, here) h =
      let test : (t.imp_buf_size == 0) ≡ false = ground arith in
      rw (destruct, test, here)
        (>>=-Ends h (λ r u. then-Ends (do_call-Ends free) (pure-Ends (released r.1) refl)))

  destruct_rtthread-Ends :
      (handle : ℕ) (cs : List Call) (t : Thread)
      → Holds size handle t
      → Ends (terminate_rtthread t) (λ r. Unit {0}) cs
      → Ends (destruct_rtthread t) (λ t'. t'.imp_buf ≡ none) (cs ++ free ∷ [])
  unfolding destruct_rtthread
  destruct_rtthread-Ends handle cs t (same, here) h =
      let test : (t.imp_buf_size == 0) ≡ false = ground arith in
      rw (destruct_rtthread, test, here)
        (>>=-Ends h (λ r u. then-Ends (do_call-Ends free) (pure-Ends (released r.1) refl)))

  returned-Ends :
      {A : Type 0} {R : A → Type 0} {m : M System A} {cs : List Call}
      → Ends m R cs
      → Ends m (λ a. Unit {0}) cs
  returned-Ends h s = let (a, s', e, r, more) = h s in (a, s', e, tt, more)

  stopped-Ends :
      (us : List Use) (t : Thread)
      → Holds size 0 t
      → Ends
          (lived resume terminate_thread (destruct terminate_thread) us t)
          (λ t'. t'.imp_buf ≡ none)
          (free ∷ [])
  stopped-Ends [] t h = destruct-Ends 0 [] t h (returned-Ends (terminate_thread-again t h))
  stopped-Ends (Use.resumes ∷ us) t h = then-Ends (resume-Ends 0 t h) (stopped-Ends us t h)
  stopped-Ends (Use.terminates ∷ us) t h =
      >>=-Ends (terminate_thread-again t h) (λ r h'. stopped-Ends us r.1 h')

  module _ (handle : ℕ) (live : handle ≢ 0) where
    thread-Ends :
        (us : List Use) (t : Thread)
        → Holds size handle t
        → Ends
            (lived resume terminate_thread (destruct terminate_thread) us t)
            (λ t'. t'.imp_buf ≡ none)
            (stops 1 handle)
    thread-Ends [] t h =
        destruct-Ends handle _ t h (returned-Ends (terminate_thread-Ends handle t live h))
    thread-Ends (Use.resumes ∷ us) t h = then-Ends (resume-Ends handle t h) (thread-Ends us t h)
    thread-Ends (Use.terminates ∷ us) t h =
        >>=-Ends (terminate_thread-Ends handle t live h) (λ r h'. stopped-Ends us r.1 h')

    rtthread-Ends :
        (us : List Use) (t : Thread)
        → Holds size handle t
        → Ends
            (lived resume_rtthread terminate_rtthread destruct_rtthread us t)
            (λ t'. t'.imp_buf ≡ none)
            (stops (suc (terminations us)) handle)
    rtthread-Ends [] t h =
        destruct_rtthread-Ends handle _ t h
          (returned-Ends (terminate_rtthread-Ends handle t live h))
    rtthread-Ends (Use.resumes ∷ us) t h =
        then-Ends (resume_rtthread-Ends handle t h) (rtthread-Ends us t h)
    rtthread-Ends (Use.terminates ∷ us) t h =
        >>=-Ends (terminate_rtthread-Ends handle t live h) (λ r h'. rtthread-Ends us r.1 h')

-- If there is memory, the buffer has a size and the handle of the new thread is not 0, then
-- constructing an object, any calls of `Resume` and `Terminate` in any order and the destructor
-- return and leave the object without a buffer; for class thread the mutex is destroyed and the
-- thread cancelled and joined exactly once, and then the buffer is freed once, however often
-- `Terminate` was called; for class rtthread the three calls are made for the same handle once for
-- each call of `Terminate` and once more by the destructor, before the buffer is freed.
pub lived-endings :
    (size : ℕ) (env : Answers) (name buffer : List ℕ) (priority cpu : ℤ) (crrunning : Bool)
    (stacksize : ℕ) (us : List Use) (s : System)
    → size ≢ 0
    → env.has_memory ≡ true
    → env.new_handle ≢ 0
    → ((t : Thread) × (s' : System) × ((construct_thread size env priority cpu crrunning stacksize
              >>= lived resume terminate_thread (destruct terminate_thread) us)
            s
          ≡ done t s')
        × (t.imp_buf ≡ none)
        × (endings s'.calls ≡ endings s.calls ++ stops 1 env.new_handle))
      × ((t : Thread) × (s' : System) × ((construct_rtthread size env name buffer priority cpu
                  crrunning stacksize
                >>= lived resume_rtthread terminate_rtthread destruct_rtthread us)
              s
            ≡ done t s')
          × (t.imp_buf ≡ none)
          × (endings s'.calls ≡ endings s.calls ++ stops (suc (terminations us)) env.new_handle))
lived-endings size env name buffer priority cpu crrunning stacksize us s sized memory live = (
  >>=-Ends (construct_thread-Ends size env memory priority cpu crrunning stacksize)
      (λ t h. thread-Ends size sized env.new_handle live us t h) s,
  >>=-Ends (construct_rtthread-Ends size env memory name buffer priority cpu crrunning stacksize)
      (λ t h. rtthread-Ends size sized env.new_handle live us t h) s,
)
