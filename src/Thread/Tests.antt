-- ===== src/Thread/Tests.antt =====
-- The thread classes with a concrete system.
use rpi_rt_ether_cat_slave_i.Common.{
  ◌≡◌, refl, true, false, none, some, List, [], ◌∷◌, ◌++◌, done, arith, ◌>>=◌, replicate,
}
use rpi_rt_ether_cat_slave_i.Common.Int.{pos, neg}
use rpi_rt_ether_cat_slave_i.Thread.{
  mutex_destroy, cancel, join, free, Thread, System, Answers, terminate_thread, terminate_rtthread,
  destruct, released, construct_thread, construct_rtthread, resume,
}
use rpi_rt_ether_cat_slave_i.Thread.Helpers.{resume_rtthread, destruct_rtthread}
use rpi_rt_ether_cat_slave_i.Thread.Endings.{endings}
use rpi_rt_ether_cat_slave_i.Thread.Lives.{Use, lived, lived-endings}
use rpi_rt_ether_cat_slave_i.Thread.Cpu.{next_cpus, next_cpus-round_robin}
use rpi_rt_ether_cat_slave_i.Thread.Lifecycle.{terminate_rtthread-twice, destruct-thread}

abbrev answers : Answers
answers = record { has_memory = true; new_handle = 77; processors = pos 4 }

abbrev system : System
system = record { threadunique = 0; sc_cpu = 0; nproc = neg 1; calls = [] }

abbrev running : Thread
running = record {
  priority = pos 88;
  cpu = neg 1;
  isrt = true;
  rcpu = pos 0;
  activ = true;
  crrunning = false;
  imp_buf_size = 48;
  imp_buf = some (record { handle = 77 });
}

running_terminated :
    (t : Thread) × (s s' : System) × (terminate_rtthread running system ≡ done (true, t) s)
    × (terminate_rtthread t s ≡ done (true, t) s')
    × (s'.calls ≡ s.calls ++ mutex_destroy ∷ cancel 77 ∷ join 77 ∷ [])
running_terminated =
    terminate_rtthread-twice running (record { handle = 77 }) refl (omega arith) system
      (omega arith)

running_destroyed :
    (s : System) × (destruct terminate_thread running system ≡ done (released running) s)
    × (s.calls ≡ mutex_destroy ∷ cancel 77 ∷ join 77 ∷ free ∷ [])
    × (destruct terminate_thread (released running) s ≡ done (released running) s)
running_destroyed =
    destruct-thread running (record { handle = 77 }) refl (omega arith) system (omega arith)

-- Five calls on four processors.
next_cpus-round_robin_example :
    (t : System) × (next_cpus answers 5 system
      ≡ done (pos 0 ∷ pos 1 ∷ pos 2 ∷ pos 3 ∷ pos 0 ∷ []) t)
next_cpus-round_robin_example =
    next_cpus-round_robin answers 4 refl (omega arith) 5 system refl (omega arith)

-- A life in which the owner resumes the thread and terminates it twice.
abbrev uses : List Use
uses = Use.resumes ∷ Use.terminates ∷ Use.terminates ∷ []

lived-endings_example :
    ((t : Thread) × (s : System) × ((construct_thread 48 answers (pos 88) (neg 1) false 0
            >>= lived resume terminate_thread (destruct terminate_thread) uses)
          system
        ≡ done t s)
      × (t.imp_buf ≡ none)
      × (endings s.calls ≡ mutex_destroy ∷ cancel 77 ∷ join 77 ∷ free ∷ []))
    × ((t : Thread) × (s : System) × ((construct_rtthread 48 answers
                (replicate 20 65)
                (replicate 64 0)
                (pos 88)
                (neg 1)
                false
                0
              >>= lived resume_rtthread terminate_rtthread destruct_rtthread uses)
            system
          ≡ done t s)
        × (t.imp_buf ≡ none)
        × (endings s.calls
            ≡ mutex_destroy
              ∷ cancel 77
              ∷ join 77
              ∷ mutex_destroy
              ∷ cancel 77
              ∷ join 77
              ∷ mutex_destroy
              ∷ cancel 77
              ∷ join 77
              ∷ free
              ∷ []))
lived-endings_example =
    lived-endings 48 answers (replicate 20 65) (replicate 64 0) (pos 88) (neg 1) false 0 uses system
      (omega arith) refl (omega arith)
