-- ===== src/Thread/Helpers.antt =====
-- thread/src/thread.cpp: Resume and the destructor of class rtthread, class rttestthread, and the naming
-- of a thread by itself.
use rpi_rt_ether_cat_slave_i.Common.{
  ℕ, Option, none, some, List, M, pure, ◌>>=◌, ◌>>◌, fault, false, ascii,
}
use rpi_rt_ether_cat_slave_i.Common.Int.{pos, neg}
use rpi_rt_ether_cat_slave_i.Thread.{
  do_call, mutex_unlock, free, buffer_of, released, terminate_rtthread, Answers, System, Thread,
  construct_rtthread, name_thread,
}

-- `rtthread::Resume`
unfoldable pub resume_rtthread : Thread → M System (Unit {0})
resume_rtthread t = elim t.imp_buf [ none ↦ λ s. fault | some h ↦ do_call mutex_unlock ]

-- `rtthread::~rtthread`
unfoldable pub destruct_rtthread : Thread → M System Thread
destruct_rtthread t = elim (buffer_of t) [
  | none ↦ pure (record t { activ = false })
  | some h ↦ do (term, t') ← terminate_rtthread t; do_call free; pure (released t')
]

-- `rttestthread::rttestthread`, less the device; `buffer` is the uninitialised `namebuf`.
unfoldable pub construct_rttestthread : ℕ → Answers → List ℕ → M System Thread
construct_rttestthread size env buffer =
    construct_rtthread size env (ascii "rttestthread") buffer (pos 88) (neg 1) false 0

-- `rttestthread::Execute`, over the `execute_fromthread` of the device, if there is one
unfoldable pub execute : {W : Type 0} → Option (M W ℕ) → M W ℕ
execute device = elim device [ none ↦ pure 268435455 | some run ↦ run ]

-- `genericthread::sget_threadid`, without `__GNUC_LINUX__`: NULL
abbrev pub sget_threadid : ℕ
sget_threadid = 0

-- `genericthread::register_this_thread`; `namebuf` holds the printed id, whose last byte is cleared.
unfoldable pub register_this_thread : List ℕ → List ℕ → M System (Unit {0})
register_this_thread name namebuf = name_thread sget_threadid name namebuf
