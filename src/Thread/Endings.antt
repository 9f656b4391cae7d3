-- ===== src/Thread/Endings.antt =====
-- thread/src/thread.cpp: the calls of the thread classes that end a thread or give back what it has.
use rpi_rt_ether_cat_slave_i.Common.{
  ℕ, ◌≡◌, refl, sym, ap, ◌∙◌, Bool, Bool-cases, inl, inr, true, false, some, List, [], ◌∷◌, ◌++◌,
  append_assoc, append-nil, done, M, pure, ◌>>=◌, ◌>>◌, >>=-done, if◌then◌else◌,
}
use rpi_rt_ether_cat_slave_i.Common.Int.{ℤ, ltz, is_minus_one}
use rpi_rt_ether_cat_slave_i.Thread.{
  Call, mutex_init, mutex_lock, mutex_unlock, mutex_destroy, cancel, join, free, Thread, System,
  Answers, construct_thread, construct_rtthread, do_call, do_if, get_nextcpu, name_thread,
  construct_base, stack_of, attr_init, stack_size, create, affinity, attr_destroy,
  sched_policy_fifo, sched_param,
}

-- a call that ends a thread or gives back what it has
abbrev pub ending : Call → List Call
ending Call.mutex_destroy = mutex_destroy ∷ []
ending (Call.cancel h) = cancel h ∷ []
ending (Call.join h) = join h ∷ []
ending Call.free = free ∷ []
ending _ = []

-- those calls, in order
abbrev pub endings : List Call → List Call
endings [] = []
endings (c ∷ cs) = ending c ++ endings cs

pub endings-append : (cs ds : List Call) → endings (cs ++ ds) ≡ endings cs ++ endings ds
endings-append [] ds = refl
endings-append (c ∷ cs) ds =
    ap (λ l. ending c ++ l) (endings-append cs ds)
    ∙ sym (append_assoc (ending c) (endings cs) (endings ds))

-- A piece of the program that returns, with a result in `R`, and makes just these calls of that kind.
abbrev pub Ends : {A : Type 0} → M System A → (A → Type 0) → List Call → Type 0
Ends {A} m R cs =
    (s : System)
    → (a : A) × (s' : System) × (m s ≡ done a s') × R a × (endings s'.calls ≡ endings s.calls ++ cs)

pub pure-Ends : {A : Type 0} {R : A → Type 0} (a : A) → R a → Ends (pure a) R []
pure-Ends a r s = (a, s, refl, r, sym (append-nil (endings s.calls)))

pub do_call-Ends : (c : Call) → Ends (do_call c) (λ u. Unit {0}) (ending c)
do_call-Ends c s = (
  tt,
  record s { calls = s.calls ++ c ∷ [] },
  refl,
  tt,
  endings-append s.calls (c ∷ []) ∙ ap (λ l. endings s.calls ++ l) (append-nil (ending c)),
)

do_if-Ends :
    (b : Bool) (m : M System (Unit {0}))
    → Ends m (λ u. Unit {0}) []
    → Ends (do_if b m) (λ u. Unit {0}) []
do_if-Ends true m h = h
do_if-Ends false m h = pure-Ends tt tt

pub >>=-Ends :
    {A B : Type 0} {R : A → Type 0} {Q : B → Type 0} {cs ds : List Call} {m : M System A}
    {f : A → M System B}
    → Ends m R cs
    → ((a : A) → R a → Ends (f a) Q ds)
    → Ends (m >>= f) Q (cs ++ ds)
>>=-Ends {cs} {ds} {m} {f} h rest s =
    let (a, s1, e, r, more) = h s in
    let (b, s2, e', q, more') = rest a r s1 in
    (
      b,
      s2,
      >>=-done m f s e ∙ e',
      q,
      more' ∙ (ap (λ l. l ++ ds) more ∙ append_assoc (endings s.calls) cs ds),
    )

get_nextcpu-Ends : (env : Answers) → Ends (get_nextcpu env) (λ cpu. Unit {0}) []
unfolding get_nextcpu
get_nextcpu-Ends env s = elim (Bool-cases (is_minus_one s.nproc)) [
  | inl e ↦ (_, _, refl, tt, rw e (sym (append-nil (endings s.calls))))
  | inr e ↦ (_, _, refl, tt, rw e (sym (append-nil (endings s.calls))))
]

name_thread-Ends :
    (handle : ℕ) (name buffer : List ℕ) → Ends (name_thread handle name buffer) (λ u. Unit {0}) []
name_thread-Ends handle name buffer s = (tt, _, refl, tt, endings-append s.calls _)

pub then-Ends :
    {B : Type 0} {Q : B → Type 0} {cs ds : List Call} {m : M System (Unit {0})} {k : M System B}
    → Ends m (λ u. Unit {0}) cs
    → Ends k Q ds
    → Ends (m >> k) Q (cs ++ ds)
then-Ends h rest = >>=-Ends h (λ u r. rest)

cpu_of-Ends :
    (env : Answers) (cpu : ℤ)
    → Ends (if is_minus_one cpu then get_nextcpu env else pure cpu) (λ c. Unit {0}) []
cpu_of-Ends env cpu = elim (Bool-cases (is_minus_one cpu)) [
  | inl e ↦ rw e (get_nextcpu-Ends env)
  | inr e ↦ rw e (pure-Ends cpu tt)
]

-- A thread object with a buffer and a handle.
abbrev pub Holds : ℕ → ℕ → Thread → Type 0
Holds size handle t = (t.imp_buf_size ≡ size) × (t.imp_buf ≡ some (record { handle = handle }))

module _ (size : ℕ) (env : Answers) (memory : env.has_memory ≡ true) where
  pub construct_thread-Ends :
      (priority cpu : ℤ) (crrunning : Bool) (stacksize : ℕ)
      → Ends
          (construct_thread size env priority cpu crrunning stacksize)
          (Holds size env.new_handle)
          []
  unfolding construct_thread
  construct_thread-Ends priority cpu crrunning stacksize = rw memory (
      then-Ends (do_call-Ends mutex_init) (
        then-Ends (do_call-Ends mutex_lock) (
          then-Ends (do_call-Ends attr_init) (
            then-Ends (do_if-Ends _ _ (do_call-Ends (stack_size (stack_of stacksize)))) (
              then-Ends (do_call-Ends (create env.new_handle)) (
                then-Ends (do_if-Ends _ _ (do_call-Ends (affinity env.new_handle cpu))) (
                  then-Ends (do_call-Ends attr_destroy) (
                    then-Ends (do_if-Ends _ _ (do_call-Ends mutex_unlock))
                      (pure-Ends _ (refl, refl))))))))))

  -- the constructor of `rtthread` after the choice of the processor
  set_up-Ends :
      (name buffer : List ℕ) (priority cpu : ℤ) (crrunning : Bool) (cpu' : ℤ)
      → Ends
          (do_if (ltz cpu' env.processors) (do_call (affinity env.new_handle cpu'))
            >> (name_thread env.new_handle name buffer
                >> (do_call attr_destroy
                    >> (do_if crrunning (do_call mutex_unlock)
                        >> pure (record (construct_base priority cpu crrunning) {
                          isrt = true;
                          rcpu = cpu';
                          imp_buf_size = size;
                          imp_buf = some (record { handle = env.new_handle });
                        })))))
          (Holds size env.new_handle)
          []
  set_up-Ends name buffer priority cpu crrunning cpu' =
      then-Ends (do_if-Ends _ _ (do_call-Ends (affinity env.new_handle cpu'))) (
        then-Ends (name_thread-Ends env.new_handle name buffer) (
          then-Ends (do_call-Ends attr_destroy)
            (then-Ends (do_if-Ends _ _ (do_call-Ends mutex_unlock)) (pure-Ends _ (refl, refl)))))

  pub construct_rtthread-Ends :
      (name buffer : List ℕ) (priority cpu : ℤ) (crrunning : Bool) (stacksize : ℕ)
      → Ends
          (construct_rtthread size env name buffer priority cpu crrunning stacksize)
          (Holds size env.new_handle)
          []
  unfolding construct_rtthread
  construct_rtthread-Ends name buffer priority cpu crrunning stacksize = simp memory (
      then-Ends (do_call-Ends mutex_init) (
        then-Ends (do_call-Ends mutex_lock) (
          then-Ends (do_call-Ends attr_init) (
            then-Ends (do_if-Ends _ _ (do_call-Ends (stack_size (stack_of stacksize)))) (
              then-Ends (do_call-Ends sched_policy_fifo) (
                then-Ends (do_call-Ends sched_param) (
                  then-Ends (do_call-Ends (create env.new_handle)) (
                    >>=-Ends (cpu_of-Ends env cpu)
                      (λ cpu' r. set_up-Ends name buffer priority cpu crrunning cpu')))))))))
