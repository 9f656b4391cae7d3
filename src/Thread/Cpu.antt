-- ===== src/Thread/Cpu.antt =====
-- rtthread::get_nextcpu: the processors in turn.
use rpi_rt_ether_cat_slave_i.Common.{
  ℕ, zero, suc, ◌+◌, ◌%◌, ◌^◌, ◌≡◌, ◌<◌, refl, ◌∙◌, ap, List, [], ◌∷◌, done, M, pure, ◌>>=◌, arith,
}
use native.Mathlib.Nat.{mod-eq-sub-mod}
use rpi_rt_ether_cat_slave_i.Common.Int.{ℤ, pos, neg}
use rpi_rt_ether_cat_slave_i.Thread.{System, Answers, get_nextcpu}

-- `n` calls in a row, and what each returns
unfoldable pub next_cpus : Answers → ℕ → M System (List ℤ)
next_cpus env zero = pure []
next_cpus env (suc n) = do cpu ← get_nextcpu env; cpus ← next_cpus env n; pure (cpu ∷ cpus)

-- the numbers from `k` on, round `nproc` processors
abbrev pub round_robin : ℕ → ℕ → ℕ → List ℤ
round_robin nproc k zero = []
round_robin nproc k (suc n) = pos (k % nproc) ∷ round_robin nproc (k + 1) n

module _ (env : Answers) (nproc : ℕ) (known : env.processors ≡ pos nproc)
    (some_cpu : 0 < nproc) where
  later_cpus :
      (n k : ℕ) (s : System)
      → s.nproc ≡ pos nproc
      → s.sc_cpu + 1 ≡ nproc + k
      → nproc + k + n < 2 ^ 32
      → (t : System) × (next_cpus env n s ≡ done (round_robin nproc k n) t)
  unfolding next_cpus get_nextcpu
  later_cpus zero k s hn hc few = (s, refl)
  later_cpus (suc n) k s hn hc few =
      let s1 : System = record s { sc_cpu = (s.sc_cpu + 1) % 2 ^ 32 } in
      let (t, e) = later_cpus n (k + 1) s1 hn (omega arith) (omega arith) in
      let cpu : (nproc + k) % nproc ≡ k % nproc =
        mod-eq-sub-mod {n = nproc + k} {m = nproc} (omega arith)
        ∙ ap (λ j. j % nproc) (omega arith) in
      (t, ground (arith, e, cpu))

  -- On a system with a known number of processors, greater than 0, the first calls of
  -- `GetNextCpu` of a process return the processors in turn, from the first on, as long as the
  -- counter does not reach 2 ^ 32.
  pub next_cpus-round_robin :
      (n : ℕ) (s : System)
      → s.nproc ≡ neg 1
      → nproc + n < 2 ^ 32
      → (t : System) × (next_cpus env n s ≡ done (round_robin nproc 0 n) t)
  unfolding next_cpus get_nextcpu
  next_cpus-round_robin zero s fresh few = (s, refl)
  next_cpus-round_robin (suc n) s fresh few =
      let s1 : System = record s { nproc = env.processors; sc_cpu = nproc } in
      let (t, e) = later_cpus n 1 s1 known (omega arith) (omega arith) in
      let cpu : nproc % nproc ≡ 0 % nproc = grind arith in (t, ground (arith, e, cpu))
