-- ===== src/Spi/Safe.antt =====
-- The register accesses, whatever the chip answers: no store leaves a union.
use rpi_rt_ether_cat_slave_i.Common.{
  ℕ, zero, suc, ◌+◌, ◌≤◌, done, M, true, false, arith, Bool, Post, returns, waits, Keeps,
  Keeps-pure, Keeps-then, if◌then◌else◌, ◌⟫◌,
}
use rpi_rt_ether_cat_slave_i.Word.{Ulong, ulong_of, long_of}
use rpi_rt_ether_cat_slave_i.Spi.{
  write_reg_wait, ecat_csr_data, ecat_csr_cmd, is_csr_busy, Bus, scs_low, scs_high, spi_write,
  write_reg, read_bytes, read_reg, poll, read_reg_wait,
}

-- A step of the hardware that has no fault.
abbrev pub Quiet : {W A : Type 0} → M W A → Type 0
Quiet m = Keeps (λ w. Unit {0}) m

module _ {W : Type 0} (bus : Bus W) where
  pub scs_low-Quiet : Quiet (scs_low bus)
  scs_low-Quiet = record { post = λ w u. returns tt }

  pub scs_high-Quiet : Quiet (scs_high bus)
  scs_high-Quiet = record { post = λ w u. returns tt }

  pub spi_write-Quiet : (b : ℕ) → Quiet (spi_write bus b)
  spi_write-Quiet b = record { post = λ w u. returns tt }

  pub write_reg-Quiet : (a v : ℕ) → Quiet (write_reg bus a v)
  unfolding write_reg
  write_reg-Quiet a v = record { post = λ w u. returns tt }

  -- A read of up to four bytes stays in the union.
  read_bytes-Quiet : (n i : ℕ) (u : Ulong) → i + n ≤ 4 → Quiet (read_bytes bus n i u)
  unfolding read_bytes
  read_bytes-Quiet zero i u le = Keeps-pure u
  read_bytes-Quiet (suc n) zero u le = record {
    post = λ w h. (read_bytes-Quiet n 1 _ (omega arith)).post _ tt;
  }
  read_bytes-Quiet (suc n) (suc zero) u le = record {
    post = λ w h. (read_bytes-Quiet n 2 _ (omega arith)).post _ tt;
  }
  read_bytes-Quiet (suc n) (suc (suc zero)) u le = record {
    post = λ w h. (read_bytes-Quiet n 3 _ (omega arith)).post _ tt;
  }
  read_bytes-Quiet (suc n) (suc (suc (suc zero))) u le = record {
    post = λ w h. (read_bytes-Quiet n 4 _ (omega arith)).post _ tt;
  }
  read_bytes-Quiet (suc n) (suc (suc (suc (suc i)))) u le = absurd (omega arith)

  module _ (junk : W → Ulong) where
    pub read_reg-Quiet : (a n : ℕ) → n ≤ 4 → Quiet (read_reg bus junk a n)
    unfolding read_reg
    read_reg-Quiet a n le = record {
      post = λ w u.
          (Keeps-then (read_bytes-Quiet n 0 (junk w) (omega arith))
              (λ r. Keeps-then scs_high-Quiet (λ v. Keeps-pure (long_of r)))).post
            _ tt;
    }

    pub poll-Quiet : (fuel a : ℕ) (again : Ulong → Bool) → Quiet (poll bus junk fuel a again)
    unfolding poll
    poll-Quiet zero a again = record { post = λ w u. waits }
    poll-Quiet (suc fuel) a again = record {
      post = λ w u.
          (Keeps-then (read_reg-Quiet a 4 (omega arith)) (λ long. record {
            post =
                λ w' u'. once (again (ulong_of long)) (λ v. (poll-Quiet fuel a again).post v tt) w';
          })).post
            w tt;
    }
      where
        once :
            (b : Bool)
            → ((v : W) → Post (λ x t. Unit {0}) (poll bus junk fuel a again v))
            → (w : W)
            → Post (λ x t. Unit {0}) (if b then poll bus junk fuel a again w else done tt w)
        once true rest w = rest w
        once false rest w = returns tt

    pub read_reg_wait-Quiet : (fuel a n : ℕ) → n ≤ 4 → Quiet (read_reg_wait bus junk fuel a n)
    unfolding read_reg_wait
    read_reg_wait-Quiet fuel a n le =
        Keeps-then (write_reg-Quiet _ _)
          (λ x. Keeps-then (poll-Quiet fuel _ _) (λ y. read_reg-Quiet _ n le))

    pub write_reg_wait-Quiet : (fuel a v : ℕ) → Quiet (write_reg_wait bus junk fuel a v)
    unfolding write_reg_wait
    write_reg_wait-Quiet fuel a v =
        write_reg-Quiet ecat_csr_data v
        ⟫ write_reg-Quiet ecat_csr_cmd _
        ⟫ poll-Quiet fuel ecat_csr_cmd is_csr_busy
