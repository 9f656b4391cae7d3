-- ===== src/Base/Fifo.antt =====
-- The two loops over the fifo of the process RAM, against one exchange of all their bytes.
use rpi_rt_ether_cat_slave_i.Common.{
  ℕ, zero, suc, ◌+◌, ◌%◌, ◌≡◌, ◌≤◌, ltb, true, refl, sym, ◌∙◌, List, [], ◌∷◌, ◌++◌, done, fault,
  spins, Run, ◌>>◌, arith, length, length-append, append_assoc, set-append, get_elem?-append,
  replicate, get_elem?, some, set, ap, Option-cases, inl, inr,
}
use native.Mathlib.Nat.{add-zero}
use rpi_rt_ether_cat_slave_i.Spi.{Bus, dummy_byte}
use rpi_rt_ether_cat_slave_i.Spi.Transaction.{exchange}
use rpi_rt_ether_cat_slave_i.Base.{Machine, read_fifo, write_fifo, write_in, reset_words, reset_out}
use rpi_rt_ether_cat_slave_i.Word.{Ulong, ProcBuffer}

module _ {W : Type 0} (bus : Bus W) where
  pub length-exchange : (bs : List ℕ) (w : W) → length (exchange bus bs w).0 ≡ length bs
  unfolding exchange
  length-exchange [] w = refl
  length-exchange (b ∷ bs) w = omega (arith, length-exchange bs (bus.transfer b w).1)

  -- the machine with another `BufferOut`, and the hardware gone on
  abbrev pub filled : Machine W → List ℕ → W → Machine W
  filled s bytes w = record {
    base = record s.base { buffer_out = record { bytes = bytes } };
    world = w;
  }

  pub read_fifo-exchange :
      (n i : ℕ) (pre rest : List ℕ) (s : Machine W)
      → i ≡ length pre
      → n ≡ length rest
      → n + i ≤ 32
      → s.base.buffer_out.bytes ≡ pre ++ rest
      → read_fifo bus n i s
        ≡ done tt (
            filled s
              (pre ++ (exchange bus (replicate n dummy_byte) s.world).0)
              (exchange bus (replicate n dummy_byte) s.world).1)
  unfolding read_fifo exchange
  read_fifo-exchange zero i pre [] s hi hn le e = ground arith
  read_fifo-exchange zero i pre (x ∷ rest) s hi hn le e = absurd (omega arith)
  read_fifo-exchange (suc n) i pre [] s hi hn le e = absurd (omega arith)
  read_fifo-exchange (suc n) i pre (x ∷ rest) s hi hn le e =
      let b = (bus.transfer dummy_byte s.world).0 % 256 in
      let w = (bus.transfer dummy_byte s.world).1 in
      let inside : ltb i 32 ≡ true = ground (arith, le) in
      rw inside (
        read_fifo-exchange n (i + 1) (pre ++ b ∷ []) rest
          (filled s (set s.base.buffer_out.bytes i b) w) (omega (arith, length-append pre (b ∷ [])))
          (omega arith) (omega arith)
          (rw e (set-append pre rest i x b hi ∙ sym (append_assoc pre (b ∷ []) rest)))
        ∙ ap (λ l. done tt (filled s l (exchange bus (replicate n dummy_byte) w).1))
            (append_assoc pre (b ∷ []) (exchange bus (replicate n dummy_byte) w).0))

  pub write_fifo-exchange :
      (n i : ℕ) (pre mid rest : List ℕ) (s : Machine W)
      → i ≡ length pre
      → n ≡ length mid
      → s.base.buffer_in.bytes ≡ pre ++ (mid ++ rest)
      → write_fifo bus n i s ≡ done tt (record s { world = (exchange bus mid s.world).1 })
  unfolding write_fifo exchange
  write_fifo-exchange zero i pre [] rest s hi hn e = refl
  write_fifo-exchange zero i pre (x ∷ mid) rest s hi hn e = absurd (omega arith)
  write_fifo-exchange (suc n) i pre [] rest s hi hn e = absurd (omega arith)
  write_fifo-exchange (suc n) i pre (x ∷ mid) rest s hi hn e =
      let w = (bus.transfer x s.world).1 in
      let at_i : get_elem? s.base.buffer_in.bytes i ≡ some x =
        rw e (get_elem?-append pre (mid ++ rest) i x hi) in
      ground (
        arith,
        at_i,
        write_fifo-exchange n (i + 1) (pre ++ x ∷ []) mid rest (record s { world = w })
            (omega (arith, length-append pre (x ∷ []))) (omega arith)
            (e ∙ sym (append_assoc pre (x ∷ []) (mid ++ rest))),
      )

  -- The loop of 31 bytes and the write of the last one are a loop of 32 bytes.
  pub write_fifo-suc :
      (n i : ℕ) (s : Machine W)
      → (write_fifo bus n i >> write_in bus (i + n)) s ≡ write_fifo bus (suc n) i s
  unfolding write_fifo
  write_fifo-suc zero i s = rw add-zero (ground arith)
  write_fifo-suc (suc n) i s = elim (Option-cases (get_elem? s.base.buffer_in.bytes i)) [
    | inl out ↦ ground (arith, out)
    | inr (b, here) ↦
        let e : i + suc n ≡ i + 1 + n = omega arith in
        rw e (
          ground (
            arith,
            here,
            write_fifo-suc n (i + 1) (record s { world = (bus.transfer b s.world).1 }),
          ))
  ]

  -- The reset of `BufferOut` leaves what its loop leaves.
  pub reset_out-done :
      (junk : W → Ulong) (fuel : ℕ) (s : Machine W) (p : ProcBuffer)
      → reset_words 4 0 s.base.buffer_out ≡ done tt p
      → reset_out bus junk fuel s ≡ done tt (record s { base = record s.base { buffer_out = p } })
  reset_out-done junk fuel s p e =
      ap
        (λ (r : Run ProcBuffer (Unit {0})). elim r [
          | done u q ↦ done tt (record s { base = record s.base { buffer_out = q } })
          | fault ↦ fault
          | spins ↦ spins
        ])
        e
