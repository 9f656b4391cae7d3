-- ===== src/Ring/Runs.antt =====
-- Runs in which one of the threads goes on alone.
use rpi_rt_ether_cat_slave_i.Common.{ℕ, zero, suc, ◌+◌, ◌≤◌, ◌<◌, ◌≡◌, refl, ap, subst, ◌∙◌, arith}
use native.Mathlib.Decide.{ℕ_discrete}
use rpi_rt_ether_cat_slave_i.Base.{advance}
use rpi_rt_ether_cat_slave_i.Ring.{
  ready, storing, fetching, Ring, update, calls, stores, publishes, moves_on, copies, Reach, later,
}
use rpi_rt_ether_cat_slave_i.Ring.Whole.{update_self, update-ne}

module _ {n : ℕ} {s0 : Ring} where
  -- The rest of the stores of a call.
  stores_all :
      (k i : ℕ) (s : Ring)
      → s.sender ≡ storing i
      → i + k ≡ n
      → Reach n s0 s
      → (t : Ring) × Reach n s0 t
        × (t.sender ≡ storing n)
        × (t.begun ≡ s.begun)
        × (t.task ≡ s.task)
        × (t.source ≡ s.source)
  stores_all zero i s e all r = (s, r, e ∙ ap storing (omega arith), refl, refl, refl)
  stores_all (suc k) i s e all r =
      let cells = update (s.cells s.curqidx) i (s.source s.begun i) in
      let s1 : Ring = record s {
        cells = update s.cells s.curqidx cells;
        sender = storing (i + 1);
      } in
      stores_all k (i + 1) s1 refl (omega arith) (later r (stores i e (omega arith)))

  -- Whole calls in a row.
  pub full_calls :
      (k : ℕ) (new : ℕ → ℕ) (s : Ring)
      → s.sender ≡ ready
      → Reach n s0 s
      → (t : Ring) × Reach n s0 t
        × (t.sender ≡ ready)
        × (t.begun ≡ s.begun + k)
        × (t.task ≡ s.task)
        × ((m : ℕ) → m ≤ s.begun → t.source m ≡ s.source m)
        × ((m : ℕ) → s.begun < m → m ≤ s.begun + k → t.source m ≡ new)
  full_calls zero new s e r =
      (s, r, e, omega arith, refl, (λ m le. refl), λ m lt le. absurd (omega arith))
  full_calls (suc k) new s e r =
      let s1 : Ring = record s {
        sender = storing 0;
        begun = s.begun + 1;
        source = update s.source (s.begun + 1) new;
      } in
      let (s2, r2, e2, begun2, task2, source2) =
        stores_all n 0 s1 refl (omega arith) (later r (calls new e)) in
      let s3 : Ring = record s2 {
        curqoutidx = s2.curqidx;
        curqidx = advance s2.curqidx;
        sender = ready;
      } in
      let (t, r4, e4, begun4, task4, before4, new4) =
        full_calls k new s3 refl (later (later r2 (publishes e2)) (moves_on refl)) in
      (
        t,
        r4,
        e4,
        omega (arith, begun2, begun4),
        task4 ∙ task2,
        (λ m le.
            before4 m (omega (arith, begun2))
            ∙ ap (λ f. f m) source2
            ∙ update-ne s.source (s.begun + 1) new m (λ q. omega arith)),
        λ m lt le. elim (ℕ_discrete (s.begun + 1) m) [
          | yes first ↦
              before4 m (omega (arith, begun2))
              ∙ ap (λ f. f m) source2
              ∙ subst (λ q. update s.source (s.begun + 1) new q ≡ new) first
                  (update_self s.source (s.begun + 1) new)
          | no further ↦ new4 m (omega (arith, begun2, further)) (omega (arith, begun2))
        ],
      )

  -- The rest of the copy, with the sender at a stand.
  pub copies_all :
      (k i slot number : ℕ) (s : Ring)
      → s.task ≡ fetching slot number i
      → i + k ≡ n
      → Reach n s0 s
      → (t : Ring) × Reach n s0 t
        × (t.task ≡ fetching slot number n)
        × (t.begun ≡ s.begun)
        × (t.source ≡ s.source)
        × ((j : ℕ) → j < i → t.buffer_in j ≡ s.buffer_in j)
        × ((j : ℕ) → i ≤ j → j < n → t.buffer_in j ≡ s.cells slot j)
  copies_all zero i slot number s e all r = (
    s,
    r,
    e ∙ ap (fetching slot number) (omega arith),
    refl,
    refl,
    (λ j lt. refl),
    λ j le lt. absurd (omega arith),
  )
  copies_all (suc k) i slot number s e all r =
      let s1 : Ring = record s {
        buffer_in = update s.buffer_in i (s.cells slot i);
        task = fetching slot number (i + 1);
      } in
      let (t, r', e', begun', source', low, high) =
        copies_all k (i + 1) slot number s1 refl (omega arith)
          (later r (copies slot number i e (omega arith))) in
      (
        t,
        r',
        e',
        begun',
        source',
        (λ j lt.
            low j (omega arith) ∙ update-ne s.buffer_in i (s.cells slot i) j (λ q. omega arith)),
        λ j le lt. ground (arith, low j, high j, update_self s.buffer_in i (s.cells slot i)),
      )
