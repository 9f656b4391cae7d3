-- ===== src/Ring/Torn.antt =====
-- Runs in which the cycle gets a mixture of two buffers.
use rpi_rt_ether_cat_slave_i.Common.{ℕ, ◌+◌, ◌≤◌, ◌<◌, ◌≡◌, refl, sym, ap, ap₂, ◌∙◌, arith}
use rpi_rt_ether_cat_slave_i.Ring.{
  ready, storing, fetching, Ring, update, latest, calls, stores, reads_index, IsFresh, Reach, start,
  later,
}
use rpi_rt_ether_cat_slave_i.Ring.Whole.{update_self, update-ne, slot_of, Reach-Inv}
use rpi_rt_ether_cat_slave_i.Ring.Runs.{full_calls, copies_all}

-- The sources once a call has begun.
source_new :
    {f : ℕ → ℕ → ℕ} (g : ℕ → ℕ → ℕ) (new : ℕ → ℕ) (begun m : ℕ)
    → f ≡ update g (begun + 1) new
    → begun + 1 ≡ m
    → f m ≡ new
source_new g new begun m e at_m =
    ap (λ h. h m) e ∙ ap (λ k. update g k new m) at_m ∙ update_self g m new

source_before :
    {f : ℕ → ℕ → ℕ} (g : ℕ → ℕ → ℕ) (new : ℕ → ℕ) (begun m : ℕ)
    → f ≡ update g (begun + 1) new
    → m ≤ begun
    → f m ≡ g m
source_before g new begun m e le =
    ap (λ h. h m) e ∙ update-ne g (begun + 1) new m (λ q. omega arith)

module _ {n : ℕ} {s0 : Ring} where
  -- A call that begins and stores its first cell while the slot that it fills is fetched.
  overtaken :
      (slot number : ℕ) (new : ℕ → ℕ) (s : Ring)
      → 0 < n
      → s.sender ≡ ready
      → s.task ≡ fetching slot number 0
      → slot ≡ s.curqidx
      → Reach n s0 s
      → (t : Ring) × Reach n s0 t
        × (t.task ≡ fetching slot number n)
        × (t.begun ≡ s.begun + 1)
        × (t.source ≡ update s.source (s.begun + 1) new)
        × (t.buffer_in 0 ≡ new 0)
        × ((j : ℕ) → 0 < j → j < n → t.buffer_in j ≡ s.cells slot j)
  overtaken slot number new s some_cell e at_start same r =
      let cells =
        update (s.cells s.curqidx) 0 (update s.source (s.begun + 1) new (s.begun + 1) 0) in
      let s1 : Ring = record s {
        sender = storing 0;
        begun = s.begun + 1;
        source = update s.source (s.begun + 1) new;
      } in
      let s2 : Ring = record s1 { cells = update s.cells s.curqidx cells; sender = storing 1 } in
      let (t, r', e', begun', source', low, high) =
        copies_all {n = n} {s0 = s0} n 0 slot number s2 at_start (omega arith)
          (later (later r (calls new e)) (stores 0 refl some_cell)) in
      let filled : s2.cells slot ≡ cells = ap s2.cells same ∙ update_self s.cells s.curqidx cells in
      (
        t,
        r',
        e',
        begun',
        source',
        high 0 (omega arith) some_cell
            ∙ ap (λ f. f 0) filled
            ∙ update_self (s.cells s.curqidx) 0 (update s.source (s.begun + 1) new (s.begun + 1) 0)
            ∙ ap (λ f. f 0) (update_self s.source (s.begun + 1) new),
        λ j pos lt.
            high j (omega arith) lt
            ∙ ap (λ f. f j) filled
            ∙ update-ne (s.cells s.curqidx) 0 (update s.source (s.begun + 1) new (s.begun + 1) 0) j
                (λ q. omega arith)
            ∙ ap (λ k. s.cells k j) (sym same),
      )

  -- A call that overtakes the first fetch.
  overtaken_first :
      (new : ℕ → ℕ)
      → IsFresh s0
      → 0 < n
      → (t : Ring) × Reach n s0 t
        × (t.task ≡ fetching 0 0 n)
        × (t.begun ≡ 1)
        × (t.source 1 ≡ new)
        × (t.buffer_in 0 ≡ new 0)
        × ((j : ℕ) → 0 < j → j < n → t.buffer_in j ≡ s0.cells 0 j)
  overtaken_first new fresh some_cell =
      let s1 : Ring = record s0 { task = fetching s0.curqoutidx (latest s0) 0 } in
      let number : latest s0 ≡ 0 = ground (arith, fresh.no_call, fresh.none_begun) in
      let at_start : s1.task ≡ fetching 0 0 0 = ap₂ (λ a b. fetching a b 0) fresh.none_out number in
      let (t, r, e, begun, source, first, rest) =
        overtaken 0 0 new s1 some_cell fresh.no_call at_start (sym fresh.first)
          (later start (reads_index fresh.no_task)) in
      let one : s0.begun + 1 ≡ 1 = omega (arith, fresh.none_begun) in
      (
        t,
        r,
        e,
        omega (arith, begun, fresh.none_begun),
        source_new s0.source new s0.begun 1 source one,
        first,
        rest,
      )

  -- The tenth call after the one whose buffer is fetched.
  overtaken_later :
      (new old : ℕ → ℕ)
      → IsFresh s0
      → 0 < n
      → (t : Ring) × Reach n s0 t
        × (t.task ≡ fetching 0 1 n)
        × (t.begun ≡ 11)
        × (t.source 11 ≡ new)
        × (t.source 1 ≡ old)
        × (t.buffer_in 0 ≡ new 0)
        × ((j : ℕ) → 0 < j → j < n → t.buffer_in j ≡ old j)
  overtaken_later new old fresh some_cell =
      let (s1, r1, e1, begun1, task1, before1, new1) =
        full_calls {n = n} {s0 = s0} 1 old s0 fresh.no_call start in
      let v1 = Reach-Inv fresh r1 in
      let one : latest s1 ≡ 1 = ground (arith, e1, begun1, fresh.none_begun) in
      let at_start : fetching s1.curqoutidx (latest s1) 0 ≡ fetching 0 1 0 =
        ap₂ (λ a b. fetching a b 0) (v1.out (omega (arith, one)) ∙ ap slot_of one) one in
      let s2 : Ring = record s1 { task = fetching s1.curqoutidx (latest s1) 0 } in
      let (s3, r3, e3, begun3, task3, before3, new3) =
        full_calls {n = n} {s0 = s0} 9 new s2 e1 (later r1 (reads_index (task1 ∙ fresh.no_task))) in
      let v3 = Reach-Inv fresh r3 in
      let ten : s3.begun ≡ 10 = omega (arith, begun3, begun1, fresh.none_begun) in
      let (t, r, e, begun, source, first, rest) =
        overtaken 0 1 new s3 some_cell e3 (task3 ∙ at_start) (omega (arith, v3.at_rest e3, ten))
          r3 in
      let all : latest s3 ≡ 10 = ground (arith, e3, ten) in
      let first_old : s3.source 1 ≡ old =
        before3 1 (omega (arith, begun1))
        ∙ new1 1 (omega (arith, fresh.none_begun)) (omega (arith, fresh.none_begun)) in
      let kept_old = λ (j : ℕ) (lt : j < n).
        v3.kept 1 (omega arith) (omega (arith, all)) (omega (arith, ten)) j lt
        ∙ ap (λ f. f j) first_old in
      let eleven : s3.begun + 1 ≡ 11 = omega (arith, ten) in
      (
        t,
        r,
        e,
        omega (arith, begun, ten),
        source_new s3.source new s3.begun 11 source eleven,
        source_before s3.source new s3.begun 1 source (omega (arith, ten)) ∙ first_old,
        first,
        λ j pos lt. rest j pos lt ∙ kept_old j lt,
      )

  -- For buffers of at least one cell, from the constructor's state a copy that begins before the
  -- first call has published can end with the first word of that call, whatever its words are,
  -- and the other cells as they were, and a copy that begins after the first call has published
  -- can end with the first word of the eleventh and the others of the first, whatever their words
  -- are, once ten more calls have begun.
  pub Reach-torn :
      (new old : ℕ → ℕ)
      → IsFresh s0
      → 0 < n
      → ((t : Ring) × Reach n s0 t
          × (t.task ≡ fetching 0 0 n)
          × (t.begun ≡ 1)
          × (t.source 1 ≡ new)
          × (t.buffer_in 0 ≡ new 0)
          × ((j : ℕ) → 0 < j → j < n → t.buffer_in j ≡ s0.cells 0 j))
        × ((t : Ring) × Reach n s0 t
            × (t.task ≡ fetching 0 1 n)
            × (t.begun ≡ 11)
            × (t.source 11 ≡ new)
            × (t.source 1 ≡ old)
            × (t.buffer_in 0 ≡ new 0)
            × ((j : ℕ) → 0 < j → j < n → t.buffer_in j ≡ old j))
  Reach-torn new old fresh some_cell =
      (overtaken_first new fresh some_cell, overtaken_later new old fresh some_cell)
