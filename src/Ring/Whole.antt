-- ===== src/Ring/Whole.antt =====
-- When the cycle gets the buffer of one call, and not a mixture.
use rpi_rt_ether_cat_slave_i.Common.{
  ℕ, ◌+◌, ◌-◌, ◌%◌, ◌≤◌, ◌<◌, ◌≡◌, ◌≢◌, sym, ap, ◌∙◌, arith, subst,
}
use native.Mathlib.Decide.{ℕ_discrete}
use rpi_rt_ether_cat_slave_i.Ring.{
  ready, storing, fetching, Ring, update, latest, Act, calls, stores, publishes, moves_on,
  reads_index, copies, goes_on, IsFresh, Reach, start, later,
}

pub update_self : {A : Type 0} (f : ℕ → A) (i : ℕ) (a : A) → update f i a i ≡ a
update_self f i a = ground arith

pub update-ne : {A : Type 0} (f : ℕ → A) (i : ℕ) (a : A) (j : ℕ) → i ≢ j → update f i a j ≡ f j
update-ne f i a j ne = ground arith

-- One more value of `g` is copied to `f`.
update-agrees : (f g : ℕ → ℕ) (i j : ℕ) → (i ≢ j → f j ≡ g j) → update f i (g i) j ≡ g j
update-agrees f g i j rest = elim (ℕ_discrete i j) [
  | yes same ↦ subst (λ k. update f i (g i) k ≡ g k) same (update_self f i (g i))
  | no other ↦ update-ne f i (g i) j other ∙ rest other
]

-- the slot of a call
abbrev pub slot_of : ℕ → ℕ
slot_of m = (m - 1) % 10

pub record Inv (n : ℕ) (s : Ring) : Type 0 where
  pub at_rest : s.sender ≡ ready → s.curqidx ≡ s.begun % 10
  pub in_call : s.sender ≢ ready → (s.curqidx ≡ slot_of s.begun) × (0 < s.begun)
  pub out : 0 < latest s → s.curqoutidx ≡ slot_of (latest s)
  pub stored :
      (i : ℕ) → s.sender ≡ storing i → (j : ℕ) → j < i → s.cells s.curqidx j ≡ s.source s.begun j
  pub kept :
      (m : ℕ)
      → 0 < m
      → m ≤ latest s
      → s.begun ≤ m + 9
      → (j : ℕ) → j < n
      → s.cells (slot_of m) j ≡ s.source m j
  pub known :
      (slot number i : ℕ)
      → s.task ≡ fetching slot number i
      → (number ≤ latest s) × (0 < number → slot ≡ slot_of number)
  pub copied :
      (slot number i : ℕ)
      → s.task ≡ fetching slot number i
      → 0 < number
      → s.begun ≤ number + 9
      → (j : ℕ) → j < i
      → s.buffer_in j ≡ s.source number j

Act-Inv : {n : ℕ} {s t : Ring} → Act n s t → Inv n s → Inv n t
Act-Inv {s} (calls new e) v = record {
  at_rest = λ h. absurd (ground arith);
  in_call = λ h. ground (arith, v.at_rest e);
  out = ground (arith, v.out);
  stored = λ i h j lt. absurd (ground arith);
  kept = λ m pos le near j lt. ground (arith, v.kept m pos (ground arith) (ground arith) j lt);
  known = λ slot number i h. ground (arith, v.known slot number i h);
  copied = λ slot number i h pos near j lt.
      ground (arith, v.known slot number i h, v.copied slot number i h pos (ground arith) j lt);
}
Act-Inv {s} (stores i e lt) v = record {
  at_rest = λ h. absurd (ground arith);
  in_call = λ h. v.in_call (ground arith);
  out = ground (arith, v.out);
  stored = λ i' h j below.
      ap (λ f. f j)
        (update_self s.cells s.curqidx (update (s.cells s.curqidx) i (s.source s.begun i)))
      ∙ update-agrees (s.cells s.curqidx) (s.source s.begun) i j
          (λ other. v.stored i e j (ground arith));
  kept = λ m pos le near j below.
      let apart : s.curqidx ≢ slot_of m = λ same. absurd (ground (arith, v.in_call)) in
      ap (λ f. f j)
        (update-ne s.cells s.curqidx (update (s.cells s.curqidx) i (s.source s.begun i)) (slot_of m)
          apart)
      ∙ v.kept m pos (ground arith) near j below;
  known = λ slot number i h. ground (arith, v.known slot number i h);
  copied = v.copied;
}
Act-Inv {n} {s} (publishes e) v = record {
  at_rest = λ h. absurd (ground arith);
  in_call = λ h. v.in_call (ground arith);
  out = λ pos. (v.in_call (ground arith)).0;
  stored = λ i h j lt. absurd (ground arith);
  kept = λ m pos le near j lt. elim (ℕ_discrete m s.begun) [
    | yes last ↦
        let here : s.curqidx ≡ slot_of m = ground (arith, v.in_call) in
        ap (λ k. s.cells k j) (sym here) ∙ v.stored n e j lt ∙ ap (λ k. s.source k j) (sym last)
    | no before ↦ v.kept m pos (ground arith) near j lt
  ];
  known = λ slot number i h. ground (arith, v.known slot number i h);
  copied = v.copied;
}
Act-Inv {s} (moves_on e) v = record {
  at_rest = λ h. ground (arith, v.in_call (ground arith));
  in_call = λ h. absurd (ground arith);
  out = ground (arith, v.out);
  stored = λ i h j lt. absurd (ground arith);
  kept = λ m pos le near j lt. v.kept m pos (ground arith) near j lt;
  known = λ slot number i h. ground (arith, v.known slot number i h);
  copied = v.copied;
}
Act-Inv {s} (reads_index e) v = record {
  at_rest = v.at_rest;
  in_call = v.in_call;
  out = v.out;
  stored = v.stored;
  kept = v.kept;
  known = λ slot number i h. ground (arith, v.out);
  copied = λ slot number i h pos near j lt. absurd (ground arith);
}
Act-Inv {s} (copies slot number i e lt) v = record {
  at_rest = v.at_rest;
  in_call = v.in_call;
  out = v.out;
  stored = v.stored;
  kept = v.kept;
  known = λ slot' number' i' h. ground (arith, v.known slot number i e);
  copied = λ slot' number' i' h pos near j below.
      let same : number ≡ number' = ground arith in
      let here : slot ≡ slot_of number = (v.known slot number i e).1 (omega arith) in
      let cell : s.cells slot i ≡ s.source number i =
        ap (λ k. s.cells k i) here
        ∙ v.kept number (omega arith) (v.known slot number i e).0 (omega arith) i lt in
      ap (λ c. update s.buffer_in i c j) cell
      ∙ update-agrees s.buffer_in (s.source number) i j
          (λ other. v.copied slot number i e (omega arith) (omega arith) j (ground arith))
      ∙ ap (λ k. s.source k j) same;
}
Act-Inv {s} (goes_on slot number e) v = record {
  at_rest = v.at_rest;
  in_call = v.in_call;
  out = v.out;
  stored = v.stored;
  kept = v.kept;
  known = λ slot' number' i' h. absurd (ground arith);
  copied = λ slot' number' i' h. absurd (ground arith);
}

pub Reach-Inv : {n : ℕ} {s0 s : Ring} → IsFresh s0 → Reach n s0 s → Inv n s
Reach-Inv fresh start = record {
  at_rest = λ h. ground (arith, fresh.first, fresh.none_begun);
  in_call = λ h. absurd (h fresh.no_call);
  out = ground (arith, fresh.none_begun, fresh.no_call);
  stored = λ i h j lt. absurd (ground (arith, fresh.no_call));
  kept = λ m pos le near j lt. absurd (ground (arith, fresh.none_begun, fresh.no_call));
  known = λ slot number i h. absurd (ground (arith, fresh.no_task));
  copied = λ slot number i h. absurd (ground (arith, fresh.no_task));
}
Reach-Inv fresh (later r act) = Act-Inv act (Reach-Inv fresh r)

-- From the constructor's state, whatever the order of the accesses of `send_output` and of the copy
-- of a slot in `SPIWriteProcRamFifo`: when the task has copied all the cells of the slot that call
-- `number`, at least the first, had published when the index was read, and at most nine more calls
-- have begun, that call is among those published and `BufferIn` holds exactly its words.
pub Reach-whole :
    {n : ℕ} {s0 s : Ring} (slot number : ℕ)
    → IsFresh s0
    → Reach n s0 s
    → s.task ≡ fetching slot number n
    → 0 < number
    → s.begun ≤ number + 9
    → (number ≤ latest s) × ((j : ℕ) → j < n → s.buffer_in j ≡ s.source number j)
Reach-whole {n} slot number fresh r at_end some_call few =
    let v = Reach-Inv fresh r in
    ((v.known slot number n at_end).0, v.copied slot number n at_end some_call few)
