-- ===== src/Stat.antt =====
-- rt_utilities/src/rt_utilities.cpp: the statistic tool. What the code does with a `double` is a
-- parameter of the model.
pub mod Summary
mod Tests
use rpi_rt_ether_cat_slave_i.Common.{ℕ, ◌+◌, ◌-◌, ◌%◌, ◌^◌, Bool, if◌then◌else◌, ltb, ◌==◌}

-- The operations of the type `double`, and the library's `sqrt`.
pub record Double (D : Type 0) : Type 0 where
  pub nought : D
  pub add : D → D → D
  pub sub : D → D → D
  pub mul : D → D → D
  pub div : D → D → D
  pub sqrt : D → D
  pub gt : D → D → Bool
  pub lt : D → D → Bool
  -- the conversion from `unsigned long long`
  pub of_ull : ℕ → D

-- `STATBUFFER`
pub record StatBuffer (D : Type 0) : Type 0 where
  pub v : D
  pub count : ℕ
  pub vmean : D
  pub vmax : D
  pub vmin : D
  pub vstddev : D
  pub vrange : D
  pub ic_sum : D
  pub ic_sum2 : D

module _ {D : Type 0} ⦃d : Double D⦄ where
  open d use {nought, add, sub, mul, div, sqrt, gt, lt, of_ull}

  -- `memset(&sbuf, 0, sizeof(sbuf))`; the bytes of 0.0 are zeros
  unfoldable pub reset : StatBuffer D
  reset = record {
    v = nought;
    count = 0;
    vmean = nought;
    vmax = nought;
    vmin = nought;
    vstddev = nought;
    vrange = nought;
    ic_sum = nought;
    ic_sum2 = nought;
  }

  -- the tests on the extreme values
  abbrev pub extremes : StatBuffer D → D → StatBuffer D
  extremes s value = if s.count == 0 then record s { vmin = value; vmax = value } else record s {
    vmax = if gt value s.vmax then value else s.vmax;
    vmin = if lt value s.vmin then value else s.vmin;
  }

  -- `_sqrtval`
  abbrev pub variance : D → D → ℕ → D
  variance sum sum2 n = div (sub sum2 (div (mul sum sum) (of_ull n))) (of_ull (n - 1))

  abbrev pub deviation : D → D → ℕ → D
  deviation sum sum2 n =
      if ltb 1 n
      then (if gt (variance sum sum2 n) nought then sqrt (variance sum sum2 n) else nought)
      else nought

  unfoldable pub calc : StatBuffer D → D → StatBuffer D
  calc s value =
      let e = extremes (record s { v = value }) value in
      let sum = add s.ic_sum value in
      let sum2 = add s.ic_sum2 (mul value value) in
      let n = (s.count + 1) % 2 ^ 64 in
      record e {
        vrange = sub e.vmax e.vmin;
        ic_sum = sum;
        ic_sum2 = sum2;
        count = n;
        vmean = div sum (of_ull n);
        vstddev = deviation sum sum2 n;
      }
