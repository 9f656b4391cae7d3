-- ===== src/Stat/Summary.antt =====
-- The statistics after any number of calls, against the list of the values.
use rpi_rt_ether_cat_slave_i.Common.{
  ◌+◌, ◌%◌, ◌^◌, ◌<◌, ◌≡◌, refl, ◌⊎◌, inl, true, false, List, [], ◌∷◌, arith, length,
}
use rpi_rt_ether_cat_slave_i.Stat.{Double, StatBuffer, reset, calc, deviation}

-- What IEEE 754 says of the two comparisons, NaN included.
pub record IsOrdered {D : Type 0} (d : Double D) : Type 0 where
  pub gt_irrefl : (x : D) → d.gt x x ≡ false
  pub lt_irrefl : (x : D) → d.lt x x ≡ false
  pub gt_step : (x m y : D) → d.gt x m ≡ false → d.gt y m ≡ true → d.gt x y ≡ false
  pub lt_step : (x m y : D) → d.lt x m ≡ false → d.lt y m ≡ true → d.lt x y ≡ false

abbrev pub In : {D : Type 0} → D → List D → Type 0
In x [] = ⊥
In x (y ∷ ys) = (x ≡ y) ⊎ In x ys

module _ {D : Type 0} ⦃d : Double D⦄ where
  open d use {nought, add, sub, mul, div, gt, lt, of_ull}

  -- the calls of `calc` for a list of values, the newest first
  unfoldable pub calc_all : List D → StatBuffer D
  calc_all [] = reset
  calc_all (x ∷ xs) = calc (calc_all xs) x

  abbrev pub total : List D → D
  total [] = nought
  total (x ∷ xs) = add (total xs) x

  abbrev pub total_squares : List D → D
  total_squares [] = nought
  total_squares (x ∷ xs) = add (total_squares xs) (mul x x)

  pub count-calc : (s : StatBuffer D) (value : D) → (calc s value).count ≡ (s.count + 1) % 2 ^ 64
  unfolding calc
  count-calc s value = ground arith

  -- The statistics of at least one value.
  pub record Summarises (x : D) (xs : List D) (s : StatBuffer D) : Type 0 where
    pub latest : s.v ≡ x
    pub counted : s.count ≡ length (x ∷ xs)
    pub sum : s.ic_sum ≡ total (x ∷ xs)
    pub sum2 : s.ic_sum2 ≡ total_squares (x ∷ xs)
    pub mean : s.vmean ≡ div (total (x ∷ xs)) (of_ull (length (x ∷ xs)))
    pub stddev : s.vstddev ≡ deviation (total (x ∷ xs)) (total_squares (x ∷ xs)) (length (x ∷ xs))
    pub range : s.vrange ≡ sub s.vmax s.vmin
    pub max_in : In s.vmax (x ∷ xs)
    pub min_in : In s.vmin (x ∷ xs)
    pub below_max : (y : D) → In y (x ∷ xs) → gt y s.vmax ≡ false
    pub above_min : (y : D) → In y (x ∷ xs) → lt y s.vmin ≡ false

  calc_all-first : IsOrdered d → (x : D) → Summarises x [] (calc_all (x ∷ []))
  unfolding calc_all calc reset
  calc_all-first o x = record {
    latest = refl;
    counted = refl;
    sum = refl;
    sum2 = refl;
    mean = refl;
    stddev = refl;
    range = refl;
    max_in = inl refl;
    min_in = inl refl;
    below_max = λ y i. ground (arith, o.gt_irrefl x);
    above_min = λ y i. ground (arith, o.lt_irrefl x);
  }

  calc-Summarises :
      IsOrdered d
      → (x y : D) (ys : List D) (s : StatBuffer D) → length (x ∷ y ∷ ys) < 2 ^ 64
      → Summarises y ys s
      → Summarises x (y ∷ ys) (calc s x)
  unfolding calc
  calc-Summarises o x y ys s few h = record {
    latest = ground (arith, h.counted);
    counted = ground (arith, h.counted);
    sum = ground (arith, h.counted, h.sum);
    sum2 = ground (arith, h.counted, h.sum2);
    mean = ground (arith, h.counted, h.sum);
    stddev = ground (arith, h.counted, h.sum, h.sum2);
    range = ground (arith, h.counted);
    max_in = ground (arith, h.counted, h.max_in);
    min_in = ground (arith, h.counted, h.min_in);
    below_max =
        λ z i. ground (arith, h.counted, h.below_max z, o.gt_irrefl x, o.gt_step z s.vmax x);
    above_min =
        λ z i. ground (arith, h.counted, h.above_min z, o.lt_irrefl x, o.lt_step z s.vmin x);
  }

  -- If the comparisons of the `double`s are those of a strict order as `IsOrdered` says and there
  -- are fewer than 2 ^ 64 values, then after the calls of `calc` for a list that is not empty,
  -- the newest first, all members are the statistics of that list: the count, the sums, the mean
  -- and the deviation by their formulas, and extreme values that are among the values, with none
  -- beyond them, and their range.
  pub calc_all-Summarises :
      IsOrdered d
      → (x : D) (xs : List D) → length (x ∷ xs) < 2 ^ 64
      → Summarises x xs (calc_all (x ∷ xs))
  unfolding calc_all
  calc_all-Summarises o x [] few = calc_all-first o x
  calc_all-Summarises o x (y ∷ ys) few =
      calc-Summarises o x y ys (calc_all (y ∷ ys)) few (calc_all-Summarises o y ys (omega arith))
