-- ===== src/Stat/Tests.antt =====
-- The statistic tool over whole numbers.
use rpi_rt_ether_cat_slave_i.Common.{◌≡◌, refl, [], ◌∷◌, arith}
use rpi_rt_ether_cat_slave_i.Stat.{calc, reset}
use rpi_rt_ether_cat_slave_i.Stat.Summary.{IsOrdered, Summarises, calc_all, calc_all-Summarises}
use rpi_rt_ether_cat_slave_i.Demo.{whole}

whole-IsOrdered : IsOrdered whole
whole-IsOrdered = record {
  gt_irrefl = λ x. ground arith;
  lt_irrefl = λ x. ground arith;
  gt_step = λ x m y p q. ground arith;
  lt_step = λ x m y p q. ground arith;
}

range_of_three : (calc_all ⦃d = whole⦄ (3 ∷ 9 ∷ 6 ∷ [])).vrange ≡ 6
unfolding calc_all calc reset
range_of_three = refl

calc_all-Summarises_example :
    Summarises ⦃d = whole⦄ 3 (9 ∷ 6 ∷ []) (calc_all ⦃d = whole⦄ (3 ∷ 9 ∷ 6 ∷ []))
calc_all-Summarises_example =
    calc_all-Summarises ⦃d = whole⦄ whole-IsOrdered 3 (9 ∷ 6 ∷ []) (omega arith)
