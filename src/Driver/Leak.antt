-- ===== src/Driver/Leak.antt =====
-- Opening the device again and again while the interrupt line is refused.
use rpi_rt_ether_cat_slave_i.Common.{
  ℕ, zero, suc, ◌+◌, ◌≡◌, ◌≤◌, refl, Bool, false, some, List, [], ◌∷◌, done, M, pure, ◌>>=◌, arith,
  replicate,
}
use rpi_rt_ether_cat_slave_i.Common.Int.{ℤ, neg, is_zero}
use rpi_rt_ether_cat_slave_i.Driver.{Services, DeviceFile, driver_open}
use rpi_rt_ether_cat_slave_i.Driver.Lifecycle.{Accounts, driver_open-leak}

-- the results of a number of calls of `driver_open`, each on a new file
unfoldable pub open_again : {W : Type 0} → Services W → Bool → DeviceFile → ℕ → M W (List ℤ)
open_again s early file zero = pure []
open_again s early file (suc n) = do
  (err, file') ← driver_open s early file
  rest ← open_again s early file n
  pure (err ∷ rest)

-- If there is always memory and the interrupt line is always refused, any number of calls of
-- `driver_open` on new files all return -EFAULT; each call leaves one more block of memory held,
-- and none gives back a GPIO or an interrupt line.
pub open_again-driver_open :
    {W : Type 0} (s : Services W) (acc : Accounts s) (early : Bool) (file : DeviceFile)
    → ((w : W) → (a : ℕ) × ((s.kzalloc w).0 ≡ some a))
    → ((irq : ℤ) (w : W) → is_zero (s.request_irq irq w).0 ≡ false)
    → (n : ℕ) (w : W)
    → (w' : W) × (open_again s early file n w ≡ done (replicate n (neg s.efault)) w')
      × ((acc.held w').blocks ≡ (acc.held w).blocks + n)
      × ((acc.held w).gpios ≤ (acc.held w').gpios)
      × ((acc.held w').irqs ≡ (acc.held w).irqs)
unfolding open_again
open_again-driver_open s acc early file memory refused zero w =
    (w, refl, omega arith, omega arith, refl)
open_again-driver_open s acc early file memory refused (suc n) w =
    let (a, has) = memory w in
    let (file', w1, e, kept) = driver_open-leak s acc file w a has early (refused _ _) in
    let (w', e', blocks, gpios, irqs) =
      open_again-driver_open s acc early file memory refused n w1 in
    (
      w',
      ground (arith, e, e'),
      ground (arith, kept, blocks),
      ground (arith, kept, gpios),
      ground (arith, kept, irqs),
    )
