-- ===== src/Driver/Tests.antt =====
-- The driver on a concrete kernel.
use rpi_rt_ether_cat_slave_i.Common.{
  ℕ, ◌+◌, ◌≡◌, refl, true, false, none, done, arith, [], ◌∷◌, ◌≤◌,
}
use rpi_rt_ether_cat_slave_i.Common.Int.{ℤ, pos, neg}
use rpi_rt_ether_cat_slave_i.Driver.{
  DeviceFile, down_timeoutms, wait_until, driver_unioctl, my_api, driver_open, driver_close,
  Services,
}
use rpi_rt_ether_cat_slave_i.Driver.Timeout.{InTime, down_timeoutms-InTime}
use rpi_rt_ether_cat_slave_i.Driver.Counting.{Reach, start, irq, ioctl, Reach-taken}
use rpi_rt_ether_cat_slave_i.Driver.Lifecycle.{driver_open-leak, driver_close-driver_open, Accounts}
use rpi_rt_ether_cat_slave_i.Driver.Leak.{open_again, open_again-driver_open}
use rpi_rt_ether_cat_slave_i.Driver.Demo.{
  gpio_request-held, Linux, linux, boot, linux-KeepsTime, linux-CountsUps, linux-Accounts, context,
  device_file,
}

down_timeoutms-InTime_example :
    (err : ℤ) × (w : Linux) × (down_timeoutms linux 3001 7 3 boot ≡ done err w)
    × InTime linux linux-KeepsTime 7 boot 3000000 err w
down_timeoutms-InTime_example =
    down_timeoutms-InTime linux linux-KeepsTime 7 3001 3000 3 boot (omega arith) (omega arith)
      (omega arith)

-- On 32 bits 5000 ms become 705 ms.
overflows :
    down_timeoutms linux 3 7 5000 boot ≡ done (neg 62) (record boot { clock = 5000 + 705033030 })
unfolding down_timeoutms wait_until
overflows = refl

-- no line is free for the second context
abbrev busy : Linux
busy = record boot { held = record { blocks = 1; gpios = 1; irqs = 1 } }

abbrev closed_file : DeviceFile
closed_file = record { fmode_write = true; private_data = none }

leak_of_one_open :
    (file : DeviceFile) × (w : Linux) × (driver_open linux false closed_file busy
      ≡ done (neg 14, file) w)
    × (w.held ≡ record { blocks = 2; gpios = 1; irqs = 1 })
leak_of_one_open = driver_open-leak linux linux-Accounts closed_file busy 7 refl false refl

-- a kernel whose interrupt line is taken
abbrev crowded : Services Linux
crowded = record linux { request_irq = λ irq w. (neg 16, w) }

abbrev crowded-Accounts : Accounts crowded
crowded-Accounts = record {
  held = λ w. w.held;
  kzalloc_holds = λ a w e. refl;
  kfree_gives = λ a w. refl;
  gpio_request_holds = gpio_request-held;
  gpio_free_gives = λ w. refl;
  gpio_to_irq_keeps = λ w. refl;
  request_irq_holds = λ irq w. refl;
  free_irq_gives = λ irq w. refl;
  sema_init_keeps = λ a n w. refl;
}

open_again-driver_open_example :
    (w : Linux) × (open_again crowded false closed_file 3 boot
      ≡ done (neg 14 ∷ neg 14 ∷ neg 14 ∷ []) w)
    × (w.held.blocks ≡ 3)
    × (0 ≤ w.held.gpios)
    × (w.held.irqs ≡ 0)
open_again-driver_open_example =
    open_again-driver_open crowded crowded-Accounts false closed_file (λ w. (7, refl))
      (λ irq w. refl) 3 boot

driver_close-driver_open_example :
    (file file' : DeviceFile) × (w w' : Linux) × (driver_open linux false closed_file boot
      ≡ done (pos 0, file) w)
    × (driver_close linux file w ≡ done file' w')
    × (file'.private_data ≡ none)
    × (w'.held ≡ boot.held)
driver_close-driver_open_example =
    driver_close-driver_open linux linux-Accounts closed_file boot 7 refl refl

-- An interrupt, and the wait that takes it.
interrupted :
    Reach linux 2 device_file context
      (linux-CountsUps 7)
      (record { world = boot; taken = 0 })
      (record { world = record boot { ups = 1 }; taken = 1 })
unfolding driver_unioctl my_api
interrupted = ioctl 41 0 (pos 0) _ (irq (record boot { value = 1; ups = 1 }) start refl) refl

Reach-taken_example : ◌≡◌ {A = ℕ} 1 (0 + 1 + 0)
Reach-taken_example =
    Reach-taken linux 2 device_file context (linux-CountsUps 7) refl refl refl interrupted
