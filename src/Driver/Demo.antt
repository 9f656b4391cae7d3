-- ===== src/Driver/Demo.antt =====
-- A concrete kernel for the tests: a jiffy of a microsecond, one GPIO, and 10 nanoseconds for a reading
-- of the clock.
use rpi_rt_ether_cat_slave_i.Common.{
  ℕ, ◌+◌, ◌-◌, ◌*◌, ◌/◌, ◌%◌, ◌^◌, ◌≤◌, ◌<◌, ◌≡◌, refl, true, false, some, done, spins, Run, arith,
  if◌then◌else◌, ltb, ◌==◌,
}
use rpi_rt_ether_cat_slave_i.Common.Int.{ℤ, pos, neg, is_zero}
use rpi_rt_ether_cat_slave_i.Driver.{Services, Context, DeviceFile, new_context}
use rpi_rt_ether_cat_slave_i.Driver.Timeout.{KeepsTime}
use rpi_rt_ether_cat_slave_i.Driver.Counting.{CountsUps, successes}
use rpi_rt_ether_cat_slave_i.Driver.Lifecycle.{Held, Accounts}

pub record Linux : Type 0 where
  pub clock : ℕ
  pub value : ℕ
  pub ups : ℕ
  pub held : Held

abbrev pub took_down : ℕ → Linux → ℤ × Linux
took_down ns w =
    if ltb 0 w.value
    then (pos 0, record w { value = w.value - 1 })
    else (neg 62, record w { clock = w.clock + ns })

-- a wait that lasts for ever if no interrupt is pending
abbrev pub waited : Linux → Run Linux ℤ
waited w = if ltb 0 w.value then done (pos 0) (record w { value = w.value - 1 }) else spins

abbrev pub linux : Services Linux
linux = record {
  kzalloc = λ w. (some 7, record w { held = record w.held { blocks = w.held.blocks + 1 } });
  kfree = λ a w. record w { held = record w.held { blocks = w.held.blocks - 1 } };
  gpio_request = λ w.
      if w.held.gpios == 0
      then (pos 0, record w { held = record w.held { gpios = w.held.gpios + 1 } })
      else (neg 16, w);
  gpio_free = λ w. record w { held = record w.held { gpios = w.held.gpios - 1 } };
  gpio_to_irq = λ w. (pos 200, w);
  request_irq = λ irq w. elim irq [
    | pos n ↦
        if n == 200
        then (pos 0, record w { held = record w.held { irqs = w.held.irqs + 1 } })
        else (neg 22, w)
    | _ ↦ (neg 22, w)
  ];
  free_irq = λ irq w. record w { held = record w.held { irqs = w.held.irqs - 1 } };
  sema_init = λ a n w. record w { value = n };
  up = λ a w. done tt (record w { value = w.value + 1; ups = w.ups + 1 });
  down_interruptible = λ a w. waited w;
  down_timeout = λ a j w. took_down (j * 1000) w;
  ktime_get_mono_fast_ns = λ w. (w.clock + 4, record w { clock = w.clock + 10 });
  usecs_to_jiffies = λ us. us;
  access_ok = λ pointer size. true;
  ioc_nr = λ cmd. cmd % 256;
  ioc_size = λ cmd. cmd / 2 ^ 16 % 2 ^ 14;
  ioc_read = λ cmd. cmd / 2 ^ 31 % 2 == 1;
  ioc_write = λ cmd. cmd / 2 ^ 30 % 2 == 1;
  efault = 14;
  einval = 22;
  enotty = 25;
  bits = 32;
}

abbrev pub boot : Linux
boot = record {
  clock = 5000;
  value = 0;
  ups = 0;
  held = record { blocks = 0; gpios = 0; irqs = 0 };
}

pub took_down-within : (j : ℕ) (w : Linux) → (took_down (j * 1000) w).1.clock ≤ w.clock + j * 1000
took_down-within j w = ground arith

pub took_down-late :
    (j : ℕ) (w : Linux)
    → 0 < j
    → is_zero (took_down (j * 1000) w).0 ≡ false
    → w.clock + 1000 ≤ (took_down (j * 1000) w).1.clock
took_down-late j w h e = ground arith

pub took_down-takes :
    (ns : ℕ) (w : Linux)
    → (took_down ns w).1.value + successes (took_down ns w).0 + w.ups
      ≡ w.value + (took_down ns w).1.ups
took_down-takes ns w = ground arith

pub waited-takes :
    (w : Linux) (err : ℤ) (w' : Linux)
    → waited w ≡ done err w'
    → w'.value + successes err + w.ups ≡ w.value + w'.ups
waited-takes w err w' e = ground arith

pub took_down-ready : (ns : ℕ) (w : Linux) → 0 < w.value → is_zero (took_down ns w).0 ≡ true
took_down-ready ns w h = ground arith

abbrev pub linux-KeepsTime : KeepsTime linux
linux-KeepsTime = record {
  now = λ w. w.clock;
  jiffy = 1000;
  step = 1000;
  delay = 10;
  clock_from = λ w. omega arith;
  clock_to = λ w. omega arith;
  rounds_up = λ us. omega arith;
  wait_within = λ sem j w. omega (arith, took_down-within j w);
  wait_step = λ sem j w h e. took_down-late j w h e;
}

abbrev pub linux-CountsUps : (a : ℕ) → CountsUps linux a
linux-CountsUps a = record {
  value = λ w. w.value;
  ups = λ w. w.ups;
  up_adds = λ w. (_, refl, refl, refl);
  interruptible_takes = waited-takes;
  timeout_takes = λ j w. took_down-takes (j * 1000) w;
  clock_takes = λ w. refl;
  clock_grows = λ w. omega arith;
  timeout_ready = λ j w h. took_down-ready (j * 1000) w h;
  errors = omega arith;
}

pub gpio_request-held :
    (w : Linux)
    → (linux.gpio_request w).1.held ≡ record w.held {
      gpios = if is_zero (linux.gpio_request w).0 then w.held.gpios + 1 else w.held.gpios;
    }
gpio_request-held w = ground arith

pub request_irq-held :
    (irq : ℤ) (w : Linux)
    → (linux.request_irq irq w).1.held ≡ record w.held {
      irqs = if is_zero (linux.request_irq irq w).0 then w.held.irqs + 1 else w.held.irqs;
    }
request_irq-held irq w = ground arith

abbrev pub linux-Accounts : Accounts linux
linux-Accounts = record {
  held = λ w. w.held;
  kzalloc_holds = λ a w e. refl;
  kfree_gives = λ a w. refl;
  gpio_request_holds = gpio_request-held;
  gpio_free_gives = λ w. refl;
  gpio_to_irq_keeps = λ w. refl;
  request_irq_holds = request_irq-held;
  free_irq_gives = λ irq w. refl;
  sema_init_keeps = λ a n w. refl;
}

abbrev pub context : Context
context = record (new_context 7) { w_open = true; irq_number = pos 200 }

abbrev pub device_file : DeviceFile
device_file = record { fmode_write = true; private_data = some context }

pub took_down-grows : (ns : ℕ) (w : Linux) → w.ups ≤ (took_down ns w).1.ups
took_down-grows ns w = ground arith
