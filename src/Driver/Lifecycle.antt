-- ===== src/Driver/Lifecycle.antt =====
-- What driver_open takes and driver_close gives back.
use rpi_rt_ether_cat_slave_i.Common.{
  ℕ, ◌+◌, ◌-◌, ◌≡◌, refl, Bool, true, false, none, some, done, arith, if◌then◌else◌, Bool-cases,
  inl, inr,
}
use rpi_rt_ether_cat_slave_i.Common.Int.{ℤ, pos, neg, is_zero}
use rpi_rt_ether_cat_slave_i.Driver.{
  Services, Context, DeviceFile, new_context, r_int_config, driver_open, driver_close,
}

-- What is held of the kernel: blocks of memory, the GPIO, and interrupt lines.
pub record Held : Type 0 where
  pub blocks : ℕ
  pub gpios : ℕ
  pub irqs : ℕ

-- What the kernel documents of taking and giving back.
pub record Accounts {W : Type 0} (s : Services W) : Type 0 where
  pub held : W → Held
  pub kzalloc_holds :
      (a : ℕ) (w : W)
      → (s.kzalloc w).0 ≡ some a
      → held (s.kzalloc w).1 ≡ record (held w) { blocks = (held w).blocks + 1 }
  pub kfree_gives :
      (a : ℕ) (w : W) → held (s.kfree a w) ≡ record (held w) { blocks = (held w).blocks - 1 }
  pub gpio_request_holds :
      (w : W)
      → held (s.gpio_request w).1 ≡ record (held w) {
        gpios = if is_zero (s.gpio_request w).0 then (held w).gpios + 1 else (held w).gpios;
      }
  pub gpio_free_gives :
      (w : W) → held (s.gpio_free w) ≡ record (held w) { gpios = (held w).gpios - 1 }
  pub gpio_to_irq_keeps : (w : W) → held (s.gpio_to_irq w).1 ≡ held w
  pub request_irq_holds :
      (irq : ℤ) (w : W)
      → held (s.request_irq irq w).1 ≡ record (held w) {
        irqs = if is_zero (s.request_irq irq w).0 then (held w).irqs + 1 else (held w).irqs;
      }
  pub free_irq_gives :
      (irq : ℤ) (w : W) → held (s.free_irq irq w) ≡ record (held w) { irqs = (held w).irqs - 1 }
  pub sema_init_keeps : (a n : ℕ) (w : W) → held (s.sema_init a n w) ≡ held w

module _ {W : Type 0} (s : Services W) (acc : Accounts s) (file : DeviceFile) (w : W) (a : ℕ)
    (memory : (s.kzalloc w).0 ≡ some a) where
  abbrev w1 : W
  w1 = (s.kzalloc w).1

  -- whether the GPIO is granted, the interrupt line asked for, and whether it is granted
  abbrev pub granted : Bool
  granted = is_zero (s.gpio_request w1).0

  abbrev asked : W
  asked = if granted then (s.gpio_to_irq (s.gpio_request w1).1).1 else (s.gpio_request w1).1

  abbrev pub irq : ℤ
  irq = if granted then (s.gpio_to_irq (s.gpio_request w1).1).0 else pos 0

  abbrev pub accepted : Bool
  accepted = is_zero (s.request_irq irq asked).0

  abbrev configured : Context
  configured = record (new_context a) { irq_number = irq }

  -- what is held once the GPIO has been asked for
  abbrev pub with_gpio : Held
  with_gpio = record (acc.held w) {
    blocks = (acc.held w).blocks + 1;
    gpios = if granted then (acc.held w).gpios + 1 else (acc.held w).gpios;
  }

  asked-held : acc.held asked ≡ with_gpio
  asked-held = elim (Bool-cases granted) [
    | inl yes_there ↦ ground (
      arith,
      acc.kzalloc_holds a w memory,
      acc.gpio_request_holds w1,
      acc.gpio_to_irq_keeps (s.gpio_request w1).1,
    )
    | inr not_there ↦ ground (arith, acc.kzalloc_holds a w memory, acc.gpio_request_holds w1)
  ]

  configures : r_int_config s (new_context a) w1 ≡ done configured asked
  configures = ground arith

  -- If there is memory and the interrupt line is refused, `driver_open` returns -EFAULT and keeps
  -- the block of memory, and the GPIO if that was granted.
  pub driver_open-leak :
      (early : Bool)
      → accepted ≡ false
      → (file' : DeviceFile) × (w' : W) × (driver_open s early file w
          ≡ done (neg s.efault, file') w')
        × (acc.held w' ≡ with_gpio)
  unfolding driver_open
  driver_open-leak early refused = (
    record file { private_data = some configured },
    (s.request_irq irq asked).1,
    ground (arith, memory, configures, refused),
    ground (arith, asked-held, acc.request_irq_holds irq asked, refused),
  )

  -- the file and the state of the kernel after `driver_open`
  abbrev pub opened_file : DeviceFile
  opened_file = record file {
    private_data = some (record configured { w_open = file.fmode_write });
  }

  abbrev pub opened : W
  opened = s.sema_init a 0 (s.request_irq irq asked).1

  driver_open-opened :
      accepted ≡ true → driver_open s false file w ≡ done (pos 0, opened_file) opened
  unfolding driver_open
  driver_open-opened taken = ground (arith, memory, configures, taken)

  opened-held :
      accepted ≡ true → acc.held opened ≡ record with_gpio { irqs = (acc.held w).irqs + 1 }
  opened-held taken = ground (
    arith,
    asked-held,
    acc.request_irq_holds irq asked,
    taken,
    acc.sema_init_keeps a 0 (s.request_irq irq asked).1,
  )

  -- If there is memory and the interrupt line is granted, with no interrupt before the semaphore
  -- is initialised, `driver_open` returns 0 and `driver_close` on that file returns; the file has
  -- no context then, and the memory, the GPIO and the interrupt lines held are as before, except
  -- that a GPIO that was not granted is given back as well.
  pub driver_close-driver_open :
      accepted ≡ true
      → (file' file'' : DeviceFile) × (w' w'' : W) × (driver_open s false file w
          ≡ done (pos 0, file') w')
        × (driver_close s file' w' ≡ done file'' w'')
        × (file''.private_data ≡ none)
        × (acc.held w'' ≡ record (acc.held w) {
          gpios = if granted then (acc.held w).gpios else (acc.held w).gpios - 1;
        })
  unfolding driver_close
  driver_close-driver_open taken = (
    opened_file,
    record file { private_data = none },
    opened,
    s.kfree a (s.gpio_free (s.free_irq irq opened)),
    driver_open-opened taken,
    refl,
    refl,
    ground (
      arith,
      opened-held taken,
      acc.free_irq_gives irq opened,
      acc.gpio_free_gives (s.free_irq irq opened),
      acc.kfree_gives a (s.gpio_free (s.free_irq irq opened)),
    ),
  )
