-- ===== src/Driver.antt =====
-- gpioirq_kdriver/gpioirq.c: the kernel driver that hands the interrupts of the chip to the program,
-- over the services of the Linux kernel.
pub mod Timeout
pub mod Lifecycle
pub mod Leak
pub mod Counting
pub mod Demo
mod Tests
use rpi_rt_ether_cat_slave_i.Common.{
  ℕ, zero, suc, ◌+◌, ◌-◌, ◌*◌, ◌/◌, ◌%◌, ◌^◌, Bool, true, false, not, ◌&&◌, Option, none, some,
  List, [], ◌∷◌, done, fault, spins, M, pure, ◌>>=◌, ◌>>◌, if◌then◌else◌, ltb, leb, ◌==◌,
}
use rpi_rt_ether_cat_slave_i.Common.Int.{ℤ, pos, neg, is_zero, ltz}

-- What the driver calls of the kernel. Semaphores are named by the address of their context; the GPIO
-- is always GPIO_ANY_GPIO. An `up` of a semaphore that is not initialised may be a fault.
pub record Services (W : Type 0) : Type 0 where
  -- `kzalloc`, with the address
  pub kzalloc : W → Option ℕ × W
  pub kfree : ℕ → W → W
  pub gpio_request : W → ℤ × W
  pub gpio_free : W → W
  pub gpio_to_irq : W → ℤ × W
  pub request_irq : ℤ → W → ℤ × W
  pub free_irq : ℤ → W → W
  pub sema_init : ℕ → ℕ → W → W
  pub up : ℕ → M W (Unit {0})
  -- it need not return: it waits until an interrupt or a signal comes
  pub down_interruptible : ℕ → M W ℤ
  -- `down_timeout`, with the number of jiffies
  pub down_timeout : ℕ → ℕ → W → ℤ × W
  pub ktime_get_mono_fast_ns : W → ℕ × W
  pub usecs_to_jiffies : ℕ → ℕ
  -- `access_ok(pointer, size)`
  pub access_ok : ℕ → ℕ → Bool
  pub ioc_nr : ℕ → ℕ
  pub ioc_size : ℕ → ℕ
  -- `_IOC_DIR(cmd) & _IOC_READ` and `_IOC_DIR(cmd) & _IOC_WRITE`
  pub ioc_read : ℕ → Bool
  pub ioc_write : ℕ → Bool
  pub efault : ℕ
  pub einval : ℕ
  pub enotty : ℕ
  -- the bits of an `unsigned long`
  pub bits : ℕ

abbrev pub irqmod_base : ℕ
irqmod_base = 40

abbrev pub irqmoddev_wait_irq : ℕ
irqmoddev_wait_irq = irqmod_base + 1

abbrev pub irqmoddev_down_timeout : ℕ
irqmoddev_down_timeout = irqmod_base + 2

-- `DEVICE_NAME`, "gpioirq"
abbrev pub device_name : List ℕ
device_name = b'g' ∷ b'p' ∷ b'i' ∷ b'o' ∷ b'i' ∷ b'r' ∷ b'q' ∷ []

-- `MYCONTEXT`, at its address; the semaphore is the kernel's.
pub record Context : Type 0 where
  pub address : ℕ
  pub w_open : Bool
  pub r_open : ℕ
  pub debuglevel : ℕ
  pub irq_number : ℤ
  pub devicename : List ℕ

-- `struct file`: its mode has FMODE_WRITE or not.
pub record DeviceFile : Type 0 where
  pub fmode_write : Bool
  pub private_data : Option Context

-- the sign of a `long long` that is given by its 64 bits
abbrev pub is_positive : ℕ → Bool
is_positive bits = ltb 0 bits && ltb bits (2 ^ 63)

-- the context as `kzalloc` and `strcpy` leave it
abbrev pub new_context : ℕ → Context
new_context address = record {
  address = address;
  w_open = false;
  r_open = 0;
  debuglevel = 0;
  irq_number = pos 0;
  devicename = device_name;
}

module _ {W : Type 0} (s : Services W) where
  abbrev pub call : {A : Type 0} → (W → A × W) → M W A
  call f w = done (f w).0 (f w).1

  abbrev pub command : (W → W) → M W (Unit {0})
  command f w = done tt (f w)

  -- `r_irq_handler`, on the context at the address
  abbrev pub r_irq_handler : ℕ → M W (Unit {0})
  r_irq_handler md = s.up md

  abbrev pub r_int_config : Context → M W Context
  r_int_config md = do
    refused ← call s.gpio_request
    if not (is_zero refused)
        then pure md
        else (call s.gpio_to_irq >>= λ irq. pure (record md { irq_number = irq }))

  abbrev pub r_int_release : Context → M W (Unit {0})
  r_int_release md = do command (s.free_irq md.irq_number); command s.gpio_free

  -- `max((unsigned long)(1), usecs_to_jiffies(div_u64(rest_ns, fac_us2ns)))`
  abbrev pub jiffies_of : ℕ → ℕ
  jiffies_of rest_ns = let j = s.usecs_to_jiffies (rest_ns / 1000) in if ltb j 1 then 1 else j

  -- the loop of `down_timeoutms`, on fuel
  unfoldable pub wait_until : ℕ → ℕ → ℕ → ℕ → ℤ → M W ℤ
  wait_until zero sem endtime rest_ns err w = spins
  wait_until (suc fuel) sem endtime rest_ns err w =
      let again = λ (now : ℕ) (err' : ℤ) (w' : W).
        wait_until fuel sem endtime ((endtime + 2 ^ 64 - now) % 2 ^ 64) err' w' in
      if is_positive rest_ns
      then (do
        err' ← call (s.down_timeout sem (jiffies_of rest_ns))
        if is_zero err'
            then pure err'
            else (do now ← call s.ktime_get_mono_fast_ns; again now err'))
          w
      else done err w

  unfoldable pub down_timeoutms : ℕ → ℕ → ℕ → M W ℤ
  down_timeoutms fuel sem timeout_ms =
      let rest_ns = 1000000 * timeout_ms % 2 ^ s.bits in
      do
        now ← call s.ktime_get_mono_fast_ns
        wait_until fuel sem ((now + rest_ns) % 2 ^ 64) rest_ns (neg 1)

  unfoldable pub my_api : ℕ → ℕ → Context → ℕ → M W ℤ
  my_api fuel cmd md arg =
      let waits = down_timeoutms fuel md.address arg in
      if s.ioc_nr cmd == irqmoddev_wait_irq
      then (if not md.w_open then pure (neg s.einval) else s.down_interruptible md.address)
      else if s.ioc_nr cmd == irqmoddev_down_timeout
      then (if not md.w_open then pure (neg s.einval) else waits)
      else pure (neg s.enotty)

  -- `parameter_error` of `driver_unioctl`: of two checks the second counts
  abbrev pub parameter_error : ℕ → ℕ → Bool
  parameter_error cmd arg =
      let bad = not (s.access_ok arg (s.ioc_size cmd)) in
      if s.ioc_write cmd then bad else if s.ioc_read cmd then bad else false

  -- A call on a file without a context is a fault.
  unfoldable pub driver_unioctl : ℕ → DeviceFile → ℕ → ℕ → M W ℤ
  driver_unioctl fuel file cmd arg =
      if parameter_error cmd arg
      then pure (neg s.efault)
      else elim file.private_data [ none ↦ λ w. fault | some md ↦ my_api fuel cmd md arg ]

  -- the rest of `driver_open` once the interrupt is requested; `early` says whether the line falls
  -- before the semaphore is initialised
  abbrev pub finish_open : Bool → DeviceFile → Context → M W (ℤ × DeviceFile)
  finish_open early file md = do
    if early then r_irq_handler md.address else pure tt
    command (s.sema_init md.address 0)
    pure (pos 0, record file { private_data = some (record md { w_open = file.fmode_write }) })

  -- The result and the file. Without memory the first store is a fault.
  unfoldable pub driver_open : Bool → DeviceFile → M W (ℤ × DeviceFile)
  driver_open early file = do
    address ← call s.kzalloc
    elim address [
      | none ↦ λ w. fault
      | some a ↦ do
        md ← r_int_config (new_context a)
        refused ← call (s.request_irq md.irq_number)
        if not (is_zero refused)
            then pure (neg s.efault, record file { private_data = some md })
            else finish_open early file md
    ]

  unfoldable pub driver_close : DeviceFile → M W DeviceFile
  driver_close file = elim file.private_data [
    | none ↦ λ w. fault
    | some md ↦ do
      r_int_release md
      command (s.kfree md.address)
      pure (record file { private_data = none })
  ]

-- `r_init` and `r_cleanup`; `register_chrdev` and `unregister_chrdev` are of the major number and the
-- name of the device, and the messages are left out.
abbrev pub mymajor : ℕ
mymajor = 90

unfoldable pub r_init : {W : Type 0} → (ℕ → List ℕ → W → ℤ × W) → M W ℤ
r_init register_chrdev w =
    let (retval, w') = register_chrdev mymajor device_name w in
    if is_zero retval
    then done (pos 0) w'
    else if ltz (pos 0) retval
    then done (pos 0) w'
    else done (neg 1) w'

unfoldable pub r_cleanup : {W : Type 0} → (ℕ → List ℕ → W → W) → M W (Unit {0})
r_cleanup unregister_chrdev w = done tt (unregister_chrdev mymajor device_name w)

-- `get_arginput`; `copy_from_user` gives the number of bytes that it could not copy.
unfoldable pub get_arginput : {W : Type 0} → (W → ℕ × W) → ℕ → M W ℤ
get_arginput copy_from_user efault w =
    let (err, w') = copy_from_user w in
    if not (err == 0) then done (neg efault) w' else done (pos 0) w'
