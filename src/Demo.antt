-- ===== src/Demo.antt =====
-- Concrete hardware for the tests: a chip that answers in the format of the LAN9252 and is busy for
-- two polls after each command to its EtherCAT core, whole numbers for the `double`s, and a system
-- that grants a priority once the soft limit reaches it.
use rpi_rt_ether_cat_slave_i.Common.{
  Bool, true, false, ◌^◌, ℕ, zero, suc, ◌+◌, ◌-◌, leb, ◌*◌, ◌/◌, ◌&&◌, List, [], ◌∷◌, ◌++◌,
  if◌then◌else◌, ltb, ◌==◌, length, replicate, ◌≡◌, refl, some, get_elem?, arith, ◌<◌, subst,
}
use rpi_rt_ether_cat_slave_i.Common.Int.{ℤ, pos, neg, negsuc}
use rpi_rt_ether_cat_slave_i.Word.{Ulong, ProcBuffer, zeroed}
use rpi_rt_ether_cat_slave_i.Spi.{Bus}
use rpi_rt_ether_cat_slave_i.Spi.Transaction.{issue}
use rpi_rt_ether_cat_slave_i.Base.Cycle.{Waits, Responds}
use rpi_rt_ether_cat_slave_i.Base.{RpiBase, Machine}
use rpi_rt_ether_cat_slave_i.Base.Typed.{IsBuffer, IsTyped}
use rpi_rt_ether_cat_slave_i.Base.Queue.{IsValid}
use rpi_rt_ether_cat_slave_i.Scheduler.{Rlimit, Kernel}
use rpi_rt_ether_cat_slave_i.Scheduler.Termination.{KeepsLimits}
use rpi_rt_ether_cat_slave_i.Stat.{Double}

-- the bytes of the transaction so far, the register last asked for, and the polls left to be busy
pub record Chip : Type 0 where
  pub log : List ℕ
  pub csr : ℕ
  pub busy : ℕ
  pub al_status : ℕ

abbrev pub on_command : Chip → ℕ → ℕ → Chip
on_command c o register =
    if o == 2 then record c { csr = register; busy = 2 } else record c { busy = c.busy - 1 }

-- the end of a transaction
abbrev pub ended : List ℕ → Chip → Chip
ended (o ∷ h ∷ l ∷ x ∷ y ∷ rest) c = if h == 3 && l == 4 then on_command c o (x + 256 * y) else c
ended _ c = c

abbrev pub csr_answer : Chip → ℕ → ℕ
csr_answer c i = if i == 3 && ltb 0 c.busy then 0x80 else 0

abbrev pub data_answer : Chip → ℕ → ℕ
data_answer c i = if i == 0 then (if c.csr == 0x440 then 1 else c.al_status) else 0

abbrev pub test_answer : ℕ → ℕ
test_answer i = if i == 0 then 0x21 else if i == 1 then 0x43 else if i == 2 then 0x65 else 0x87

-- the answer to the next byte, after the operation and address
abbrev pub answer : List ℕ → Chip → ℕ
answer (o ∷ h ∷ l ∷ rest) c =
    let i = length rest in
    if h == 3 && l == 4
    then csr_answer c i
    else if h == 3 && l == 0
    then data_answer c i
    else if l == 0x64
    then test_answer i
    else if l == 0x74
    then (if i == 3 then 0x08 else 0)
    else if i == 0
    then 1
    else if i == 1
    then 8
    else 0
answer _ c = 0

abbrev pub chip_bus : Bus Chip
chip_bus = record {
  transfer = λ b c. (answer c.log c, record c { log = c.log ++ b ∷ [] });
  gpio_write = λ level c. if level then ended c.log c else record c { log = [] };
}

abbrev pub chip : Chip
chip = record { log = []; csr = 0; busy = 0; al_status = 8 }

-- a chip that has left the operational state
abbrev pub chip_safe_op : Chip
chip_safe_op = record chip { al_status = 4 }

abbrev pub garbage : Chip → Ulong
garbage c = record { byte0 = 0xAA; byte1 = 0xBB; byte2 = 0xCC; byte3 = 0xDD }

-- the object as static storage leaves it
abbrev pub blank : RpiBase
blank = record {
  curqidx = 0;
  curqoutidx = 0;
  buffer_out_eth_to_slave = zeroed;
  buffer_out = zeroed;
  from_slave_buffer_in = replicate 10 zeroed;
  buffer_in = zeroed;
  lastruntime = 0;
  laststart = 0;
  count = 0;
  atomiccounter = 0;
}

abbrev pub machine : Machine Chip
machine = record { base = blank; world = chip }

abbrev pub whole : Double ℕ
whole = record {
  nought = 0;
  add = λ a b. a + b;
  sub = λ a b. a - b;
  mul = λ a b. a * b;
  div = λ a b. a / b;
  sqrt = λ a. a;
  gt = λ a b. ltb b a;
  lt = λ a b. ltb a b;
  of_ull = λ n. n;
}

pub zeroed_slots :
    (i : ℕ) (p : ProcBuffer) → get_elem? (replicate 10 zeroed) i ≡ some p → length p.bytes ≡ 32
zeroed_slots i p e = from 10 i e
  where
    from : (n i : ℕ) → get_elem? (replicate n zeroed) i ≡ some p → length p.bytes ≡ 32
    from zero i e = cc
    from (suc n) zero e = ground arith
    from (suc n) (suc i) e = from n i e

pub blank-IsValid : IsValid blank
blank-IsValid = record {
  next_in = omega arith;
  out_in = omega arith;
  slots = refl;
  sized = zeroed_slots;
  out_sized = refl;
}

abbrev pub granted : ℤ → Rlimit → Bool
granted (pos p) r = leb p r.rlim_cur
granted (negsuc p) r = false

-- the state is the limits; errno is always EPERM, 1
abbrev pub limits_kernel : Kernel Rlimit
limits_kernel = record {
  errno = λ r. pos 1;
  sched_get_priority_max = λ policy r. (pos 99, r);
  getrlimit = λ r. ((pos 0, r), r);
  setrlimit = λ q r. (pos 0, q);
  sched_setscheduler = λ policy prio r. (if granted prio r then pos 0 else neg 1, r);
  rlim_infinity = 2 ^ 64 - 1;
  is_eperm = λ e. true;
}

pub kernel-KeepsLimits : KeepsLimits limits_kernel
kernel-KeepsLimits = record {
  limits = λ r. r;
  max_keeps = λ policy r. refl;
  get_keeps = λ r. refl;
  get_limits = λ r e. refl;
  set_limits = λ q r e. refl;
  try_keeps = λ policy prio r. refl;
  max_errno = λ policy r e. refl;
  get_errno = λ r e. refl;
  set_errno = λ q r e. refl;
  infinity_large = omega arith;
}

abbrev pub zero_limit : Rlimit
zero_limit = record { rlim_cur = 0; rlim_max = 99 }

abbrev pub two_polls : Waits
two_polls = record { wdog = 2; al = 2; input = 0; output = 0 }

pub responds : (c : Chip) → Responds chip_bus two_polls c 3
unfolding issue
responds c = record {
  wdog_clears = (refl, (refl, refl));
  al_clears = (refl, (refl, refl));
  input_clears = λ e. refl;
  output_clears = refl;
  wdog_fuel = omega arith;
  al_fuel = omega arith;
  input_fuel = omega arith;
  output_fuel = omega arith;
}

pub zeroed-IsBuffer : IsBuffer zeroed
zeroed-IsBuffer = record { sized = refl; bytes = λ i b e. zeros 32 i b e }
  where
    zeros : (n i b : ℕ) → get_elem? (replicate n 0) i ≡ some b → b < 256
    zeros zero i b e = cc
    zeros (suc n) zero b e = ground arith
    zeros (suc n) (suc i) b e = zeros n i b e

pub blank-IsTyped : IsTyped blank
blank-IsTyped = record {
  valid = blank-IsValid;
  slots = λ i p e. blanks 10 i p e;
  out = zeroed-IsBuffer;
  copied = zeroed-IsBuffer;
  inward = zeroed-IsBuffer;
  counter = omega arith;
  times = (omega arith, omega arith, omega arith);
}
  where
    blanks : (n i : ℕ) (p : ProcBuffer) → get_elem? (replicate n zeroed) i ≡ some p → IsBuffer p
    blanks zero i p e = cc
    blanks (suc n) zero p e =
        let same : zeroed ≡ p = ground (arith, e) in subst IsBuffer same zeroed-IsBuffer
    blanks (suc n) (suc i) p e = blanks n i p e
