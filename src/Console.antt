-- ===== src/Console.antt =====
-- rpi_base/src/rpi_base.cpp: bashoutput, and the buffers `outbuffer`, of 256 bytes, and `numeric`, of 64.
pub mod Bounds
pub mod Pieces
mod Tests
use rpi_rt_ether_cat_slave_i.Common.{
  ℕ, zero, suc, ◌+◌, ◌-◌, List, [], ◌∷◌, ◌++◌, done, fault, M, pure, ◌>>=◌, ◌>>◌, if◌then◌else◌,
  ltb, leb, length, take, set, ascii,
}
use rpi_rt_ether_cat_slave_i.Stat.{StatBuffer}
use rpi_rt_ether_cat_slave_i.ThreadName.{c_string, strncpy, strncat}

-- `strncat` of the string `src` to a buffer; a store behind the buffer is a fault.
unfoldable pub append : List ℕ → ℕ → M (List ℕ) (Unit {0})
append src n dest =
    if ltb (length (c_string dest) + length (take n src)) (length dest)
    then done tt (strncat dest src n)
    else fault

-- `strncpy` of the string `src` to a buffer, `n` bytes in all
unfoldable pub copy : List ℕ → ℕ → M (List ℕ) (Unit {0})
copy src n dest = if leb n (length dest) then done tt (strncpy dest src n) else fault

-- `print_f` is what `%f` prints. The state is `outbuffer`.
module _ {D : Type 0} (print_f : D → List ℕ) where
  -- `numeric`, after `snprintf(&numeric[0], sizeof(numeric)-1, "%f", v)`
  abbrev pub numeric : D → List ℕ
  numeric v = take (64 - 1 - 1) (print_f v)

  abbrev pub strcat : List ℕ → M (List ℕ) (Unit {0})
  strcat src = append src 255

  -- The characters printed. `period` and `runtime` are `m_period.sbuf` and `m_runtime.sbuf`.
  unfoldable pub bashoutput : StatBuffer D → StatBuffer D → M (List ℕ) (List ℕ)
  bashoutput period runtime = do
    λ b. done tt (set b 255 0)
    copy (ascii "period(ms):") 255
    strcat (numeric period.vmean)
    strcat (ascii " per_range:")
    strcat (numeric period.vrange)
    strcat (ascii " per_stddev:")
    strcat (numeric period.vstddev)
    strcat (ascii " per_max:")
    strcat (numeric period.vmax)
    strcat (ascii " per_min:")
    strcat (numeric period.vmin)
    strcat (ascii " runtime(us):")
    strcat (numeric runtime.vmean)
    strcat (ascii " runt_range:")
    strcat (numeric runtime.vrange)
    strcat (ascii " runt_stddev:")
    strcat (numeric runtime.vstddev)
    strcat (ascii " runt_max:")
    strcat (numeric runtime.vmax)
    strcat (ascii " runt_min:")
    strcat (numeric runtime.vmin)
    λ b. done (b'\r' ∷ b' ' ∷ c_string b) b
