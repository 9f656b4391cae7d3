-- ===== src/Common/Ascii.antt =====
-- The bytes of a text literal of ASCII characters.
use Prim.Native.Nat.{ℕ}
use Prim.Native.Char.{code}
use Prim.Native.String.{String, [] as empty, ◌∷◌ as ◌then◌}
use mathlib.Core.List.{List, [], ◌∷◌}

abbrev pub ascii : String → List ℕ
ascii empty = []
ascii (c then s) = code c ∷ ascii s
