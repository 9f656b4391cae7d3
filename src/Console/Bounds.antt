-- ===== src/Console/Bounds.antt =====
-- The text that bashoutput prints, and when the buffer holds it.
use rpi_rt_ether_cat_slave_i.Common.{
  ℕ, ◌≤◌, ◌≡◌, refl, ◌∙◌, ap, List, [], ◌∷◌, ◌++◌, done, fault, M, >>=-done, length, set, ascii,
  arith, length-set,
}
use rpi_rt_ether_cat_slave_i.Stat.{StatBuffer}
use rpi_rt_ether_cat_slave_i.ThreadName.{c_string}
use rpi_rt_ether_cat_slave_i.ThreadName.Laws.{NoZero, NoZero-take, length-take-le}
use rpi_rt_ether_cat_slave_i.Console.{copy, numeric, bashoutput}
use rpi_rt_ether_cat_slave_i.Console.Pieces.{
  Holds-c_string, Holds-length, copy-Holds, IsPiece, append_then, concat, ArePieces,
  append_then-fits, append_then-overflows,
}

-- what is printed, each number behind its name
abbrev pub fields : {D : Type 0} → StatBuffer D → StatBuffer D → List (List ℕ × D)
fields period runtime =
    (ascii "period(ms):", period.vmean)
    ∷ (ascii " per_range:", period.vrange)
    ∷ (ascii " per_stddev:", period.vstddev)
    ∷ (ascii " per_max:", period.vmax)
    ∷ (ascii " per_min:", period.vmin)
    ∷ (ascii " runtime(us):", runtime.vmean)
    ∷ (ascii " runt_range:", runtime.vrange)
    ∷ (ascii " runt_stddev:", runtime.vstddev)
    ∷ (ascii " runt_max:", runtime.vmax)
    ∷ (ascii " runt_min:", runtime.vmin)
    ∷ []

abbrev pub text : {D : Type 0} → (D → List ℕ) → List (List ℕ × D) → List ℕ
text print_f [] = []
text print_f ((name, v) ∷ rest) = name ++ (numeric print_f v ++ text print_f rest)

module _ {D : Type 0} (print_f : D → List ℕ) (printable : (v : D) → NoZero (print_f v))
    (period runtime : StatBuffer D) where
  abbrev pieces : List (List ℕ × D) → List (List ℕ)
  pieces [] = []
  pieces ((name, v) ∷ rest) = name ∷ numeric print_f v ∷ pieces rest

  abbrev AreNames : List (List ℕ × D) → Type 0
  AreNames [] = Unit {0}
  AreNames ((name, v) ∷ rest) = IsPiece name × AreNames rest

  numeric-IsPiece : (v : D) → IsPiece (numeric print_f v)
  numeric-IsPiece v =
      (NoZero-take 62 (print_f v) (printable v), omega (arith, length-take-le 62 (print_f v)))

  pieces-ArePieces : (l : List (List ℕ × D)) → AreNames l → ArePieces (pieces l)
  pieces-ArePieces [] h = tt
  pieces-ArePieces ((name, v) ∷ rest) h = (h.0, (numeric-IsPiece v, pieces-ArePieces rest h.1))

  concat-pieces : (l : List (List ℕ × D)) → concat (pieces l) ≡ text print_f l
  concat-pieces [] = refl
  concat-pieces ((name, v) ∷ rest) = ap (λ t. name ++ (numeric print_f v ++ t)) (concat-pieces rest)

  abbrev behind : List (List ℕ)
  behind = elim (pieces (fields period runtime)) [ [] ↦ [] | x ∷ xs ↦ xs ]

  abbrev shown : M (List ℕ) (List ℕ)
  shown b = done (b'\r' ∷ b' ' ∷ c_string b) b

  fields-AreNames : AreNames (fields period runtime)
  fields-AreNames = ground arith

  -- If what `%f` prints has no zero byte and the buffer has 256 bytes, `bashoutput` prints a
  -- carriage return, a space and the ten statistics, each behind its name and cut to 62
  -- characters, and leaves 256 bytes, if these make at most 255 characters, and writes behind the
  -- buffer (a fault) if they make more.
  pub bashoutput-text :
      (outbuffer : List ℕ)
      → length outbuffer ≡ 256
      → (length (text print_f (fields period runtime)) ≤ 255
          → (b : List ℕ) × (bashoutput print_f period runtime outbuffer
              ≡ done (b'\r' ∷ b' ' ∷ text print_f (fields period runtime)) b)
            × (length b ≡ 256))
        × (256 ≤ length (text print_f (fields period runtime))
            → bashoutput print_f period runtime outbuffer ≡ fault)
  unfolding bashoutput
  bashoutput-text outbuffer size =
      let (b1, e1, h) =
        copy-Holds (set outbuffer 255 0) (ascii "period(ms):") 243
          (length-set outbuffer 255 0 ∙ size) names.0.0 refl in
      let total = ap length (concat-pieces (fields period runtime)) in
      let start =
        >>=-done (copy (ascii "period(ms):") 255) (λ u. append_then behind shown)
          (set outbuffer 255 0) e1 in
      (
        λ fits.
            (let (b2, e2, h2) = append_then-fits behind shown h areall (omega (arith, total)) in
              (
                b2,
                start
                    ∙ e2
                    ∙ ap (λ l. done (b'\r' ∷ b' ' ∷ l) b2)
                        (Holds-c_string h2 ∙ concat-pieces (fields period runtime)),
                Holds-length h2,
              )),
        λ over.
            start
            ∙ append_then-overflows behind shown h areall (omega arith) (omega (arith, total)),
      )
    where
      names : AreNames (fields period runtime)
      names = fields-AreNames

      areall : ArePieces behind
      areall = (pieces-ArePieces (fields period runtime) fields-AreNames).1
