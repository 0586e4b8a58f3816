-- ===== src/Bytes/Examples.antt =====
-- The order of `Value` at two arrays.
use ztreexo.Prelude.{ℕ, ◌≡◌, List, [], ◌∷◌, refl, arith, ltb}
use ztreexo.Bytes.{from_be_bytes}
use ztreexo.Bytes.Order.{lex_ltb, lex_ltb-from_be_bytes}

abbrev smaller : List ℕ
smaller = 1 ∷ 255 ∷ []

abbrev larger : List ℕ
larger = 2 ∷ 0 ∷ []

lex_ltb-from_be_bytes_example :
    lex_ltb smaller larger ≡ ltb (from_be_bytes smaller) (from_be_bytes larger)
lex_ltb-from_be_bytes_example =
    lex_ltb-from_be_bytes smaller larger refl (omega arith, (omega arith, tt))
      (omega arith, (omega arith, tt))
