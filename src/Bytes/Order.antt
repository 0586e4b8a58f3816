-- ===== src/Bytes/Order.antt =====
-- The derived order of `Value([u8; 32])` is lexicographic; on big-endian strings of one length it is
-- the order of the numbers.
use ztreexo.Prelude.{
  ℕ, ◌+◌, ◌*◌, ◌^◌, ◌<◌, ◌≡◌, List, [], ◌∷◌, Bool, true, false, arith, length, pow-suc, refl, ap,
  ltb, ◌==◌, if◌then◌else◌,
}
use ztreexo.Bytes.{from_be_bytes}

-- `<` on byte arrays, as `derive(PartialOrd)` gives it
unfoldable pub lex_ltb : List ℕ → List ℕ → Bool
lex_ltb [] [] = false
lex_ltb [] (y ∷ ys) = true
lex_ltb (x ∷ xs) [] = false
lex_ltb (x ∷ xs) (y ∷ ys) = if ltb x y then true else if x == y then lex_ltb xs ys else false

abbrev pub AllBytes : List ℕ → Type 0
AllBytes [] = Unit
AllBytes (b ∷ bs) = (b < 256) × AllBytes bs

pub from_be_bytes-lt : (bs : List ℕ) → AllBytes bs → from_be_bytes bs < 256 ^ length bs
unfolding from_be_bytes
from_be_bytes-lt [] h = omega arith
from_be_bytes-lt (b ∷ bs) h = grind (arith, pow-suc 256 (length bs), from_be_bytes-lt bs h.1)

-- a smaller leading digit decides, whatever follows
pub leading_digit : (x y p a b : ℕ) → x < y → a < p → x * p + a < y * p + b
leading_digit x y p a b h k = grind arith

-- Comparing two arrays of equally many bytes lexicographically is comparing the big-endian numbers
-- that they stand for.
pub lex_ltb-from_be_bytes :
    (xs ys : List ℕ)
    → length xs ≡ length ys
    → AllBytes xs
    → AllBytes ys
    → lex_ltb xs ys ≡ ltb (from_be_bytes xs) (from_be_bytes ys)
unfolding lex_ltb from_be_bytes
lex_ltb-from_be_bytes [] [] e hx hy = refl
lex_ltb-from_be_bytes [] (y ∷ ys) e hx hy = absurd (omega arith)
lex_ltb-from_be_bytes (x ∷ xs) [] e hx hy = absurd (omega arith)
lex_ltb-from_be_bytes (x ∷ xs) (y ∷ ys) e hx hy =
    let same : length xs ≡ length ys = omega arith in
    let width = ap (λ (n : ℕ). 256 ^ n) same in
    ground (
      arith,
      lex_ltb-from_be_bytes xs ys same hx.1 hy.1,
      from_be_bytes-lt xs hx.1,
      from_be_bytes-lt ys hy.1,
      ap (λ (n : ℕ). y * n) width,
      leading_digit x y (256 ^ length xs) (from_be_bytes xs) (from_be_bytes ys),
      leading_digit y x (256 ^ length xs) (from_be_bytes ys) (from_be_bytes xs),
    )
