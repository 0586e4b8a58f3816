-- ===== src/Bytes/Reading.antt =====
-- Reading bytes as a number and writing the number again.
use ztreexo.Prelude.{
  ℕ, zero, suc, ◌+◌, ◌*◌, ◌/◌, ◌%◌, ◌^◌, ◌<◌, ◌≡◌, List, [], ◌∷◌, ◌++◌, arith, length, pow-suc,
  refl, ap, ap₂, ◌∙◌,
}
use ztreexo.Bytes.{
  be_bytes, le_bytes, from_be_bytes, from_le_bytes, length-be_bytes, from_be_bytes-be_bytes,
}
use ztreexo.Bytes.Order.{AllBytes, from_be_bytes-lt, leading_digit}

pub AllBytes-snoc : (xs : List ℕ) (b : ℕ) → AllBytes xs → b < 256 → AllBytes (xs ++ b ∷ [])
AllBytes-snoc [] b h small = (small, tt)
AllBytes-snoc (x ∷ xs) b h small = (h.0, AllBytes-snoc xs b h.1 small)

be_bytes-AllBytes : (w n : ℕ) → AllBytes (be_bytes w n)
unfolding be_bytes
be_bytes-AllBytes zero n = tt
be_bytes-AllBytes (suc w) n =
    AllBytes-snoc (be_bytes w (n / 256)) (n % 256) (be_bytes-AllBytes w (n / 256)) (omega arith)

from_be_bytes-injective :
    (xs ys : List ℕ)
    → length xs ≡ length ys
    → AllBytes xs
    → AllBytes ys
    → from_be_bytes xs ≡ from_be_bytes ys
    → xs ≡ ys
unfolding from_be_bytes
from_be_bytes-injective [] [] e hx hy same = refl
from_be_bytes-injective [] (y ∷ ys) e hx hy same = absurd (omega arith)
from_be_bytes-injective (x ∷ xs) [] e hx hy same = absurd (omega arith)
from_be_bytes-injective (x ∷ xs) (y ∷ ys) e hx hy same =
    let shorter : length xs ≡ length ys = omega arith in
    let width = ap (λ (n : ℕ). y * 256 ^ n) shorter in
    let wide = ap (λ (n : ℕ). 256 ^ n) shorter in
    let head : x ≡ y = ground (
      arith,
      width,
      wide,
      from_be_bytes-lt xs hx.1,
      from_be_bytes-lt ys hy.1,
      leading_digit x y (256 ^ length xs) (from_be_bytes xs) (from_be_bytes ys),
      leading_digit y x (256 ^ length xs) (from_be_bytes ys) (from_be_bytes xs),
    ) in
    let tail : from_be_bytes xs ≡ from_be_bytes ys =
      omega (arith, width, ap (λ (n : ℕ). n * 256 ^ length xs) head) in
    ap₂ (λ b bs. b ∷ bs) head (from_be_bytes-injective xs ys shorter hx.1 hy.1 tail)

pub be_bytes-from_be_bytes :
    (bs : List ℕ) → AllBytes bs → be_bytes (length bs) (from_be_bytes bs) ≡ bs
be_bytes-from_be_bytes bs h =
    let n = from_be_bytes bs in
    from_be_bytes-injective (be_bytes (length bs) n) bs (length-be_bytes (length bs) n)
      (be_bytes-AllBytes (length bs) n) h
      (from_be_bytes-be_bytes (length bs) n (from_be_bytes-lt bs h))

pub le_bytes-from_le_bytes :
    (bs : List ℕ) → AllBytes bs → le_bytes (length bs) (from_le_bytes bs) ≡ bs
unfolding le_bytes from_le_bytes
le_bytes-from_le_bytes [] h = refl
le_bytes-from_le_bytes (b ∷ bs) h =
    let low : (b + 256 * from_le_bytes bs) % 256 ≡ b = omega (arith, h.0) in
    let high : (b + 256 * from_le_bytes bs) / 256 ≡ from_le_bytes bs = omega (arith, h.0) in
    ap₂ (λ x xs. x ∷ xs) low (ap (le_bytes (length bs)) high ∙ le_bytes-from_le_bytes bs h.1)

pub from_le_bytes-lt : (bs : List ℕ) → AllBytes bs → from_le_bytes bs < 256 ^ length bs
unfolding from_le_bytes
from_le_bytes-lt [] h = omega arith
from_le_bytes-lt (b ∷ bs) h = omega (arith, h.0, pow-suc 256 (length bs), from_le_bytes-lt bs h.1)
