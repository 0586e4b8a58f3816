-- ===== src/Bytes.antt =====
-- Fixed-width byte encodings: `[u8; 32]` as a big-endian number and `u64::to_le_bytes`, with the
-- lexicographic order that `Value` derives (crates/zutreexo-accumulator/src/imt.rs).
pub mod Order
pub mod Reading
mod Examples
use ztreexo.Prelude.{
  ℕ, zero, suc, ◌+◌, ◌*◌, ◌/◌, ◌%◌, ◌^◌, ◌<◌, ◌≡◌, List, [], ◌∷◌, ◌++◌, arith, length, length-snoc,
  pow-suc, refl, ap, ◌∙◌, sym,
}

unfoldable pub be_bytes : ℕ → ℕ → List ℕ
be_bytes zero n = []
be_bytes (suc w) n = be_bytes w (n / 256) ++ (n % 256) ∷ []

unfoldable pub le_bytes : ℕ → ℕ → List ℕ
le_bytes zero n = []
le_bytes (suc w) n = (n % 256) ∷ le_bytes w (n / 256)

-- the number that a big-endian byte string stands for
unfoldable pub from_be_bytes : List ℕ → ℕ
from_be_bytes [] = 0
from_be_bytes (b ∷ bs) = b * 256 ^ length bs + from_be_bytes bs

pub from_le_bytes : List ℕ → ℕ
from_le_bytes [] = 0
from_le_bytes (b ∷ bs) = b + 256 * from_le_bytes bs

pub length-be_bytes : (w n : ℕ) → length (be_bytes w n) ≡ w
unfolding be_bytes
length-be_bytes zero n = refl
length-be_bytes (suc w) n =
    omega (arith, length-snoc (be_bytes w (n / 256)) (n % 256), length-be_bytes w (n / 256))

pub length-le_bytes : (w n : ℕ) → length (le_bytes w n) ≡ w
unfolding le_bytes
length-le_bytes zero n = refl
length-le_bytes (suc w) n = omega (arith, length-le_bytes w (n / 256))

pub from_be_bytes-snoc :
    (bs : List ℕ) (b : ℕ) → from_be_bytes (bs ++ b ∷ []) ≡ from_be_bytes bs * 256 + b
unfolding from_be_bytes
from_be_bytes-snoc [] b = omega arith
from_be_bytes-snoc (x ∷ bs) b =
    let width : 256 ^ length (bs ++ b ∷ []) ≡ 256 ^ length bs * 256 =
      ap (λ (n : ℕ). 256 ^ n) (length-snoc bs b) ∙ pow-suc 256 (length bs) in
    omega (arith, from_be_bytes-snoc bs b, ap (λ (n : ℕ). x * n) width)

pub from_be_bytes-be_bytes : (w n : ℕ) → n < 256 ^ w → from_be_bytes (be_bytes w n) ≡ n
unfolding be_bytes from_be_bytes
from_be_bytes-be_bytes zero n h = omega arith
from_be_bytes-be_bytes (suc w) n h = omega (
  arith,
  from_be_bytes-snoc (be_bytes w (n / 256)) (n % 256),
  from_be_bytes-be_bytes w (n / 256) (omega (arith, pow-suc 256 w)),
)

pub from_le_bytes-le_bytes : (w n : ℕ) → n < 256 ^ w → from_le_bytes (le_bytes w n) ≡ n
unfolding le_bytes from_le_bytes
from_le_bytes-le_bytes zero n h = omega arith
from_le_bytes-le_bytes (suc w) n h =
    omega (arith, from_le_bytes-le_bytes w (n / 256) (omega (arith, pow-suc 256 w)))

pub be_bytes-injective :
    (w m n : ℕ) → m < 256 ^ w → n < 256 ^ w → be_bytes w m ≡ be_bytes w n → m ≡ n
be_bytes-injective w m n hm hn e =
    sym (from_be_bytes-be_bytes w m hm) ∙ ap from_be_bytes e ∙ from_be_bytes-be_bytes w n hn

pub le_bytes-injective :
    (w m n : ℕ) → m < 256 ^ w → n < 256 ^ w → le_bytes w m ≡ le_bytes w n → m ≡ n
le_bytes-injective w m n hm hn e =
    sym (from_le_bytes-le_bytes w m hm) ∙ ap from_le_bytes e ∙ from_le_bytes-le_bytes w n hn
