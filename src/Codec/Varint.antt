-- ===== src/Codec/Varint.antt =====
-- proof.rs: `write_varint` and `read_varint`, LEB128 for a `u64`.
use ztreexo.Prelude.{
  ℕ, zero, suc, ◌+◌, ◌*◌, ◌/◌, ◌%◌, ◌^◌, ◌<◌, ◌≡◌, List, [], ◌∷◌, ◌++◌, ok, err, ◌>>=◌, ltb, ◌==◌,
  if◌then◌else◌, refl, ap, ◌∙◌, sym, arith, subst, false, pow-suc, Bool-cases, eq→==, inl, inr,
  ==→eq, lt→ltb, le→ltb,
}
use ztreexo.Codec.Reader.{malformed, varint_too_long, Decoder, u8_byte}
use ztreexo.Codec.Decoding.{Decodes, u8_byte-Decodes}

-- The loop of `write_varint`, seven bits in each byte; ten bytes hold a `u64`.
unfoldable pub varint_bytes : ℕ → ℕ → List ℕ
varint_bytes zero value = []
varint_bytes (suc fuel) value =
    let byte = value % 128 in
    let rest = varint_bytes fuel (value / 128) in
    if value / 128 == 0 then byte ∷ [] else (byte + 128) ∷ rest

unfoldable pub write_varint : ℕ → List ℕ
unfolding varint_bytes
write_varint value = varint_bytes 10 value

-- The loop of `read_varint`: the bits of the shifted byte above `2 ^ 64` are lost, and the rest are
-- above those of `value`, so that `|=` adds them.
unfoldable pub read_varint_bytes : ℕ → ℕ → ℕ → Decoder ℕ
unfolding u8_byte
read_varint_bytes zero shift value r = err (malformed varint_too_long)
read_varint_bytes (suc n) shift value r = do
  (byte, r) ← u8_byte r
  let value' = value + (byte % 128) * 2 ^ shift % 2 ^ 64
  let rest = read_varint_bytes n (shift + 7) value' r
  if ltb byte 128 then ok (value', r) else rest

unfoldable pub read_varint : Decoder ℕ
unfolding read_varint_bytes
read_varint r = read_varint_bytes 10 0 0 r

-- seven bits further up
shift_up : (shift : ℕ) → 2 ^ (shift + 7) ≡ 128 * 2 ^ shift
shift_up zero = refl
shift_up (suc shift) =
    let one_more : 2 ^ (suc shift + 7) ≡ 2 ^ (shift + 7) * 2 =
      ap (λ (n : ℕ). 2 ^ n) (omega arith) ∙ pow-suc 2 (shift + 7) in
    omega (arith, one_more, pow-suc 2 shift, shift_up shift)

low_bits :
    (byte shift : ℕ)
    → byte % 128 * 2 ^ shift < 2 ^ 64
    → byte % 128 * 2 ^ shift % 2 ^ 64 ≡ byte % 128 * 2 ^ shift
low_bits byte shift fits = omega (arith, fits)

-- the last byte, and a byte before it
pub read-last :
    (n shift value byte : ℕ)
    → byte < 128
    → byte * 2 ^ shift < 2 ^ 64
    → Decodes (read_varint_bytes (suc n) shift value) (value + byte * 2 ^ shift) (byte ∷ [])
unfolding read_varint_bytes
read-last n shift value byte small fits = record {
  decoded = λ more offset.
      rw ((u8_byte-Decodes byte).decoded more offset, lt→ltb byte 128 small)
        (ap (λ (m : ℕ). ok (value + m, record { rest = more; offset = offset + 1 })) same);
}
  where
    low : byte % 128 ≡ byte
    low = omega (arith, small)

    same : byte % 128 * 2 ^ shift % 2 ^ 64 ≡ byte * 2 ^ shift
    same = ap (λ (b : ℕ). b * 2 ^ shift % 2 ^ 64) low ∙ omega (arith, fits)

pub read-more :
    (n shift value digit total : ℕ) (bytes : List ℕ)
    → digit < 128
    → digit * 2 ^ shift < 2 ^ 64
    → Decodes (read_varint_bytes n (shift + 7) (value + digit * 2 ^ shift)) total bytes
    → Decodes (read_varint_bytes (suc n) shift value) total ((digit + 128) ∷ bytes)
unfolding read_varint_bytes
read-more n shift value digit total bytes small fits d = record {
  decoded = λ more offset.
      rw
        (
          (u8_byte-Decodes (digit + 128)).decoded (bytes ++ more) offset,
          le→ltb (digit + 128) 128 (omega arith),
        )
        (ap
            (λ (m : ℕ).
              read_varint_bytes n (shift + 7) (value + m)
                (record { rest = bytes ++ more; offset = offset + 1 }))
            same
          ∙ d.decoded more (offset + 1)
          ∙ ap (λ (m : ℕ). ok (total, record { rest = more; offset = m })) (omega arith));
}
  where
    low : (digit + 128) % 128 ≡ digit
    low = omega (arith, small)

    same : (digit + 128) % 128 * 2 ^ shift % 2 ^ 64 ≡ digit * 2 ^ shift
    same = ap (λ (b : ℕ). b * 2 ^ shift % 2 ^ 64) low ∙ omega (arith, fits)

-- a value is its lowest digit and the rest, seven bits up
pub split_digit : (v shift : ℕ) → v * 2 ^ shift ≡ v % 128 * 2 ^ shift + v / 128 * 2 ^ (shift + 7)
split_digit v shift =
    let parts : v ≡ v % 128 + 128 * (v / 128) = omega arith in
    let scaled = ap (λ (x : ℕ). x * 2 ^ shift) parts in
    let up = ap (λ (x : ℕ). v / 128 * x) (shift_up shift) in omega (arith, scaled, up)

one_digit :
    (fuel shift acc v : ℕ)
    → v / 128 ≡ 0
    → v * 2 ^ shift < 2 ^ 64
    → Decodes
        (read_varint_bytes (suc fuel) shift acc)
        (acc + v * 2 ^ shift)
        (varint_bytes (suc fuel) v)
unfolding varint_bytes
one_digit fuel shift acc v last fits =
    let same : v % 128 ≡ v = omega (arith, last) in
    rw (eq→== (v / 128) 0 last, same) (read-last fuel shift acc v (omega (arith, last)) fits)

read-varint_bytes :
    (fuel shift acc v : ℕ)
    → v < 128 ^ suc fuel
    → v * 2 ^ shift < 2 ^ 64
    → Decodes
        (read_varint_bytes (suc fuel) shift acc)
        (acc + v * 2 ^ shift)
        (varint_bytes (suc fuel) v)
read-varint_bytes zero shift acc v short fits = one_digit 0 shift acc v (omega (arith, short)) fits
read-varint_bytes (suc fuel) shift acc v short fits = elim (Bool-cases (v / 128 == 0)) [
  | inl last ↦ one_digit (suc fuel) shift acc v (==→eq (v / 128) 0 last) fits
  | inr more ↦
      let whole = split_digit v shift in
      let bytes = varint_bytes (suc fuel) (v / 128) in
      let next = acc + v % 128 * 2 ^ shift in
      let total : next + v / 128 * 2 ^ (shift + 7) ≡ acc + v * 2 ^ shift = omega (arith, whole) in
      let rest =
        read-varint_bytes fuel (shift + 7) next (v / 128)
          (omega (arith, short, pow-suc 128 (suc fuel))) (omega (arith, whole, fits)) in
      subst (λ l. Decodes (read_varint_bytes (suc (suc fuel)) shift acc) (acc + v * 2 ^ shift) l)
        (sym (varint_bytes-more (suc fuel) v more))
        (read-more (suc fuel) shift acc (v % 128) (acc + v * 2 ^ shift) bytes (omega arith)
          (omega (arith, whole, fits))
          (subst (λ (m : ℕ). Decodes (read_varint_bytes (suc fuel) (shift + 7) next) m bytes) total
            rest))
]
  where
    varint_bytes-more :
        (n w : ℕ)
        → (w / 128 == 0) ≡ false
        → varint_bytes (suc n) w ≡ (w % 128 + 128) ∷ varint_bytes n (w / 128)
    varint_bytes-more n w more = unfold varint_bytes in rw more refl

-- Every `u64` is read back from the bytes that `write_varint` writes, whatever follows them.
pub read_varint-write_varint : (v : ℕ) → v < 2 ^ 64 → Decodes read_varint v (write_varint v)
unfolding read_varint write_varint
read_varint-write_varint v fits =
    subst (λ (m : ℕ). Decodes (read_varint_bytes 10 0 0) m (varint_bytes 10 v)) (omega arith)
      (read-varint_bytes 9 0 0 v (omega (arith, fits)) (omega (arith, fits)))
