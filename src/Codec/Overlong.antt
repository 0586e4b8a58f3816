-- ===== src/Codec/Overlong.antt =====
-- proof.rs: `read_varint` accepts encodings that `write_varint` never writes.
use ztreexo.Prelude.{
  ℕ, zero, suc, ◌+◌, ◌*◌, ◌/◌, ◌%◌, ◌^◌, ◌<◌, ◌≡◌, List, [], ◌∷◌, length, ◌==◌, if◌then◌else◌, refl,
  ap, ◌∙◌, sym, arith, subst, false, pow-suc, Bool-cases, eq→==, inl, inr, ==→eq,
}
use ztreexo.Codec.Decoding.{Decodes}
use ztreexo.Codec.Varint.{
  varint_bytes, write_varint, read_varint_bytes, read_varint, read-last, read-more, split_digit,
}

-- The encoding with one byte more, that adds nothing: the last byte promises another, which is zero.
padded_bytes : ℕ → ℕ → List ℕ
padded_bytes zero value = []
padded_bytes (suc fuel) value =
    let byte = value % 128 in
    let rest = padded_bytes fuel (value / 128) in
    if value / 128 == 0 then (byte + 128) ∷ 0 ∷ [] else (byte + 128) ∷ rest

padded_digit :
    (fuel shift acc v : ℕ)
    → v / 128 ≡ 0
    → v * 2 ^ shift < 2 ^ 64
    → Decodes
        (read_varint_bytes (suc (suc fuel)) shift acc)
        (acc + v * 2 ^ shift)
        (padded_bytes (suc fuel) v)
unfolding padded_bytes
padded_digit fuel shift acc v last fits =
    let same : v % 128 ≡ v = omega (arith, last) in
    let sum = acc + v * 2 ^ shift in
    rw (eq→== (v / 128) 0 last, same)
      (read-more (suc fuel) shift acc v sum (0 ∷ []) (omega (arith, last)) fits (
        subst (λ (m : ℕ). Decodes (read_varint_bytes (suc fuel) (shift + 7) sum) m (0 ∷ []))
          (omega arith) (read-last fuel (shift + 7) sum 0 (omega arith) (omega arith))))

read-padded_bytes :
    (fuel shift acc v : ℕ)
    → v < 128 ^ suc fuel
    → v * 2 ^ shift < 2 ^ 64
    → Decodes
        (read_varint_bytes (suc (suc fuel)) shift acc)
        (acc + v * 2 ^ shift)
        (padded_bytes (suc fuel) v)
read-padded_bytes zero shift acc v short fits =
    padded_digit 0 shift acc v (omega (arith, short)) fits
read-padded_bytes (suc fuel) shift acc v short fits = elim (Bool-cases (v / 128 == 0)) [
  | inl last ↦ padded_digit (suc fuel) shift acc v (==→eq (v / 128) 0 last) fits
  | inr more ↦
      let whole = split_digit v shift in
      let bytes = padded_bytes (suc fuel) (v / 128) in
      let next = acc + v % 128 * 2 ^ shift in
      let total : next + v / 128 * 2 ^ (shift + 7) ≡ acc + v * 2 ^ shift = omega (arith, whole) in
      let rest =
        read-padded_bytes fuel (shift + 7) next (v / 128)
          (omega (arith, short, pow-suc 128 (suc fuel))) (omega (arith, whole, fits)) in
      subst
        (λ l. Decodes (read_varint_bytes (suc (suc (suc fuel))) shift acc) (acc + v * 2 ^ shift) l)
        (sym (padded_bytes-more (suc fuel) v more))
        (read-more (suc (suc fuel)) shift acc (v % 128) (acc + v * 2 ^ shift) bytes (omega arith)
          (omega (arith, whole, fits))
          (subst (λ (m : ℕ). Decodes (read_varint_bytes (suc (suc fuel)) (shift + 7) next) m bytes)
            total rest))
]
  where
    padded_bytes-more :
        (n w : ℕ)
        → (w / 128 == 0) ≡ false
        → padded_bytes (suc n) w ≡ (w % 128 + 128) ∷ padded_bytes n (w / 128)
    padded_bytes-more n w more = unfold padded_bytes in rw more refl

length-padded_bytes :
    (fuel v : ℕ)
    → v < 128 ^ suc fuel
    → length (padded_bytes (suc fuel) v) ≡ suc (length (varint_bytes (suc fuel) v))
unfolding padded_bytes varint_bytes
length-padded_bytes zero v short = rw (eq→== (v / 128) 0 (omega (arith, short))) refl
length-padded_bytes (suc fuel) v short =
    ground
      (arith, length-padded_bytes fuel (v / 128) (omega (arith, short, pow-suc 128 (suc fuel))))

-- fuel that is enough can be more
more_fuel :
    (fuel v : ℕ) → v < 128 ^ suc fuel → varint_bytes (suc (suc fuel)) v ≡ varint_bytes (suc fuel) v
unfolding varint_bytes
more_fuel zero v short = rw (eq→== (v / 128) 0 (omega (arith, short))) refl
more_fuel (suc fuel) v short =
    let ih = more_fuel fuel (v / 128) (omega (arith, short, pow-suc 128 (suc fuel))) in
    ap (λ l. if v / 128 == 0 then v % 128 ∷ [] else (v % 128 + 128) ∷ l) ih

-- Every value below `2 ^ 63` also decodes from a string that is one byte longer than the one that
-- `write_varint` writes: `read_varint` does not reject over-long encodings.
pub read_varint_overlong :
    (v : ℕ)
    → v < 2 ^ 63
    → (bytes : List ℕ) × (length bytes ≡ suc (length (write_varint v)))
      × Decodes read_varint v bytes
unfolding read_varint write_varint
read_varint_overlong v fits =
    let short : v < 128 ^ suc 8 = omega (arith, fits) in
    (
      padded_bytes 9 v,
      length-padded_bytes 8 v short ∙ ap (λ l. suc (length l)) (sym (more_fuel 8 v short)),
      subst (λ (m : ℕ). Decodes (read_varint_bytes 10 0 0) m (padded_bytes 9 v)) (omega arith)
          (read-padded_bytes 8 0 0 v short (omega (arith, fits))),
    )
