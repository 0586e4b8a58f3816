-- ===== src/Codec/Decoding.antt =====
-- proof.rs: what a decoder reads back, and what bytes it can have read.
use ztreexo.Prelude.{
  ℕ, ◌+◌, ◌^◌, ◌<◌, ◌≡◌, List, [], ◌∷◌, ◌++◌, length, Result, ok, ◌>>=◌, refl, ap, ◌∙◌, arith,
  subst, le→leb,
}
use ztreexo.Bytes.{le_bytes, length-le_bytes, from_le_bytes-le_bytes}
use ztreexo.Digest.{Hash}
use ztreexo.Digest.Preimage.{Hash-eq}
use ztreexo.Codec.Reader.{
  ProofCodecError, Reader, Decoder, first, skip, take, u8_byte, uint_le, fill, hash_of, hash,
}

append-length : {A : Type 0} (xs ys : List A) → length (xs ++ ys) ≡ length xs + length ys
append-length [] ys = omega arith
append-length (x ∷ xs) ys = omega (arith, append-length xs ys)

pub append_assoc : {A : Type 0} (xs ys zs : List A) → (xs ++ ys) ++ zs ≡ xs ++ (ys ++ zs)
append_assoc [] ys zs = refl
append_assoc (x ∷ xs) ys zs = ap (λ l. x ∷ l) (append_assoc xs ys zs)

-- From the bytes, whatever follows them, a decoder reads the value and stops right after them.
pub record Decodes {A : Type 0} (p : Decoder A) (a : A) (bytes : List ℕ) : Type 0 where
  pub decoded :
      (more : List ℕ) (offset : ℕ)
      → p (record { rest = bytes ++ more; offset = offset })
        ≡ ok (a, record { rest = more; offset = offset + length bytes })

-- one decoder after another
pub Decodes-bind :
    {A B : Type 0} (p : Decoder A) (f : A × Reader → Result ProofCodecError (B × Reader)) {a : A}
    {b : B} {xs ys : List ℕ}
    → Decodes p a xs
    → Decodes (λ r. f (a, r)) b ys
    → Decodes (λ r. p r >>= f) b (xs ++ ys)
Decodes-bind p f {a} {b} {xs} {ys} dp df = record {
  decoded = λ more offset.
      ap (λ l. p (record { rest = l; offset = offset }) >>= f) (append_assoc xs ys more)
      ∙ ap (λ m. m >>= f) (dp.decoded (ys ++ more) offset)
      ∙ df.decoded more (offset + length xs)
      ∙ ap (λ n. ok (b, record { rest = more; offset = n })) (omega (arith, append-length xs ys));
}

-- the last step of a decoder, which reads nothing more
pub Decodes-ok : {A : Type 0} (a : A) → Decodes (λ r. ok (a, r)) a []
Decodes-ok a = record {
  decoded = λ more offset. ap (λ n. ok (a, record { rest = more; offset = n })) (omega arith);
}

pub Decodes-map :
    {A B : Type 0} (p : Decoder A) (f : A → B) {a : A} {xs : List ℕ}
    → Decodes p a xs
    → Decodes (λ r. p r >>= λ x. ok (f x.0, x.1)) (f a) xs
Decodes-map p f {a} {xs} dp = record {
  decoded = λ more offset. ap (λ m. m >>= λ x. ok (f x.0, x.1)) (dp.decoded more offset);
}

first-append : (xs ys : List ℕ) → first (length xs) (xs ++ ys) ≡ xs
unfolding first
first-append [] ys = refl
first-append (x ∷ xs) ys = ap (λ l. x ∷ l) (first-append xs ys)

skip-append : (xs ys : List ℕ) → skip (length xs) (xs ++ ys) ≡ ys
unfolding skip
skip-append [] ys = refl
skip-append (x ∷ xs) ys = skip-append xs ys

take-Decodes : (bytes : List ℕ) → Decodes (take (length bytes)) bytes bytes
unfolding take
take-Decodes bytes = record {
  decoded = λ more offset.
      rw
        (
          le→leb (length bytes) (length (bytes ++ more)) (omega (arith, append-length bytes more)),
          first-append bytes more,
          skip-append bytes more,
        )
        refl;
}

take-Decodes_of : (n : ℕ) (bytes : List ℕ) → length bytes ≡ n → Decodes (take n) bytes bytes
take-Decodes_of n bytes e = subst (λ m. Decodes (take m) bytes bytes) e (take-Decodes bytes)

pub u8_byte-Decodes : (b : ℕ) → Decodes u8_byte b (b ∷ [])
unfolding u8_byte
u8_byte-Decodes b = record {
  decoded = λ more offset. rw ((take-Decodes (b ∷ [])).decoded more offset) refl;
}

pub uint_le-Decodes : (w n : ℕ) → n < 256 ^ w → Decodes (uint_le w) n (le_bytes w n)
unfolding uint_le
uint_le-Decodes w n small = record {
  decoded = λ more offset.
      rw
        (
          (take-Decodes_of w (le_bytes w n) (length-le_bytes w n)).decoded more offset,
          from_le_bytes-le_bytes w n small,
        )
        refl;
}

pub fill_self : (bytes : List ℕ) → fill (length bytes) bytes ≡ bytes
unfolding fill
fill_self [] = refl
fill_self (b ∷ bs) = ap (λ l. b ∷ l) (fill_self bs)

pub hash_of-bytes : (h : Hash) → hash_of h.bytes ≡ h
unfolding hash_of
hash_of-bytes h =
    Hash-eq (hash_of h.bytes) h
      (subst (λ n. fill n h.bytes ≡ h.bytes) h.length-bytes (fill_self h.bytes))

pub hash-Decodes : (h : Hash) → Decodes hash h h.bytes
unfolding hash
hash-Decodes h = record {
  decoded = λ more offset.
      rw ((take-Decodes_of 32 h.bytes h.length-bytes).decoded more offset, hash_of-bytes h) refl;
}
