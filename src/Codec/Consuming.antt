-- ===== src/Codec/Consuming.antt =====
-- proof.rs: the bytes that a decoder can have read.
use ztreexo.Prelude.{
  ℕ, zero, suc, ◌^◌, ◌<◌, ◌≤◌, ◌≡◌, List, [], ◌∷◌, ◌++◌, length, Result, ok, ◌>>=◌, refl, ap, ◌∙◌,
  sym, arith, subst, >>=-eq-ok,
}
use ztreexo.Bytes.{be_bytes, le_bytes, from_be_bytes, from_le_bytes}
use ztreexo.Bytes.Order.{AllBytes, from_be_bytes-lt}
use ztreexo.Bytes.Reading.{be_bytes-from_be_bytes, le_bytes-from_le_bytes, from_le_bytes-lt}
use ztreexo.Imt.Types.{IsValue, Leaf, LeafFits}
use ztreexo.Imt.Path.{max_depth}
use ztreexo.Codec.Dense.{length_byte, hash_bytes, write_path, write_leaf, read_value, read_leaf}
use ztreexo.Digest.{Hash}
use ztreexo.Codec.Reader.{
  ProofCodecError, only_byte, Reader, Decoder, first, skip, take, u8_byte, uint_le, fill, hash_of,
  hash, hashes, path,
}
use ztreexo.Codec.Decoding.{append_assoc, fill_self}

pub AllBytes-append : (xs ys : List ℕ) → AllBytes (xs ++ ys) → AllBytes xs × AllBytes ys
AllBytes-append [] ys h = (tt, h)
AllBytes-append (x ∷ xs) ys h = let (a, b) = AllBytes-append xs ys h.1 in ((h.0, a), b)

-- the bytes before `r'` are the encoding of a value that fits
abbrev pub Consumed : {A : Type 0} → (A → List ℕ) → (A → Type 0) → List ℕ → A → Reader → Type 0
Consumed encode Good bytes a r' = (bytes ≡ encode a ++ r'.rest) × AllBytes r'.rest × Good a

-- Whatever bytes it is given, a decoder that succeeds has read the encoding of its value, and the
-- value fits.
pub record Consumes {A : Type 0} (p : Decoder A) (encode : A → List ℕ) (Good : A → Type 0)
    : Type 0 where
  pub consumed :
      (r r' : Reader) (a : A)
      → AllBytes r.rest
      → p r ≡ ok (a, r')
      → Consumed encode Good r.rest a r'

-- the last step of a decoder returns the value as it is
pub Consumed-end :
    {A : Type 0} (encode : A → List ℕ) (Good : A → Type 0) {bytes : List ℕ} {m r' : Reader}
    {a b : A}
    → ◌≡◌ {A = Result ProofCodecError (A × Reader)} (ok (a, m)) (ok (b, r'))
    → Consumed encode Good bytes a m
    → Consumed encode Good bytes b r'
Consumed-end {A = A} encode Good {bytes} {m} {r'} {a} {b} e c =
    let value : a ≡ b = cc in
    let cursor : m ≡ r' = cc in
    subst (λ y. Consumed encode Good bytes b y) cursor
      (subst (λ x. Consumed encode Good bytes x m) value c)

first-skip : (n : ℕ) (bs : List ℕ) → first n bs ++ skip n bs ≡ bs
unfolding first skip
first-skip zero bs = refl
first-skip (suc n) [] = refl
first-skip (suc n) (b ∷ bs) = ap (λ l. b ∷ l) (first-skip n bs)

length-first : (n : ℕ) (bs : List ℕ) → n ≤ length bs → length (first n bs) ≡ n
unfolding first
length-first zero bs h = refl
length-first (suc n) [] h = omega arith
length-first (suc n) (b ∷ bs) h = omega (arith, length-first n bs (omega arith))

take-eq_ok :
    (n : ℕ) (r r' : Reader) (bytes : List ℕ)
    → take n r ≡ ok (bytes, r')
    → (r.rest ≡ bytes ++ r'.rest) × (length bytes ≡ n)
unfolding take
take-eq_ok n r r' bytes e = ground (arith, first-skip n r.rest, length-first n r.rest)

pub take-Consumes : (n : ℕ) → Consumes (take n) (λ bs. bs) (λ bs. AllBytes bs × (length bs ≡ n))
take-Consumes n = record {
  consumed = λ r r' bytes all e.
      let (split, full) = take-eq_ok n r r' bytes e in
      let (read, left) = AllBytes-append bytes r'.rest (subst AllBytes split all) in
      (split, left, (read, full));
}

-- the value of a last step
pub Consumes-map :
    {A B : Type 0} (p : Decoder A) (f : A → B) {encode : A → List ℕ} {Good : A → Type 0}
    (encode' : B → List ℕ) (Good' : B → Type 0)
    → Consumes p encode Good
    → ((a : A) → Good a → (encode' (f a) ≡ encode a) × Good' (f a))
    → Consumes (λ r. p r >>= λ x. ok (f x.0, x.1)) encode' Good'
Consumes-map p f encode' Good' cp cf = record {
  consumed = λ r r' b all e.
      let ((a, m), read, end) = >>=-eq-ok (p r) (λ x. ok (f x.0, x.1)) e in
      let (here, left, good) = cp.consumed r m a all read in
      let (same, good') = cf a good in
      Consumed-end encode' Good' end (here ∙ ap (λ l. l ++ m.rest) (sym same), left, good');
}

pub uint_le-Consumes : (w : ℕ) → Consumes (uint_le w) (le_bytes w) (λ n. n < 256 ^ w)
unfolding uint_le
uint_le-Consumes w =
    Consumes-map (take w) from_le_bytes (le_bytes w) (λ n. n < 256 ^ w) (take-Consumes w)
      (λ bs good. (
        subst (λ n. le_bytes n (from_le_bytes bs) ≡ bs) good.1 (le_bytes-from_le_bytes bs good.0),
        subst (λ (n : ℕ). from_le_bytes bs < 256 ^ n) good.1 (from_le_bytes-lt bs good.0),
      ))

fill-32 : (bytes : List ℕ) → length bytes ≡ 32 → fill 32 bytes ≡ bytes
fill-32 bytes e = subst (λ n. fill n bytes ≡ bytes) e (fill_self bytes)

pub hash-Consumes : Consumes hash (λ h. h.bytes) (λ h. AllBytes h.bytes)
unfolding hash hash_of
hash-Consumes =
    Consumes-map (take 32) hash_of (λ h. h.bytes) (λ h. AllBytes h.bytes) (take-Consumes 32)
      (λ bs good. (fill-32 bs good.1, subst AllBytes (sym (fill-32 bs good.1)) good.0))

pub read_value-Consumes : Consumes read_value (be_bytes 32) IsValue
unfolding read_value
read_value-Consumes =
    Consumes-map hash (λ (h : Hash). from_be_bytes h.bytes) (be_bytes 32) IsValue hash-Consumes
      (λ h good.
        let wide = from_be_bytes-lt h.bytes good in
        (
          subst (λ n. be_bytes n (from_be_bytes h.bytes) ≡ h.bytes) h.length-bytes
              (be_bytes-from_be_bytes h.bytes good),
          subst (λ (n : ℕ). from_be_bytes h.bytes < 256 ^ n) h.length-bytes wide,
        ))

-- one step after another, each read off the bytes that the last one left
pub read_two :
    {r m : List ℕ} (xs ys end : List ℕ) → r ≡ xs ++ m → m ≡ ys ++ end → r ≡ (xs ++ ys) ++ end
read_two xs ys end a b = a ∙ ap (λ l. xs ++ l) b ∙ sym (append_assoc xs ys end)

pub read_leaf-Consumes : Consumes read_leaf write_leaf LeafFits
unfolding read_leaf write_leaf
read_leaf-Consumes = record {
  consumed = λ r r' l all e.
      let ((v, r1), e1, k1) = >>=-eq-ok (read_value r) _ e in
      let (h1, all1, good1) = read_value-Consumes.consumed r r1 v all e1 in
      let ((n, r2), e2, k2) = >>=-eq-ok (read_value r1) _ k1 in
      let (h2, all2, good2) = read_value-Consumes.consumed r1 r2 n all1 e2 in
      let ((i, r3), e3, k3) = >>=-eq-ok (uint_le 8 r2) _ k2 in
      let (h3, all3, good3) = (uint_le-Consumes 8).consumed r2 r3 i all2 e3 in
      let leaf : Leaf = record { value = v; next_value = n; next_index = i } in
      Consumed-end write_leaf LeafFits {a = leaf} k3 (
        read_two (be_bytes 32 v) _ r3.rest h1
            (read_two (be_bytes 32 n) (le_bytes 8 i) r3.rest h2 h3),
        all3,
        omega (arith, good1, good2, good3),
      );
}

pub u8_byte-Consumes : Consumes u8_byte (λ b. b ∷ []) (λ b. b < 256)
unfolding u8_byte
u8_byte-Consumes = record {
  consumed = λ r r' b all e.
      let ((bytes, r1), e1, k1) = >>=-eq-ok (take 1 r) _ e in
      let (h1, all1, good1) = (take-Consumes 1).consumed r r1 bytes all e1 in
      single r r1 r' bytes b h1 all1 good1.0 good1.1 k1;
}
  where
    single :
        (r r1 r' : Reader) (bytes : List ℕ) (b : ℕ)
        → r.rest ≡ bytes ++ r1.rest
        → AllBytes r1.rest
        → AllBytes bytes
        → length bytes ≡ 1
        → only_byte r1 bytes ≡ ok (b, r')
        → Consumed (λ y. y ∷ []) (λ (y : ℕ). y < 256) r.rest b r'
    single r r1 r' [] b h all good full k = absurd (omega arith)
    single r r1 r' (x ∷ []) b h all good full k =
        Consumed-end (λ y. y ∷ []) (λ (y : ℕ). y < 256) k (h, all, good.0)
    single r r1 r' (x ∷ y ∷ bytes) b h all good full k = absurd (omega arith)

pub hashes-Consumes : (n : ℕ) → Consumes (hashes n) hash_bytes (λ hs. length hs ≡ n)
unfolding hashes hash_bytes
hashes-Consumes zero = record {
  consumed = λ r r' hs all e. Consumed-end hash_bytes (λ l. length l ≡ 0) e (refl, all, refl);
}
hashes-Consumes (suc n) = record {
  consumed = λ r r' hs all e.
      let ((h, r1), e1, k1) = >>=-eq-ok (hash r) _ e in
      let (h1, all1, good1) = hash-Consumes.consumed r r1 h all e1 in
      let ((t, r2), e2, k2) = >>=-eq-ok (hashes n r1) _ k1 in
      let (h2, all2, good2) = (hashes-Consumes n).consumed r1 r2 t all1 e2 in
      Consumed-end hash_bytes (λ l. length l ≡ suc n) k2
        (read_two h.bytes (hash_bytes t) r2.rest h1 h2, all2, ap suc good2);
}

pub path-Consumes : Consumes path write_path (λ hs. length hs ≤ max_depth)
unfolding path write_path
path-Consumes = record {
  consumed = λ r r' hs all e.
      let ((n, r1), e1, k1) = >>=-eq-ok (u8_byte r) _ e in
      let (h1, all1, good1) = u8_byte-Consumes.consumed r r1 n all e1 in
      let short : n ≤ max_depth = ground arith in
      let k2 : hashes n r1 ≡ ok (hs, r') = ground arith in
      let (h2, all2, good2) = (hashes-Consumes n).consumed r1 r' hs all1 k2 in
      let count : n ≡ length_byte (length hs) = ground arith in
      (
        subst (λ m. r.rest ≡ (m ∷ hash_bytes hs) ++ r'.rest) count
            (read_two (n ∷ []) (hash_bytes hs) r'.rest h1 h2),
        all2,
        omega (arith, good2, short),
      );
}
