-- ===== src/Codec/Reader.antt =====
-- proof.rs: `Reader`, the bounds-checked cursor, and the errors of decoding.
use ztreexo.Prelude.{
  ℕ, zero, suc, ◌+◌, ◌-◌, List, [], ◌∷◌, length, Result, ok, err, ◌>>=◌, ◌>>◌, refuse_if, leb, ltb,
  if◌then◌else◌, ◌≡◌, refl, ap,
}
use ztreexo.Bytes.{from_le_bytes}
use ztreexo.Digest.{Hash}
use ztreexo.Imt.Path.{max_depth}

-- the reasons of `Malformed`
pub data MalformedReason : Type 0 where
  sparse_path_too_long invalid_depth varint_too_long : MalformedReason

pub data ProofCodecError : Type 0 where
  unexpected_eof : (offset needed : ℕ) → ProofCodecError
  trailing_bytes : (count : ℕ) → ProofCodecError
  unsupported_version : (found : ℕ) → ProofCodecError
  path_too_long : (found : ℕ) → ProofCodecError
  unknown_pool : (code : ℕ) → ProofCodecError
  malformed : MalformedReason → ProofCodecError

abbrev pub usize_max : ℕ
usize_max = 18446744073709551615

-- The slice from the cursor on, with the cursor.
pub record Reader : Type 0 where
  pub rest : List ℕ
  pub offset : ℕ

abbrev pub Decoder : Type 0 → Type 0
Decoder A = Reader → Result ProofCodecError (A × Reader)

-- `Reader::new`
abbrev pub reader : List ℕ → Reader
reader bytes = record { rest = bytes; offset = 0 }

-- `Reader::remaining`
abbrev pub remaining : Reader → ℕ
remaining r = length r.rest

unfoldable pub first : ℕ → List ℕ → List ℕ
first zero bs = []
first (suc n) [] = []
first (suc n) (b ∷ bs) = b ∷ first n bs

unfoldable pub skip : ℕ → List ℕ → List ℕ
skip zero bs = bs
skip (suc n) [] = []
skip (suc n) (b ∷ bs) = skip n bs

-- `Reader::take`. A slice has at most `isize::MAX` bytes, so a read that stays inside it never
-- overflows the cursor; only a read beyond the end can.
unfoldable pub take : ℕ → Decoder (List ℕ)
unfolding first skip
take count r =
    if leb count (remaining r)
    then ok (first count r.rest, record { rest = skip count r.rest; offset = r.offset + count })
    else if ltb usize_max (r.offset + count)
    then err (unexpected_eof r.offset count)
    else err (unexpected_eof r.offset (count - remaining r))

-- the byte that `first` finds
abbrev pub only_byte : Reader → List ℕ → Result ProofCodecError (ℕ × Reader)
only_byte r [] = err (unexpected_eof r.offset 1)
only_byte r (b ∷ _) = ok (b, r)

-- `Reader::u8`
unfoldable pub u8_byte : Decoder ℕ
unfolding take
u8_byte r = do (bytes, r) ← take 1 r; only_byte r bytes

-- `Reader::u16_le`, `Reader::u32_le` and `Reader::u64_le`, for 2, 4 and 8 bytes
unfoldable pub uint_le : ℕ → Decoder ℕ
unfolding take
uint_le width r = do (bytes, r) ← take width r; ok (from_le_bytes bytes, r)

-- `[0u8; n]` with a slice copied into it
unfoldable pub fill : ℕ → List ℕ → List ℕ
fill zero bs = []
fill (suc n) [] = 0 ∷ fill n []
fill (suc n) (b ∷ bs) = b ∷ fill n bs

pub length-fill : (n : ℕ) (bs : List ℕ) → length (fill n bs) ≡ n
unfolding fill
length-fill zero bs = refl
length-fill (suc n) [] = ap suc (length-fill n [])
length-fill (suc n) (b ∷ bs) = ap suc (length-fill n bs)

unfoldable pub hash_of : List ℕ → Hash
unfolding fill
hash_of bytes = record { bytes = fill 32 bytes; length-bytes = length-fill 32 bytes }

-- `Reader::hash`
unfoldable pub hash : Decoder Hash
unfolding take hash_of
hash r = do (bytes, r) ← take 32 r; ok (hash_of bytes, r)

-- the loop of `Reader::path`
unfoldable pub hashes : ℕ → Decoder (List Hash)
unfolding hash
hashes zero r = ok ([], r)
hashes (suc n) r = do (h, r) ← hash r; (hs, r) ← hashes n r; ok (h ∷ hs, r)

-- `Reader::path`
unfoldable pub path : Decoder (List Hash)
unfolding u8_byte hashes
path r = do (len, r) ← u8_byte r; refuse_if (ltb max_depth len) (path_too_long len); hashes len r
