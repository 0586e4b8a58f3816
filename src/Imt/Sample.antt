-- ===== src/Imt/Sample.antt =====
-- A hash that keeps its input, to run the models of imt.rs on small trees: it has no collisions.
use ztreexo.Prelude.{ℕ, ◌≡◌, ◌↔◌, Bool, true, false, ◌&&◌, ◌==◌, arith, refl}
use ztreexo.Pool.{code}
use ztreexo.Digest.ImtHash.{ImtHash}

pub data Term : Type 0 where
  zeroes : Term
  empty : ℕ → Term
  leaf : ℕ → ℕ → ℕ → ℕ → Term
  node : ℕ → Term → Term → Term

pub term_beq : Term → Term → Bool
term_beq zeroes zeroes = true
term_beq (empty p) (empty q) = p == q
term_beq (leaf p v n i) (leaf q w m j) = p == q && (v == w && (n == m && i == j))
term_beq (node p a b) (node q c d) = p == q && (term_beq a c && term_beq b d)
term_beq _ _ = false

pub term_beq_iff : (a b : Term) → (term_beq a b ≡ true) ↔ (a ≡ b)
unfolding term_beq
term_beq_iff zeroes zeroes = ((λ _. refl), (λ _. refl))
term_beq_iff (empty p) (empty q) = ((λ h. ground arith), (λ h. ground arith))
term_beq_iff (leaf p v n i) (leaf q w m j) = ((λ h. ground arith), (λ h. ground arith))
term_beq_iff (node p a b) (node q c d) =
    let l = term_beq_iff a c in
    let r = term_beq_iff b d in ((λ h. ground (arith, l.0, r.0)), (λ h. ground (arith, l.1, r.1)))
term_beq_iff a b = ((λ h. ground arith), (λ h. ground arith))

unfoldable pub term_hash : ImtHash Term
unfolding code term_beq
term_hash = record {
  imt_leaf = λ pool v n i. leaf (code pool) v n i;
  imt_empty_leaf = λ pool. empty (code pool);
  imt_node = λ pool a b. node (code pool) a b;
  zero_hash = zeroes;
  beq = term_beq;
  beq_iff = term_beq_iff;
}
