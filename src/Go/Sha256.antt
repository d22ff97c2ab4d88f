-- ===== src/Go/Sha256.antt =====
-- `crypto/sha256`: the digest is a parameter, and the proofs rest on its form alone, 32 bytes.
use agidb_on_chain.Base.{◌≡◌, Bytes, IsByte, All, length}

pub record Sha256 : Type 0 where
  pub sum256 : Bytes → Bytes
  pub length-sum256 : (bs : Bytes) → length (sum256 bs) ≡ 32
  pub sum256-IsByte : (bs : Bytes) → All IsByte (sum256 bs)
