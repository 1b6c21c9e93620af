-- ===== src/Json.antt =====
-- `serde_json` as an argument: what it writes and reads at one type, and what it promises.
use binport.Base.{ℕ, false, List, ◌≡◌, Option, some, is_empty}

abbrev pub Bytes : Type 0
Bytes = List ℕ

-- `serde_json::to_vec` and `serde_json::from_slice`
pub record Coder (A : Type 0) : Type 0 where
  pub to_vec : A → Option Bytes
  pub from_slice : Bytes → Option A

-- A value that the coder writes is read back, and a JSON text is not empty.
pub record IsFaithful {A : Type 0} (coder : Coder A) : Type 0 where
  pub reads_back :
      (value : A) (bytes : Bytes)
      → coder.to_vec value ≡ some bytes
      → coder.from_slice bytes ≡ some value
  pub not_empty :
      (value : A) (bytes : Bytes) → coder.to_vec value ≡ some bytes → is_empty bytes ≡ false
