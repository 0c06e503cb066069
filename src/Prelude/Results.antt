-- ===== src/Prelude/Results.antt =====
-- A Go pair of a value and an error. What a call returns beside an error is not read.
use Prim.Native.String.{String}

pub data Result {ℓ} (A : Type ℓ) : Type ℓ where
  ok : A → Result A
  err : String → Result A
