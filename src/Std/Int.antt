-- ===== src/Std/Int.antt =====
-- The signed machine integers: a number, or minus one minus a number.
use tache_rs.Prelude.{ℕ, Bool, true, false}

pub data ℤ : Type 0 where
  pos : ℕ → ℤ
  negsuc : ℕ → ℤ

-- `n < 0`
abbrev pub is_negative : ℤ → Bool
is_negative (pos n) = false
is_negative (negsuc n) = true
