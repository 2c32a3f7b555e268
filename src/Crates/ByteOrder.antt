-- ===== src/Crates/ByteOrder.antt =====
-- The crate byteorder, as far as protocol/socks/v5.rs uses it: big-endian numbers on any `Read` or
-- `Write`. Its code is not part of the repository: the functions are parameters, and `IsDocumented`
-- says what they promise in terms of `read_exact` and `write_all`.
use tache_rs.Prelude.{ℕ, ◌+◌, ◌*◌, ◌/◌, ◌%◌, ◌≡◌, refl, sym, subst, List, [], ◌∷◌}
use tache_rs.Std.Exec.{Exec, pure, ◌>>=◌}
use tache_rs.Std.Io.{IoError}

abbrev pub ReadExact : Type 0 → Type 0
ReadExact R = ℕ → Exec R IoError (List ℕ)

abbrev pub WriteAll : Type 0 → Type 0
WriteAll W = List ℕ → Exec W IoError Unit

pub record ByteOrder : Type 1 where
  pub read_u8 : (R : Type 0) → ReadExact R → Exec R IoError ℕ
  pub read_u16 : (R : Type 0) → ReadExact R → Exec R IoError ℕ
  pub read_u32 : (R : Type 0) → ReadExact R → Exec R IoError ℕ
  pub write_u8 : (W : Type 0) → WriteAll W → ℕ → Exec W IoError Unit
  pub write_u16 : (W : Type 0) → WriteAll W → ℕ → Exec W IoError Unit
  pub write_u32 : (W : Type 0) → WriteAll W → ℕ → Exec W IoError Unit

-- The number that big-endian bytes stand for, and the bytes of a number.
abbrev pub from_be : List ℕ → ℕ
from_be (a ∷ []) = a
from_be (a ∷ b ∷ []) = a * 256 + b
from_be (a ∷ b ∷ c ∷ d ∷ []) = ((a * 256 + b) * 256 + c) * 256 + d
from_be _ = 0

abbrev pub u8_be : ℕ → List ℕ
u8_be n = (n % 256) ∷ []

abbrev pub u16_be : ℕ → List ℕ
u16_be n = (n / 256 % 256) ∷ (n % 256) ∷ []

abbrev pub u32_be : ℕ → List ℕ
u32_be n = (n / 0x1000000 % 256) ∷ (n / 0x10000 % 256) ∷ (n / 256 % 256) ∷ (n % 256) ∷ []

abbrev pub read_number : (R : Type 0) → ReadExact R → ℕ → Exec R IoError ℕ
read_number R read_exact n = do bytes ← read_exact n; pure (from_be bytes)

pub record IsDocumented (k : ByteOrder) : Type 1 where
  pub read_u8_lem :
      (R : Type 0) (rd : ReadExact R) (r : R) → k.read_u8 R rd r ≡ read_number R rd 1 r
  pub read_u16_lem :
      (R : Type 0) (rd : ReadExact R) (r : R) → k.read_u16 R rd r ≡ read_number R rd 2 r
  pub read_u32_lem :
      (R : Type 0) (rd : ReadExact R) (r : R) → k.read_u32 R rd r ≡ read_number R rd 4 r
  pub write_u8_lem :
      (W : Type 0) (wr : WriteAll W) (n : ℕ) (w : W) → k.write_u8 W wr n w ≡ wr (u8_be n) w
  pub write_u16_lem :
      (W : Type 0) (wr : WriteAll W) (n : ℕ) (w : W) → k.write_u16 W wr n w ≡ wr (u16_be n) w
  pub write_u32_lem :
      (W : Type 0) (wr : WriteAll W) (n : ℕ) (w : W) → k.write_u32 W wr n w ≡ wr (u32_be n) w

abbrev pub big_endian : ByteOrder
big_endian = record {
  read_u8 = λ R rd. read_number R rd 1;
  read_u16 = λ R rd. read_number R rd 2;
  read_u32 = λ R rd. read_number R rd 4;
  write_u8 = λ W wr n. wr (u8_be n);
  write_u16 = λ W wr n. wr (u16_be n);
  write_u32 = λ W wr n. wr (u32_be n);
}

pub big_endian-IsDocumented : IsDocumented big_endian
big_endian-IsDocumented = record {
  read_u8_lem = λ R rd r. refl;
  read_u16_lem = λ R rd r. refl;
  read_u32_lem = λ R rd r. refl;
  write_u8_lem = λ W wr n w. refl;
  write_u16_lem = λ W wr n w. refl;
  write_u32_lem = λ W wr n w. refl;
}

documented→big_endian : (k : ByteOrder) → IsDocumented k → k ≡ big_endian
documented→big_endian k d = λ i. record {
  read_u8 = λ R rd r. d.read_u8_lem R rd r i;
  read_u16 = λ R rd r. d.read_u16_lem R rd r i;
  read_u32 = λ R rd r. d.read_u32_lem R rd r i;
  write_u8 = λ W wr n w. d.write_u8_lem W wr n w i;
  write_u16 = λ W wr n w. d.write_u16_lem W wr n w i;
  write_u32 = λ W wr n w. d.write_u32_lem W wr n w i;
}

-- To prove `P k`, prove `P` of the functions that do what is documented.
pub by_big_endian {ℓ} :
    (P : ByteOrder → Type ℓ) (k : ByteOrder) → IsDocumented k → P big_endian → P k
by_big_endian P k d p = subst P (sym (documented→big_endian k d)) p
