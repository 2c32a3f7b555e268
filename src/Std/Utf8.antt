-- ===== src/Std/Utf8.antt =====
-- A Rust `String` is a list of bytes in UTF-8; `String::from_utf8` accepts exactly those lists.
use tache_rs.Prelude.{
  ℕ, zero, suc, Bool, true, false, ◌&&◌, ◌≡◌, ◌<◌, Option, none, some, List, [], ◌∷◌, ltb, leb,
  ◌==◌, if◌then◌else◌, arith, All, refl,
}

-- After a first byte: how many bytes follow, and the range of the next one.
abbrev lead : ℕ → Option (ℕ × ℕ × ℕ)
lead b =
    if ltb b 0x80
    then some (0, 0x80, 0xbf)
    else if ltb b 0xc2
    then none
    else if ltb b 0xe0
    then some (1, 0x80, 0xbf)
    else if b == 0xe0
    then some (2, 0xa0, 0xbf)
    else if b == 0xed
    then some (2, 0x80, 0x9f)
    else if ltb b 0xf0
    then some (2, 0x80, 0xbf)
    else if b == 0xf0
    then some (3, 0x90, 0xbf)
    else if ltb b 0xf4
    then some (3, 0x80, 0xbf)
    else if b == 0xf4
    then some (3, 0x80, 0x8f)
    else none

-- `k` bytes are still to follow, the next of them between `lo` and `hi`.
utf8_from : ℕ → ℕ → ℕ → List ℕ → Bool
utf8_from zero lo hi [] = true
utf8_from (suc k) lo hi [] = false
utf8_from zero lo hi (b ∷ bs) = elim (lead b) [ none ↦ false | some t ↦ utf8_from t.0 t.1 t.2 bs ]
utf8_from (suc k) lo hi (b ∷ bs) = leb lo b && leb b hi && utf8_from k 0x80 0xbf bs

unfoldable pub is_utf8 : List ℕ → Bool
unfolding utf8_from
is_utf8 bs = utf8_from 0 0x80 0xbf bs

-- The invariant of the type `String`.
abbrev pub IsUtf8 : List ℕ → Type 0
IsUtf8 s = is_utf8 s ≡ true

-- ASCII text is UTF-8.
pub IsUtf8-ascii : (s : List ℕ) → All (λ b. b < 0x80) s → IsUtf8 s
unfolding is_utf8
IsUtf8-ascii [] h = refl
IsUtf8-ascii (b ∷ bs) h = ground (arith, IsUtf8-ascii bs h.1)

two_bytes : is_utf8 (0xc3 ∷ 0xa9 ∷ []) ≡ true
unfolding is_utf8
two_bytes = refl

overlong : is_utf8 (0xc0 ∷ 0x80 ∷ []) ≡ false
unfolding is_utf8
overlong = refl
