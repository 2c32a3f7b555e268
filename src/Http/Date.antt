-- ===== src/Http/Date.antt =====
-- protocol/http/http.rs: the module `date`, which keeps the text of the date for a second.
-- The crate `time` is a parameter. An instant is one since 1970.
pub mod Buffer
pub mod Cache
use tache_rs.Prelude.{
  ℕ, ◌+◌, ◌≤◌, ◌<◌, ◌≡◌, ◌≢◌, Bool, ltb, leb, ◌==◌, ◌||◌, ◌&&◌, if◌then◌else◌, Option, none, some,
  List, [], ◌∷◌, ◌++◌, length, take, replicate, All,
}
use tache_rs.Std.Exec.{Exec, ok, panicked, pure, ◌>>=◌, ◌>>◌}
use tache_rs.Std.Array.{overwrite}
use tache_rs.Std.Utf8.{is_utf8}

-- `time::Timespec`
pub record Timespec : Type 0 where
  pub sec : ℕ
  pub nsec : ℕ

-- `>=`, `+ Duration::seconds(n)`, and the pieces of text that formatting `at(now).rfc822()` writes.
pub record TimeCrate : Type 0 where
  pub reached : Timespec → Timespec → Bool
  pub plus_seconds : ℕ → Timespec → Timespec
  pub rfc822 : Timespec → List (List ℕ)

abbrev pub join : List (List ℕ) → List ℕ
join [] = []
join (piece ∷ pieces) = piece ++ join pieces

-- The order of instants, by the second and then within it.
abbrev pub at_or_after : Timespec → Timespec → Bool
at_or_after a b = ltb b.sec a.sec || a.sec == b.sec && leb b.nsec a.nsec

-- The documented behaviour: the format of RFC 822 names the second and is a short line of ASCII.
pub record IsDocumented (t : TimeCrate) : Type 0 where
  pub reached_lem : (a b : Timespec) → t.reached a b ≡ at_or_after a b
  pub plus_lem :
      (n : ℕ) (a : Timespec) → t.plus_seconds n a ≡ record { sec = a.sec + n; nsec = a.nsec }
  pub by_second : (a b : Timespec) → a.sec ≡ b.sec → t.rfc822 a ≡ t.rfc822 b
  pub fits : (a : Timespec) → length (join (t.rfc822 a)) ≤ 128
  pub ascii : (a : Timespec) → All (λ c. c < 0x80) (join (t.rfc822 a))
  pub one_line : (a : Timespec) → All (λ c. c ≢ b'\n') (join (t.rfc822 a))

pub record LastRenderedNow : Type 0 where
  pub bytes : List ℕ
  pub amt : ℕ
  pub next_update : Timespec

-- The value that a thread starts with.
abbrev pub initial : LastRenderedNow
initial = record { bytes = replicate 128 0; amt = 0; next_update = record { sec = 0; nsec = 0 } }

module _ {E : Type 0} where
  abbrev copied : Option (List ℕ) → List ℕ → Exec LastRenderedNow E Unit
  copied none s c = (panicked, c)
  copied (some b) s c = (ok tt, record c { bytes = b; amt = c.amt + length s })

  -- `LocalBuffer::write_str`: copying outside of the array is a panic.
  unfoldable pub write_str : List ℕ → Exec LastRenderedNow E Unit
  write_str s c = copied (overwrite c.amt s c.bytes) s c

  -- `write!`, piece by piece.
  unfoldable pub write_pieces : List (List ℕ) → Exec LastRenderedNow E Unit
  unfolding write_str
  write_pieces [] = pure tt
  write_pieces (piece ∷ pieces) = do write_str piece; write_pieces pieces

  abbrev clear : Exec LastRenderedNow E Unit
  clear c = (ok tt, record c { amt = 0 })

  abbrev set_next : Timespec → Exec LastRenderedNow E Unit
  set_next next c = (ok tt, record c { next_update = record next { nsec = 0 } })

  unfoldable pub update : TimeCrate → Timespec → Exec LastRenderedNow E Unit
  unfolding write_pieces
  update t now = do clear; write_pieces (t.rfc822 now); set_next (t.plus_seconds 1 now)

  -- `str::from_utf8(&self.bytes[..self.amt]).unwrap()`
  unfoldable pub buffer : Exec LastRenderedNow E (List ℕ)
  buffer c =
      if leb c.amt (length c.bytes) && is_utf8 (take c.amt c.bytes)
      then (ok (take c.amt c.bytes), c)
      else (panicked, c)

  abbrev refresh : TimeCrate → Timespec → Exec LastRenderedNow E Unit
  refresh t now c = if t.reached now c.next_update then update t now c else (ok tt, c)

  -- `Display` of `Now` at the time `now`: the text that it writes.
  unfoldable pub fmt : TimeCrate → Timespec → Exec LastRenderedNow E (List ℕ)
  unfolding update buffer
  fmt t now = do refresh t now; buffer

  -- The calls of a thread, one after the other.
  abbrev pub fmt_all : TimeCrate → List Timespec → Exec LastRenderedNow E (List (List ℕ))
  fmt_all t [] = pure []
  fmt_all t (now ∷ times) = do date ← fmt t now; dates ← fmt_all t times; pure (date ∷ dates)
