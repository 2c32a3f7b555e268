-- ===== src/Http/Encode.antt =====
-- protocol/http/http.rs: `Encoder for Http`, which appends a response to the bytes to send.
pub mod Framing
pub mod Message
pub mod Receive
use tache_rs.Prelude.{ℕ, List, [], ◌∷◌, ◌++◌, length}
use tache_rs.Std.Exec.{Exec, ok, pure, Outcome, ◌>>=◌, ◌>>◌}
use tache_rs.Std.Text.{text, decimal}
use tache_rs.Http.Date.{Timespec, TimeCrate, LastRenderedNow, fmt}

-- A response of the crate `http`: the text of its status, its headers in the order in which the map
-- gives them, and its body.
pub record Response : Type 0 where
  pub status : List ℕ
  pub headers : List (List ℕ × List ℕ)
  pub body : List ℕ

-- The buffer that the encoder appends to, and the cache of the thread.
pub record Encoding : Type 0 where
  pub dst : List ℕ
  pub cache : LastRenderedNow

module _ {E : Type 0} where
  -- `extend_from_slice`
  abbrev put : List ℕ → Exec Encoding E Unit
  put xs s = (ok tt, record s { dst = s.dst ++ xs })

  abbrev with_cache :
      Encoding → Outcome E (List ℕ) × LastRenderedNow → Outcome E (List ℕ) × Encoding
  with_cache s (o, c) = (o, record s { cache = c })

  abbrev pub date : TimeCrate → Timespec → Exec Encoding E (List ℕ)
  date t now s = with_cache s (fmt t now s.cache)

  -- The `write!` of the first lines, piece by piece.
  unfoldable pub put_status : TimeCrate → Timespec → Response → Exec Encoding E Unit
  unfolding decimal
  put_status t now item = do
    put (text "HTTP/1.1 ")
    put item.status
    put (text "\r\nServer: Example\r\nContent-Length: ")
    put (decimal (length item.body))
    put (text "\r\nDate: ")
    d ← date t now
    put d
    put (text "\r\n")

  unfoldable pub put_headers : List (List ℕ × List ℕ) → Exec Encoding E Unit
  put_headers [] = pure tt
  put_headers ((k, v) ∷ headers) = do
    put k
    put (text ": ")
    put v
    put (text "\r\n")
    put_headers headers

  -- `now` is what the clock says during the call.
  unfoldable pub encode : TimeCrate → Timespec → Response → Exec Encoding E Unit
  unfolding put_status put_headers
  encode t now item = do
    put_status t now item
    put_headers item.headers
    put (text "\r\n")
    put item.body
