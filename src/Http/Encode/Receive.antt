-- ===== src/Http/Encode/Receive.antt =====
-- protocol/http/http.rs: a receiver takes what the encoder sends apart again.
use tache_rs.Prelude.{
  ℕ, suc, ◌^◌, ◌≤◌, ◌<◌, ◌≡◌, ◌≢◌, refl, ap, ◌∙◌, List, [], ◌∷◌, ◌++◌, length, length-append, arith,
  All, All-append, some, split_at-append,
}
use tache_rs.Std.Exec.{ok}
use tache_rs.Std.Text.{text, decimal, digits}
use tache_rs.Std.Parse.{parse_below-decimal, digits-IsDigit}
use tache_rs.Http.Date.{Timespec, TimeCrate, IsDocumented, LastRenderedNow}
use tache_rs.Http.Date.Cache.{rendered, IsCache}
use tache_rs.Http.Encode.{Response, Encoding, encode}
use tache_rs.Http.Encode.Framing.{
  IsLine, message, head_lines, header_line, header_lines, receive, receive_head, message-append,
}
use tache_rs.Http.Encode.Message.{encode-message}

abbrev pub NoFeed : List ℕ → Type 0
NoFeed s = All (λ c. c ≢ b'\n') s

-- The status and the headers have no line feed, as the crate `http` makes sure of.
abbrev pub IsResponse : Response → Type 0
IsResponse item = NoFeed item.status × All (λ h. NoFeed h.0 × NoFeed h.1) item.headers

NoFeed-digits : (cs : List ℕ) → All (λ c. (b'0' ≤ c) × (c ≤ b'9')) cs → NoFeed cs
NoFeed-digits [] h = tt
NoFeed-digits (c ∷ cs) h = (λ e. absurd (omega (arith, e, h.0)), NoFeed-digits cs h.1)

pub NoFeed-text : (s : List ℕ) → All (λ c. b'\n' < c) s → NoFeed s
NoFeed-text [] h = tt
NoFeed-text (c ∷ cs) h = (λ e. absurd (omega (arith, e, h.0)), NoFeed-text cs h.1)

IsLine-append :
    (front s : List ℕ)
    → 0 < length front
    → All (λ c. b'\n' < c) front
    → NoFeed s
    → IsLine (front ++ s)
IsLine-append front s pos h k =
    (omega (arith, length-append front s), All-append _ front s (NoFeed-text front h) k)

header_line-IsLine : (k v : List ℕ) → NoFeed k → NoFeed v → IsLine (header_line (k, v))
header_line-IsLine k v h h' = (
  omega (arith, length-append k (text ": " ++ v)),
  All-append _ k (text ": " ++ v) h (IsLine-append (text ": ") v (omega arith) (omega arith) h').1,
)

header_lines-IsLine :
    (hs : List (List ℕ × List ℕ))
    → All (λ h. NoFeed h.0 × NoFeed h.1) hs
    → All IsLine (header_lines hs)
header_lines-IsLine [] h = tt
header_lines-IsLine ((k, v) ∷ hs) h =
    (header_line-IsLine k v h.0.0 h.0.1, header_lines-IsLine hs h.1)

decimal-NoFeed : (n : ℕ) → NoFeed (decimal n)
unfolding decimal
decimal-NoFeed n = NoFeed-digits (digits (suc n) n) (digits-IsDigit (suc n) n)

head_lines-IsLine :
    (date : List ℕ) (item : Response)
    → NoFeed date
    → IsResponse item
    → All IsLine (head_lines date item)
head_lines-IsLine date item h good = (
  IsLine-append (text "HTTP/1.1 ") item.status (omega arith) (omega arith) good.0,
  (
    IsLine-append (text "Server: Example") [] (omega arith) (omega arith) tt,
    (
      IsLine-append (text "Content-Length: ") (decimal (length item.body)) (omega arith)
          (omega arith) (decimal-NoFeed (length item.body)),
      (
        IsLine-append (text "Date: ") date (omega arith) (omega arith) h,
        header_lines-IsLine item.headers good.1,
      ),
    ),
  ),
)

receive-message :
    (date : List ℕ) (item : Response) (rest : List ℕ)
    → NoFeed date
    → IsResponse item
    → length item.body < 2 ^ 64
    → receive (message (head_lines date item) item.body ++ rest)
      ≡ some (head_lines date item, item.body, rest)
receive-message date item rest h good small =
    ap receive (message-append (head_lines date item) item.body rest)
    ∙ receive_head (head_lines date item) (item.body ++ rest) (head_lines-IsLine date item h good)
    ∙ rw (parse_below-decimal (2 ^ 64) (length item.body) small, split_at-append item.body rest)
        refl

-- What the encoder appends for a response is taken apart by its receiver, whatever follows: the
-- lines of the head, with the length of the body, the text of a date whose second is not before
-- the clock's, and the headers in their order; then exactly the body. The encoder does not
-- panic and keeps the cache as it should be. The functions of the crates do what is documented.
pub encode-receive :
    (t : TimeCrate)
    → IsDocumented t
    → (now : Timespec) (item : Response) (s : Encoding) (rest : List ℕ) → IsCache t s.cache
    → IsResponse item
    → length item.body < 2 ^ 64
    → (u : Timespec) × (sent : List ℕ) × (c : LastRenderedNow) × (encode {E = Unit} t now item s
        ≡ (ok tt, record { dst = s.dst ++ sent; cache = c }))
      × (receive (sent ++ rest) ≡ some (head_lines (rendered t u) item, item.body, rest))
      × (now.sec ≤ u.sec)
      × IsCache t c
encode-receive t doc now item s rest fresh good small =
    let (u, c, e, late, kept) = encode-message {E = Unit} t doc now item s fresh in
    let date = rendered t u in
    (
      u,
      message (head_lines date item) item.body,
      c,
      e,
      receive-message date item rest (doc.one_line u) good small,
      late,
      kept,
    )
