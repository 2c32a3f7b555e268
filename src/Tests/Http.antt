-- ===== src/Tests/Http.antt =====
-- protocol/http/http.rs: the codec on small crates of our own.
use tache_rs.Prelude.{
  ℕ, ◌+◌, ◌-◌, ◌%◌, ◌≤◌, ◌≡◌, refl, ap, subst, inl, none, some, List, [], ◌∷◌, ◌++◌, length, map,
  arith,
}
use tache_rs.Std.Exec.{ok, err}
use tache_rs.Std.Text.{text}
use tache_rs.Http.Date
use tache_rs.Http.Date.{Timespec, TimeCrate, LastRenderedNow, at_or_after, fmt, fmt_all, initial}
use tache_rs.Http.Date.Cache.{rendered, IsCache, fmt-IsCache, fmt_all-rendered}
use tache_rs.Http.Encode.{Response, Encoding, encode}
use tache_rs.Http.Encode.Framing.{receive, head_lines}
use tache_rs.Http.Encode.Receive.{IsResponse, NoFeed-text, encode-receive}
use tache_rs.Http.Decode
use tache_rs.Http.Decode.{
  Part, Head, Parsed, partial_head, complete, Request, HttpCrates, IsHead, only_http_1_1, decode,
}
use tache_rs.Http.Decode.Whole.{decoded, decode-decoded}
use tache_rs.Http.Decode.Frames.{frames, prepend, frames-append}

-- A date is the last digit of the second.
abbrev pub clock : TimeCrate
clock = record {
  reached = at_or_after;
  plus_seconds = λ n t. record { sec = t.sec + n; nsec = t.nsec };
  rfc822 = λ t. ((t.sec % 10 + b'0') ∷ []) ∷ [];
}

pub clock-IsDocumented : Date.IsDocumented clock
clock-IsDocumented = record {
  reached_lem = λ a b. refl;
  plus_lem = λ n a. refl;
  by_second = λ a b e. ap (λ (n : ℕ). ((n % 10 + b'0') ∷ []) ∷ []) e;
  fits = λ a. omega arith;
  ascii = λ a. (omega arith, tt);
  one_line = λ a. (λ e. absurd (omega (arith, e)), tt);
}

abbrev pub at : ℕ → ℕ → Timespec
at sec nsec = record { sec = sec; nsec = nsec }

abbrev times : List Timespec
times = at 7 500 ∷ at 7 900 ∷ at 8 0 ∷ []

fmt_all-rendered_example :
    (fmt_all {E = Unit} clock times initial).0 ≡ ok (map (rendered clock) times)
fmt_all-rendered_example = fmt_all-rendered clock clock-IsDocumented times (omega arith)

pub initial-IsCache : IsCache clock initial
initial-IsCache = (refl, inl refl)

fmt-IsCache_example :
    (u : Timespec) × ((fmt {E = Unit} clock (at 7 500) initial).0 ≡ ok (rendered clock u))
    × (7 ≤ u.sec)
    × IsCache clock (fmt {E = Unit} clock (at 7 500) initial).1
fmt-IsCache_example = fmt-IsCache clock clock-IsDocumented (at 7 500) initial initial-IsCache

abbrev hello : Response
hello = record {
  status = text "200 OK";
  headers = (text "content-type", text "text/plain") ∷ [];
  body = text "Hello, World!";
}

abbrev pub start : Encoding
start = record { dst = []; cache = initial }

hello-IsResponse : IsResponse hello
hello-IsResponse = (
  NoFeed-text (text "200 OK") (omega arith),
  (
    (
      NoFeed-text (text "content-type") (omega arith),
      NoFeed-text (text "text/plain") (omega arith),
    ),
    tt,
  ),
)

encode-receive_example :
    (u : Timespec) × (sent : List ℕ) × (c : LastRenderedNow) × (encode {E = Unit} clock
        (at 7 500)
        hello
        start
      ≡ (ok tt, record { dst = sent; cache = c }))
    × (receive (sent ++ text "HTTP")
        ≡ some (head_lines (rendered clock u) hello, hello.body, text "HTTP"))
    × (7 ≤ u.sec)
    × IsCache clock c
encode-receive_example =
    encode-receive clock clock-IsDocumented (at 7 500) hello start (text "HTTP") initial-IsCache
      hello-IsResponse (omega arith)

-- A head is a method, a path and a version, of one byte each.
abbrev pub three_bytes : ℕ → Head
three_bytes v = record {
  method = some (record { start = 0; len = 1 });
  path = some (record { start = 1; len = 1 });
  version = some (v - b'0');
  headers = [];
}

unfoldable pub parse_three : List ℕ → Parsed
parse_three (m ∷ p ∷ v ∷ rest) = complete 3 (three_bytes v)
parse_three _ = partial_head

abbrev pub small_http : HttpCrates
small_http = record { parse = parse_three; refuses = λ req. none }

three_bytes-IsHead : (v n : ℕ) → 3 ≤ n → IsHead n 3 (three_bytes v)
three_bytes-IsHead v n h = record {
  size_lem = h;
  method_lem = (omega arith, omega arith);
  path_lem = (omega arith, omega arith);
  version_lem = tt;
  headers_lem = tt;
  room = omega arith;
}

amt_of : Parsed → ℕ
amt_of (complete amt head) = amt
amt_of _ = 0

head_or : Head → Parsed → Head
head_or d (complete amt head) = head
head_or d _ = d

small_http-IsDocumented : Decode.IsDocumented small_http
unfolding parse_three amt_of head_or
small_http-IsDocumented = record { head_lem = whole; stable = same }
  where
    whole :
        (src : List ℕ) (amt : ℕ) (head : Head)
        → parse_three src ≡ complete amt head
        → IsHead (length src) amt head
    whole [] amt head h = let f : partial_head ≡ complete amt head = h in cc
    whole (m ∷ []) amt head h = let f : partial_head ≡ complete amt head = h in cc
    whole (m ∷ p ∷ []) amt head h = let f : partial_head ≡ complete amt head = h in cc
    whole (m ∷ p ∷ v ∷ rest) amt head h =
        let n = length (m ∷ p ∷ v ∷ rest) in
        let here = three_bytes-IsHead v n (omega arith) in
        subst (λ a. IsHead n a head) (ap amt_of h)
          (subst (IsHead n 3) (ap (head_or (three_bytes v)) h) here)

    same :
        (src more : List ℕ) (amt : ℕ) (head : Head)
        → parse_three src ≡ complete amt head
        → parse_three (src ++ more) ≡ complete amt head
    same [] more amt head h = let f : partial_head ≡ complete amt head = h in cc
    same (m ∷ []) more amt head h = let f : partial_head ≡ complete amt head = h in cc
    same (m ∷ p ∷ []) more amt head h = let f : partial_head ≡ complete amt head = h in cc
    same (m ∷ p ∷ v ∷ rest) more amt head h = h

abbrev wire : List ℕ
wire = text "G/1P"

decode-decoded_example : decode small_http wire ≡ decoded small_http (parse_three wire) wire
decode-decoded_example = decode-decoded small_http small_http-IsDocumented wire

wire_waits : (frames small_http wire).ending ≡ ok tt
unfolding frames parse_three
wire_waits = refl

frames-append_example :
    (frames small_http (wire ++ text "/1")
      ≡ prepend
          (frames small_http wire).requests
          (frames small_http ((frames small_http wire).rest ++ text "/1")))
    × (decode small_http (frames small_http wire).rest ≡ (ok none, (frames small_http wire).rest))
frames-append_example = frames-append small_http small_http-IsDocumented wire (text "/1") wire_waits

-- Both requests, whose bytes came in two pieces.
two_requests : length (frames small_http (wire ++ text "/1")).requests ≡ 2
unfolding frames parse_three
two_requests = refl

wrong_version : decode small_http (text "G/0P") ≡ (err only_http_1_1, text "G/0P")
unfolding decode parse_three
wrong_version = refl
