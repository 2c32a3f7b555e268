-- ===== src/Http/Decode.antt =====
-- protocol/http/http.rs: `Decoder for Http`, which takes a request from the front of the bytes read.
-- The crates httparse and http are parameters.
pub mod Whole
pub mod Frames
use tache_rs.Prelude.{
  ℕ, zero, suc, ◌+◌, ◌-◌, ◌≤◌, ◌<◌, ◌≡◌, ltb, leb, ◌==◌, ◌&&◌, if◌then◌else◌, Option, none, some,
  List, [], ◌∷◌, ◌++◌, length, take, drop, All,
}
use tache_rs.Std.Exec.{Exec, Outcome, ok, err, panicked, pure, fail, panic, ensure, ◌>>=◌, ◌>>◌}
use tache_rs.Std.Text.{text}

-- A slice of the bytes that were parsed, by the distance of its start from theirs and its length.
pub record Part : Type 0 where
  pub start : ℕ
  pub len : ℕ

-- `httparse::Request` after parsing: the name and the value of each header.
pub record Head : Type 0 where
  pub method : Option Part
  pub path : Option Part
  pub version : Option ℕ
  pub headers : List (Part × Part)

-- The result of parsing: an error by its text, no end of the head yet, or a head of so many bytes.
pub data Parsed : Type 0 where
  failed : List ℕ → Parsed
  partial_head : Parsed
  complete : ℕ → Head → Parsed

-- A request of the crate `http` by its parts.
pub record Request : Type 0 where
  pub method : List ℕ
  pub uri : List ℕ
  pub headers : List (List ℕ × List ℕ)

-- `Request::parse` with room for 16 headers, and the error, if any, of building a request.
pub record HttpCrates : Type 0 where
  pub parse : List ℕ → Parsed
  pub refuses : Request → Option (List ℕ)

abbrev pub IsPart : ℕ → Part → Type 0
IsPart amt p = (p.start < amt) × (p.start + p.len ≤ amt)

abbrev pub IsPart? : ℕ → Option Part → Type 0
IsPart? amt none = ⊥
IsPart? amt (some p) = IsPart amt p

abbrev pub IsSome : Option ℕ → Type 0
IsSome none = ⊥
IsSome (some n) = Unit

-- A head that was parsed as a whole.
pub record IsHead (size amt : ℕ) (head : Head) : Type 0 where
  pub size_lem : amt ≤ size
  pub method_lem : IsPart? amt head.method
  pub path_lem : IsPart? amt head.path
  pub version_lem : IsSome head.version
  pub headers_lem : All (λ h. IsPart amt h.0 × IsPart amt h.1) head.headers
  pub room : length head.headers ≤ 16

-- The documented behaviour. A head ends with an empty line, so that each of its parts, even an empty
-- one, starts inside it, and the bytes behind it have no part in parsing it.
pub record IsDocumented (c : HttpCrates) : Type 0 where
  pub head_lem :
      (src : List ℕ) (amt : ℕ) (head : Head)
      → c.parse src ≡ complete amt head
      → IsHead (length src) amt head
  pub stable :
      (src more : List ℕ) (amt : ℕ) (head : Head)
      → c.parse src ≡ complete amt head
      → c.parse (src ++ more) ≡ complete amt head

-- The errors, all of the kind `Other`.
pub data DecodeError : Type 0 where
  failed_to_parse : List ℕ → DecodeError
  only_http_1_1 : DecodeError
  not_built : List ℕ → DecodeError

abbrev pub message : DecodeError → List ℕ
message (failed_to_parse e) = text "failed to parse http request: " ++ e
message only_http_1_1 = text "only HTTP/1.1 accepted"
message (not_built e) = e

-- `o.unwrap()`
module _ {A : Type 0} where
  abbrev pub unwrap : Option A → Exec (List ℕ) DecodeError A
  unwrap none = panic
  unwrap (some a) = pure a

-- The closure `to_slice`: the bounds of a part, which it asserts to start inside of the buffer.
unfoldable pub to_slice : Part → Exec (List ℕ) DecodeError (ℕ × ℕ)
to_slice p src =
    if ltb p.start (length src) then (ok (p.start, p.start + p.len), src) else (panicked, src)

-- `headers[i] = Some((k, v))` with so much room left.
unfoldable pub to_slices :
    ℕ → List (Part × Part) → Exec (List ℕ) DecodeError (List ((ℕ × ℕ) × (ℕ × ℕ)))
unfolding to_slice
to_slices room [] = pure []
to_slices zero (h ∷ hs) = panic
to_slices (suc room) (h ∷ hs) = do
  k ← to_slice h.0
  v ← to_slice h.1
  rest ← to_slices room hs
  pure ((k, v) ∷ rest)

-- `src.split_to(amt)`
unfoldable pub split_to : ℕ → Exec (List ℕ) DecodeError (List ℕ)
split_to amt src =
    if leb amt (length src) then (ok (take amt src), drop amt src) else (panicked, src)

-- `data[a..b]`, out of range a panic.
unfoldable pub slice : List ℕ → ℕ × ℕ → Exec (List ℕ) DecodeError (List ℕ)
slice bytes (a, b) src =
    if leb a b && leb b (length bytes)
    then (ok (take (b - a) (drop a bytes)), src)
    else (panicked, src)

-- `for header in headers.iter()`
unfoldable pub build_headers :
    List ℕ → List ((ℕ × ℕ) × (ℕ × ℕ)) → Exec (List ℕ) DecodeError (List (List ℕ × List ℕ))
unfolding slice
build_headers bytes [] = pure []
build_headers bytes ((k, v) ∷ hs) = do
  value ← slice bytes v
  name ← slice bytes k
  rest ← build_headers bytes hs
  pure ((name, value) ∷ rest)

abbrev pub body : Option (List ℕ) → Request → Exec (List ℕ) DecodeError (Option Request)
body none req = pure (some req)
body (some e) req = fail (not_built e)

-- What follows a head of `amt` bytes.
unfoldable pub decode_head : HttpCrates → ℕ → Head → Exec (List ℕ) DecodeError (Option Request)
unfolding to_slice to_slices split_to slice build_headers
decode_head c amt head = do
  headers ← to_slices 16 head.headers
  method ← unwrap head.method
  m ← to_slice method
  path ← unwrap head.path
  p ← to_slice path
  version ← unwrap head.version
  ensure (version == 1) only_http_1_1
  bytes ← split_to amt
  method_text ← slice bytes m
  uri ← slice bytes p
  built ← build_headers bytes headers
  let req : Request = record { method = method_text; uri = uri; headers = built }
  body (c.refuses req) req

abbrev pub decode_parsed : HttpCrates → Parsed → Exec (List ℕ) DecodeError (Option Request)
decode_parsed c (failed e) = fail (failed_to_parse e)
decode_parsed c partial_head = pure none
decode_parsed c (complete amt head) = decode_head c amt head

unfoldable pub decode : HttpCrates → Exec (List ℕ) DecodeError (Option Request)
unfolding decode_head
decode c src = decode_parsed c (c.parse src) src
