-- ===== src/Http/Encode/Framing.antt =====
-- protocol/http/http.rs: the lines of a message, and how its receiver takes them apart.
use tache_rs.Prelude.{
  ℕ, zero, suc, ◌≤◌, ◌<◌, ◌≡◌, ◌≢◌, refl, sym, ap, ◌∙◌, List, [], ◌∷◌, ◌++◌, ◌^◌, length,
  length-append, append_assoc, arith, All, All-append, Option, none, some, split_at, ◌==◌,
  if◌then◌else◌,
}
use tache_rs.Std.Text.{text, decimal}
use tache_rs.Std.Parse.{split_once, split_once-append, parse_below}
use tache_rs.Http.Encode.{Response}

abbrev pub crlf : List ℕ
crlf = b'\r' ∷ b'\n' ∷ []

abbrev pub header_line : List ℕ × List ℕ → List ℕ
header_line (k, v) = k ++ (text ": " ++ v)

abbrev pub header_lines : List (List ℕ × List ℕ) → List (List ℕ)
header_lines [] = []
header_lines (h ∷ hs) = header_line h ∷ header_lines hs

-- The lines in front of the body.
abbrev pub head_lines : List ℕ → Response → List (List ℕ)
head_lines date item =
    (text "HTTP/1.1 " ++ item.status)
    ∷ text "Server: Example"
    ∷ (text "Content-Length: " ++ decimal (length item.body))
    ∷ (text "Date: " ++ date)
    ∷ header_lines item.headers

-- Each line with its end, an empty line, and the body.
abbrev pub message : List (List ℕ) → List ℕ → List ℕ
message [] body = crlf ++ body
message (line ∷ lines) body = line ++ (crlf ++ message lines body)

-- A receiver. A line ends at a line feed, and a carriage return in front of it belongs to the end.
abbrev pub chomped : ℕ → List ℕ → List ℕ → List ℕ
chomped c [] rest = if c == b'\r' then [] else c ∷ []
chomped c (x ∷ xs) rest = c ∷ rest

unfoldable pub chomp : List ℕ → List ℕ
chomp [] = []
chomp (c ∷ cs) = let rest = chomp cs in chomped c cs rest

abbrev pub cons_line : List ℕ → Option (List (List ℕ) × List ℕ) → Option (List (List ℕ) × List ℕ)
cons_line line none = none
cons_line line (some (lines, rest)) = some (line ∷ lines, rest)

-- The first empty line ends the head.
abbrev pub ended :
    List ℕ → List ℕ → Option (List (List ℕ) × List ℕ) → Option (List (List ℕ) × List ℕ)
ended [] rest more = some ([], rest)
ended (c ∷ cs) rest more = cons_line (c ∷ cs) more

abbrev pub after_line :
    (List ℕ → Option (List (List ℕ) × List ℕ))
    → List ℕ × Option (List ℕ)
    → Option (List (List ℕ) × List ℕ)
after_line more (line, none) = none
after_line more (line, some rest) = ended (chomp line) rest (more rest)

-- The lines of the head and what follows it, if there are fewer lines than the fuel says.
unfoldable pub read_head : ℕ → List ℕ → Option (List (List ℕ) × List ℕ)
unfolding split_once
read_head zero s = none
read_head (suc fuel) s = after_line (read_head fuel) (split_once b'\n' s)

-- What follows a prefix.
abbrev pub strip_prefix : List ℕ → List ℕ → Option (List ℕ)
strip_prefix [] s = some s
strip_prefix (p ∷ ps) [] = none
strip_prefix (p ∷ ps) (c ∷ cs) = if p == c then strip_prefix ps cs else none

abbrev pub first_length : Option (List ℕ) → Option ℕ → Option ℕ
first_length none more = more
first_length (some s) more = parse_below (2 ^ 64) s

-- The number in the first line that gives the length of the body.
abbrev pub content_length : List (List ℕ) → Option ℕ
content_length [] = none
content_length (line ∷ lines) =
    first_length (strip_prefix (text "Content-Length: ") line) (content_length lines)

abbrev pub take_body :
    List (List ℕ) → Option (List ℕ × List ℕ) → Option (List (List ℕ) × List ℕ × List ℕ)
take_body lines none = none
take_body lines (some (body, rest)) = some (lines, body, rest)

abbrev pub body_of : List (List ℕ) → Option ℕ → List ℕ → Option (List (List ℕ) × List ℕ × List ℕ)
body_of lines none s = none
body_of lines (some n) s = take_body lines (split_at n s)

abbrev pub receive_body : Option (List (List ℕ) × List ℕ) → Option (List (List ℕ) × List ℕ × List ℕ)
receive_body none = none
receive_body (some (lines, s)) = body_of lines (content_length lines) s

-- The lines of the head, the body, and what stands behind the message.
unfoldable pub receive : List ℕ → Option (List (List ℕ) × List ℕ × List ℕ)
unfolding read_head
receive s = receive_body (read_head (suc (length s)) s)

-- A line that is not empty and has no line feed.
abbrev pub IsLine : List ℕ → Type 0
IsLine line = (0 < length line) × All (λ c. c ≢ b'\n') line

chomp-append : (line : List ℕ) → chomp (line ++ b'\r' ∷ []) ≡ line
unfolding chomp
chomp-append [] = refl
chomp-append (c ∷ []) = refl
chomp-append (c ∷ d ∷ cs) = ap (λ (t : List ℕ). c ∷ t) (chomp-append (d ∷ cs))

ended_line :
    (line rest : List ℕ) (more : Option (List (List ℕ) × List ℕ))
    → 0 < length line
    → ended line rest more ≡ cons_line line more
ended_line [] rest more h = absurd (omega arith)
ended_line (c ∷ cs) rest more h = refl

split_line :
    (line rest : List ℕ)
    → All (λ c. c ≢ b'\n') line
    → split_once b'\n' (line ++ (crlf ++ rest)) ≡ (line ++ b'\r' ∷ [], some rest)
split_line line rest h =
    let no_feed : All (λ c. c ≢ b'\n') (line ++ b'\r' ∷ []) =
      All-append _ line (b'\r' ∷ []) h ((λ e. absurd (omega (arith, e)), tt)) in
    ap (split_once b'\n') (sym (append_assoc line (b'\r' ∷ []) (b'\n' ∷ rest)))
    ∙ split_once-append b'\n' (line ++ b'\r' ∷ []) rest no_feed

read_head-message :
    (lines : List (List ℕ)) (body : List ℕ) (fuel : ℕ)
    → length lines < fuel
    → All IsLine lines
    → read_head fuel (message lines body) ≡ some (lines, body)
unfolding read_head chomp
read_head-message lines body zero h ok_lines = absurd (omega arith)
read_head-message [] body (suc fuel) h ok_lines = refl
read_head-message (line ∷ lines) body (suc fuel) h ok_lines =
    rw
      (
        split_line line (message lines body) ok_lines.0.1,
        chomp-append line,
        ended_line line (message lines body) (read_head fuel (message lines body)) ok_lines.0.0,
        read_head-message lines body fuel (omega arith) ok_lines.1,
      )
      refl

length-message :
    (lines : List (List ℕ)) (body : List ℕ) → length lines ≤ length (message lines body)
length-message [] body = omega arith
length-message (line ∷ lines) body =
    omega (arith, length-append line (crlf ++ message lines body), length-message lines body)

pub receive_head :
    (lines : List (List ℕ)) (s : List ℕ)
    → All IsLine lines
    → receive (message lines s) ≡ body_of lines (content_length lines) s
unfolding receive
receive_head lines s h = ap receive_body (
    read_head-message lines s (suc (length (message lines s)))
      (omega (arith, length-message lines s)) h)

pub message-append :
    (lines : List (List ℕ)) (body rest : List ℕ)
    → message lines body ++ rest ≡ message lines (body ++ rest)
message-append [] body rest = refl
message-append (line ∷ lines) body rest =
    append_assoc line (crlf ++ message lines body) rest
    ∙ ap (λ (t : List ℕ). line ++ (crlf ++ t)) (message-append lines body rest)
