-- ===== src/Engine/Respond.antt =====
-- engine/mod.rs: `Engine::respond`, and that its response comes through the codec.
use tache_rs.Prelude.{
  ℕ, ◌^◌, ◌<◌, ◌≡◌, ◌≢◌, refl, ap, subst, if◌then◌else◌, some, List, [], ◌∷◌, ◌++◌, length, ◌⊎◌,
  inl, inr, arith, All, Bool-cases,
}
use tache_rs.Std.Exec.{ok}
use tache_rs.Std.Text.{text, decimal}
use tache_rs.Config.Words.{eq_text, eq_text_sound, eq_text_differ}
use tache_rs.Http.Date.{Timespec, TimeCrate, IsDocumented}
use tache_rs.Http.Date.Cache.{rendered, IsCache}
use tache_rs.Http.Encode.{Response, Encoding, encode}
use tache_rs.Http.Encode.Framing.{receive, head_lines}
use tache_rs.Http.Encode.Receive.{IsResponse, NoFeed-text, encode-receive}

-- The texts of the status codes, which are a documented part of the crate `http`.
abbrev pub ok_status : List ℕ
ok_status = text "200 OK"

abbrev pub not_found : List ℕ
not_found = text "404 Not Found"

-- A header of the builder, whose name is kept in lower case.
abbrev pub typed : List ℕ → List (List ℕ × List ℕ)
typed value = (text "content-type", value) ∷ []

-- `serde_json::to_string(...)?` of the message, whose error is that of `respond`.
abbrev pub json : List ℕ ⊎ List ℕ → List ℕ ⊎ Response
json (inl e) = inl e
json (inr body) =
    inr (record { status = ok_status; headers = typed (text "application/json"); body = body })

-- The response to a path; `to_json` gives the text of the message in JSON. None of these headers is one
-- that the builder would refuse.
unfoldable pub respond : (List ℕ → List ℕ ⊎ List ℕ) → List ℕ → List ℕ ⊎ Response
respond to_json path =
    if eq_text path (text "/plaintext")
    then inr (record {
      status = ok_status;
      headers = typed (text "text/plain");
      body = text "Hello, World!";
    })
    else if eq_text path (text "/json")
    then json (to_json (text "Hello, World!"))
    else inr (record { status = not_found; headers = []; body = [] })

-- A response, if there is one, has no line feed in its head.
abbrev IsSendable : List ℕ ⊎ Response → Type 0
IsSendable (inl e) = Unit
IsSendable (inr item) = IsResponse item

typed-IsResponse :
    (value body : List ℕ)
    → All (λ c. b'\n' < c) value
    → IsResponse (record { status = ok_status; headers = typed value; body = body })
typed-IsResponse value body h = (
  NoFeed-text ok_status (omega arith),
  ((NoFeed-text (text "content-type") (omega arith), NoFeed-text value h), tt),
)

json-IsSendable : (r : List ℕ ⊎ List ℕ) → IsSendable (json r)
json-IsSendable (inl e) = tt
json-IsSendable (inr body) = typed-IsResponse (text "application/json") body (omega arith)

respond-IsSendable :
    (to_json : List ℕ → List ℕ ⊎ List ℕ) (path : List ℕ) → IsSendable (respond to_json path)
unfolding respond
respond-IsSendable to_json path = elim (Bool-cases (eq_text path (text "/plaintext"))) [
  | inl plain ↦ rw plain (typed-IsResponse (text "text/plain") (text "Hello, World!") (omega arith))
  | inr other ↦ elim (Bool-cases (eq_text path (text "/json"))) [
    | inl is_json ↦ rw (other, is_json) (json-IsSendable (to_json (text "Hello, World!")))
    | inr unknown ↦ rw (other, unknown) (NoFeed-text not_found (omega arith), tt)
  ]
]

-- What a receiver is to get at a path: the lines of the head, with the text of a date, and the body.
pub data IsReply (to_json : List ℕ → List ℕ ⊎ List ℕ) (path date : List ℕ)
    : List (List ℕ) → List ℕ → Type 0 where
  plaintext_reply :
      path ≡ text "/plaintext"
      → IsReply to_json path date
          (text "HTTP/1.1 200 OK"
            ∷ text "Server: Example"
            ∷ text "Content-Length: 13"
            ∷ (text "Date: " ++ date)
            ∷ text "content-type: text/plain"
            ∷ [])
          (text "Hello, World!")
  json_reply :
      (body : List ℕ)
      → path ≡ text "/json"
      → to_json (text "Hello, World!") ≡ inr body
      → IsReply to_json path date
          (text "HTTP/1.1 200 OK"
            ∷ text "Server: Example"
            ∷ (text "Content-Length: " ++ decimal (length body))
            ∷ (text "Date: " ++ date)
            ∷ text "content-type: application/json"
            ∷ [])
          body
  no_reply :
      path ≢ text "/plaintext"
      → path ≢ text "/json"
      → IsReply to_json path date
          (text "HTTP/1.1 404 Not Found"
            ∷ text "Server: Example"
            ∷ text "Content-Length: 0"
            ∷ (text "Date: " ++ date)
            ∷ [])
          []

abbrev Replies : (List ℕ → List ℕ ⊎ List ℕ) → List ℕ → List ℕ → List ℕ ⊎ Response → Type 0
Replies to_json path date (inl e) = Unit
Replies to_json path date (inr item) = IsReply to_json path date (head_lines date item) item.body

json-Replies :
    (to_json : List ℕ → List ℕ ⊎ List ℕ) (path date : List ℕ) (r : List ℕ ⊎ List ℕ)
    → path ≡ text "/json"
    → to_json (text "Hello, World!") ≡ r
    → Replies to_json path date (json r)
json-Replies to_json path date (inl e) is_json h = tt
json-Replies to_json path date (inr body) is_json h = json_reply body is_json h

respond-Replies :
    (to_json : List ℕ → List ℕ ⊎ List ℕ) (path date : List ℕ)
    → Replies to_json path date (respond to_json path)
unfolding respond decimal
respond-Replies to_json path date = elim (Bool-cases (eq_text path (text "/plaintext"))) [
  | inl plain ↦ rw plain (plaintext_reply (eq_text_sound path (text "/plaintext") plain))
  | inr other ↦ elim (Bool-cases (eq_text path (text "/json"))) [
    | inl is_json ↦
        rw (other, is_json)
          (json-Replies to_json path date (to_json (text "Hello, World!"))
            (eq_text_sound path (text "/json") is_json) refl)
    | inr unknown ↦
        rw (other, unknown)
          (no_reply (eq_text_differ path (text "/plaintext") other)
            (eq_text_differ path (text "/json") unknown))
  ]
]

-- What is sent for a response of `respond` is taken apart by its receiver, whatever follows: at
-- `/plaintext` the greeting as plain text, at `/json` the text that the message has in JSON, at
-- any other path an empty response of the status 404, each with the length of its body and with
-- a date. The encoder neither panics nor fails. The functions of the crates do what is
-- documented.
pub respond-receive :
    (to_json : List ℕ → List ℕ ⊎ List ℕ) (path : List ℕ) (item : Response) (t : TimeCrate)
    → IsDocumented t
    → (now : Timespec) (s : Encoding) (rest : List ℕ) → IsCache t s.cache
    → respond to_json path ≡ inr item
    → length item.body < 2 ^ 64
    → (u : Timespec) × (sent : List ℕ) × (lines : List (List ℕ)) × (body : List ℕ) × ((encode
          {E = Unit} t now item s).0
        ≡ ok tt)
      × ((encode {E = Unit} t now item s).1.dst ≡ s.dst ++ sent)
      × (receive (sent ++ rest) ≡ some (lines, body, rest))
      × IsReply to_json path (rendered t u) lines body
respond-receive to_json path item t doc now s rest fresh responds small =
    let good : IsResponse item = subst IsSendable responds (respond-IsSendable to_json path) in
    let (u, sent, c, e, received, late, kept) =
      encode-receive t doc now item s rest fresh good small in
    let date = rendered t u in
    (
      u,
      sent,
      head_lines date item,
      item.body,
      ap (λ r. r.0) e,
      ap (λ r. r.1.dst) e,
      received,
      subst (Replies to_json path date) responds (respond-Replies to_json path date),
    )
