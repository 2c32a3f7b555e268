-- ===== src/Http/Decode/Whole.antt =====
-- protocol/http/http.rs: what `decode` gives for each result of parsing.
use tache_rs.Prelude.{
  ℕ, Bool, zero, suc, ◌+◌, ◌-◌, ◌≤◌, ◌≡◌, refl, sym, subst, ◌==◌, false, lt→ltb, le→leb,
  if◌then◌else◌, Option, none, some, List, [], ◌∷◌, length, take, drop, length-take, All, arith,
  Bool-cases, inl, inr,
}
use tache_rs.Std.Exec.{Outcome, ok, err}
use tache_rs.Http.Decode.{
  Part, Head, Parsed, failed, partial_head, complete, Request, HttpCrates, IsPart, IsPart?, IsSome,
  IsHead, IsDocumented, DecodeError, failed_to_parse, only_http_1_1, not_built, to_slice, to_slices,
  split_to, slice, build_headers, body, decode_head, decode_parsed, decode,
}

-- The bytes of a part.
abbrev pub cut : List ℕ → Part → List ℕ
cut bytes p = take p.len (drop p.start bytes)

abbrev pub cut? : List ℕ → Option Part → List ℕ
cut? bytes none = []
cut? bytes (some p) = cut bytes p

abbrev pub cut_headers : List ℕ → List (Part × Part) → List (List ℕ × List ℕ)
cut_headers bytes [] = []
cut_headers bytes (h ∷ hs) = (cut bytes h.0, cut bytes h.1) ∷ cut_headers bytes hs

-- The request that a head of these bytes stands for.
abbrev pub request_of : List ℕ → Head → Request
request_of bytes head = record {
  method = cut? bytes head.method;
  uri = cut? bytes head.path;
  headers = cut_headers bytes head.headers;
}

abbrev pub is_version_1 : Option ℕ → Bool
is_version_1 none = false
is_version_1 (some v) = v == 1

abbrev pub built : Option (List ℕ) → Request → Outcome DecodeError (Option Request)
built none req = ok (some req)
built (some e) req = err (not_built e)

-- The result, and what stays in the buffer: a request, or the error of building one, takes its
-- head out of the buffer; nothing else does.
abbrev pub decoded : HttpCrates → Parsed → List ℕ → Outcome DecodeError (Option Request) × List ℕ
decoded c (failed e) src = (err (failed_to_parse e), src)
decoded c partial_head src = (ok none, src)
decoded c (complete amt head) src =
    let req = request_of (take amt src) head in
    if is_version_1 head.version
    then (built (c.refuses req) req, drop amt src)
    else (err only_http_1_1, src)

abbrev bounds : Part → ℕ × ℕ
bounds p = (p.start, p.start + p.len)

abbrev all_bounds : List (Part × Part) → List ((ℕ × ℕ) × (ℕ × ℕ))
all_bounds [] = []
all_bounds (h ∷ hs) = (bounds h.0, bounds h.1) ∷ all_bounds hs

to_slice_lem :
    (amt : ℕ) (p : Part) (src : List ℕ)
    → IsPart amt p
    → amt ≤ length src
    → to_slice p src ≡ (ok (bounds p), src)
unfolding to_slice
to_slice_lem amt p src h fits = rw (lt→ltb p.start (length src) (omega arith)) refl

to_slices_lem :
    (amt room : ℕ) (hs : List (Part × Part)) (src : List ℕ)
    → All (λ h. IsPart amt h.0 × IsPart amt h.1) hs
    → amt ≤ length src
    → length hs ≤ room
    → to_slices room hs src ≡ (ok (all_bounds hs), src)
unfolding to_slices
to_slices_lem amt room [] src h fits small = refl
to_slices_lem amt zero (x ∷ hs) src h fits small = absurd (omega arith)
to_slices_lem amt (suc room) (x ∷ hs) src h fits small =
    rw
      (
        to_slice_lem amt x.0 src h.0.0 fits,
        to_slice_lem amt x.1 src h.0.1 fits,
        to_slices_lem amt room hs src h.1 fits (omega arith),
      )
      refl

slice_lem :
    (bytes : List ℕ) (p : Part) (src : List ℕ)
    → IsPart (length bytes) p
    → slice bytes (bounds p) src ≡ (ok (cut bytes p), src)
unfolding slice
slice_lem bytes p src h =
    let e : p.start + p.len - p.start ≡ p.len = omega arith in
    rw
      (
        le→leb p.start (p.start + p.len) (omega arith),
        le→leb (p.start + p.len) (length bytes) (omega arith),
        e,
      )
      refl

build_headers_lem :
    (bytes : List ℕ) (hs : List (Part × Part)) (src : List ℕ)
    → All (λ h. IsPart (length bytes) h.0 × IsPart (length bytes) h.1) hs
    → build_headers bytes (all_bounds hs) src ≡ (ok (cut_headers bytes hs), src)
unfolding build_headers
build_headers_lem bytes [] src h = refl
build_headers_lem bytes (x ∷ hs) src h =
    rw
      (
        slice_lem bytes x.1 src h.0.1,
        slice_lem bytes x.0 src h.0.0,
        build_headers_lem bytes hs src h.1,
      )
      refl

split_to_lem :
    (amt : ℕ) (src : List ℕ)
    → amt ≤ length src
    → split_to amt src ≡ (ok (take amt src), drop amt src)
unfolding split_to
split_to_lem amt src h = rw (le→leb amt (length src) h) refl

body_lem :
    (o : Option (List ℕ)) (req : Request) (src : List ℕ) → body o req src ≡ (built o req, src)
body_lem none req src = refl
body_lem (some e) req src = refl

decode_head_lem :
    (c : HttpCrates) (amt : ℕ) (m p : Part) (v : ℕ) (hs : List (Part × Part)) (src : List ℕ)
    → amt ≤ length src
    → IsPart amt m
    → IsPart amt p
    → All (λ h. IsPart amt h.0 × IsPart amt h.1) hs
    → length hs ≤ 16
    → let head : Head = record { method = some m; path = some p; version = some v; headers = hs } in
      decode_head c amt head src ≡ decoded c (complete amt head) src
unfolding decode_head
decode_head_lem c amt m p v hs src fits hm hp hh small = elim (Bool-cases (v == 1)) [
  | inl one ↦
      let size : length (take amt src) ≡ amt = omega (arith, length-take amt src) in
      let after = drop amt src in
      let bytes = take amt src in
      let req =
        request_of bytes
          (record { method = some m; path = some p; version = some v; headers = hs }) in
      rw
        (
          to_slices_lem amt 16 hs src hh fits small,
          to_slice_lem amt m src hm fits,
          to_slice_lem amt p src hp fits,
          one,
          split_to_lem amt src fits,
          slice_lem bytes m after (subst (λ n. IsPart n m) (sym size) hm),
          slice_lem bytes p after (subst (λ n. IsPart n p) (sym size) hp),
          build_headers_lem bytes hs after
              (subst (λ n. All (λ h. IsPart n h.0 × IsPart n h.1) hs) (sym size) hh),
        )
        (body_lem (c.refuses req) req after)
  | inr other ↦
      rw
        (
          to_slices_lem amt 16 hs src hh fits small,
          to_slice_lem amt m src hm fits,
          to_slice_lem amt p src hp fits,
          other,
        )
        refl
]

with_head :
    (c : HttpCrates) (src : List ℕ) (amt : ℕ) (head : Head)
    → IsHead (length src) amt head
    → decode_head c amt head src ≡ decoded c (complete amt head) src
with_head c src amt head h =
    go head.method head.path head.version h.method_lem h.path_lem h.version_lem
  where
    go :
        (m p : Option Part) (v : Option ℕ)
        → IsPart? amt m
        → IsPart? amt p
        → IsSome v
        → let head' : Head = record { method = m; path = p; version = v; headers = head.headers } in
          decode_head c amt head' src ≡ decoded c (complete amt head') src
    go none p v hm hp hv = elim hm [ ]
    go (some m) none v hm hp hv = elim hp [ ]
    go (some m) (some p) none hm hp hv = elim hv [ ]
    go (some m) (some p) (some v) hm hp hv =
        decode_head_lem c amt m p v head.headers src h.size_lem hm hp h.headers_lem h.room

-- On any bytes the decoder does not panic. With a head that is not complete it asks for more,
-- and with one that is not HTTP or not of version 1.1 it fails, and leaves the buffer as it
-- was; otherwise it takes exactly the head out of the buffer and gives the request of its
-- parts, or the error of building it. The functions of the crates do what is documented.
pub decode-decoded :
    (c : HttpCrates) → IsDocumented c → (src : List ℕ) → decode c src ≡ decoded c (c.parse src) src
unfolding decode
decode-decoded c doc src = go (c.parse src) refl
  where
    go : (r : Parsed) → c.parse src ≡ r → decode_parsed c r src ≡ decoded c r src
    go (failed e) h = refl
    go partial_head h = refl
    go (complete amt head) h = with_head c src amt head (doc.head_lem src amt head h)
