-- ===== src/Http/Decode/Frames.antt =====
-- protocol/http/http.rs: the requests of a stream, as `Framed` of tokio asks the decoder for them: again
-- and again, until it needs more bytes or fails.
use tache_rs.Prelude.{
  ℕ, zero, suc, ◌<◌, ◌≡◌, refl, ap, Option, none, some, List, [], ◌∷◌, ◌++◌, length, take, drop,
  length-append, length-drop, take-append_le, drop-append_le, arith, Bool-cases, inl, inr,
  Option-cases,
}
use tache_rs.Std.Exec.{Outcome, ok, err, panicked}
use tache_rs.Http.Decode.{
  Part, Head, Parsed, failed, partial_head, complete, Request, HttpCrates, IsPart?, IsHead,
  IsDocumented, DecodeError, failed_to_parse, only_http_1_1, not_built, decode,
}
use tache_rs.Http.Decode.Whole.{request_of, is_version_1, decoded, decode-decoded}

-- The requests, how it ended (`ok` when more bytes are needed), and what stays in the buffer.
pub record Frames : Type 0 where
  pub requests : List Request
  pub ending : Outcome DecodeError Unit
  pub rest : List ℕ

abbrev pub then_frame : Outcome DecodeError (Option Request) × List ℕ → (List ℕ → Frames) → Frames
then_frame (ok none, src) more = record { requests = []; ending = ok tt; rest = src }
then_frame (ok (some req), src) more =
    let fs : Frames = more src in record fs { requests = req ∷ fs.requests }
then_frame (err e, src) more = record { requests = []; ending = err e; rest = src }
then_frame (panicked, src) more = record { requests = []; ending = panicked; rest = src }

-- So many calls at most; without fuel it stops as if more bytes were needed.
unfoldable pub frames_within : HttpCrates → ℕ → List ℕ → Frames
unfolding decode
frames_within c zero src = record { requests = []; ending = ok tt; rest = src }
frames_within c (suc fuel) src = then_frame (decode c src) (frames_within c fuel)

-- Each request takes at least a byte, so one call more than there are bytes is enough.
unfoldable pub frames : HttpCrates → List ℕ → Frames
unfolding frames_within
frames c src = frames_within c (suc (length src)) src

-- The ways a call ends. The first leaves the buffer as it was; the second takes at least one byte
-- out of it and does not look behind the bytes that it takes.
data Turn (c : HttpCrates) (src : List ℕ) : Type 0 where
  waits : decode c src ≡ (ok none, src) → Turn c src
  takes :
      (req : Request) (rest : List ℕ)
      → decode c src ≡ (ok (some req), rest)
      → length rest < length src
      → ((more : List ℕ) → decode c (src ++ more) ≡ (ok (some req), rest ++ more))
      → Turn c src
  fails : (e : DecodeError) (rest : List ℕ) → decode c src ≡ (err e, rest) → Turn c src

amt_pos : (amt : ℕ) (o : Option Part) → IsPart? amt o → 0 < amt
amt_pos amt none h = elim h [ ]
amt_pos amt (some p) h = omega arith

module _ (c : HttpCrates) (doc : IsDocumented c) where
  decodes : (src : List ℕ) (r : Parsed) → c.parse src ≡ r → decode c src ≡ decoded c r src
  decodes src r e = rw (← e) (decode-decoded c doc src)

  complete-Turn :
      (src : List ℕ) (amt : ℕ) (head : Head) → c.parse src ≡ complete amt head → Turn c src
  complete-Turn src amt head e =
      let whole : IsHead (length src) amt head = doc.head_lem src amt head e in
      let req = request_of (take amt src) head in
      let here = decodes src (complete amt head) e in
      elim (Bool-cases (is_version_1 head.version)) [
        | inr other ↦ fails only_http_1_1 src (rw other at here)
        | inl one ↦ elim (Option-cases (c.refuses req)) [
          | inr (text, bad) ↦ fails (not_built text) (drop amt src) (rw (one, bad) at here)
          | inl good ↦
              takes req (drop amt src) (rw (one, good) at here)
                (omega (
                  arith,
                  length-drop amt src,
                  whole.size_lem,
                  amt_pos amt head.method whole.method_lem,
                ))
                (λ more.
                  let there =
                    decodes (src ++ more) (complete amt head) (doc.stable src more amt head e) in
                  rw
                    (
                      take-append_le amt src more whole.size_lem,
                      drop-append_le amt src more whole.size_lem,
                      one,
                      good,
                    )
                    at there)
        ]
      ]

  turn : (src : List ℕ) → Turn c src
  turn src = go (c.parse src) refl
    where
      go : (r : Parsed) → c.parse src ≡ r → Turn c src
      go (failed e) h = fails (failed_to_parse e) src (decodes src (failed e) h)
      go partial_head h = waits (decodes src partial_head h)
      go (complete amt head) h = complete-Turn src amt head h

abbrev pub prepend : List Request → Frames → Frames
prepend reqs fs = record fs { requests = reqs ++ fs.requests }

abbrev ending_or : Frames → Outcome DecodeError Unit
ending_or fs = fs.ending

module _ (c : HttpCrates) (doc : IsDocumented c) where
  -- The fuel does not matter where there is enough of it.
  frames_enough :
      (n m : ℕ) (src : List ℕ)
      → length src < n
      → length src < m
      → frames_within c n src ≡ frames_within c m src
  unfolding frames_within
  frames_enough zero m src h k = absurd (omega arith)
  frames_enough (suc n) zero src h k = absurd (omega arith)
  frames_enough (suc n) (suc m) src h k = elim (turn c doc src) [
    | waits e ↦ rw e refl
    | fails x rest e ↦ rw e refl
    | takes req rest e shorter _ ↦ rw e (
        ap (λ (fs : Frames). prepend (req ∷ []) fs)
          (frames_enough n m rest (omega arith) (omega arith)))
  ]

  frames_within-append :
      (n m : ℕ) (a b : List ℕ)
      → length a < n
      → length (a ++ b) < m
      → (frames_within c n a).ending ≡ ok tt
      → frames_within c m (a ++ b)
        ≡ prepend (frames_within c n a).requests (frames c ((frames_within c n a).rest ++ b))
  unfolding frames
  frames_within-append zero m a b h k waiting = absurd (omega arith)
  frames_within-append (suc n) zero a b h k waiting = absurd (omega arith)
  frames_within-append (suc n) (suc m) a b h k waiting = elim (turn c doc a) [
    | waits e ↦ rw e (frames_enough (suc m) (suc (length (a ++ b))) (a ++ b) k (omega arith))
    | fails x rest e ↦ let f : err x ≡ ok tt = rw e at waiting in cc
    | takes req rest e shorter stable ↦
        rw (e, stable b)
          (ap (λ (fs : Frames). prepend (req ∷ []) fs)
            (frames_within-append n m rest b (omega arith)
              (omega (arith, length-append a b, length-append rest b)) (rw e at waiting)))
  ]

  frames_wait :
      (n : ℕ) (src : List ℕ)
      → length src < n
      → (frames_within c n src).ending ≡ ok tt
      → decode c (frames_within c n src).rest ≡ (ok none, (frames_within c n src).rest)
  unfolding frames_within
  frames_wait zero src h waiting = absurd (omega arith)
  frames_wait (suc n) src h waiting = elim (turn c doc src) [
    | waits e ↦ rw e e
    | fails x rest e ↦ let f : err x ≡ ok tt = rw e at waiting in cc
    | takes req rest e shorter _ ↦ rw e (frames_wait n rest (omega arith) (rw e at waiting))
  ]

  -- The requests of a stream do not depend on how it is cut: if the bytes `a` came first and
  -- were not refused, their requests are the first ones of `a ++ b`, and the others are those
  -- of what was left of `a` and `b`. What is left is a head that is not complete. The functions
  -- of the crates do what is documented.
  pub frames-append :
      (a b : List ℕ)
      → (frames c a).ending ≡ ok tt
      → (frames c (a ++ b) ≡ prepend (frames c a).requests (frames c ((frames c a).rest ++ b)))
        × (decode c (frames c a).rest ≡ (ok none, (frames c a).rest))
  unfolding frames
  frames-append a b waiting = (
    frames_within-append (suc (length a)) (suc (length (a ++ b))) a b (omega arith) (omega arith)
        waiting,
    frames_wait (suc (length a)) a (omega arith) waiting,
  )
