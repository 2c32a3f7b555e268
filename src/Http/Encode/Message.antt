-- ===== src/Http/Encode/Message.antt =====
-- protocol/http/http.rs: the encoder sends the message of the response.
use tache_rs.Prelude.{
  ℕ, ◌≤◌, ◌≡◌, refl, sym, ap, ◌∙◌, List, [], ◌∷◌, ◌++◌, length, append_assoc, append-nil,
}
use tache_rs.Std.Exec.{ok}
use tache_rs.Std.Text.{text, decimal}
use tache_rs.Http.Date.{Timespec, TimeCrate, IsDocumented, LastRenderedNow, fmt}
use tache_rs.Http.Date.Cache.{rendered, IsCache, fmt-IsCache}
use tache_rs.Http.Encode.{Response, Encoding, put_status, put_headers, encode}
use tache_rs.Http.Encode.Framing.{crlf, header_line, header_lines, head_lines, message}

-- What the headers add.
abbrev headers_text : List (List ℕ × List ℕ) → List ℕ → List ℕ
headers_text [] body = body
headers_text (h ∷ hs) body = header_line h ++ (crlf ++ headers_text hs body)

headers-message :
    (hs : List (List ℕ × List ℕ)) (body : List ℕ)
    → message (header_lines hs) body ≡ headers_text hs (crlf ++ body)
headers-message [] body = refl
headers-message (h ∷ hs) body =
    ap (λ (t : List ℕ). header_line h ++ (crlf ++ t)) (headers-message hs body)

headers_text-append :
    (hs : List (List ℕ × List ℕ)) (a b : List ℕ) → headers_text hs a ++ b ≡ headers_text hs (a ++ b)
headers_text-append [] a b = refl
headers_text-append (h ∷ hs) a b =
    append_assoc (header_line h) (crlf ++ headers_text hs a) b
    ∙ ap (λ (t : List ℕ). header_line h ++ (crlf ++ t)) (headers_text-append hs a b)

abbrev prologue : List ℕ → Response → List ℕ
prologue date item =
    text "HTTP/1.1 "
    ++ (item.status
        ++ (text "\r\nServer: Example\r\nContent-Length: "
            ++ (decimal (length item.body) ++ (text "\r\nDate: " ++ (date ++ crlf)))))

abbrev prologue_with : List ℕ → Response → List ℕ → List ℕ
prologue_with date item rest =
    text "HTTP/1.1 "
    ++ (item.status
        ++ (text "\r\nServer: Example\r\nContent-Length: "
            ++ (decimal (length item.body) ++ (text "\r\nDate: " ++ (date ++ (crlf ++ rest))))))

regroup_lines :
    (s a b c d e f g : List ℕ)
    → ((((((s ++ a) ++ b) ++ c) ++ d) ++ e) ++ f) ++ g
      ≡ s ++ (a ++ (b ++ (c ++ (d ++ (e ++ (f ++ g))))))
regroup_lines s a b c d e f g = simp append_assoc

regroup_message :
    (s a b c d e f g h k l : List ℕ)
    → (((s ++ (a ++ (b ++ (c ++ (d ++ (e ++ (f ++ g))))))) ++ h) ++ k) ++ l
      ≡ s ++ (a ++ (b ++ (c ++ (d ++ (e ++ (f ++ (g ++ (h ++ (k ++ l)))))))))
regroup_message s a b c d e f g h k l = simp append_assoc

module _ {E : Type 0} where
  put_headers_lem :
      (hs : List (List ℕ × List ℕ)) (s : Encoding)
      → put_headers {E = E} hs s ≡ (ok tt, record s { dst = s.dst ++ headers_text hs [] })
  unfolding put_headers
  put_headers_lem [] s = ap (λ (t : List ℕ). (ok tt, record s { dst = t })) (sym (append-nil s.dst))
  put_headers_lem ((k, v) ∷ hs) s =
      let sent = (((s.dst ++ k) ++ text ": ") ++ v) ++ crlf in
      let whole : sent ++ headers_text hs [] ≡ s.dst ++ headers_text ((k, v) ∷ hs) [] =
        simp append_assoc in
      put_headers_lem hs (record s { dst = sent })
      ∙ ap (λ (t : List ℕ). (ok tt, record s { dst = t })) whole

  put_status_lem :
      (t : TimeCrate) (now : Timespec) (item : Response) (s : Encoding) (d : List ℕ)
      (c : LastRenderedNow)
      → fmt {E = E} t now s.cache ≡ (ok d, c)
      → put_status {E = E} t now item s
        ≡ (ok tt, record { dst = s.dst ++ prologue d item; cache = c })
  unfolding put_status
  put_status_lem t now item s d c e = rw e (
      ap (λ (t : List ℕ). (ok tt, record { dst = t; cache = c }))
        (regroup_lines s.dst (text "HTTP/1.1 ") item.status
          (text "\r\nServer: Example\r\nContent-Length: ") (decimal (length item.body))
          (text "\r\nDate: ") d crlf))

  -- The encoder does not panic and appends the message of the response with the text of the date.
  pub encode-message :
      (t : TimeCrate)
      → IsDocumented t
      → (now : Timespec) (item : Response) (s : Encoding) → IsCache t s.cache
      → (u : Timespec) × (c : LastRenderedNow) × (encode {E = E} t now item s ≡ (
        ok tt,
        record { dst = s.dst ++ message (head_lines (rendered t u) item) item.body; cache = c },
      ))
        × (now.sec ≤ u.sec)
        × IsCache t c
  unfolding encode
  encode-message t doc now item s fresh =
      let (u, e, late, kept) = fmt-IsCache {E = E} t doc now s.cache fresh in
      let c : LastRenderedNow = (fmt {E = E} t now s.cache).1 in
      let date = rendered t u in
      (
        u,
        c,
        rw
            (
              put_status_lem t now item s date c (ap (λ o. (o, c)) e),
              put_headers_lem item.headers
                  (record { dst = s.dst ++ prologue date item; cache = c }),
              headers-message item.headers item.body,
            )
            (ap (λ (t : List ℕ). (ok tt, record { dst = t; cache = c }))
              (regroup_message s.dst (text "HTTP/1.1 ") item.status
                  (text "\r\nServer: Example\r\nContent-Length: ") (decimal (length item.body))
                  (text "\r\nDate: ") date crlf (headers_text item.headers []) crlf item.body
                ∙ ap (λ (t : List ℕ). s.dst ++ (prologue_with date item t))
                    (headers_text-append item.headers [] (crlf ++ item.body)))),
        late,
        kept,
      )
