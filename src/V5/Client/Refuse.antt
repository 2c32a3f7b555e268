-- ===== src/V5/Client/Refuse.antt =====
-- The dialogue with the proxy: the ways in which it ends without an address.
use tache_rs.Prelude.{
  ℕ, ◌<◌, ◌≡◌, refl, ap, ◌∙◌, List, [], ◌∷◌, ◌++◌, length, arith, not, false, true, Option, ◌||◌,
  ◌==◌, Bool-cases, ◌⊎◌, inl, inr, ltb,
}
use tache_rs.Std.Exec.{Outcome, ok, err, ◌>>=◌, ◌>>◌}
use tache_rs.Std.Io.{IoError, io_error, invalid_input}
use tache_rs.Crates.ByteOrder.{ByteOrder, IsDocumented}
use tache_rs.Utils.{Address}
use tache_rs.V5.Wire.{read_response}
use tache_rs.Std.Tcp.{write_all}
use tache_rs.V5.Client.{
  Authentication, password, no_auth, id, select_method, password_authentication, authenticate,
  request, negotiate,
}
use tache_rs.V5.Client.Sends.{
  Sends, Sends-bind, Sends-write_all, authenticate-Sends, request-Sends, read_response-Sends,
}
use tache_rs.V5.Client.Negotiate.{IsCredential, first_packet, proxy, select_lem}

-- A name or a password that RFC 1929 cannot carry.
abbrev pub IsBadCredential : List ℕ → Type 0
IsBadCredential s = (length s ≡ 0) ⊎ (255 < length s)

out_of_range :
    (s : List ℕ) → IsBadCredential s → not (ltb (length s) 1 || ltb 255 (length s)) ≡ false
out_of_range s h = ground arith

in_range : (s : List ℕ) → IsCredential s → not (ltb (length s) 1 || ltb 255 (length s)) ≡ true
in_range s h = ground arith

err-ne-ok : {E A : Type 0} {e : E} {a : A} → ◌≡◌ {A = Outcome E A} (err e) (ok a) → ⊥
err-ne-ok h = cc

which :
    (m : ℕ) (auth : Authentication)
    → (m == id auth || m == id no_auth) ≡ true
    → (m ≡ id auth) ⊎ (m ≡ id no_auth)
which m auth h = ground arith

-- What the client sends first, by RFC 1928, section 3: the number of its methods, and these, among
-- which is `m`.
record Offers (m : ℕ) (packet : List ℕ) : Type 0 where
  before : List ℕ
  after : List ℕ
  packet_lem : packet ≡ 5 ∷ length (before ++ m ∷ after) ∷ (before ++ m ∷ after)

first_packet-Offers :
    (auth : Authentication) (m : ℕ)
    → (m ≡ id auth) ⊎ (m ≡ id no_auth)
    → Offers m (first_packet auth)
unfolding id
first_packet-Offers (password user pass) m (inl e) = record {
  before = [];
  after = 0 ∷ [];
  packet_lem = rw e refl;
}
first_packet-Offers (password user pass) m (inr e) = record {
  before = 2 ∷ [];
  after = [];
  packet_lem = rw e refl;
}
first_packet-Offers no_auth m (inl e) = record { before = []; after = []; packet_lem = rw e refl }
first_packet-Offers no_auth m (inr e) = record { before = []; after = []; packet_lem = rw e refl }

module _ (fault : Option IoError) (burst : ℕ → ℕ) (k : ByteOrder)
    (documented : IsDocumented k) where
  -- The checks of the answer.
  negotiate_chosen :
      (command : ℕ) (target a : Address) (auth : Authentication) (bytes sent : List ℕ)
      → (negotiate k command target auth (proxy fault burst bytes sent)).0 ≡ ok a
      → (m : ℕ) × (rest : List ℕ) × (bytes ≡ 5 ∷ m ∷ rest)
        × ((m == 0xff) ≡ false)
        × ((m == id auth || m == id no_auth) ≡ true)
  unfolding negotiate select_method
  negotiate_chosen command target a auth (v ∷ m ∷ rest) sent h = elim (Bool-cases (v == 5)) [
    | inr bad ↦ absurd (err-ne-ok (rw bad at h))
    | inl good ↦ elim (Bool-cases (m == 0xff)) [
      | inl none_fits ↦ absurd (err-ne-ok (rw (good, none_fits) at h))
      | inr usable ↦ elim (Bool-cases (m == id auth || m == id no_auth)) [
        | inr foreign ↦ absurd (err-ne-ok (rw (good, usable, foreign) at h))
        | inl offered ↦ (m, rest, ap (λ (t : ℕ). t ∷ m ∷ rest) (ground arith), usable, offered)
      ]
    ]
  ]
  negotiate_chosen command target a auth _ sent h = cc

  -- Whatever follows the greeting is sent behind it.
  after_first_packet :
      (command : ℕ) (target : Address) (auth : Authentication) (m : ℕ) (bytes sent : List ℕ)
      → (m == 0xff) ≡ false
      → (m == id auth || m == id no_auth) ≡ true
      → (more : List ℕ) × ((negotiate k command target auth
            (proxy fault burst (5 ∷ m ∷ bytes) sent)).1.output.written
          ≡ (sent ++ first_packet auth) ++ more)
  unfolding negotiate id
  after_first_packet command target auth m bytes sent usable offered =
      rw (select_lem fault burst auth m bytes sent usable offered)
        (everything.extends (proxy fault burst bytes (sent ++ first_packet auth)))
    where
      everything : Sends (
          authenticate auth m
          >> (request k command target >>= λ packet. write_all packet >> read_response k))
      everything = Sends-bind (authenticate-Sends auth m) (λ _.
          Sends-bind (request-Sends k documented command target)
            (λ packet. Sends-bind (Sends-write_all packet) (λ _. read_response-Sends k documented)))

  -- From a proxy that takes what is sent, an address is returned only after an answer of
  -- version 5 that chose one of the methods which the client had sent, with their number, in
  -- its first packet. The functions of the crates do what is documented.
  pub negotiate_offered :
      (command : ℕ) (target a : Address) (auth : Authentication) (bytes sent : List ℕ)
      → (negotiate k command target auth (proxy fault burst bytes sent)).0 ≡ ok a
      → (m : ℕ) × (rest : List ℕ) × (before : List ℕ) × (after : List ℕ) × (more : List ℕ) × (bytes
          ≡ 5 ∷ m ∷ rest)
        × ((negotiate k command target auth (proxy fault burst bytes sent)).1.output.written
            ≡ (sent ++ (5 ∷ length (before ++ m ∷ after) ∷ (before ++ m ∷ after))) ++ more)
  negotiate_offered command target a auth bytes sent h =
      let (m, rest, e, usable, offered) = negotiate_chosen command target a auth bytes sent h in
      let (more, written) = after_first_packet command target auth m rest sent usable offered in
      let offers = first_packet-Offers auth m (which m auth offered) in
      (
        m,
        rest,
        offers.before,
        offers.after,
        more,
        e,
        ap
              (λ (bs : List ℕ).
                (negotiate k command target auth (proxy fault burst bs sent)).1.output.written)
              e
            ∙ written
            ∙ ap (λ (packet : List ℕ). (sent ++ packet) ++ more) offers.packet_lem,
      )

  -- Where the proxy takes what is sent and chose the password, and the name is empty or longer
  -- than 255 bytes, the call fails with nothing sent but the greeting. The functions of the
  -- crates do what is documented.
  pub negotiate_bad_user :
      (command : ℕ) (target : Address) (user pass bytes sent : List ℕ)
      → IsBadCredential user
      → negotiate k command target (password user pass) (proxy fault burst (5 ∷ 2 ∷ bytes) sent) ≡ (
        err (io_error invalid_input "invalid username"),
        proxy fault burst bytes (sent ++ first_packet (password user pass)),
      )
  unfolding negotiate id authenticate password_authentication
  negotiate_bad_user command target user pass bytes sent h =
      rw (select_lem fault burst (password user pass) 2 bytes sent refl refl, out_of_range user h)
        refl

  -- Where the proxy takes what is sent and chose the password, the name has 1 to 255 bytes, and
  -- the password is empty or longer than that, the call fails with nothing sent but the
  -- greeting. The functions of the crates do what is documented.
  pub negotiate_bad_password :
      (command : ℕ) (target : Address) (user pass bytes sent : List ℕ)
      → IsCredential user
      → IsBadCredential pass
      → negotiate k command target (password user pass) (proxy fault burst (5 ∷ 2 ∷ bytes) sent) ≡ (
        err (io_error invalid_input "invalid password"),
        proxy fault burst bytes (sent ++ first_packet (password user pass)),
      )
  unfolding negotiate id authenticate password_authentication
  negotiate_bad_password command target user pass bytes sent u h =
      rw
        (
          select_lem fault burst (password user pass) 2 bytes sent refl refl,
          in_range user u,
          out_of_range pass h,
        )
        refl
