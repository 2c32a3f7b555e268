-- ===== src/V5/Client/Negotiate.antt =====
-- The dialogue with the proxy: what is sent, and what each answer leads to.
use tache_rs.Prelude.{
  ℕ, ◌≤◌, ◌≡◌, refl, ap, List, [], ◌∷◌, ◌++◌, length, arith, not, false, true, Option, none, ◌||◌,
  ◌==◌, ltb,
}
use tache_rs.Std.Exec.{Outcome, ok, ◌>>=◌, ◌>>◌}
use tache_rs.Std.Io.{IoError, Writer}
use tache_rs.Std.Tcp.{TcpStream, write_all}
use tache_rs.Crates.ByteOrder.{ByteOrder, IsDocumented}
use tache_rs.Utils.{Address}
use tache_rs.V5.Format.{IsTarget, received}
use tache_rs.V5.Wire.{read_response}
use tache_rs.V5.Response.{success, response_success, response-Reads}
use tache_rs.V5.Client.{
  greeting, is_no_auth, Authentication, password, no_auth, id, select_method,
  password_authentication, authenticate, request, negotiate,
}
use tache_rs.V5.Client.Packets.{credentials_packet, credentials_lem, request_packet, request_lem}

-- What `password_authentication` asks of a name or a password.
abbrev pub IsCredential : List ℕ → Type 0
IsCredential s = (1 ≤ length s) × (length s ≤ 255)

in_range : (n : ℕ) → 1 ≤ n → n ≤ 255 → not (ltb n 1 || ltb 255 n) ≡ true
in_range n h k = ground arith

-- RFC 1928, section 3: the number of the methods, and these: its own, and none.
abbrev pub first_packet : Authentication → List ℕ
first_packet (password user pass) = 5 ∷ 2 ∷ 2 ∷ 0 ∷ []
first_packet no_auth = 5 ∷ 1 ∷ 0 ∷ []

-- The stream to a proxy that takes whatever is sent; `bytes` are its answers.
module _ (fault : Option IoError) (burst : ℕ → ℕ) where
  abbrev pub proxy : List ℕ → List ℕ → TcpStream
  proxy bytes sent = record {
    input = record { bytes = bytes; fault = fault };
    output = record { written = sent; refuses = λ _. none };
    burst = burst;
  }

  pub select_lem :
      (auth : Authentication) (m : ℕ) (bytes sent : List ℕ)
      → (m == 0xff) ≡ false
      → (m == id auth || m == 0) ≡ true
      → select_method auth (proxy (5 ∷ m ∷ bytes) sent)
        ≡ (ok m, proxy bytes (sent ++ first_packet auth))
  unfolding select_method greeting is_no_auth id
  select_lem (password user pass) m bytes sent usable offered = rw (usable, offered) refl
  select_lem no_auth m bytes sent usable offered = rw (usable, offered) refl

  password_lem :
      (user pass : List ℕ) (bytes sent : List ℕ)
      → IsCredential user
      → IsCredential pass
      → password_authentication user pass (proxy (1 ∷ 0 ∷ bytes) sent)
        ≡ (ok tt, proxy bytes (sent ++ credentials_packet user pass))
  unfolding password_authentication
  password_lem user pass bytes sent u p =
      rw
        (
          in_range _ u.0 u.1,
          in_range _ p.0 p.1,
          credentials_lem user pass u.1 p.1 (proxy (1 ∷ 0 ∷ bytes) sent),
        )
        refl

  -- The call has returned the bound address, has sent `sent`, and keeps a suffix of `rest`.
  pub record Connected (result : Outcome IoError Address × TcpStream) (bound : Address)
      (sent rest : List ℕ) : Type 0 where
    pub address : result.0 ≡ ok (received bound)
    pub sends : result.1.output.written ≡ sent
    pub lost : List ℕ
    pub keeps : lost ++ result.1.input.bytes ≡ rest

  module _ (k : ByteOrder) (documented : IsDocumented k) where
    finish :
        (command : ℕ) (target bound : Address) (rest sent : List ℕ)
        → IsTarget target
        → IsTarget bound
        → Connected
            ((request k command target >>= λ packet. write_all packet >> read_response k)
              (proxy (success bound ++ rest) sent))
            bound
            (sent ++ request_packet command target)
            rest
    finish command target bound rest sent ht hb =
        let t = proxy (success bound ++ rest) (sent ++ request_packet command target) in
        let r = response_success k documented bound rest t hb refl in
        rw (request_lem k documented command target (proxy (success bound ++ rest) sent) ht)
          (record {
            address = r.0;
            sends = ap (λ (w : Writer). w.written) (response-Reads k documented t).sent;
            lost = r.1.0;
            keeps = r.1.1;
          })

    -- The proxy takes what is sent, chooses no authentication, which every client offers, and
    -- responds with success and a valid address. Then the client sends the greeting of RFC 1928
    -- with its methods and the request for a valid target and nothing else: no password,
    -- whatever the credentials are. It returns the address of the response, and keeps a suffix
    -- of what follows it. The functions of the crates do what is documented.
    pub negotiate_no_auth :
        (command : ℕ) (target bound : Address) (auth : Authentication) (rest sent : List ℕ)
        → IsTarget target
        → IsTarget bound
        → Connected
            (negotiate k command target auth (proxy (5 ∷ 0 ∷ success bound ++ rest) sent))
            bound
            (sent ++ first_packet auth ++ request_packet command target)
            rest
    unfolding negotiate id authenticate
    negotiate_no_auth command target bound (password user pass) rest sent ht hb =
        rw (select_lem (password user pass) 0 (success bound ++ rest) sent refl refl)
          (finish command target bound rest (sent ++ first_packet (password user pass)) ht hb)
    negotiate_no_auth command target bound no_auth rest sent ht hb =
        rw (select_lem no_auth 0 (success bound ++ rest) sent refl refl)
          (finish command target bound rest (sent ++ first_packet no_auth) ht hb)

    -- The proxy takes what is sent, chooses the password, accepts it, and responds with success
    -- and a valid address. Then the client sends the greeting of RFC 1928 with its methods, the
    -- packet of RFC 1929 with name and password of 1 to 255 bytes, and the request for a valid
    -- target, in this order and nothing else. It returns the address of the response, and keeps
    -- a suffix of what follows it. The functions of the crates do what is documented.
    pub negotiate_password :
        (command : ℕ) (target bound : Address) (user pass : List ℕ) (rest sent : List ℕ)
        → IsTarget target
        → IsTarget bound
        → IsCredential user
        → IsCredential pass
        → Connected
            (negotiate k command target
              (password user pass)
              (proxy (5 ∷ 2 ∷ 1 ∷ 0 ∷ success bound ++ rest) sent))
            bound
            (sent
              ++ first_packet (password user pass)
              ++ credentials_packet user pass
              ++ request_packet command target)
            rest
    unfolding negotiate id authenticate
    negotiate_password command target bound user pass rest sent ht hb hu hp =
        rw
          (
            select_lem (password user pass) 2 (1 ∷ 0 ∷ success bound ++ rest) sent refl refl,
            password_lem user pass (success bound ++ rest)
                (sent ++ first_packet (password user pass)) hu hp,
          )
          (finish command target bound rest
            (sent ++ first_packet (password user pass) ++ credentials_packet user pass) ht hb)
