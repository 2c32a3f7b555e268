-- ===== src/V5/Client/Packets.antt =====
-- The packets that the client sends: credentials and request.
use tache_rs.Prelude.{
  ℕ, ◌+◌, ◌-◌, ◌%◌, ◌≤◌, ◌<◌, ◌≡◌, refl, ap, ◌∙◌, List, [], ◌∷◌, ◌++◌, length, length-append,
  append_assoc, take, drop, take-append_eq, replicate, length-replicate, arith, some,
}
use tache_rs.Std.Exec.{ok, err}
use tache_rs.Std.Io.{io_error, invalid_input}
use tache_rs.Std.Array.{overwrite, filled, overwrite-filled}
use tache_rs.Std.Slice.{Slice}
use tache_rs.Std.Tcp.{TcpStream}
use tache_rs.Std.Net.{v4, v6}
use tache_rs.Crates.ByteOrder.{ByteOrder, IsDocumented}
use tache_rs.Utils.{Address, DomainName, socket_addr, domain_name}
use tache_rs.Socks5.Address.{get_addr_len}
use tache_rs.Socks5.Address.Write.{length-wire}
use tache_rs.V5.Format.{wire_of, as_socks5, IsTarget}
use tache_rs.V5.WriteAddr.{write_addr_lem, write_addr_too_long}
use tache_rs.V5.Client.{credentials, request}

-- RFC 1929, section 2.
abbrev pub credentials_packet : List ℕ → List ℕ → List ℕ
credentials_packet user pass = 1 ∷ length user ∷ user ++ length pass ∷ pass

module _ (user pass : List ℕ) (user_fits : length user ≤ 255) (pass_fits : length pass ≤ 255) where
  user_len : length user % 256 ≡ length user
  user_len = omega arith

  pass_len : length pass % 256 ≡ length pass
  pass_len = omega arith

  store_version : overwrite 0 (1 ∷ []) (replicate 515 0) ≡ some (filled (1 ∷ []) 515)
  store_version = overwrite-filled [] (1 ∷ []) 515 0 refl (omega arith)

  store_user_len :
      overwrite 1 (length user ∷ []) (filled (1 ∷ []) 515)
      ≡ some (filled (1 ∷ length user ∷ []) 515)
  store_user_len = overwrite-filled (1 ∷ []) (length user ∷ []) 515 1 refl (omega arith)

  copy_user :
      overwrite 2 user (filled (1 ∷ length user ∷ []) 515)
      ≡ some (filled (1 ∷ length user ∷ user) 515)
  copy_user = overwrite-filled (1 ∷ length user ∷ []) user 515 2 refl (omega arith)

  store_len :
      overwrite (2 + length user) (length pass ∷ []) (filled (1 ∷ length user ∷ user) 515)
      ≡ some (filled (1 ∷ length user ∷ user ++ length pass ∷ []) 515)
  store_len =
      overwrite-filled (1 ∷ length user ∷ user) (length pass ∷ []) 515 (2 + length user)
        (omega arith) (omega arith)

  copy_pass :
      overwrite (3 + length user) pass (filled (1 ∷ length user ∷ user ++ length pass ∷ []) 515)
      ≡ some (filled (1 ∷ length user ∷ user ++ length pass ∷ [] ++ pass) 515)
  copy_pass =
      overwrite-filled (1 ∷ length user ∷ user ++ length pass ∷ []) pass 515 (3 + length user)
        (omega (arith, length-append user (length pass ∷ [])))
        (omega (arith, length-append user (length pass ∷ [])))

  -- With a name and a password of at most 255 bytes the packet is that of RFC 1929.
  pub credentials_lem :
      (t : TcpStream) → credentials user pass t ≡ (ok (credentials_packet user pass), t)
  unfolding credentials
  credentials_lem t =
      rw (user_len, pass_len, store_version, store_user_len, copy_user, store_len, copy_pass)
        (ap (λ (p : List ℕ). (ok p, t))
          (whole
            ∙ ap (λ (l : List ℕ). 1 ∷ length user ∷ l) (append_assoc user (length pass ∷ []) pass)))
    where
      packet : List ℕ
      packet = 1 ∷ length user ∷ user ++ length pass ∷ [] ++ pass

      size : 3 + length user + length pass ≡ length packet
      size = omega (
        arith,
        length-append (user ++ length pass ∷ []) pass,
        length-append user (length pass ∷ []),
      )

      whole : take (3 + length user + length pass) (filled packet 515) ≡ packet
      whole = take-append_eq _ packet (replicate (515 - length packet) 0) size

abbrev pub zeros : List ℕ
zeros = replicate 260 0

abbrev pub fresh : Slice
fresh = record { written = []; remaining = zeros }

-- RFC 1928, section 4.
abbrev pub request_packet : ℕ → Address → List ℕ
request_packet command target = 5 ∷ command ∷ 0 ∷ wire_of target

pub wire-short : (a : Address) → IsTarget a → length (wire_of a) ≤ 259
unfolding get_addr_len
wire-short (socket_addr (v4 a)) h = omega (arith, length-wire (as_socks5 (socket_addr (v4 a))))
wire-short (socket_addr (v6 a)) h = omega (arith, length-wire (as_socks5 (socket_addr (v6 a))))
wire-short (domain_name d) h = omega (arith, length-wire (as_socks5 (domain_name d)), h.2)

module _ (k : ByteOrder) (documented : IsDocumented k) where
  -- Every valid target fits the array of the request, which becomes the packet of RFC 1928. The
  -- functions of the crates do what is documented.
  pub request_lem :
      (command : ℕ) (target : Address) (t : TcpStream)
      → IsTarget target
      → request k command target t ≡ (ok (request_packet command target), t)
  unfolding request
  request_lem command target t h =
      rw (write_addr_lem k documented target fresh h room) (ap (λ (p : List ℕ). (ok p, t)) whole)
    where
      room : length (wire_of target) ≤ length zeros
      room = omega (arith, wire-short target h, length-replicate {A = ℕ} 260 0)

      size : length (wire_of target) + 3 ≡ length (request_packet command target)
      size = omega arith

      whole :
          take
            (length (wire_of target) + 3)
            (5 ∷ command ∷ 0 ∷ ([] ++ wire_of target) ++ drop (length (wire_of target)) zeros)
          ≡ request_packet command target
      whole = take-append_eq _ (request_packet command target) _ size

  -- A name of more than 255 bytes is refused before anything of the request is sent. The
  -- functions of the crates do what is documented.
  pub request_too_long :
      (command : ℕ) (d : DomainName) (t : TcpStream)
      → 255 < length d.name
      → request k command (domain_name d) t
        ≡ (err (io_error invalid_input "domain name too long"), t)
  unfolding request
  request_too_long command d t long =
      rw
        (write_addr_too_long k documented d fresh long
          (omega (arith, length-replicate {A = ℕ} 260 0)))
        refl
