-- ===== src/V5/Client.antt =====
-- protocol/socks/v5.rs: the TCP client, from the choice of a method to the stream through the proxy.
-- How the connection to the proxy is made, and how a target becomes an address, is not part of the
-- repository (`TcpStream::connect`, `ToTargetAddr`): their results are arguments.
pub mod Packets
pub mod Negotiate
pub mod Sends
pub mod Refuse
use tache_rs.Prelude.{
  ℕ, ◌+◌, ◌%◌, Bool, true, false, not, ◌&&◌, ◌||◌, List, [], ◌∷◌, length, take, replicate, ltb,
  ◌==◌, if◌then◌else◌,
}
use tache_rs.Std.Exec.{Exec, Outcome, ok, err, panicked, pure, ◌>>=◌, ◌>>◌, ensure, index, run_on}
use tache_rs.Std.Io.{IoError, io_error, other, invalid_data, invalid_input, permission_denied}
use tache_rs.Std.Array.{store, copy_from_slice, overwrite}
use tache_rs.Std.Slice.{contents}
use tache_rs.Std.Tcp.{TcpStream, read_exact, write_all}
use tache_rs.Crates.ByteOrder.{ByteOrder}
use tache_rs.Utils.{Address}
use tache_rs.V5.Wire.{max_addr_len, write_addr, read_response}

pub data Authentication : Type 0 where
  -- A user name and a password, both `str`: bytes in UTF-8.
  password : List ℕ → List ℕ → Authentication
  no_auth : Authentication

unfoldable pub id : Authentication → ℕ
id (password user pass) = 2
id no_auth = 0

unfoldable pub is_no_auth : Authentication → Bool
is_no_auth no_auth = true
is_no_auth (password user pass) = false

-- The first packet: the methods that the client offers.
unfoldable pub greeting : Authentication → List ℕ
unfolding is_no_auth id
greeting auth =
    let packet_len : ℕ = if is_no_auth auth then 3 else 4 in
    take packet_len (5 ∷ (if is_no_auth auth then 1 else 2) ∷ id auth ∷ 0 ∷ [])

unfoldable pub select_method : Authentication → Exec TcpStream IoError ℕ
unfolding greeting
select_method auth = do
  write_all (greeting auth)
  buf ← read_exact 2
  response_version ← index buf 0
  selected_method ← index buf 1
  ensure (response_version == 5) (io_error invalid_data "invalid response version")
  ensure (not (selected_method == 0xff)) (io_error other "no acceptable auth methods")
  ensure (selected_method == id auth || selected_method == id no_auth)
      (io_error other "unknown auth method")
  pure selected_method

-- The packet of RFC 1929, as it is built in an array of 515 bytes.
unfoldable pub credentials : List ℕ → List ℕ → Exec TcpStream IoError (List ℕ)
credentials user pass = do
  run_on (replicate 515 0) (do
    store 0 1
    store 1 (length user % 256)
    copy_from_slice 2 user
    store (2 + length user) (length pass % 256)
    copy_from_slice (3 + length user) pass
    λ packet. (pure (take (3 + length user + length pass) packet) packet))

unfoldable pub password_authentication : List ℕ → List ℕ → Exec TcpStream IoError Unit
unfolding credentials
password_authentication user pass = do
  ensure (not (ltb (length user) 1 || ltb 255 (length user)))
      (io_error invalid_input "invalid username")
  ensure (not (ltb (length pass) 1 || ltb 255 (length pass)))
      (io_error invalid_input "invalid password")
  packet ← credentials user pass
  write_all packet
  buf ← read_exact 2
  version ← index buf 0
  ensure (version == 1) (io_error invalid_data "invalid response version")
  status ← index buf 1
  ensure (status == 0) (io_error permission_denied "password authentication failed")

-- The password is sent only if the proxy chose that method.
unfoldable pub authenticate : Authentication → ℕ → Exec TcpStream IoError Unit
unfolding id password_authentication
authenticate (password user pass) selected t =
    if selected == id (password user pass) then password_authentication user pass t else (ok tt, t)
authenticate no_auth selected t = (ok tt, t)

module _ (k : ByteOrder) where
  -- The request, in an array of `max_addr_len + 3` bytes: the address goes behind the first three.
  unfoldable pub request : ℕ → Address → Exec TcpStream IoError (List ℕ)
  request command target =
      run_on (record { written = []; remaining = replicate max_addr_len 0 })
        (do
          len ← write_addr k target
          λ s. (pure (take (len + 3) (5 ∷ command ∷ 0 ∷ contents s)) s))

  -- What `connect_raw` does once it has a socket and an address.
  unfoldable pub negotiate : ℕ → Address → Authentication → Exec TcpStream IoError Address
  unfolding request
  negotiate command target auth = do
    selected ← select_method auth
    authenticate auth selected
    packet ← request command target
    write_all packet
    read_response k

pub record Socks5Stream : Type 0 where
  pub socket : TcpStream
  pub proxy_addr : Address

abbrev opened : Outcome IoError Address × TcpStream → Outcome IoError Socks5Stream
opened (ok a, t) = ok (record { socket = t; proxy_addr = a })
opened (err e, t) = err e
opened (panicked, t) = panicked

module _ (k : ByteOrder) where
  unfoldable pub connect_raw :
      ℕ
      → Outcome IoError TcpStream
      → Outcome IoError Address
      → Authentication
      → Outcome IoError Socks5Stream
  connect_raw command (ok socket) (ok target) auth = opened (negotiate k command target auth socket)
  connect_raw command (ok socket) (err e) auth = err e
  connect_raw command (ok socket) panicked auth = panicked
  connect_raw command (err e) target auth = err e
  connect_raw command panicked target auth = panicked

  unfoldable pub connect :
      Outcome IoError TcpStream → Outcome IoError Address → Outcome IoError Socks5Stream
  connect proxy target = connect_raw 1 proxy target no_auth

  unfoldable pub connect_with_password :
      Outcome IoError TcpStream
      → Outcome IoError Address
      → List ℕ
      → List ℕ
      → Outcome IoError Socks5Stream
  connect_with_password proxy target user pass = connect_raw 1 proxy target (password user pass)
