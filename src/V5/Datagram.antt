-- ===== src/V5/Datagram.antt =====
-- protocol/socks/v5.rs: the UDP client, the BIND client, and what they add to the TCP client.
-- The vectored `writev` and `readv` of a `UdpSocket` are not part of the repository: the one is a
-- parameter, and of the other the result is an argument.
pub mod Associate
pub mod Listen
pub mod Payload
pub mod Receive
pub mod Overrun
use tache_rs.Prelude.{
  ℕ, ◌+◌, ◌-◌, List, [], ◌∷◌, ◌++◌, length, take, drop, replicate, min, ltb, ◌==◌, if◌then◌else◌,
  Option, none, some,
}
use tache_rs.Std.Exec.{
  Exec, Outcome, ok, err, panicked, pure, panic, ◌>>=◌, ◌>>◌, ensure, run_on, total,
}
use tache_rs.Std.Io
use tache_rs.Std.Io.{Reader, IoError, io_error, invalid_data}
use tache_rs.Std.Net.{SocketAddr, v4, v6}
use tache_rs.Std.Slice.{contents}
use tache_rs.Std.Array.{overwrite}
use tache_rs.Std.Tcp.{TcpStream}
use tache_rs.Crates.ByteOrder.{ByteOrder}
use tache_rs.Utils.{Address, socket_addr}
use tache_rs.V5.Wire.{max_addr_len, read_addr, write_addr, read_response}
use tache_rs.V5.Client.{Authentication, no_auth, password, Socks5Stream, connect_raw}

-- `Socks5Listener` is a `Socks5Stream` that waits for its peer.
module _ (k : ByteOrder) where
  unfoldable pub bind_listener :
      Outcome IoError TcpStream
      → Outcome IoError Address
      → Authentication
      → Outcome IoError Socks5Stream
  bind_listener proxy target auth = connect_raw k 2 proxy target auth

  -- The second response, with the address of the peer, takes the place of the first.
  unfoldable pub accept : Exec Socks5Stream IoError Unit
  accept s = accepted (read_response k s.socket)
    where
      accepted : Outcome IoError Address × TcpStream → Outcome IoError Unit × Socks5Stream
      accepted (ok a, t) = (ok tt, record { socket = t; proxy_addr = a })
      accepted (err e, t) = (err e, record s { socket = t })
      accepted (panicked, t) = (panicked, record s { socket = t })

-- The association is asked for from the address 0.0.0.0:0.
abbrev pub unspecified : Address
unspecified = socket_addr (v4 (record { ip = record { a = 0; b = 0; c = 0; d = 0 }; port = 0 }))

-- A datagram socket that is connected to the proxy.
pub record UdpSocket : Type 0 where
  pub sent : List (List ℕ)

pub record Socks5Datagram : Type 0 where
  pub socket : UdpSocket
  pub stream : Socks5Stream

abbrev pub attach :
    Socks5Stream
    → Outcome IoError UdpSocket
    → (Address → UdpSocket → Outcome IoError UdpSocket)
    → Outcome IoError Socks5Datagram
attach stream (err e) connect = err e
attach stream panicked connect = panicked
attach stream (ok socket) connect = connected (connect stream.proxy_addr socket)
  where
    connected : Outcome IoError UdpSocket → Outcome IoError Socks5Datagram
    connected (ok s) = ok (record { socket = s; stream = stream })
    connected (err e) = err e
    connected panicked = panicked

module _ (k : ByteOrder) where
  -- `bound` is the result of `UdpSocket::bind(addr)`, and `connect` is `UdpSocket::connect`.
  unfoldable pub bind_internal :
      Outcome IoError TcpStream
      → Outcome IoError UdpSocket
      → (Address → UdpSocket → Outcome IoError UdpSocket)
      → Authentication
      → Outcome IoError Socks5Datagram
  bind_internal proxy bound connect auth = associated (connect_raw k 3 proxy (ok unspecified) auth)
    where
      associated : Outcome IoError Socks5Stream → Outcome IoError Socks5Datagram
      associated (ok stream) = attach stream bound connect
      associated (err e) = err e
      associated panicked = panicked

  -- The header is in an array of `max_addr_len + 3` zeros: two reserved bytes and the fragment stay 0.
  unfoldable pub send_to :
      (List ℕ → List ℕ → Exec UdpSocket IoError ℕ)
      → List ℕ
      → Outcome IoError Address
      → Exec UdpSocket IoError ℕ
  send_to writev buf (err e) s = (err e, s)
  send_to writev buf panicked s = (panicked, s)
  send_to writev buf (ok addr) s =
      (do
        header ←
            run_on (record { written = []; remaining = replicate max_addr_len 0 })
              (do len ← write_addr k addr; λ h. (pure (take (len + 3) (0 ∷ 0 ∷ 0 ∷ contents h)) h))
        writev header buf)
        s

-- How `recv_from` ends. `out_of_bounds` is the copy through raw pointers, where it writes behind the
-- end of the caller's buffer.
pub data Received : Type 0 where
  delivered : ℕ → Address → List ℕ → Received
  failed : IoError → Received
  panics : Received
  out_of_bounds : Received

-- `ptr::copy` of the first `n` bytes of the buffer to the place `i` in it.
unfoldable pub copy_within : ℕ → ℕ → List ℕ → Option (List ℕ)
copy_within i n buf = if n == 0 then some buf else overwrite i (take n buf) buf

-- Make room for the part of the payload that came with the header, and put it there.
abbrev pub place : ℕ → List ℕ → Address → Option (List ℕ) → Received
place overflow header addr none = out_of_bounds
place overflow header addr (some buf) = settle (overwrite 0 header buf)
  where
    settle : Option (List ℕ) → Received
    settle none = panics
    settle (some b) = delivered (length header + overflow) addr b

module _ (k : ByteOrder) where
  -- `header` as a reader, up to the end of the address.
  unfoldable pub parse_header : Exec Reader IoError Address
  parse_header = do
    reserved ← k.read_u16 Reader Io.read_exact
    ensure (reserved == 0) (io_error invalid_data "invalid reserved bytes")
    frag ← k.read_u8 Reader Io.read_exact
    ensure (frag == 0) (io_error invalid_data "invalid fragment id")
    read_addr k Io.read_exact

  unfoldable pub deliver : ℕ → List ℕ → Outcome IoError Address × Reader → Received
  unfolding copy_within
  deliver overflow buf (ok addr, rest) =
      place overflow rest.bytes addr (copy_within (length rest.bytes) overflow buf)
  deliver overflow buf (err e, rest) = failed e
  deliver overflow buf (panicked, rest) = panics

  -- `readv` fills the header of `max_addr_len + 3` bytes first, then the caller's buffer.
  unfoldable pub recv_from :
      (List ℕ → List ℕ → Exec UdpSocket IoError (ℕ × List ℕ × List ℕ))
      → List ℕ
      → UdpSocket
      → Received
  unfolding parse_header deliver
  recv_from readv buf s = got (readv (replicate (max_addr_len + 3) 0) buf s)
    where
      got : Outcome IoError (ℕ × List ℕ × List ℕ) × UdpSocket → Received
      got (ok (len, header, buf'), s') =
          let overflow = len - 263 in
          let header_len = min 263 len in
          deliver overflow buf'
            (parse_header (record { bytes = take header_len header; fault = none }))
      got (err e, s') = failed e
      got (panicked, s') = panics
