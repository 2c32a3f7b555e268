-- ===== src/V5/Access.antt =====
-- protocol/socks/v5.rs: the sockets inside of a stream, a listener and a datagram socket, and the calls that are
-- passed on to them.
use tache_rs.Prelude.{ℕ, List}
use tache_rs.Std.Exec.{Exec, Outcome}
use tache_rs.Std.Io.{IoError}
use tache_rs.Std.Tcp.{TcpStream}
use tache_rs.Crates.ByteOrder.{ByteOrder}
use tache_rs.Utils.{Address}
use tache_rs.V5.Client.{no_auth, password, Socks5Stream}
use tache_rs.V5.Datagram.{UdpSocket, Socks5Datagram, bind_internal}

-- `Socks5Stream`
abbrev pub proxy_addr : Socks5Stream → Address
proxy_addr s = s.proxy_addr

abbrev pub get_ref : Socks5Stream → TcpStream
get_ref s = s.socket

-- Putting another socket where `get_mut` points.
abbrev pub get_mut : (TcpStream → TcpStream) → Socks5Stream → Socks5Stream
get_mut f s = record s { socket = f s.socket }

abbrev pub into_inner : Socks5Stream → TcpStream
into_inner s = s.socket

module _ {A : Type 0} where
  abbrev on_socket : Socks5Stream → Outcome IoError A × TcpStream → Outcome IoError A × Socks5Stream
  on_socket s (o, t) = (o, record s { socket = t })

  -- `Read` and `Write`: a call of the socket, which is a parameter, with the socket that it leaves.
  abbrev pub passed_on : Exec TcpStream IoError A → Exec Socks5Stream IoError A
  passed_on call s = on_socket s (call s.socket)

abbrev pub read : (ℕ → Exec TcpStream IoError (List ℕ)) → ℕ → Exec Socks5Stream IoError (List ℕ)
read tcp_read n = passed_on (tcp_read n)

abbrev pub write : (List ℕ → Exec TcpStream IoError ℕ) → List ℕ → Exec Socks5Stream IoError ℕ
write tcp_write buf = passed_on (tcp_write buf)

abbrev pub flush : Exec TcpStream IoError (Unit {0}) → Exec Socks5Stream IoError (Unit {0})
flush tcp_flush = passed_on tcp_flush

-- `Socks5Listener`, which is a stream whose answer is still to come.
abbrev pub listener_proxy_addr : Socks5Stream → Address
listener_proxy_addr s = s.proxy_addr

-- `Socks5Datagram`
abbrev pub datagram_proxy_addr : Socks5Datagram → Address
datagram_proxy_addr d = d.stream.proxy_addr

abbrev pub datagram_get_ref : Socks5Datagram → UdpSocket
datagram_get_ref d = d.socket

abbrev pub datagram_get_mut : (UdpSocket → UdpSocket) → Socks5Datagram → Socks5Datagram
datagram_get_mut f d = record d { socket = f d.socket }

module _ (k : ByteOrder) where
  unfoldable pub bind :
      Outcome IoError TcpStream
      → Outcome IoError UdpSocket
      → (Address → UdpSocket → Outcome IoError UdpSocket)
      → Outcome IoError Socks5Datagram
  unfolding bind_internal
  bind proxy bound connect = bind_internal k proxy bound connect no_auth

  unfoldable pub bind_with_password :
      Outcome IoError TcpStream
      → Outcome IoError UdpSocket
      → (Address → UdpSocket → Outcome IoError UdpSocket)
      → List ℕ
      → List ℕ
      → Outcome IoError Socks5Datagram
  unfolding bind_internal
  bind_with_password proxy bound connect user pass =
      bind_internal k proxy bound connect (password user pass)
