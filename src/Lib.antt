-- ===== src/Lib.antt =====
-- The program is tache: a proxy that takes connections in several protocols and passes them on, and
-- tuntap, the crate that gives it network interfaces. This library models the parts that have their
-- own logic, as functions from the text of the Rust code, and proves what each promises.
--
-- Parts, and how they meet. The program (tache/src/bin/local.rs) reads a configuration
-- (tache/src/config.rs) and runs the engine (tache/src/engine/mod.rs), which starts a server for each
-- address of each inbound. A server accepts connections and spawns a task for each, which decodes
-- requests with the HTTP codec (tache/src/protocol/http/http.rs) and looks for an outbound. The
-- server's side of SOCKS 5 reads and writes the packets of RFC 1928 asynchronously
-- (tache/src/protocol/socks/socks5.rs). The client's side (tache/src/protocol/socks/v5.rs) opens a
-- stream, a listener or a datagram socket through a proxy, with addresses of its own type
-- (tache/src/utils.rs), in the same wire format. Names are resolved with the name servers of the
-- configuration (tache/src/dns_resolver.rs, tache/src/context.rs). tuntap sets up an interface of the
-- system (tuntap/src/platform/linux/device.rs and macos/device.rs) from a configuration
-- (tuntap/src/configuration.rs) with the descriptors and structures of POSIX
-- (tuntap/src/platform/posix/fd.rs, split.rs and sockaddr.rs).
--
-- Files.
--   Prelude      names of the libraries, Boolean tests, lists over the native numbers
--   Std          the standard library as far as the code uses it: Exec (results, errors, panics and a
--                state), Io (a stream as the bytes still to come), Net, Tcp (with BufReader), Slice,
--                Array (writing into an array by index), Text, Parse, Utf8, Int
--   Crates       tokio and bytes (Async), byteorder (ByteOrder): parameters, with their documented
--                behaviour as hypotheses, and functions that have it
--   Socks5       socks5.rs: Consts, Command, Reply, Error, Address, and a module for each packet,
--                whose read_from, write_to, write_to_buf and serialized_len have these names
--   V5           v5.rs: Wire (read_addr, read_response, write_addr), Client (connect_raw as negotiate
--                behind the connection, password_authentication), Datagram (the listener, bind_internal,
--                send_to, recv_from), Access (what is passed on to a socket)
--   Utils        utils.rs: Name (DomainName), Target (Address and its Iter)
--   Config       config.rs: Words (Mode, LogLevel, DNSMode, InboundKind), Types, Dns (get_dns_config),
--                Load (load_from_str, load_from_file)
--   Http         http.rs: Date (LastRenderedNow and the Display of Now), Encode (the Encoder, and a
--                receiver of its messages), Decode (the Decoder, and the requests of a stream)
--   Engine       engine/mod.rs: Meta (build_connection_meta), Serve (a round of the loop of a
--                connection), Server (single_run_http and its like, with their tasks), Run, Respond
--   Resolve      dns_resolver.rs and context.rs
--   Program      bin/local.rs, and bin/logging/mod.rs in Logging
--   Tuntap       SockAddr, Fd, Split (the halves of a device), Builder (the configuration), Opening
--                (what the two systems share in Device::new), Device (Linux) and Macos, with
--                Device::new in their modules Create
--   Samples, Tests
--                inputs, and the code run on them
--
-- Conventions. A byte, a port and a machine word are native numbers; where the code casts, the
-- wrap-around is written out, and where a theorem needs the bound it is a hypothesis. A `String` is
-- its bytes in UTF-8. `?` is the bind of Exec, a panic is an outcome of its own, and a state that was
-- changed before an error stays changed. An asynchronous function is the sequence of its awaited
-- steps, which nothing else can come between: each has its stream to itself. The tasks of a server do
-- interleave: its states are related by steps, each the arrival of a connection or of bytes, a round
-- of one task, or an end, in any order. A stream gives its bytes and then its end or a fault; how many
-- of them one read of a TCP stream gives is left open. In tuntap the state of the system is a type of
-- any kind, the system calls are parameters on it, and the machine is little-endian. A copy through
-- raw pointers that leaves its array is an outcome, not a run: out_of_bounds in recv_from, a panic in
-- tuntap's requests. The clock of the date is not before 1970.
--
-- Bounds and fuel. Loops are recursions on lists. The digits of a number are taken with as much fuel
-- as the number and one more, which is enough since each digit divides it by ten; the loop over
-- addresses has fuel in its statement. The decoder is asked for requests once more than the buffer has
-- bytes, which is enough since each request takes at least one, and the receiver of a message reads at
-- most as many lines as it has bytes, and one more. The arrays of the code have their sizes: 260 bytes
-- for an address and 3 in front of it, 515 for a password packet, 16 for the name of an interface, 128
-- for a date, 16 headers of a request.
--
-- Parameters. TcpStream::connect, UdpSocket::bind and connect, ToTargetAddr and the system's resolver
-- are given by their results; the vectored writev and readv, the parser of SocketAddr and of IpAddr, the
-- text of a SocketAddr,
-- the crates trust-dns, httparse, http, time, serde_yaml and serde_json, the files, the runtime and
-- the signal of the program, select_all, the system calls of tuntap, and the configure of a new
-- interface by functions.
--
-- Not modelled: Debug and Display of errors, the instances of serde, the parsing of the command line
-- and the writing of the log, the registration with mio, and the numbers of the ioctl calls. The
-- modules for inbounds, rules, shadowsocks and vmess have no code yet.
pub mod Prelude
pub mod Std
pub mod Crates
pub mod Socks5
pub mod Utils
pub mod V5
pub mod Config
pub mod Http
pub mod Engine
pub mod Resolve
pub mod Program
pub mod Tuntap
pub mod Samples
pub mod Tests
