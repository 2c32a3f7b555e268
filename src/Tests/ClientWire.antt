-- ===== src/Tests/ClientWire.antt =====
-- protocol/socks/v5.rs: addresses and responses.
use tache_rs.Prelude.{All, ◌≡◌, ◌≤◌, refl, arith, [], ◌∷◌, ◌++◌, none, replicate, length}
use tache_rs.Std.Exec.{ok}
use tache_rs.Std.Tcp.{TcpStream}
use tache_rs.Std.Slice.{Slice}
use tache_rs.Crates.ByteOrder.{big_endian, big_endian-IsDocumented}
use tache_rs.Samples.{site_target, local_target, site-IsAddress, sink}
use tache_rs.Utils.{DomainName}
use tache_rs.Socks5.Address.Wire.{wire}
use tache_rs.V5.Format.{wire_of, received}
use tache_rs.V5.Wire.{read_response}
use tache_rs.V5.Response.{success}
use tache_rs.V5.Response.Sound.{IsRead, read_response-IsRead}
use tache_rs.Std.Net.{IsByte}
use tache_rs.V5.Response.Loss.{response_drops_rest}

abbrev room : Slice
room = record { written = []; remaining = replicate 20 0 }

local_fits : length (wire_of local_target) ≤ length room.remaining
unfolding wire
local_fits = omega arith

abbrev long_domain : DomainName
long_domain = record { name = replicate 300 b'a'; port = 80 }

-- The response and two bytes of the target, which arrive at once.
abbrev answered : TcpStream
answered = record {
  input = record { bytes = success site_target ++ 8 ∷ 9 ∷ []; fault = none };
  output = sink;
  burst = λ n. n;
}

answered-IsByte : All IsByte answered.input.bytes
unfolding wire
answered-IsByte = omega arith

read_response-IsRead_example : IsRead answered (read_response big_endian answered)
read_response-IsRead_example =
    read_response-IsRead big_endian big_endian-IsDocumented answered answered-IsByte

answered_small : length (success site_target ++ 8 ∷ 9 ∷ []) ≤ 263
unfolding wire
answered_small = omega arith

response_drops_rest_example :
    ((read_response big_endian answered).0 ≡ ok (received site_target))
    × ((read_response big_endian answered).1.input.bytes ≡ [])
response_drops_rest_example =
    response_drops_rest big_endian big_endian-IsDocumented site_target (8 ∷ 9 ∷ []) answered
      site-IsAddress refl answered_small (omega arith)
