-- ===== src/Tests/Addresses.antt =====
-- protocol/socks/socks5.rs: addresses.
use tache_rs.Prelude.{ℕ, ◌≡◌, refl, arith, List, [], ◌∷◌, ◌++◌, none, replicate}
use tache_rs.Std.Exec.{ok}
use tache_rs.Samples.{crates, crates-IsDocumented, local_address, site, site-IsAddress}
use tache_rs.Socks5.Address.{read_from}
use tache_rs.Socks5.Address.Wire.{wire, carried}
use tache_rs.Socks5.Address.Read.{stream, read_from-wire}
use tache_rs.Socks5.Address.Sound.{ReadsBack, read_from-ReadsBack}

read_from-wire_example :
    read_from crates (stream (wire site ++ 7 ∷ []) none) ≡ (ok (carried site), stream (7 ∷ []) none)
read_from-wire_example = read_from-wire crates crates-IsDocumented site (7 ∷ []) none site-IsAddress

abbrev long_name : List ℕ
long_name = replicate 256 b'a'

abbrev local_bytes : List ℕ
local_bytes = 1 ∷ 127 ∷ 0 ∷ 0 ∷ 1 ∷ 4 ∷ 56 ∷ 9 ∷ []

read_from-ReadsBack_example :
    ReadsBack (stream local_bytes none) (read_from crates (stream local_bytes none))
read_from-ReadsBack_example =
    read_from-ReadsBack crates crates-IsDocumented local_bytes none (omega arith)

local_wire : wire local_address ≡ (1 ∷ 127 ∷ []) ++ 0 ∷ 0 ∷ 1 ∷ 4 ∷ 56 ∷ []
unfolding wire
local_wire = refl
