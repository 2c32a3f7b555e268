-- ===== src/Tuntap/SockAddr/RoundTrip.antt =====
-- An IPv4 address goes through the system's structure and comes back.
use tache_rs.Prelude.{ℕ, ◌+◌, ◌*◌, ◌/◌, ◌%◌, ◌≡◌, refl, arith, All, take, drop}
use tache_rs.Std.Exec.{ok}
use tache_rs.Std.Net.{Ipv4Addr, IsByte, octets_v4}
use tache_rs.Tuntap.SockAddr.{new, unchecked, from_ipv4, into_ipv4, into_sockaddr}

abbrev word : Ipv4Addr → ℕ
word ip = ip.d * 0x1000000 + ip.c * 0x10000 + ip.b * 0x100 + ip.a

module _ (ip : Ipv4Addr) (h : All IsByte (octets_v4 ip)) where
  lowest : word ip % 256 ≡ ip.a
  lowest = omega arith

  second : word ip / 256 % 256 ≡ ip.b
  second = omega arith

  third : word ip / 0x10000 % 256 ≡ ip.c
  third = omega arith

  highest : word ip / 0x1000000 % 256 ≡ ip.d
  highest = omega arith

  together : ip.a + 256 * (ip.b + 256 * (ip.c + 256 * (ip.d + 256 * 0))) ≡ word ip
  together = omega arith

-- An address of four octets stands in the memory of the system's structure in network order;
-- read back from there, with the check of the family, it is the same structure and the same
-- address.
pub sockaddr_round_trip :
    (ip : Ipv4Addr)
    → All IsByte (octets_v4 ip)
    → (take 4 (drop 2 (into_sockaddr (from_ipv4 ip)).sa_data) ≡ octets_v4 ip)
      × (new (into_sockaddr (from_ipv4 ip)) ≡ ok (from_ipv4 ip))
      × (into_ipv4 (from_ipv4 ip) ≡ ip)
unfolding new unchecked from_ipv4 into_ipv4 into_sockaddr
sockaddr_round_trip ip h = (
  rw (lowest ip h, second ip h, third ip h, highest ip h) refl,
  rw (lowest ip h, second ip h, third ip h, highest ip h, together ip h) refl,
  (λ i. record { a = lowest ip h i; b = second ip h i; c = third ip h i; d = highest ip h i }),
)

-- Without the check of the family the address is the same whatever the family says.
pub unchecked_any_family :
    (ip : Ipv4Addr) (family : ℕ)
    → All IsByte (octets_v4 ip)
    → into_ipv4 (unchecked (record (into_sockaddr (from_ipv4 ip)) { sa_family = family })) ≡ ip
unfolding unchecked from_ipv4 into_ipv4 into_sockaddr
unchecked_any_family ip family h =
    rw (lowest ip h, second ip h, third ip h, highest ip h, together ip h)
      (λ i. record { a = lowest ip h i; b = second ip h i; c = third ip h i; d = highest ip h i })
