-- ===== src/Tests/ClientDialogue.antt =====
-- protocol/socks/v5.rs: the dialogue of the client with the proxy.
use tache_rs.Prelude.{ℕ, length, ◌≡◌, arith, List, [], ◌∷◌, ◌++◌, none, replicate}
use tache_rs.Std.Exec.{ok}
use tache_rs.Crates.ByteOrder.{big_endian, big_endian-IsDocumented}
use tache_rs.Samples.{site_target, local_target, local_address-IsAddress, site-IsAddress}
use tache_rs.Utils.{DomainName}
use tache_rs.V5.Response.{success}
use tache_rs.V5.Client.{Authentication, password, negotiate}
use tache_rs.V5.Client.Packets.{credentials_packet, request_packet}
use tache_rs.V5.Client.Negotiate.{
  first_packet, proxy, Connected, negotiate_no_auth, negotiate_password,
}
use tache_rs.V5.Client.Refuse.{negotiate_offered}

abbrev user : List ℕ
user = b'u' ∷ b's' ∷ []

abbrev pass : List ℕ
pass = b'p' ∷ []

abbrev secret : Authentication
secret = password user pass

abbrev one_by_one : ℕ → ℕ
one_by_one n = 0

abbrev endless : DomainName
endless = record { name = replicate 300 b'a'; port = 80 }

negotiate_no_auth_example :
    Connected none one_by_one
      (negotiate big_endian 1 site_target secret
        (proxy none one_by_one (5 ∷ 0 ∷ success local_target ++ 8 ∷ []) []))
      local_target
      ([] ++ first_packet secret ++ request_packet 1 site_target)
      (8 ∷ [])
negotiate_no_auth_example =
    negotiate_no_auth none one_by_one big_endian big_endian-IsDocumented 1 site_target local_target
      secret (8 ∷ []) [] site-IsAddress local_address-IsAddress

negotiate_password_example :
    Connected none one_by_one
      (negotiate big_endian 1 site_target secret
        (proxy none one_by_one (5 ∷ 2 ∷ 1 ∷ 0 ∷ success local_target ++ 8 ∷ []) []))
      local_target
      ([] ++ first_packet secret ++ credentials_packet user pass ++ request_packet 1 site_target)
      (8 ∷ [])
negotiate_password_example =
    negotiate_password none one_by_one big_endian big_endian-IsDocumented 1 site_target local_target
      user pass (8 ∷ []) [] site-IsAddress local_address-IsAddress (omega arith) (omega arith)

abbrev answer : List ℕ
answer = 5 ∷ 0 ∷ success local_target ++ []

connected :
    (negotiate big_endian 1 site_target secret (proxy none one_by_one answer [])).0
    ≡ ok local_target
connected =
    (negotiate_no_auth none one_by_one big_endian big_endian-IsDocumented 1 site_target local_target
      secret [] [] site-IsAddress local_address-IsAddress).address

negotiate_offered_example :
    (m : ℕ) × (rest : List ℕ) × (before : List ℕ) × (after : List ℕ) × (more : List ℕ) × (answer
      ≡ 5 ∷ m ∷ rest)
    × ((negotiate big_endian 1 site_target secret
          (proxy none one_by_one answer [])).1.output.written
        ≡ (5 ∷ length (before ++ m ∷ after) ∷ (before ++ m ∷ after)) ++ more)
negotiate_offered_example =
    negotiate_offered none one_by_one big_endian big_endian-IsDocumented 1 site_target local_target
      secret answer [] connected

abbrev endless_pass : List ℕ
endless_pass = replicate 256 b'p'
