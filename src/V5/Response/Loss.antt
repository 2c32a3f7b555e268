-- ===== src/V5/Response/Loss.antt =====
-- The buffered reader of `read_response` takes more from the socket than the response.
use tache_rs.Prelude.{
  ℕ, suc, ◌+◌, ◌≤◌, ◌≡◌, refl, ap, ◌∙◌, List, [], ◌∷◌, ◌++◌, length, min, arith, take-all, drop-all,
}
use tache_rs.Std.Exec.{ok, Outcome, continue, pure, ◌>>=◌}
use tache_rs.Std.Io.{IoError}
use tache_rs.Std.Tcp.{TcpStream, BufReader, with_capacity, next_byte, read_buffered}
use tache_rs.Crates.ByteOrder.{ByteOrder, IsDocumented, big_endian, by_big_endian}
use tache_rs.Utils.{Address}
use tache_rs.V5.Format.{IsTarget, received}
use tache_rs.V5.Wire.{parse_response, read_response}
use tache_rs.V5.Response.{success, parse_response-Same, response_success}

-- Everything that the socket holds, in the buffer.
abbrev all_buffered : TcpStream → List ℕ → BufReader
all_buffered t bytes = record {
  buffer = bytes;
  inner = record t { input = record t.input { bytes = [] } };
  capacity = 263;
}

module _ (t : TcpStream) (x : ℕ) (xs : List ℕ) where
  first_read :
      t.input.bytes ≡ x ∷ xs
      → suc (length xs) ≤ 263
      → length xs ≤ t.burst (suc (length xs))
      → next_byte (with_capacity 263 t) ≡ next_byte (all_buffered t (x ∷ xs))
  unfolding next_byte
  first_read e small burst =
      let enough : length (x ∷ xs) ≤ min 263 (suc (t.burst (length (x ∷ xs)))) = omega arith in
      rw (e, take-all _ (x ∷ xs) enough, drop-all _ (x ∷ xs) enough) refl

  first_buffered :
      t.input.bytes ≡ x ∷ xs
      → suc (length xs) ≤ 263
      → length xs ≤ t.burst (suc (length xs))
      → read_buffered 1 (with_capacity 263 t) ≡ read_buffered 1 (all_buffered t (x ∷ xs))
  unfolding read_buffered
  first_buffered e small burst =
      ap (λ p. continue p (λ y. read_buffered 0 >>= λ ys. pure (y ∷ ys))) (first_read e small burst)

  parse_first :
      t.input.bytes ≡ x ∷ xs
      → suc (length xs) ≤ 263
      → length xs ≤ t.burst (suc (length xs))
      → parse_response big_endian read_buffered (with_capacity 263 t)
        ≡ parse_response big_endian read_buffered (all_buffered t (x ∷ xs))
  unfolding parse_response
  parse_first e small burst = rw (first_buffered e small burst) refl

  drops_reference :
      t.input.bytes ≡ x ∷ xs
      → suc (length xs) ≤ 263
      → length xs ≤ t.burst (suc (length xs))
      → (read_response big_endian t).1.input.bytes ≡ []
  unfolding read_response
  drops_reference e small burst =
      ap (λ (p : Outcome IoError Address × BufReader). p.1.inner.input.bytes)
        (parse_first e small burst)
      ∙ parse_response-Same.drained (all_buffered t (x ∷ xs)) refl

-- When a response of success with a valid address and what the target sends behind it arrive
-- together, in at most 263 bytes, one read takes all of it: the address is returned and the
-- socket is left empty, so what the target sent can no longer be read. The functions of the
-- crates do what is documented.
pub response_drops_rest :
    (k : ByteOrder)
    → IsDocumented k
    → (a : Address) (rest : List ℕ) (t : TcpStream) → IsTarget a
    → t.input.bytes ≡ success a ++ rest
    → length t.input.bytes ≤ 263
    → length t.input.bytes ≤ t.burst (length t.input.bytes) + 1
    → ((read_response k t).0 ≡ ok (received a)) × ((read_response k t).1.input.bytes ≡ [])
response_drops_rest k documented a rest t h e small burst = (
  (response_success k documented a rest t h e).0,
  by_big_endian (λ b. (read_response b t).1.input.bytes ≡ []) k documented
      (drops_reference t 5 _ e (omega (arith, ap length e))
        (omega (arith, rw (ap length e) at burst))),
)
