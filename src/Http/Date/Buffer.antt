-- ===== src/Http/Date/Buffer.antt =====
-- protocol/http/http.rs: what `write!` to the buffer of the date adds to it.
use tache_rs.Prelude.{
  ℕ, ◌+◌, ◌≤◌, ◌≡◌, refl, sym, ap, ◌∙◌, List, [], ◌∷◌, ◌++◌, length, take, drop, length-append,
  length-take, length-drop, take-append_eq, append_assoc, append-nil, arith,
}
use tache_rs.Std.Exec.{ok}
use tache_rs.Std.Array.{overwrite_lem}
use tache_rs.Http.Date.{LastRenderedNow, join, write_str, write_pieces}

-- The bytes in use.
abbrev pub used : LastRenderedNow → List ℕ
used c = take c.amt c.bytes

-- From `c` to `d`, the text `s` was added to the bytes in use.
pub record Adds (c d : LastRenderedNow) (s : List ℕ) : Type 0 where
  pub used_lem : used d ≡ used c ++ s
  pub amt_lem : d.amt ≡ c.amt + length s
  pub size_lem : length d.bytes ≡ length c.bytes
  pub next_lem : d.next_update ≡ c.next_update

module _ {E : Type 0} where
  write_str_lem :
      (s : List ℕ) (c : LastRenderedNow)
      → c.amt + length s ≤ length c.bytes
      → (d : LastRenderedNow) × (write_str {E = E} s c ≡ (ok tt, d)) × Adds c d s
  unfolding write_str
  write_str_lem s c h =
      let front = take c.amt c.bytes in
      let rest = drop (c.amt + length s) c.bytes in
      let size : length front ≡ c.amt = omega (arith, length-take c.amt c.bytes) in
      let whole : length (front ++ (s ++ rest)) ≡ length c.bytes = omega (
        arith,
        length-append front (s ++ rest),
        length-append s rest,
        length-drop (c.amt + length s) c.bytes,
      ) in
      (
        record c { bytes = front ++ (s ++ rest); amt = c.amt + length s },
        rw (overwrite_lem c.amt s c.bytes h) refl,
        record {
          used_lem =
              ap (take (c.amt + length s)) (sym (append_assoc front s rest))
              ∙ take-append_eq (c.amt + length s) (front ++ s) rest
                  (omega (arith, length-append front s));
          amt_lem = refl;
          size_lem = whole;
          next_lem = refl;
        },
      )

  pub write_pieces_lem :
      (pieces : List (List ℕ)) (c : LastRenderedNow)
      → c.amt + length (join pieces) ≤ length c.bytes
      → (d : LastRenderedNow) × (write_pieces {E = E} pieces c ≡ (ok tt, d))
        × Adds c d (join pieces)
  unfolding write_pieces
  write_pieces_lem [] c h = (
    c,
    refl,
    record {
      used_lem = sym (append-nil (used c));
      amt_lem = omega arith;
      size_lem = refl;
      next_lem = refl;
    },
  )
  write_pieces_lem (piece ∷ pieces) c h =
      let len = length-append piece (join pieces) in
      let (d, e, a) = write_str_lem piece c (omega (arith, len)) in
      let (d', e', a') = write_pieces_lem pieces d (omega (arith, len, a.amt_lem, a.size_lem)) in
      (
        d',
        rw (e, e') refl,
        record {
          used_lem =
              a'.used_lem
              ∙ ap (λ (u : List ℕ). u ++ join pieces) a.used_lem
              ∙ append_assoc (used c) piece (join pieces);
          amt_lem = omega (arith, len, a.amt_lem, a'.amt_lem);
          size_lem = a'.size_lem ∙ a.size_lem;
          next_lem = a'.next_lem ∙ a.next_lem;
        },
      )
