-- ===== src/Http/Date/Cache.antt =====
-- protocol/http/http.rs: what the cache of the date holds, and that its texts are the right ones.
use tache_rs.Prelude.{
  ℕ, ◌+◌, ◌≤◌, ◌≡◌, ◌⊎◌, refl, sym, subst, ap, ◌∙◌, true, false, List, [], ◌∷◌, length, map,
  length-replicate, Bool-cases, inl, inr, arith, le→leb,
}
use tache_rs.Std.Exec.{ok}
use tache_rs.Std.Utf8.{IsUtf8-ascii}
use tache_rs.Http.Date.{
  Timespec, TimeCrate, IsDocumented, LastRenderedNow, join, at_or_after, update, buffer, fmt,
  fmt_all, initial,
}
use tache_rs.Http.Date.Buffer.{used, write_pieces_lem}

-- The text of an instant.
abbrev pub rendered : TimeCrate → Timespec → List ℕ
rendered t now = join (t.rfc822 now)

-- The cache holds the text of `u`, until the second after it.
pub record Holds (t : TimeCrate) (c : LastRenderedNow) (u : Timespec) : Type 0 where
  used_lem : used c ≡ rendered t u
  room : c.amt ≤ length c.bytes
  until : c.next_update ≡ record { sec = u.sec + 1; nsec = 0 }

-- What every call leaves: the array has its size, and the cache is new or holds the text of a time.
abbrev pub IsCache : TimeCrate → LastRenderedNow → Type 0
IsCache t c =
    (length c.bytes ≡ 128)
    × ((c.next_update ≡ record { sec = 0; nsec = 0 }) ⊎ ((u : Timespec) × Holds t c u))

after_zero : (now : Timespec) → at_or_after now (record { sec = 0; nsec = 0 }) ≡ true
after_zero now = ground arith

before_next :
    (now u : Timespec)
    → at_or_after now (record { sec = u.sec + 1; nsec = 0 }) ≡ false
    → now.sec ≤ u.sec
before_next now u h = ground arith

module _ {E : Type 0} (t : TimeCrate) (doc : IsDocumented t) where
  update_lem :
      (now : Timespec) (c : LastRenderedNow)
      → length c.bytes ≡ 128
      → (d : LastRenderedNow) × (update {E = E} t now c ≡ (ok tt, d))
        × (length d.bytes ≡ 128)
        × Holds t d now
  unfolding update
  update_lem now c h =
      let (d, e, a) =
        write_pieces_lem {E = E} (t.rfc822 now) (record c { amt = 0 })
          (omega (arith, h, doc.fits now)) in
      (
        record d { next_update = record (t.plus_seconds 1 now) { nsec = 0 } },
        rw e refl,
        a.size_lem ∙ h,
        record {
          used_lem = a.used_lem;
          room = omega (arith, a.amt_lem, a.size_lem, h, doc.fits now);
          until = rw (doc.plus_lem 1 now) refl;
        },
      )

  buffer_lem :
      (c : LastRenderedNow) (u : Timespec) → Holds t c u → buffer {E = E} c ≡ (ok (rendered t u), c)
  unfolding buffer
  buffer_lem c u h =
      rw
        (
          le→leb c.amt (length c.bytes) h.room,
          h.used_lem,
          IsUtf8-ascii (rendered t u) (doc.ascii u),
        )
        refl

  fmt_renders :
      (now : Timespec) (c : LastRenderedNow)
      → length c.bytes ≡ 128
      → at_or_after now c.next_update ≡ true
      → (d : LastRenderedNow) × (fmt {E = E} t now c ≡ (ok (rendered t now), d))
        × (length d.bytes ≡ 128)
        × Holds t d now
  unfolding fmt
  fmt_renders now c h late =
      let (d, e, size, holds) = update_lem now c h in
      (d, rw (doc.reached_lem now c.next_update, late, e) (buffer_lem d now holds), size, holds)

  fmt_keeps :
      (now u : Timespec) (c : LastRenderedNow)
      → Holds t c u
      → at_or_after now c.next_update ≡ false
      → fmt {E = E} t now c ≡ (ok (rendered t u), c)
  unfolding fmt
  fmt_keeps now u c holds early =
      rw (doc.reached_lem now c.next_update, early) (buffer_lem c u holds)

  -- Whatever the clock says, a call does not panic, keeps the cache as it should be, and gives
  -- the text of an instant whose second is not before that of the clock. The functions of the
  -- crates do what is documented.
  pub fmt-IsCache :
      (now : Timespec) (c : LastRenderedNow)
      → IsCache t c
      → (u : Timespec) × ((fmt {E = E} t now c).0 ≡ ok (rendered t u))
        × (now.sec ≤ u.sec)
        × IsCache t (fmt {E = E} t now c).1
  fmt-IsCache now c (size, held) = elim (Bool-cases (at_or_after now c.next_update)) [
    | inl late ↦
        let (d, e, size', holds) = fmt_renders now c size late in
        (
          now,
          ap (λ r. r.0) e,
          omega arith,
          subst (λ r. IsCache t r.1) (sym e) (size', inr (now, holds)),
        )
    | inr early ↦ elim held [
      | inl new ↦ let f : true ≡ false = sym (after_zero now) ∙ (rw new at early) in cc
      | inr (u, holds) ↦
          let e = fmt_keeps now u c holds early in
          (
            u,
            ap (λ r. r.0) e,
            before_next now u (rw holds.until at early),
            subst (λ r. IsCache t r.1) (sym e) (size, inr (u, holds)),
          )
    ]
  ]

-- The seconds of the clock, from `sec` on, do not go back.
abbrev pub Ascends : ℕ → List Timespec → Type 0
Ascends sec [] = Unit
Ascends sec (now ∷ times) = (sec ≤ now.sec) × Ascends now.sec times

-- A cache whose text, if it has one, is of the second `sec` at the latest.
abbrev IsSince : TimeCrate → ℕ → LastRenderedNow → Type 0
IsSince t sec c =
    (length c.bytes ≡ 128)
    × ((c.next_update ≡ record { sec = 0; nsec = 0 })
        ⊎ ((u : Timespec) × (u.sec ≤ sec) × Holds t c u))

module _ {E : Type 0} (t : TimeCrate) (doc : IsDocumented t) where
  fmt-IsSince :
      (sec : ℕ) (now : Timespec) (c : LastRenderedNow)
      → IsSince t sec c
      → sec ≤ now.sec
      → (d : LastRenderedNow) × (fmt {E = E} t now c ≡ (ok (rendered t now), d))
        × IsSince t now.sec d
  fmt-IsSince sec now c (size, held) h = elim (Bool-cases (at_or_after now c.next_update)) [
    | inl late ↦
        let (d, e, size', holds) = fmt_renders t doc now c size late in
        (d, e, (size', inr (now, omega arith, holds)))
    | inr early ↦ elim held [
      | inl new ↦ let f : true ≡ false = sym (after_zero now) ∙ (rw new at early) in cc
      | inr (u, before, holds) ↦
          let le = before_next now u (rw holds.until at early) in
          let same : rendered t u ≡ rendered t now = ap join (doc.by_second u now (omega arith)) in
          (
            c,
            rw (← same) (fmt_keeps t doc now u c holds early),
            (size, inr (u, omega arith, holds)),
          )
    ]
  ]

  fmt_all_lem :
      (times : List Timespec) (sec : ℕ) (c : LastRenderedNow)
      → IsSince t sec c
      → Ascends sec times
      → (d : LastRenderedNow) × (fmt_all {E = E} t times c ≡ (ok (map (rendered t) times), d))
  fmt_all_lem [] sec c h up = (c, refl)
  fmt_all_lem (now ∷ times) sec c h up =
      let (d, e, since) = fmt-IsSince sec now c h up.0 in
      let (d', e') = fmt_all_lem times now.sec d since up.1 in (d', rw (e, e') refl)

  -- While the seconds of the clock do not go back, every call of a thread, from its first one
  -- on, gives the text of the time at which it is made, as if nothing were kept, and none
  -- panics. The functions of the crates do what is documented.
  pub fmt_all-rendered :
      (times : List Timespec)
      → Ascends 0 times
      → (fmt_all {E = E} t times initial).0 ≡ ok (map (rendered t) times)
  fmt_all-rendered times up =
      ap (λ r. r.0) (fmt_all_lem times 0 initial (length-replicate {A = ℕ} 128 0, inl refl) up).1
