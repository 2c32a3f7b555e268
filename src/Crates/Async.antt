-- ===== src/Crates/Async.antt =====
-- The crates tokio and bytes, as far as protocol/socks/socks5.rs uses them. Their code is not part
-- of the repository: the functions are parameters, and `IsDocumented` says what they promise.
use tache_rs.Prelude.{
  ℕ, ◌+◌, ◌*◌, ◌/◌, ◌%◌, ◌≡◌, refl, sym, subst, List, [], ◌∷◌, ◌++◌, length, take, drop, leb,
  if◌then◌else◌,
}
use tache_rs.Std.Exec.{Exec, Never, ok, panicked}
use tache_rs.Std.Io
use tache_rs.Std.Io.{Reader, Writer, IoError}

-- A `BytesMut`: what it holds, and how much it can hold before a `put` panics.
pub record BytesMut : Type 0 where
  pub filled : List ℕ
  pub capacity : ℕ

pub record AsyncCrates : Type 0 where
  -- `AsyncReadExt::read_exact` into a buffer of the given size, and `AsyncWriteExt::write_all`.
  pub read_exact : ℕ → Exec Reader IoError (List ℕ)
  pub write_all : List ℕ → Exec Writer IoError Unit
  pub with_capacity : ℕ → BytesMut
  -- `BufMut`: a `put` writes or panics.
  pub put_u8 : ℕ → Exec BytesMut Never Unit
  pub put_u16_be : ℕ → Exec BytesMut Never Unit
  pub put_slice : List ℕ → Exec BytesMut Never Unit
  -- `Buf` over a cursor, whose state is the list of the bytes ahead of it.
  pub get_u8 : Exec (List ℕ) Never ℕ
  pub get_u16_be : Exec (List ℕ) Never ℕ
  -- `Buf::take(cursor, n).collect()`
  pub take_collect : ℕ → Exec (List ℕ) Never (List ℕ)

-- The documented behaviour. `put_slice` panics if the buffer has not enough capacity left.
unfoldable pub put_within : List ℕ → Exec BytesMut Never Unit
put_within xs b =
    if leb (length b.filled + length xs) b.capacity
    then (ok tt, record b { filled = b.filled ++ xs })
    else (panicked, b)

unfoldable pub next_u8 : Exec (List ℕ) Never ℕ
next_u8 [] = (panicked, [])
next_u8 (x ∷ xs) = (ok x, xs)

unfoldable pub next_u16 : Exec (List ℕ) Never ℕ
next_u16 [] = (panicked, [])
next_u16 (x ∷ []) = (panicked, x ∷ [])
next_u16 (x ∷ y ∷ xs) = (ok (x * 256 + y), xs)

-- `with_capacity n` makes an empty buffer with room for `n` bytes at least, `spare n` more than `n`.
pub record IsDocumented (c : AsyncCrates) : Type 0 where
  pub spare : ℕ → ℕ
  pub read_exact_lem : (n : ℕ) (r : Reader) → c.read_exact n r ≡ Io.read_exact n r
  pub write_all_lem : (xs : List ℕ) (w : Writer) → c.write_all xs w ≡ Io.write_all xs w
  pub with_capacity_lem :
      (n : ℕ) → c.with_capacity n ≡ record { filled = []; capacity = n + spare n }
  pub put_u8_lem : (n : ℕ) (b : BytesMut) → c.put_u8 n b ≡ put_within ((n % 256) ∷ []) b
  pub put_u16_be_lem :
      (n : ℕ) (b : BytesMut) → c.put_u16_be n b ≡ put_within ((n / 256 % 256) ∷ (n % 256) ∷ []) b
  pub put_slice_lem : (xs : List ℕ) (b : BytesMut) → c.put_slice xs b ≡ put_within xs b
  pub get_u8_lem : (xs : List ℕ) → c.get_u8 xs ≡ next_u8 xs
  pub get_u16_be_lem : (xs : List ℕ) → c.get_u16_be xs ≡ next_u16 xs
  pub take_collect_lem : (n : ℕ) (xs : List ℕ) → c.take_collect n xs ≡ (ok (take n xs), drop n xs)

-- The functions that do what is documented and no more.
abbrev pub reference : (ℕ → ℕ) → AsyncCrates
reference spare = record {
  read_exact = Io.read_exact;
  write_all = Io.write_all;
  with_capacity = λ n. record { filled = []; capacity = n + spare n };
  put_u8 = λ n. put_within ((n % 256) ∷ []);
  put_u16_be = λ n. put_within ((n / 256 % 256) ∷ (n % 256) ∷ []);
  put_slice = put_within;
  get_u8 = next_u8;
  get_u16_be = next_u16;
  take_collect = λ n xs. (ok (take n xs), drop n xs);
}

pub reference-IsDocumented : (spare : ℕ → ℕ) → IsDocumented (reference spare)
reference-IsDocumented spare = record {
  spare = spare;
  read_exact_lem = λ n r. refl;
  write_all_lem = λ xs w. refl;
  with_capacity_lem = λ n. refl;
  put_u8_lem = λ n b. refl;
  put_u16_be_lem = λ n b. refl;
  put_slice_lem = λ xs b. refl;
  get_u8_lem = λ xs. refl;
  get_u16_be_lem = λ xs. refl;
  take_collect_lem = λ n xs. refl;
}

-- Documented functions are the reference functions, so a theorem about these is one about those.
pub documented→reference : (c : AsyncCrates) (d : IsDocumented c) → c ≡ reference d.spare
documented→reference c d = λ i. record {
  read_exact = λ n r. d.read_exact_lem n r i;
  write_all = λ xs w. d.write_all_lem xs w i;
  with_capacity = λ n. d.with_capacity_lem n i;
  put_u8 = λ n b. d.put_u8_lem n b i;
  put_u16_be = λ n b. d.put_u16_be_lem n b i;
  put_slice = λ xs b. d.put_slice_lem xs b i;
  get_u8 = λ xs. d.get_u8_lem xs i;
  get_u16_be = λ xs. d.get_u16_be_lem xs i;
  take_collect = λ n xs. d.take_collect_lem n xs i;
}

-- To prove `P c`, prove `P` of the reference functions, whatever the spare room is.
pub by_reference {ℓ} :
    (P : AsyncCrates → Type ℓ) (c : AsyncCrates)
    → IsDocumented c
    → ((spare : ℕ → ℕ) → P (reference spare))
    → P c
by_reference P c d p = subst P (sym (documented→reference c d)) (p d.spare)
