-- ===== src/Std/Slice.antt =====
-- `impl Write for &mut [u8]`: writing fills the front of the slice and leaves the rest to write.
use tache_rs.Prelude.{ℕ, Option, none, some, List, [], ◌++◌, length, take, split_at}
use tache_rs.Std.Exec.{Exec, ok, err}
use tache_rs.Std.Io.{IoError, io_error, write_zero}

-- What has been written, and the bytes that are still there behind it.
pub record Slice : Type 0 where
  pub written : List ℕ
  pub remaining : List ℕ

abbrev pub fill_slice : List ℕ → Option (List ℕ × List ℕ) → Exec Slice IoError Unit
fill_slice xs (some (old, rest)) s = (ok tt, record { written = s.written ++ xs; remaining = rest })
fill_slice xs none s = (
  err (io_error write_zero "failed to write whole buffer"),
  record { written = s.written ++ take (length s.remaining) xs; remaining = [] },
)

unfoldable pub write_all : List ℕ → Exec Slice IoError Unit
write_all xs s = fill_slice xs (split_at (length xs) s.remaining) s

-- The slice as a whole, in the end.
abbrev pub contents : Slice → List ℕ
contents s = s.written ++ s.remaining
