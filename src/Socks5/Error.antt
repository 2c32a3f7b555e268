-- ===== src/Socks5/Error.antt =====
-- protocol/socks/socks5.rs: the error of the protocol, and its conversions from and to `io::Error`.
use tache_rs.Prelude.{String}
use tache_rs.Std.Io.{IoError, io_error, other, description}
use tache_rs.Socks5.Reply.{Reply, general_failure}

pub record Error : Type 0 where
  pub reply : Reply
  pub message : String

abbrev pub error : Reply → String → Error
error r m = record { reply = r; message = m }

-- `impl From<io::Error> for Error`
abbrev pub from_io : IoError → Error
from_io e = error general_failure (description e)

-- `impl From<Error> for io::Error`
abbrev pub to_io : Error → IoError
to_io e = io_error other e.message
