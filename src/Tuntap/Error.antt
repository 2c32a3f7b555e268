-- ===== src/Tuntap/Error.antt =====
-- The errors of the crate, as the code makes them; the module that declares them is not in the
-- repository.
use tache_rs.Std.Io.{IoError}

pub data Error : Type 0 where
  invalid_address invalid_descriptor name_too_long nul_in_name invalid_name invalid_number : Error
  io : IoError → Error
