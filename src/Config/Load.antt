-- ===== src/Config/Load.antt =====
-- config.rs: reading the configuration from a file. The files and serde_yaml are parameters.
use tache_rs.Prelude.{ℕ, ◌≡◌, refl, some, String, Option, List, ◌⊎◌, inl, inr}
use tache_rs.Std.Exec.{Outcome, ok, err, panicked}
use tache_rs.Std.Io.{IoError}
use tache_rs.Config.Types.{Config, Error, ErrorKind, io_failure, json_parsing_error}

-- `Error::new`
abbrev pub error : ErrorKind → String → Option (List ℕ) → Error
error kind desc detail = record { kind = kind; desc = desc; detail = detail }

-- What reading takes from outside: opening a file, the text of it, the parser of a configuration, and
-- the texts that `Debug` gives for the errors.
pub record Loading (File : Type 0) : Type 0 where
  pub open_file : List ℕ → IoError ⊎ File
  pub read_to_string : File → IoError ⊎ List ℕ
  pub from_yaml : List ℕ → List ℕ ⊎ Config
  pub debug : IoError → List ℕ

-- `check_valid`, whose checks are comments.
abbrev pub check_valid : Config → Outcome Error (Unit {0})
check_valid c = ok tt

abbrev pub checked : Config → Outcome Error (Unit {0}) → Outcome Error Config
checked c (ok _) = ok c
checked c (err e) = err e
checked c panicked = panicked

-- `.unwrap()`
abbrev pub unwrapped : List ℕ ⊎ Config → Outcome Error Config
unwrapped (inl e) = panicked
unwrapped (inr c) = checked c (check_valid c)

module _ {File : Type 0} (files : Loading File) where
  -- `impl_from!` for the errors of files and of JSON.
  abbrev pub from_io : IoError → Error
  from_io e = error io_failure "error while reading file" (some (files.debug e))

  abbrev pub from_json : List ℕ → Error
  from_json debug = error json_parsing_error "json parse error" (some debug)

  unfoldable pub load_from_str : List ℕ → Outcome Error Config
  load_from_str s = unwrapped (files.from_yaml s)

  abbrev pub with_content : IoError ⊎ List ℕ → Outcome Error Config
  with_content (inl e) = err (from_io e)
  with_content (inr content) = load_from_str content

  abbrev pub with_reader : IoError ⊎ File → Outcome Error Config
  with_reader (inl e) = err (from_io e)
  with_reader (inr reader) = with_content (files.read_to_string reader)

  unfoldable pub load_from_file : List ℕ → Outcome Error Config
  unfolding load_from_str
  load_from_file filename = with_reader (files.open_file filename)

  -- A file that cannot be opened or read is an error of its own kind, and one that is read gives the
  -- configuration in it. A text that is no configuration is not an error but a panic.
  pub load_lem :
      (filename content reason : List ℕ) (file : File) (config : Config) (e : IoError)
      → files.open_file filename ≡ inr file
      → (files.read_to_string file ≡ inl e → load_from_file filename ≡ err (from_io e))
        × (files.read_to_string file ≡ inr content
            → files.from_yaml content ≡ inr config
            → load_from_file filename ≡ ok config)
        × (files.read_to_string file ≡ inr content
            → files.from_yaml content ≡ inl reason
            → load_from_file filename ≡ panicked)
  unfolding load_from_file
  load_lem filename content reason file config e opened = (
    λ fails. rw (opened, fails) refl,
    λ reads parses. rw (opened, reads, parses) refl,
    λ reads refused. rw (opened, reads, refused) refl,
  )
