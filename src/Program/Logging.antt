-- ===== src/Program/Logging.antt =====
-- bin/logging/mod.rs: which messages are logged, and in which format.
use tache_rs.Prelude.{
  ℕ, zero, suc, ◌++◌, Bool, if◌then◌else◌, Option, none, some, String, List, [], ◌∷◌,
}
use tache_rs.Std.Text.{text}

-- `log::LevelFilter`, as far as the code names it.
pub data LevelFilter : Type 0 where
  info debug trace : LevelFilter

pub data Format : Type 0 where
  log_time log_time_module : Format

-- The builder of env_logger: the filters in the order in which they were added, each for a module or for
-- all, and the format.
pub record Builder : Type 0 where
  pub filters : List (Option String × LevelFilter)
  pub format : Format

abbrev pub filter : Option String → LevelFilter → Builder → Builder
filter m level b = record b { filters = b.filters ++ (m, level) ∷ [] }

-- `match debug_level`
abbrev pub configure : ℕ → String → Builder → Builder
configure zero bin_name b = record b { format = log_time }
configure (suc zero) bin_name b =
    filter (some bin_name) debug (record b { format = log_time_module })
configure (suc (suc zero)) bin_name b =
    filter (some "shadowsocks") debug
      (filter (some bin_name) debug (record b { format = log_time_module }))
configure (suc (suc (suc zero))) bin_name b =
    filter (some "shadowsocks") trace
      (filter (some bin_name) trace (record b { format = log_time_module }))
configure (suc (suc (suc (suc n)))) bin_name b =
    filter none trace (record b { format = log_time_module })

-- `init` up to the variable RUST_LOG, whose filters the crate reads.
abbrev pub init : ℕ → String → Builder
init debug_level bin_name =
    configure debug_level bin_name (record { filters = (none, info) ∷ []; format = log_time })

pub record Record : Type 0 where
  pub level : List ℕ
  pub module_path : Option (List ℕ)
  pub args : List ℕ

abbrev pub path_or_star : Option (List ℕ) → List ℕ
path_or_star none = text "*"
path_or_star (some path) = path

-- `log_time`; `now` is the time in its format.
abbrev pub log_line : Bool → List ℕ → Record → List ℕ
log_line without_time now r =
    if without_time
    then text "[" ++ (r.level ++ (text "] " ++ (r.args ++ text "\n")))
    else text "[" ++ (now ++ (text "][" ++ (r.level ++ (text "] " ++ (r.args ++ text "\n")))))

-- `log_time_module`
abbrev pub log_module_line : Bool → List ℕ → Record → List ℕ
log_module_line without_time now r =
    let rest = text "] [" ++ (path_or_star r.module_path ++ (text "] " ++ (r.args ++ text "\n"))) in
    if without_time
    then text "[" ++ (r.level ++ rest)
    else text "[" ++ (now ++ (text "][" ++ (r.level ++ rest)))
