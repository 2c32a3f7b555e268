-- ===== src/Tests/Programs.antt =====
-- The program, its name resolution, and the halves of an interface.
use tache_rs.Prelude.{ℕ, ◌≡◌, refl, true, false, inl, inr, none, some, List, [], ◌∷◌, length}
use tache_rs.Std.Exec.{ok}
use tache_rs.Std.Int.{ℤ}
use tache_rs.Std.Net.{v4}
use tache_rs.Std.Text.{text}
use tache_rs.Samples.{loopback}
use tache_rs.Config.Types.{Config, empty}
use tache_rs.Config.Load.{Loading}
use tache_rs.Program.{World, panics, returns, main, config_of, IsRegular, main_lem}
use tache_rs.Program.Logging
use tache_rs.Program.Logging.{init, log_module_line}
use tache_rs.Resolve.{ResolverCrate, Context, create_resolver, new, resolve}
use tache_rs.Resolve.Names.{IsResolution, IsSource, resolve-new}
use tache_rs.Config.Dns.{get_dns_config, add_servers, add_all, group}
use tache_rs.Config.Words.{eq_text}
use tache_rs.Tests.Configs.{numbers, two_groups}
use tache_rs.Tuntap.Fd.{Posix}

-- Every file is empty, and an empty text is no configuration.
abbrev empty_files : Loading Unit
empty_files = record {
  open_file = λ name. inr tt;
  read_to_string = λ file. inr [];
  from_yaml = λ s. inl (text "no configuration");
  debug = λ e. text "error";
}

abbrev world : World Unit
world = record {
  files = empty_files;
  runtime = true;
  ctrl_c = inr tt;
  aborted = false;
  resolve = λ name port. ok [];
  select = λ f fs. none;
}

main_lem_example :
    (main world none ≡ some returns → IsRegular world (config_of world none))
    × (world.runtime ≡ true
        → world.ctrl_c ≡ inr tt
        → world.aborted ≡ false
        → main world none ≡ some panics)
    × ((path content reason : List ℕ) (file : Unit {0})
        → world.files.open_file path ≡ inr file
        → world.files.read_to_string file ≡ inr content
        → world.files.from_yaml content ≡ inl reason
        → main world (some path) ≡ some panics)
main_lem_example = main_lem world none

no_config_panics : main world none ≡ some panics
no_config_panics = (main_lem world none).1 refl refl refl

no_yaml_panics : main world (some (text "tache.yml")) ≡ some panics
no_yaml_panics =
    (main_lem world none).2 (text "tache.yml") [] (text "no configuration") tt refl refl refl

two_verbose : init 2 "tachelocal" ≡ record {
  filters =
      (none, Logging.info)
      ∷ (some "tachelocal", Logging.debug)
      ∷ (some "shadowsocks", Logging.debug)
      ∷ [];
  format = Logging.log_time_module;
}
two_verbose = refl

-- IP addresses are ports here, and each name has two.
abbrev two_ips : ResolverCrate (List ℕ) Unit ℕ (List ℕ)
two_ips = record {
  default_opts = tt;
  read_system_conf = none;
  new_resolver = λ conf opts. inr conf;
  lookup_ip = λ r name. inr (1 ∷ 2 ∷ []);
  socket_addr = λ ip port. v4 (record { ip = record loopback { d = ip }; port = port });
}

abbrev with_groups : Config
with_groups = record empty { dns = some two_groups }

abbrev context : Context (List ℕ) ℕ
context = record { config = with_groups; dns_resolver = 6 ∷ 1 ∷ 2 ∷ []; dns_query_cache = none }

context_made : new two_ips numbers (λ n. n) with_groups ≡ ok context
unfolding new create_resolver get_dns_config add_servers add_all group eq_text
context_made = refl

resolve-new_example :
    (conf : List ℕ) × (opts : Unit {0}) × IsSource two_ips numbers (λ n. n) with_groups conf opts
    × (two_ips.new_resolver conf opts ≡ inr context.dns_resolver)
    × IsResolution two_ips (inr (1 ∷ 2 ∷ [])) 443 (resolve two_ips context (text "a.io") 443)
resolve-new_example =
    resolve-new two_ips numbers (λ n. n) with_groups context (text "a.io") 443 context_made

-- The state is the list of the descriptors that were closed.
abbrev closing : Posix (List ℤ)
closing = record {
  read = λ fd n k. (ok [], k);
  write = λ fd buf k. (ok (length buf), k);
  close = λ fd k. fd ∷ k;
}
