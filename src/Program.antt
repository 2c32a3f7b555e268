-- ===== src/Program.antt =====
-- bin/local.rs and bin/logging/mod.rs: the program itself, from its arguments to its exit. The runtime,
-- the signal and the log builder are parameters.
pub mod Logging
use tache_rs.Prelude.{
  ℕ, ◌≡◌, ◌≢◌, refl, Bool, true, false, if◌then◌else◌, Option, none, some, List, [], ◌⊎◌, inl, inr,
}
use tache_rs.Std.Exec.{Outcome, ok, err, panicked}
use tache_rs.Std.Io.{IoError}
use tache_rs.Std.Net.{SocketAddr}
use tache_rs.Config.Types
use tache_rs.Config.Types.{Config, empty}
use tache_rs.Config.Load.{Loading, load_from_file}
use tache_rs.Engine.Run.{Running, run, push_inbounds}

-- How the process ends: `main` returns, it exits with a code, or it panics.
pub data Exit : Type 0 where
  returns : Exit
  exits : ℕ → Exit
  panics : Exit

-- What happens outside of the program: whether a runtime can be made, the registration of the signal, and
-- whether the signal comes before `run` has ended.
pub record World (File : Type 0) : Type 0 where
  pub files : Loading File
  pub runtime : Bool
  pub ctrl_c : IoError ⊎ Unit {0}
  pub aborted : Bool
  pub resolve : List ℕ → ℕ → Outcome IoError (List SocketAddr)
  pub select : Running → List Running → Option (List ℕ ⊎ Unit {0})

-- `Either::Left`: whatever `run` gives is a panic.
abbrev pub server_ended : Option (Outcome IoError (Unit {0})) → Option (Outcome IoError (Unit {0}))
server_ended none = none
server_ended (some result) = some panicked

abbrev pub with_signal :
    IoError ⊎ Unit {0}
    → Bool
    → Option (Outcome IoError (Unit {0}))
    → Option (Outcome IoError (Unit {0}))
with_signal (inl e) aborted result = some (err e)
with_signal (inr _) true result = some (ok tt)
with_signal (inr _) false result = server_ended result

-- The end of `main`: `none` is a program that goes on.
abbrev pub after_launch : Option (Outcome IoError (Unit {0})) → Option Exit
after_launch none = none
after_launch (some (ok _)) = some returns
after_launch (some (err e)) = some (exits 1)
after_launch (some panicked) = some panics

returned_aborted :
    (runtime : Bool) (ctrl_c : IoError ⊎ Unit {0}) (aborted : Bool)
    (result : Option (Outcome IoError (Unit {0})))
    → after_launch (if runtime then with_signal ctrl_c aborted result else some panicked)
      ≡ some returns
    → aborted ≡ true
returned_aborted false ctrl_c aborted result h = cc
returned_aborted true (inl e) aborted result h = cc
returned_aborted true (inr _) true result h = refl
returned_aborted true (inr _) false none h = cc
returned_aborted true (inr _) false (some result) h = cc

module _ {File : Type 0} (world : World File) where
  unfoldable pub launch_server : Config → Option (Outcome IoError (Unit {0}))
  launch_server config =
      if world.runtime
      then with_signal world.ctrl_c world.aborted (run world.resolve world.select config)
      else some panicked

  abbrev pub with_config : Outcome Types.Error Config → Option Exit
  with_config (ok config) = after_launch (launch_server config)
  with_config (err e) = some returns
  with_config panicked = some panics

  -- The value of CONFIG, if there is one.
  abbrev pub config_of : Option (List ℕ) → Outcome Types.Error Config
  config_of none = ok empty
  config_of (some config_path) = load_from_file world.files config_path

  unfoldable pub main : Option (List ℕ) → Option Exit
  unfolding launch_server
  main config = with_config (config_of config)

  -- The loaded configuration was an error, or the signal came.
  abbrev pub IsRegular : Outcome Types.Error Config → Type 0
  IsRegular (err e) = Unit
  IsRegular _ = world.aborted ≡ true

  with_config-IsRegular :
      (o : Outcome Types.Error Config) → with_config o ≡ some returns → IsRegular o
  unfolding launch_server
  with_config-IsRegular (ok config) h =
      returned_aborted world.runtime world.ctrl_c world.aborted
        (run world.resolve world.select config) h
  with_config-IsRegular (err e) h = tt
  with_config-IsRegular panicked h = cc

  -- The program returns only after its configuration could not be read, or on the signal. If it
  -- is started without a configuration file, with a runtime and before any signal, it panics;
  -- and so it does if the file that it is given is read but is no configuration.
  pub main_lem :
      (config : Option (List ℕ))
      → (main config ≡ some returns → IsRegular (config_of config))
        × (world.runtime ≡ true
            → world.ctrl_c ≡ inr tt
            → world.aborted ≡ false
            → main none ≡ some panics)
        × ((path content reason : List ℕ) (file : File)
            → world.files.open_file path ≡ inr file
            → world.files.read_to_string file ≡ inr content
            → world.files.from_yaml content ≡ inl reason
            → main (some path) ≡ some panics)
  unfolding main run push_inbounds load_from_file
  main_lem config = (
    with_config-IsRegular (config_of config),
    λ made registered first. rw (made, registered, first) refl,
    λ path content reason file opens reads refused. rw (opens, reads, refused) refl,
  )
