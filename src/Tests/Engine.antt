-- ===== src/Tests/Engine.antt =====
-- engine/mod.rs: servers, their connections, and their responses.
use tache_rs.Prelude.{
  ℕ, ◌≡◌, ◌≢◌, refl, true, false, Option, none, some, List, [], ◌∷◌, ◌++◌, ◌⊎◌, inl, inr, arith,
}
use tache_rs.Std.Exec.{Outcome, ok, err, panicked}
use tache_rs.Std.Io.{IoError, io_error, other}
use tache_rs.Std.Net.{SocketAddr, v4}
use tache_rs.Std.Text.{text, decimal}
use tache_rs.Samples.{loopback, site_target}
use tache_rs.Tests.Http.{
  clock, clock-IsDocumented, at, start, initial-IsCache, small_http, parse_three,
}
use tache_rs.Utils.Target.{to_socket_addrs}
use tache_rs.Utils.Target.Iterate.{collect}
use tache_rs.Config.Types.{Config, empty, http_inbound, tun_inbound}
use tache_rs.Config.Words.{eq_text}
use tache_rs.Http.Decode.{decode}
use tache_rs.Http.Date.{Timespec}
use tache_rs.Http.Date.Cache.{rendered}
use tache_rs.Http.Encode.{Response, encode}
use tache_rs.Http.Encode.Framing.{receive}
use tache_rs.Engine.Meta.{Resolver, build_connection_meta, build_connection_meta_lem}
use tache_rs.Engine.Serve.{Environment, Connection, running, finished, serve}
use tache_rs.Engine.Server.{
  Server, listening, serving, next_incoming, after_round, accept, arrive, round, close, Steps, done,
  step, TaskRounds, settled, next_round,
}
use tache_rs.Engine.Server.Safety.{IsServer, SingleRunHttp-IsServer}
use tache_rs.Engine.Server.Stopped.{IsStopped, next_incoming-IsStopped}
use tache_rs.Engine.Server.Drain.{last_lines, server_drains}
use mathlib.Mathlib.Data.Multiset.Defs.{of_list}
use tache_rs.Engine.Server.Order.{rounds_commute}
use tache_rs.Engine.Run.{Running, run, plan, select_all, run-plan}
use tache_rs.Engine.Respond.{respond, ok_status, typed, IsReply, respond-receive}

abbrev local_addr : SocketAddr
local_addr = v4 (record { ip = loopback; port = 1080 })

-- Every name is that of the machine itself.
abbrev local_names : Resolver
local_names = record { parse_socket_addr = λ s. none; lookup = λ host port. inr (local_addr ∷ []) }

build_connection_meta_lem_example :
    (build_connection_meta local_names (inr local_addr) none ≡ inl (record { v = "not have host" }))
    × (build_connection_meta local_names (inr local_addr) (some (text "a"))
        ≡ inr
            (record { udp = false; host = text "a"; src_addr = some local_addr; dst_addr = none }))
    × (build_connection_meta local_names (inr local_addr) (some (text "a" ++ b':' ∷ decimal 80))
        ≡ inr (record {
          udp = false;
          host = text "a" ++ b':' ∷ decimal 80;
          src_addr = some local_addr;
          dst_addr = some local_addr;
        }))
build_connection_meta_lem_example =
    build_connection_meta_lem local_names (inr local_addr) (text "a") 80
      ((λ e. absurd (omega (arith, e))), tt) (omega arith) refl refl

abbrev env : Environment
env = record {
  http = small_http;
  resolver = local_names;
  host = λ req. some (text "a");
  show_addr = λ a. text "127.0.0.1:1080";
}

abbrev fresh : Connection
fresh = record { peer = inr local_addr; buffer = [] }

abbrev asked : Connection
asked = record { peer = inr local_addr; buffer = text "G/1" }

abbrev here : Server
here = listening env local_addr

-- A connection comes in, sends a request, and its task takes a round.
abbrev one_task : Server
one_task = record here { tasks = running fresh ∷ [] }

abbrev one_request : Server
one_request = record here { tasks = running asked ∷ [] }

served : Steps env here (after_round env one_request [] asked [])
served =
    step here one_task (after_round env one_request [] asked [])
      (accept here (some (inr (inr local_addr))) refl)
      (step one_task one_request (after_round env one_request [] asked [])
        (arrive one_task [] fresh [] (text "G/1") refl)
        (step one_request (after_round env one_request [] asked [])
          (after_round env one_request [] asked []) (round one_request [] asked [] refl)
          (done (after_round env one_request [] asked []))))

abbrev binds : SocketAddr → IoError ⊎ Unit {0}
binds addr = inr tt

SingleRunHttp-IsServer_example :
    IsServer (text "Listening on: 127.0.0.1:1080") (after_round env one_request [] asked [])
SingleRunHttp-IsServer_example =
    SingleRunHttp-IsServer env binds local_addr (after_round env one_request [] asked [])
      (inl (serving (after_round env one_request [] asked []) served))

-- Its request gets no further than the rules.
asked_fails :
    (serve env asked).printed ≡ text "failed to process request InboundError: not implement" ∷ []
unfolding serve decode parse_three
asked_fails = refl

abbrev stopped : Server
stopped = next_incoming (some (inl (io_error other "too many open files"))) one_request

next_incoming-IsStopped_example : IsStopped one_request (record stopped { tasks = finished ∷ [] })
next_incoming-IsStopped_example =
    next_incoming-IsStopped env one_request (record stopped { tasks = finished ∷ [] })
      (io_error other "too many open files")
      (step stopped (record stopped { tasks = finished ∷ [] })
        (record stopped { tasks = finished ∷ [] }) (close stopped [] asked [] refl)
        (done (record stopped { tasks = finished ∷ [] })))

abbrev two_requests : Server
two_requests = record here { tasks = running asked ∷ finished ∷ running asked ∷ [] }

server_drains_example : TaskRounds env two_requests (record two_requests {
  tasks = finished ∷ finished ∷ finished ∷ [];
  printed = two_requests.printed ++ last_lines env two_requests.tasks;
})
unfolding decode parse_three
server_drains_example = server_drains env two_requests (tt, (tt, (tt, tt)))

-- The two connections take their rounds in the one order and in the other.
abbrev both_done : Server
both_done = record {
  accepting = true;
  tasks = finished ∷ finished ∷ finished ∷ [];
  printed = here.printed ++ ((serve env asked).printed ++ (serve env asked).printed);
  piped = [];
}

first_then_second : TaskRounds env two_requests both_done
unfolding serve decode parse_three
first_then_second =
    next_round two_requests [] asked (finished ∷ running asked ∷ []) both_done refl (
      next_round (after_round env two_requests [] asked (finished ∷ running asked ∷ []))
        (finished ∷ finished ∷ []) asked [] both_done refl (settled both_done))

second_then_first : TaskRounds env two_requests both_done
unfolding serve decode parse_three
second_then_first =
    next_round two_requests (running asked ∷ finished ∷ []) asked [] both_done refl (
      next_round (after_round env two_requests (running asked ∷ finished ∷ []) asked []) [] asked
        (finished ∷ finished ∷ []) both_done refl (settled both_done))

rounds_commute_example :
    (both_done.tasks ≡ both_done.tasks)
    × (both_done.piped ≡ both_done.piped)
    × (of_list both_done.printed ≡ of_list both_done.printed)
    × (of_list both_done.printed
        ≡ of_list (two_requests.printed ++ last_lines env two_requests.tasks))
unfolding decode parse_three
rounds_commute_example =
    rounds_commute env two_requests both_done both_done (tt, (tt, (tt, tt))) first_then_second
      second_then_first (tt, (tt, (tt, tt))) (tt, (tt, (tt, tt)))

abbrev resolve_one : List ℕ → ℕ → Outcome IoError (List SocketAddr)
resolve_one name port = ok (local_addr ∷ local_addr ∷ [])

abbrev two_inbounds : Config
two_inbounds = record empty {
  inbounds = http_inbound (text "web") site_target none ∷ tun_inbound (text "tun") ∷ [];
}

abbrev first_ends : Running → List Running → Option (List ℕ ⊎ Unit {0})
first_ends f fs = some (inr tt)

run-plan_example :
    (run resolve_one first_ends two_inbounds
      ≡ select_all resolve_one first_ends (plan resolve_one two_inbounds.inbounds))
    × (run resolve_one first_ends two_inbounds ≢ some (ok tt))
run-plan_example = run-plan resolve_one first_ends two_inbounds

exits :
    run resolve_one first_ends two_inbounds
    ≡ some (err (io_error other "server exited unexpectedly"))
unfolding run to_socket_addrs collect
exits = refl

-- The configuration that `Config::new` makes.
nothing_to_run : run resolve_one first_ends empty ≡ some panicked
unfolding run
nothing_to_run = refl

abbrev no_json : List ℕ → List ℕ ⊎ List ℕ
no_json message = inl (text "no")

abbrev plain : Response
plain = record {
  status = ok_status;
  headers = typed (text "text/plain");
  body = text "Hello, World!";
}

plain_responds : respond no_json (text "/plaintext") ≡ inr plain
unfolding respond eq_text
plain_responds = refl

respond-receive_example :
    (u : Timespec) × (sent : List ℕ) × (lines : List (List ℕ)) × (body : List ℕ) × ((encode
        {E = Unit} clock
        (at 7 500)
        plain
        start).0
      ≡ ok tt)
    × ((encode {E = Unit} clock (at 7 500) plain start).1.dst ≡ sent)
    × (receive (sent ++ []) ≡ some (lines, body, []))
    × IsReply no_json (text "/plaintext") (rendered clock u) lines body
respond-receive_example =
    respond-receive no_json (text "/plaintext") plain clock clock-IsDocumented (at 7 500) start []
      initial-IsCache plain_responds (omega arith)
