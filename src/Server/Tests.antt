-- ===== src/Server/Tests.antt =====
-- The theorems on a connection to a daemon whose devices are stores.
use turbo_mac.Prelude.{◌≡◌, refl, true, false, some, none, List, [], ◌∷◌, map}
use turbo_mac.Dict.{Dict}
use turbo_mac.Config.{Value, null, string, number}
use turbo_mac.Daemon.Tests as DaemonTests
use turbo_mac.Server.{
  Read, line, bad, object, Request, Turn, Conn, serve, is_too_long, is_subscribe,
}
use turbo_mac.Server.Dispatch.{Around, Reports, handler}
use turbo_mac.Server.Ids.{id_of, serve-ids}

-- No command but those that change the configuration.
abbrev reports : Reports DaemonTests.host
reports = record { R = Unit; report = λ cmd args s. none }

abbrev around : Around
around = record { busy = false; busy' = false; now = 0 }

abbrev arrives : Read → Turn Around
arrives r = record { stopping = false; read = r; delivers = true; env = around }

abbrev request : Request
request = record {
  cmd = some "config.set";
  args = some (("governor.mode", string "dynamic") ∷ ("fan.max_rpm", string "fast") ∷ []);
  id = number 7;
}

abbrev turns : List (Turn Around)
turns =
    arrives (line 12 true (bad "Expecting value"))
    ∷ arrives (line 90 true (object request))
    ∷ arrives (line 40 true (object (record { cmd = none; args = none; id = number 8 })))
    ∷ []

abbrev conn : Conn (handler reports)
conn = record { world = DaemonTests.start; replies = [] }

serve-ids_example : map id_of (serve turns conn).replies ≡ null ∷ number 7 ∷ number 8 ∷ []
unfolding is_too_long is_subscribe
serve-ids_example =
    serve-ids turns conn
      ((refl, refl, refl), ((refl, refl, (refl, refl)), ((refl, refl, (refl, refl)), tt)))

abbrev args : Dict Value
args = ("mode", string "low") ∷ []
