-- ===== src/Tests/Serving.antt =====
-- Runs of internal/gui/server.go.
use rfid_middleware_idro900e.Prelude.{true, none, some, [], ◌∷◌, ◌≡◌, refl, Bytes}
use rfid_middleware_idro900e.Congkong.Json.{bool, str, obj, member, end, into_members, names}
use rfid_middleware_idro900e.Gui.Server.{
  Server, Request, core_control, shown, forbidden, confirming,
}
use rfid_middleware_idro900e.Gui.Routes.{serve}
use rfid_middleware_idro900e.Gui.Routes.Guarded.{IsAdmitted, serve-IsAdmitted}
use rfid_middleware_idro900e.Gui.Hub.{Hub, new_hub, push_log, subscribe}
use rfid_middleware_idro900e.Gui.Hub.Wf.{IsWf, here, next, comes, logs, Steps-IsWf}

abbrev server : Server
server = record {
  nonce = "n0";
  host = "127.0.0.1:8000";
  has_service = true;
  has_network = true;
  has_catalog = true;
  has_config = true;
  hook = λ c. none;
}

abbrev asked : Request
asked = record {
  method = "POST";
  path = "n0" ∷ "api" ∷ "control" ∷ "core" ∷ [];
  host = "127.0.0.1:8000";
  origin = "http://127.0.0.1:8000";
  body = some (obj (member "action" (str "stop") (member "confirm" (bool true) end)));
}

asked_stops : (serve server asked).call ≡ some (core_control "stop")
unfolding serve confirming into_members names
asked_stops = refl

elsewhere_forbidden :
    serve server (record asked { origin = "http://example.com" })
    ≡ record { call = none; reply = forbidden }
unfolding serve
elsewhere_forbidden = refl

state_shown :
    (serve server (record asked { method = "GET"; path = "n0" ∷ "api" ∷ "state" ∷ [] })).reply
    ≡ shown "state"
unfolding serve
state_shown = refl

serve-IsAdmitted_example : IsAdmitted server asked (core_control "stop") asked.path
serve-IsAdmitted_example = serve-IsAdmitted server asked (core_control "stop") asked_stops

-- One window, and one line of the log for it; a state is a text of bytes already.
abbrev hub : Hub Bytes
hub =
    push_log (λ b. some b) (b'o' ∷ b'k' ∷ []) (subscribe (λ b. some b) (new_hub (λ b. some b) [])).0

Steps-IsWf_example : IsWf hub
Steps-IsWf_example =
    Steps-IsWf (λ b. some b) [] {h = hub} (next (next here comes) (logs (b'o' ∷ b'k' ∷ [])))
