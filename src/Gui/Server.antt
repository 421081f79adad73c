-- ===== src/Gui/Server.antt =====
-- internal/gui/server.go: the requests of the browser. A request is a method, the segments of its path with escapes resolved, its Host and
-- Origin, and the first JSON value of its body; the paths that net/http cleans before it looks for a route, and the texts of the
-- answers, are left out.
pub mod Calls
use rfid_middleware_idro900e.Prelude.{
  ℕ, String, Bool, false, not, ◌&&◌, ◌||◌, List, [], ◌∷◌, Option, none, some, str_eq, if◌then◌else◌,
}
use rfid_middleware_idro900e.Congkong.Json.{Json}
use rfid_middleware_idro900e.Gui.CfgWrite.{ConfigEdit}
use rfid_middleware_idro900e.Gui.Body.{Posted, decode_body}

-- The hooks that change something.
pub data Call : Type 0 where
  network_setup service_control core_control : String → Call
  catalog_op catalog_upload : String → Call
  apply_session : (reader session : String) → Call
  resume : (reader pending session : String) → Call
  config_save : ConfigEdit → Call
  wizard_start : String → List String → Call
  wizard_confirm wizard_abort wizard_report : Call

-- What an answer is: a page, the state of some part, `done` after a hook that succeeded, or a status with an error's code.
pub data Reply : Type 0 where
  forbidden not_found moved page script event_stream : Reply
  shown : String → Reply
  done : Reply
  refused : ℕ → String → Reply

-- `Server`: its nonce, the host that requests must name, which of the hooks that may be missing are there, and what
-- the hooks answer, an error's code or nothing.
pub record Server : Type 0 where
  pub nonce : String
  pub host : String
  pub has_service : Bool
  pub has_network : Bool
  pub has_catalog : Bool
  pub has_config : Bool
  pub hook : Call → Option String

pub record Request : Type 0 where
  pub method : String
  pub path : List String
  pub host : String
  pub origin : String
  pub body : Option Json

-- What a request brings about: the hook that is called, if one is, and the answer.
pub record Served : Type 0 where
  pub call : Option Call
  pub reply : Reply

abbrev pub answer : Reply → Served
answer r = record { call = none; reply = r }

abbrev pub refuse : String → Served
refuse code = answer (refused 400 code)

abbrev pub by_hook : ℕ → Option String → Reply
by_hook status none = done
by_hook status (some code) = refused status code

abbrev pub calling : Server → Call → Served
calling s c = record { call = some c; reply = by_hook 400 (s.hook c) }

-- A view whose hook may be missing.
abbrev pub view : Bool → String → String → Served
view there code what = if there then answer (shown what) else refuse code

-- A body that must decode and confirm.
unfoldable pub confirming : List String → String → Request → (Posted → Served) → Served
unfolding decode_body
confirming fields code q k = elim (decode_body fields q.body) [
  | none ↦ refuse code
  | some b ↦ if b.confirm then k b else refuse code
]

-- The two handlers that tell a body that does not decode from one that does not confirm.
unfoldable pub confirming_after : List String → Request → (Posted → Served) → Served
unfolding decode_body
confirming_after fields q k = elim (decode_body fields q.body) [
  | none ↦ refuse "invalid_request"
  | some b ↦ if b.confirm then k b else refuse "confirm_required"
]

-- The handlers.
pub data Handler : Type 0 where
  index app_js state meta system events service network set_network catalog op upload session
        resume_reader config save wizard start confirm abort report core :
      Handler

abbrev pub is_service_action : String → Bool
is_service_action a =
    str_eq a "start" || str_eq a "stop" || str_eq a "auto-on" || str_eq a "auto-off"

-- `handleServiceControl`, behind its method.
unfoldable pub posted_service : Server → Request → Served
posted_service s q = confirming_after ("action" ∷ "confirm" ∷ []) q λ b.
    if not (is_service_action b.action)
    then refuse "invalid_request"
    else if not s.has_service
    then refuse "invalid_request"
    else record {
      call = some (service_control b.action);
      reply = by_hook 500 (s.hook (service_control b.action));
    }

unfoldable pub handle_service : Server → Request → Served
unfolding posted_service
handle_service s q =
    if not (str_eq q.method "POST")
    then answer (refused 405 "invalid_request")
    else posted_service s q

abbrev pub ends_in_slash : List String → Bool
ends_in_slash [] = false
ends_in_slash (x ∷ []) = str_eq x ""
ends_in_slash (x ∷ y ∷ rest) = ends_in_slash (y ∷ rest)

-- `{op}` and `{id}`: the wildcard of the pattern.
abbrev pub path_value : List String → String
path_value [] = ""
path_value (v ∷ rest) = v

-- A handler behind `guard`; the texts are what the wildcards of its pattern stand for.
unfoldable pub handle : Server → Handler → List String → Request → Served
unfolding handle_service
handle s index vs q = answer (if ends_in_slash q.path then page else not_found)
handle s app_js vs q = answer script
handle s state vs q = answer (shown "state")
handle s meta vs q = answer (shown "meta")
handle s system vs q = answer (shown "system")
handle s events vs q = answer event_stream
handle s service vs q = handle_service s q
handle s network vs q = view s.has_network "invalid_request" "network"
handle s set_network vs q =
    confirming_after ("iface" ∷ "confirm" ∷ []) q
      λ b. if not s.has_network then refuse "invalid_request" else calling s (network_setup b.iface)
handle s catalog vs q = view s.has_catalog "catalog_error" "catalog"
handle s op vs q =
    confirming ("confirm" ∷ []) "confirm_required" q λ b. calling s (catalog_op (path_value vs))
handle s upload vs q = confirming ("content" ∷ "confirm" ∷ []) "invalid_request" q λ b.
    if str_eq b.content "" then refuse "invalid_request" else calling s (catalog_upload b.content)
handle s session vs q =
    confirming ("sessionId" ∷ "confirm" ∷ []) "confirm_required" q
      λ b. calling s (apply_session (path_value vs) b.session_id)
handle s resume_reader vs q =
    confirming ("pending" ∷ "sessionId" ∷ "confirm" ∷ []) "confirm_required" q λ b.
      if not (str_eq b.pending "send") && not (str_eq b.pending "discard")
      then refuse "invalid_request"
      else calling s (resume (path_value vs) b.pending b.session_id)
handle s config vs q = view s.has_config "invalid_request" "config"
handle s save vs q =
    confirming ("config" ∷ "confirm" ∷ []) "confirm_required" q
      λ b. calling s (config_save b.config)
handle s wizard vs q = answer (shown "wizard")
handle s start vs q = confirming ("readerId" ∷ "steps" ∷ "confirm" ∷ []) "confirm_required" q λ b.
    elim b.steps [
      | [] ↦ refuse "invalid_request"
      | x ∷ xs ↦ calling s (wizard_start b.reader_id (x ∷ xs))
    ]
handle s confirm vs q =
    confirming ("confirm" ∷ []) "confirm_required" q
      λ b. record { call = some wizard_confirm; reply = shown "wizard" }
handle s abort vs q = record { call = some wizard_abort; reply = done }
handle s report vs q = calling s wizard_report
handle s core vs q =
    confirming ("action" ∷ "confirm" ∷ []) "confirm_required" q
      λ b. calling s (core_control b.action)
