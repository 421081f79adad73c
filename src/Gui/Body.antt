-- ===== src/Gui/Body.antt =====
-- The bodies of the requests of internal/gui/server.go: what their handlers decode them into. A list is read afresh where its
-- member comes twice.
pub mod Confirmed
use rfid_middleware_idro900e.Prelude.{
  String, Bool, true, false, ◌&&◌, ◌||◌, List, [], ◌∷◌, Option, none, some, str_eq, if◌then◌else◌,
  any,
}
use rfid_middleware_idro900e.Prelude.Int.{ℤ, pos}
use rfid_middleware_idro900e.Congkong.Json.{
  Json, null, bool, arr, Items, no_item, item, names, Decoded, into_string, into_int, into_struct,
  unmarshal,
}
use rfid_middleware_idro900e.Gui.CfgWrite.{ReaderEdit, ConfigEdit}

-- What the bodies of all handlers hold together; each handler declares some of these members.
pub record Posted : Type 0 where
  pub confirm : Bool
  pub iface : String
  pub content : String
  pub session_id : String
  pub pending : String
  pub reader_id : String
  pub action : String
  pub steps : List String
  pub config : ConfigEdit

abbrev pub no_edit : ConfigEdit
no_edit = record {
  api_host = "";
  data_dir = "";
  debounce_sec = pos 0;
  queue_max_age_hours = pos 0;
  request_timeout_sec = pos 0;
  power_gain = pos 0;
  buzzer = pos 0;
  log_level = "";
  sessions_file = "";
  readers = [];
}

abbrev pub nothing_posted : Posted
nothing_posted = record {
  confirm = false;
  iface = "";
  content = "";
  session_id = "";
  pending = "";
  reader_id = "";
  action = "";
  steps = [];
  config = no_edit;
}

abbrev pub into_bool : Json → Bool → Decoded Bool
into_bool null old = record { value = old; mismatch = false }
into_bool (bool b) old = record { value = b; mismatch = false }
into_bool _ old = record { value = old; mismatch = true }

-- The items of an array, each into what `fresh` is.
unfoldable into_items {ℓ} : {A : Type ℓ} → (Json → A → Decoded A) → A → Items → Decoded (List A)
into_items into fresh no_item = record { value = []; mismatch = false }
into_items into fresh (item j rest) =
    let d = into j fresh in
    let r = into_items into fresh rest in
    record { value = d.value ∷ r.value; mismatch = d.mismatch || r.mismatch }

unfoldable pub into_list {ℓ} :
    {A : Type ℓ} → (Json → A → Decoded A) → A → Json → List A → Decoded (List A)
unfolding into_items
into_list into fresh null old = record { value = []; mismatch = false }
into_list into fresh (arr js) old = into_items into fresh js
into_list into fresh _ old = record { value = old; mismatch = true }

-- A field of a struct takes what was decoded.
abbrev pub placed {ℓ κ} : {A : Type ℓ} {B : Type κ} → (A → B) → Decoded A → Decoded B
placed put d = record { value = put d.value; mismatch = d.mismatch }

abbrev pub dropped {ℓ} : {A : Type ℓ} → A → Decoded A
dropped v = record { value = v; mismatch = false }

unfoldable set_reader_edit : String → Json → ReaderEdit → Decoded ReaderEdit
set_reader_edit k j v =
    if names "id" k
    then placed (λ x. record v { id = x }) (into_string j v.id)
    else if names "addr" k
    then placed (λ x. record v { addr = x }) (into_string j v.addr)
    else dropped v

unfoldable pub set_edit : String → Json → ConfigEdit → Decoded ConfigEdit
unfolding set_reader_edit into_list into_struct
set_edit k j v =
    if names "apiHost" k
    then placed (λ x. record v { api_host = x }) (into_string j v.api_host)
    else if names "dataDir" k
    then placed (λ x. record v { data_dir = x }) (into_string j v.data_dir)
    else if names "debounceSec" k
    then placed (λ x. record v { debounce_sec = x }) (into_int j v.debounce_sec)
    else if names "queueMaxAgeHours" k
    then placed (λ x. record v { queue_max_age_hours = x }) (into_int j v.queue_max_age_hours)
    else if names "requestTimeoutSec" k
    then placed (λ x. record v { request_timeout_sec = x }) (into_int j v.request_timeout_sec)
    else if names "powerGain" k
    then placed (λ x. record v { power_gain = x }) (into_int j v.power_gain)
    else if names "buzzer" k
    then placed (λ x. record v { buzzer = x }) (into_int j v.buzzer)
    else if names "logLevel" k
    then placed (λ x. record v { log_level = x }) (into_string j v.log_level)
    else if names "sessionsFile" k
    then placed (λ x. record v { sessions_file = x }) (into_string j v.sessions_file)
    else if names "readers" k
    then placed (λ x. record v { readers = x })
        (into_list (into_struct set_reader_edit) (record { id = ""; addr = "" }) j v.readers)
    else dropped v

-- Whether a handler's struct has the field, and the key names it.
abbrev pub has : List String → String → String → Bool
has fields name key = any (λ f. str_eq f name) fields && names name key

-- The fields behind the confirmation.
unfoldable pub set_rest : List String → String → Json → Posted → Decoded Posted
unfolding set_edit into_list into_struct
set_rest fs k j v =
    if has fs "iface" k
    then placed (λ x. record v { iface = x }) (into_string j v.iface)
    else if has fs "content" k
    then placed (λ x. record v { content = x }) (into_string j v.content)
    else if has fs "sessionId" k
    then placed (λ x. record v { session_id = x }) (into_string j v.session_id)
    else if has fs "pending" k
    then placed (λ x. record v { pending = x }) (into_string j v.pending)
    else if has fs "readerId" k
    then placed (λ x. record v { reader_id = x }) (into_string j v.reader_id)
    else if has fs "action" k
    then placed (λ x. record v { action = x }) (into_string j v.action)
    else if has fs "steps" k
    then placed (λ x. record v { steps = x }) (into_list into_string "" j v.steps)
    else if has fs "config" k
    then placed (λ x. record v { config = x }) (into_struct set_edit j v.config)
    else dropped v

unfoldable pub set_posted : List String → String → Json → Posted → Decoded Posted
unfolding set_rest
set_posted fs k j v =
    if has fs "confirm" k
    then placed (λ x. record v { confirm = x }) (into_bool j v.confirm)
    else set_rest fs k j v

-- `Decode` of the body into a struct with these fields: nothing where it fails.
unfoldable pub decode_body : List String → Option Json → Option Posted
unfolding set_posted unmarshal
decode_body fs body =
    let d = unmarshal (set_posted fs) body nothing_posted in
    if d.mismatch then none else some d.value
