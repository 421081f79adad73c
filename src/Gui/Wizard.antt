-- ===== src/Gui/Wizard.antt =====
-- internal/gui/wizard.go and wizard_run.go: the check of a site before an event. What a step observes is an argument
-- (`Observed`); texts and figures of its result are left out, its verdict is kept.
pub mod Guard
use rfid_middleware_idro900e.Prelude.{
  ℕ, ◌+◌, String, Bool, true, false, not, ◌&&◌, ◌||◌, List, [], ◌∷◌, map, Option, none, some, leb,
  ltb, ◌==◌, str_eq, if◌then◌else◌,
}
use rfid_middleware_idro900e.Prelude.Int.{ℤ, pos, negsuc, ltb_ℤ}
use rfid_middleware_idro900e.Domain.{GateMeta}
use rfid_middleware_idro900e.Congkong.Classify.{HttpResult}
use rfid_middleware_idro900e.Congkong.Decode.{preflight_meta}
use rfid_middleware_idro900e.Sender.{seconds}

pub data StepStatus : Type 0 where
  pending running pass warned fail skipped : StepStatus

pub record StepResult : Type 0 where
  pub id : String
  pub status : StepStatus

pub record WizardState : Type 0 where
  pub running : Bool
  pub await_tag : Bool
  pub steps : List StepResult

-- What `step0` finds: the configuration, the folder, the clock's synchronisation, its distance from the server's if that is known, and the
-- file of the catalogue.
pub record Site : Type 0 where
  pub config_err : Bool
  pub disk_err : Bool
  pub ntp_supported : Bool
  pub service_running : Bool
  pub query_ok : Bool
  pub skew_sec : Option ℤ
  pub no_catalog : Bool

-- How the operator answers whether a real tag may be checked in.
pub data Confirm : Type 0 where
  aborted confirmed no_answer : Confirm

-- What comes next from the log: a result of the reader or of another one, the end of the check, or a minute without one.
pub data Watch : Type 0 where
  result : String → ℕ → Watch
  stopped deadline : Watch

-- What the log of the isolated run says, and what its queue holds.
pub record SelfTest : Type 0 where
  pub no_reader : Bool
  pub bad_config : Bool
  pub status : ℕ
  pub class : String
  pub depth : ℕ

pub record Observed : Type 0 where
  pub cancelled : Bool
  pub site : Site
  pub addr : String
  pub core_running : Bool
  pub conn_state : String
  pub probe_rtt : Option ℕ
  pub has_token : Bool
  pub client_err : Bool
  pub answer : HttpResult
  pub confirm : Confirm
  pub watch : List Watch
  pub self_test : SelfTest

abbrev magnitude : ℤ → ℕ
magnitude (pos n) = n
magnitude (negsuc n) = n + 1

abbrev clock_off : Option ℤ → Bool
clock_off none = false
clock_off (some z) = leb 240 (magnitude z)

-- `step0`
unfoldable pub step_0 : Site → StepStatus
step_0 s =
    if s.config_err
    then fail
    else if s.disk_err
    then fail
    else if clock_off s.skew_sec
    then fail
    else if (s.ntp_supported && (not s.service_running || not s.query_ok)) || s.no_catalog
    then warned
    else pass

abbrev by_probe : Option ℕ → StepStatus
by_probe none = fail
by_probe (some rtt) = if ltb (seconds 4) rtt then warned else pass

-- `step1`
unfoldable pub step_1 : Observed → StepStatus
step_1 o =
    if str_eq o.addr ""
    then fail
    else if o.core_running
    then (if str_eq o.conn_state "CONNECTED" then pass else fail)
    else by_probe o.probe_rtt

abbrev by_meta : Option GateMeta → StepStatus
by_meta none = fail
by_meta (some m) = if not (ltb_ℤ (pos 0) m.cooldown_sec) then warned else pass

-- `step2`
unfoldable pub step_2 : Observed → StepStatus
step_2 o =
    if not o.has_token
    then fail
    else if o.client_err
    then fail
    else if o.answer.transport_err
    then fail
    else if o.answer.status == 404
    then fail
    else if not (o.answer.status == 200)
    then fail
    else by_meta (preflight_meta o.answer.body)

abbrev by_status : ℕ → StepStatus
by_status s = if s == 200 then pass else if s == 409 then warned else fail

abbrev is_other : String → String → Bool
is_other reader r = not (str_eq r "") && not (str_eq r reader)

unfoldable pub watch_for : String → List Watch → StepStatus
watch_for reader [] = running
watch_for reader (stopped ∷ rest) = skipped
watch_for reader (deadline ∷ rest) = fail
watch_for reader (result r s ∷ rest) =
    let more = watch_for reader rest in if is_other reader r then more else by_status s

abbrev after_confirm : String → List Watch → Confirm → StepStatus
after_confirm reader ws aborted = skipped
after_confirm reader ws no_answer = skipped
after_confirm reader ws confirmed = watch_for reader ws

-- `step3a`
unfoldable pub step_3a : String → Observed → StepStatus
unfolding watch_for
step_3a reader o = if not o.core_running then skipped else after_confirm reader o.watch o.confirm

-- `selftestReplay`, without and with the network cut off.
unfoldable pub self_test : Bool → SelfTest → StepStatus
self_test offline t =
    if t.no_reader
    then fail
    else if t.bad_config
    then fail
    else if offline
    then (if ltb 0 t.depth || str_eq t.class "NETWORK_FAILURE" then pass else warned)
    else if t.status == 404
    then pass
    else warned

abbrev passed : StepStatus → Bool
passed pass = true
passed _ = false

abbrev only_if : Bool → StepStatus → StepStatus
only_if ok s = if ok then s else skipped

-- The switch of `run`: the verdict, and `preflightOK`.
unfoldable pub one_step : String → Bool → String → Observed → StepStatus × Bool
unfolding step_0 step_1 step_2 step_3a self_test
one_step reader ok id o =
    if str_eq id "0"
    then (step_0 o.site, ok)
    else if str_eq id "1"
    then (step_1 o, ok)
    else if str_eq id "2"
    then (step_2 o, passed (step_2 o))
    else if str_eq id "3a"
    then (only_if ok (step_3a reader o), ok)
    else if str_eq id "3b"
    then (only_if ok (self_test false o.self_test), ok)
    else if str_eq id "4"
    then (self_test true o.self_test, ok)
    else (skipped, ok)

abbrev pub pending_of : String × Observed → StepResult
pending_of (id, o) = record { id = id; status = pending }

-- The loop of `run`; after an abort the steps that are left stay as they were.
unfoldable pub run_steps : String → Bool → List (String × Observed) → List StepResult
unfolding one_step
run_steps reader ok [] = []
run_steps reader ok ((id, o) ∷ rest) =
    let (s, ok') = one_step reader ok id o in
    let done = record { id = id; status = s } ∷ run_steps reader ok' rest in
    if o.cancelled then map pending_of ((id, o) ∷ rest) else done

abbrev pub new_wizard : WizardState
new_wizard = record { running = false; await_tag = false; steps = [] }

-- `Start`, and whether it starts: a check that runs is not started again.
unfoldable pub start : List String → WizardState → WizardState × Bool
start ids w = if w.running then (w, false) else (
  record {
    running = true;
    await_tag = false;
    steps = map (λ id. record { id = id; status = pending }) ids;
  },
  true,
)

-- `run`, to its end.
unfoldable pub run : String → List (String × Observed) → WizardState
unfolding run_steps
run reader steps = record {
  running = false;
  await_tag = false;
  steps = run_steps reader false steps;
}
