-- ===== src/Gui/Core.antt =====
-- internal/gui/core.go: the window runs the core itself. A step is what one holder of the mutex does: the operator's start and
-- stop, the end of the core that the watcher sees, and the end of the process.
pub mod Modes
use rfid_middleware_idro900e.Prelude.{Bool, true, false, not, ◌&&◌, if◌then◌else◌}

-- `cancelled` is whether the context of the core that runs, or ran last, is over.
pub record CoreController : Type 0 where
  pub running : Bool
  pub intent : Bool
  pub crashed : Bool
  pub cancelled : Bool

abbrev pub new_controller : CoreController
new_controller = record { running = false; intent = false; crashed = false; cancelled = false }

-- What `Start` meets before it starts the core.
pub data Before : Type 0 where
  bad_config no_lock ready : Before

-- `Start`, and whether it succeeds.
unfoldable pub start : Before → CoreController → CoreController × Bool
start b c = if c.running then (c, false) else elim b [
  | bad_config ↦ (c, false)
  | no_lock ↦ (c, false)
  | ready ↦ (record { running = true; intent = true; crashed = false; cancelled = false }, true)
]

-- `Stop` up to the wait: the operator's intent, and the end of the context.
unfoldable pub stop : CoreController → CoreController
stop c =
    if c.running
    then record c { intent = false; crashed = false; cancelled = true }
    else record c { intent = false; crashed = false }

-- The watcher: the core has ended, with an error or not.
unfoldable pub ended : Bool → CoreController → CoreController
ended err c =
    if err && not c.cancelled
    then record c { running = false; crashed = true }
    else record c { running = false }

-- The context above the core's is over.
unfoldable pub shut_down : CoreController → CoreController
shut_down c = record c { cancelled = true }

-- `Standby` and `Crashed`
unfoldable pub is_standby : CoreController → Bool
is_standby c = not c.running && not c.intent

unfoldable pub is_crashed : CoreController → Bool
is_crashed c = c.crashed
