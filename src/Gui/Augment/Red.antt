-- ===== src/Gui/Augment/Red.antt =====
-- When the window's lamp is what `BuildState` says: internal/gui/run.go.
use rfid_middleware_idro900e.Prelude.{
  ℕ, String, Bool, true, false, not, ◌&&◌, List, Option, none, some, ◌≡◌, ◌⊎◌, ap, arith,
}
use rfid_middleware_idro900e.Config
use rfid_middleware_idro900e.Store.{Db}
use rfid_middleware_idro900e.Gate.{Registry}
use rfid_middleware_idro900e.App.Telemetry.{Telemetry}
use rfid_middleware_idro900e.App.Status.{Process, write_status}
use rfid_middleware_idro900e.Gui.Signal.{red, State, build_state}
use rfid_middleware_idro900e.Gui.Signal.Alarm.{IsTrouble, trouble_is_red}
use rfid_middleware_idro900e.Gui.Catalog.{Catalog}
use rfid_middleware_idro900e.Gui.Core.{CoreController}
use rfid_middleware_idro900e.Gui.Apply.{has_valid_session}
use rfid_middleware_idro900e.Gui.Augment.{
  shows, View, with_core, with_badges, invites, is_green, augment,
}

invites_red : (v : View) → v.lamp ≡ shows red → (invites v).lamp ≡ shows red
invites_red v h = let not_green : is_green v.lamp ≡ false = ap is_green h in rw not_green h

later_red :
    (parse : String → Option ℕ) (now : ℕ) (cfg : Option Config.Config) (cat : Option Catalog)
    (v : View)
    → v.lamp ≡ shows red
    → (invites (with_badges parse now cfg cat v)).lamp ≡ shows red
later_red parse now cfg none v h = invites_red v h
later_red parse now cfg (some cat) v h = invites_red (with_badges parse now cfg (some cat) v) h

-- Where the core runs or is not this process's, and the readers have a session or nothing is collected: what is red stays red.
red_stays :
    (parse : String → Option ℕ) (now : ℕ) (hosting : Bool) (c : CoreController)
    (cfg : Option Config.Config) (cat : Option Catalog) (pending : Bool) (st : State)
    → (hosting && not c.running) ≡ false
    → (not (has_valid_session cfg) && st.collecting) ≡ false
    → st.signal ≡ red
    → (augment parse now hosting c cfg cat pending st).lamp ≡ shows red
unfolding augment with_core
red_stays parse now hosting c cfg cat pending st h k r =
    rw (h, k) (later_red parse now cfg cat _ (ap shows r))

-- Whatever else the telemetry, the store and the catalogue hold, and whenever the window looks: a status file that was written while sending was
-- halted or a configured reader was suspended is shown with a red lamp, where the core is not this process's or runs, and a reader has a session.
pub trouble_reaches_window :
    (parse : String → Option ℕ) (p : Process) (readers : List Config.Reader) (at_time : ℕ)
    (reg : Registry) (t : Telemetry) (db : Db) (now hours : ℕ) (hosting : Bool) (c : CoreController)
    (cfg : Option Config.Config) (cat : Option Catalog) (pending : Bool)
    → IsTrouble readers reg
    → (hosting ≡ false) ⊎ (c.running ≡ true)
    → has_valid_session cfg ≡ true
    → (augment parse now hosting c cfg cat pending
        (build_state parse (some (write_status p readers at_time reg t db).0) now hours)).lamp
      ≡ shows red
trouble_reaches_window parse p readers at_time reg t db now hours hosting c cfg cat pending trouble
      up valid =
    red_stays parse now hosting c cfg cat pending
      (build_state parse (some (write_status p readers at_time reg t db).0) now hours)
      (ground (arith, up)) (ground (arith, valid))
      (trouble_is_red parse p readers at_time reg t db now hours trouble)
