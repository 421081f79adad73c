-- ===== src/Gui/Augment.antt =====
-- internal/gui/run.go, `augment`: what the core, the configuration and the catalogue add to the state that `BuildState` makes. The
-- advice on a network without an address is left out.
pub mod Red
use rfid_middleware_idro900e.Prelude.{
  ℕ, String, Bool, true, false, not, ◌&&◌, ◌||◌, List, [], ◌∷◌, map, any, Option, none, some,
  str_eq, if◌then◌else◌,
}
use rfid_middleware_idro900e.Config
use rfid_middleware_idro900e.Config.{Reader, reader_of}
use rfid_middleware_idro900e.App.Status.{ReaderStatus}
use rfid_middleware_idro900e.Gui.Signal.{Signal, yellow, red, green, State, ReaderView, Headline}
use rfid_middleware_idro900e.Gui.Catalog.{Catalog, CatalogSession, find, stale}
use rfid_middleware_idro900e.Gui.Core.{CoreController, is_crashed}
use rfid_middleware_idro900e.Gui.Apply.{has_valid_session}

-- The lamp in the window, and its sentence.
pub data Lamp : Type 0 where
  shows : Signal → Lamp
  idle : Lamp

pub data Sentence : Type 0 where
  says : Headline → Sentence
  crashed choose_session waiting not_recorded catalog_found catalog_updated : Sentence

pub record Badge : Type 0 where
  pub view : ReaderView
  pub session_name : String
  pub verified : Bool
  pub update_available : Bool

pub record View : Type 0 where
  pub lamp : Lamp
  pub sentence : Sentence
  pub collecting : Bool
  pub core_running : Bool
  pub standby : Bool
  pub needs_session : Bool
  pub readers : List Badge
  pub is_stale : Bool
  pub update_available : Bool
  pub pending_import : Bool

abbrev no_badge : ReaderView → Badge
no_badge v = record { view = v; session_name = ""; verified = false; update_available = false }

-- `sessionVerified`
abbrev is_active : String → Bool
is_active g = str_eq g "ACTIVE" || str_eq g "ACTIVE_WARNING"

abbrev other_token : CatalogSession → Option Reader → Bool
other_token s none = false
other_token s (some r) = not (str_eq r.token.v s.token)

abbrev token_in : String → Option Config.Config → Option Reader
token_in id none = none
token_in id (some c) = reader_of id c.readers

abbrev with_session : Option Config.Config → ReaderView → Option CatalogSession → Badge
with_session cfg v none = no_badge v
with_session cfg v (some s) = record {
  view = v;
  session_name = s.name;
  verified = str_eq v.status.booth_name s.name && is_active v.status.gate_state;
  update_available = other_token s (token_in v.status.id cfg);
}

unfoldable pub badge : Option Config.Config → Catalog → ReaderView → Badge
badge cfg cat v =
    if str_eq v.status.session_id ""
    then no_badge v
    else with_session cfg v (find v.status.session_id cat.sessions)

abbrev pub plain : Bool → State → View
plain needs st = record {
  lamp = shows st.signal;
  sentence = says st.headline;
  collecting = st.collecting;
  core_running = st.core_running;
  standby = false;
  needs_session = needs;
  readers = map no_badge st.readers;
  is_stale = false;
  update_available = false;
  pending_import = false;
}

abbrev halted_view : CoreController → View → View
halted_view c v =
    let still = record v { collecting = false; core_running = false; readers = [] } in
    if is_crashed c then record still { lamp = shows red; sentence = crashed } else record still {
      lamp = idle;
      standby = true;
      sentence = if v.needs_session then choose_session else waiting;
    }

-- The first half: a core that this process runs and that has stopped, and a collection without a session.
unfoldable pub with_core : Bool → CoreController → View → View
unfolding is_crashed
with_core hosting c v =
    if hosting && not c.running
    then halted_view c v
    else if v.needs_session && v.collecting
    then record v { lamp = shows yellow; sentence = not_recorded }
    else v

abbrev pub is_green : Lamp → Bool
is_green (shows green) = true
is_green _ = false

abbrev badges_of : Option Config.Config → Catalog → List Badge → List Badge
badges_of cfg cat = map (λ b. badge cfg cat b.view)

abbrev with_badges : (String → Option ℕ) → ℕ → Option Config.Config → Option Catalog → View → View
with_badges parse now cfg none v = v
with_badges parse now cfg (some cat) v =
    let bs = badges_of cfg cat v.readers in
    record v {
      readers = bs;
      is_stale = stale parse now cat;
      update_available = any (λ b. b.update_available) bs;
    }

abbrev invites : View → View
invites v =
    if is_green v.lamp && (v.update_available || v.pending_import)
    then record v {
      lamp = shows yellow;
      sentence = if v.pending_import then catalog_found else catalog_updated;
    }
    else v

-- `augment`, with a manager of the catalogue.
unfoldable pub augment :
    (String → Option ℕ)
    → ℕ
    → Bool
    → CoreController
    → Option Config.Config
    → Option Catalog
    → Bool
    → State
    → View
unfolding with_core badge stale
augment parse now hosting c cfg cat pending st =
    let v = with_core hosting c (plain (not (has_valid_session cfg)) st) in
    invites (with_badges parse now cfg cat (record v { pending_import = pending }))
