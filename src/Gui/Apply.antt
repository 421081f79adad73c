-- ===== src/Gui/Apply.antt =====
-- internal/gui/run.go: the operator gives a reader another session, resumes a reader, and starts and stops the core. The
-- configuration file, its backup, the core and the configuration in memory are the state; what the calls meet is an argument.
pub mod Whole
use rfid_middleware_idro900e.Prelude.{
  ℕ, String, Bool, true, false, not, ◌&&◌, ◌||◌, List, [], ◌∷◌, Option, none, some, ltb, str_eq,
  if◌then◌else◌, any,
}
use rfid_middleware_idro900e.Config
use rfid_middleware_idro900e.Config.{
  Reader, Platform, Checked, accepted, refused, Parsed, checked, parse_config, reader_of,
}
use rfid_middleware_idro900e.Gui.Catalog.{Catalog, CatalogSession, find}
use rfid_middleware_idro900e.Gui.Core
use rfid_middleware_idro900e.Gui.Core.{CoreController, Before, stop, ended}
use rfid_middleware_idro900e.Gui.CfgWrite.{
  Codec, Files, Io, Undo, no_token, write_reader_session, rollback_config,
}

pub data ApplyError : Type 0 where
  catalog_error no_session no_config no_reader taken rows_wait write_failed stop_failed
        resume_failed restart_failed not_hosting no_token_yet bad_action :
      ApplyError

pub data Applied : Type 0 where
  applied : Applied
  rejected : ApplyError → Applied

-- `guiApp`, as far as it matters here.
pub record Desk (C : Type 0) : Type 0 where
  pub files : Files C
  pub core : CoreController
  pub cfg : Option Config.Config

-- What the calls meet: whether the core runs in this process, the catalogue, the rows of the reader that the status file
-- shows, the failures of the file system, whether the core ends in time, and what a start and a second start find.
pub record Meets : Type 0 where
  pub hosting : Bool
  pub catalog : Option Catalog
  pub pending : ℕ
  pub io : Io
  pub ends_in_time : Bool
  pub before : Before
  pub before_again : Before
  pub resumes : Bool

-- `hasValidSession`
abbrev real_token : Reader → Bool
real_token r = not (str_eq r.token.v "") && not (str_eq r.token.v no_token)

abbrev pub has_valid_session : Option Config.Config → Bool
has_valid_session none = false
has_valid_session (some c) = any real_token c.readers

-- `Stop` of the core with its wait, and `Restart`; the second component is whether it succeeds.
unfoldable pub stop_in_time : Bool → CoreController → CoreController × Bool
stop_in_time ends_in_time c =
    if c.running
    then (if ends_in_time then (ended false (stop c), true) else (stop c, false))
    else (stop c, true)

abbrev start_if : Before → CoreController × Bool → CoreController × Bool
start_if b (c, false) = (c, false)
start_if b (c, true) = Core.start b c

unfoldable pub restart : Bool → Before → CoreController → CoreController × Bool
unfolding stop_in_time
restart ends_in_time b c = start_if b (stop_in_time ends_in_time c)

abbrev is_taken : String → String → CatalogSession → Reader → Bool
is_taken id sid s r = not (str_eq r.id id) && (str_eq r.session_id sid || str_eq r.token.v s.token)

-- The checks of `applySession`, which give the session.
abbrev pub Checks : Type 0
Checks = Option CatalogSession × ApplyError

abbrev free_for : String → String → Meets → CatalogSession → Config.Config → Checks
free_for id sid m s c =
    if any (is_taken id sid s) c.readers
    then (none, taken)
    else if ltb 0 m.pending
    then (none, rows_wait)
    else (some s, taken)

abbrev in_config : String → String → Meets → CatalogSession → Option Config.Config → Checks
in_config id sid m s none = (none, no_config)
in_config id sid m s (some c) = elim (reader_of id c.readers) [
  | none ↦ (none, no_reader)
  | some r ↦ free_for id sid m s c
]

abbrev of_session : String → String → Meets → Option Config.Config → Option CatalogSession → Checks
of_session id sid m cfg none = (none, no_session)
of_session id sid m cfg (some s) = in_config id sid m s cfg

abbrev of_catalog : String → String → Meets → Option Config.Config → Option Catalog → Checks
of_catalog id sid m cfg none = (none, catalog_error)
of_catalog id sid m cfg (some cat) = of_session id sid m cfg (find sid cat.sessions)

unfoldable pub check_session : String → String → Meets → Option Config.Config → Checks
check_session id sid m cfg = of_catalog id sid m cfg m.catalog

module _ {C : Type 0} (codec : Codec C) (p : Platform) where
  abbrev loaded : Option Config.Config → Parsed → Option Config.Config
  loaded old (checked (accepted c)) = some c
  loaded old _ = old

  abbrev pub read_config : Option Config.Config → Option C → Option Config.Config
  read_config old none = old
  read_config old (some raw) = loaded old (parse_config p (codec.decode raw))

  -- The end of a success: `RemoveBackup` and `reloadCfg`.
  abbrev pub finish : Desk C → Desk C
  finish d = record d {
    files = record d.files { bak = none };
    cfg = read_config d.cfg d.files.main;
  }

module _ {C : Type 0} (codec : Codec C) (p : Platform) (u : Undo C) where
  -- The end of a failure behind the write: the old file, and the core with it.
  abbrev pub take_back : Before → Desk C → Desk C
  take_back b d = record d {
    files = (rollback_config codec u d.files).0;
    core = (Core.start b d.core).0;
  }

  -- After the file was written: a core that runs is started again.
  unfoldable pub after_write : Meets → Desk C × Bool → Desk C × Applied
  unfolding restart
  after_write m (d, false) = (d, rejected write_failed)
  after_write m (d, true) =
      let (core, ok) = restart m.ends_in_time m.before d.core in
      if m.hosting && d.core.running
      then (if ok
          then (finish codec p (record d { core = core }), applied)
          else (take_back m.before_again (record d { core = core }), rejected restart_failed))
      else (finish codec p d, applied)

  abbrev pub written : Meets → String → String → CatalogSession → Desk C → Desk C × Bool
  written m id sid s d =
      let (files, ok) = write_reader_session codec p m.io id sid s.token d.files in
      (record d { files = files }, ok)

  unfoldable pub apply_checked : Meets → String → String → Desk C → Checks → Desk C × Applied
  unfolding after_write
  apply_checked m id sid d (none, e) = (d, rejected e)
  apply_checked m id sid d (some s, e) = after_write m (written m id sid s d)

  -- `applySession`
  unfoldable pub apply_session : Meets → String → String → Desk C → Desk C × Applied
  unfolding check_session apply_checked
  apply_session m id sid d = apply_checked m id sid d (check_session id sid m d.cfg)

  -- `resume`: with a new session or without one, whose write is taken back where a later call fails. `m.resumes` is
  -- whether the configuration is loaded and `QueueResume` succeeds.
  abbrev roll_if : Bool → Desk C → Desk C
  roll_if false d = d
  roll_if true d = record d { files = (rollback_config codec u d.files).0 }

  abbrev clear_if : Bool → Desk C → Desk C
  clear_if false d = d
  clear_if true d = record d { files = record d.files { bak = none } }

  unfoldable pub start_again : Meets → Desk C → Desk C × Applied
  start_again m d =
      let (core, ok) = Core.start m.before d.core in
      let d' = record d { core = core } in
      if ok
      then (record d' { cfg = read_config codec p d'.cfg d'.files.main }, applied)
      else (d', rejected restart_failed)

  unfoldable pub resume_stopped : Meets → Bool → Desk C → Desk C × Applied
  unfolding start_again
  resume_stopped m bak d =
      let back = roll_if bak d in
      if m.resumes
      then start_again m (clear_if bak d)
      else (record back { core = (Core.start m.before d.core).0 }, rejected resume_failed)

  unfoldable pub resume_written : Meets → Bool → Desk C → Desk C × Applied
  unfolding resume_stopped stop_in_time
  resume_written m bak d =
      let (core, ok) = stop_in_time m.ends_in_time d.core in
      let d' = record d { core = core } in
      if ok then resume_stopped m bak d' else (roll_if bak d', rejected stop_failed)

  abbrev resume_after : Meets → Desk C × Bool → Desk C × Applied
  resume_after m (d, false) = (d, rejected write_failed)
  resume_after m (d, true) = resume_written m true d

  abbrev resume_with : Meets → String → String → Desk C → Option Catalog → Desk C × Applied
  resume_with m id sid d none = (d, rejected catalog_error)
  resume_with m id sid d (some cat) = elim (find sid cat.sessions) [
    | none ↦ (d, rejected no_session)
    | some s ↦ resume_after m (written m id sid s d)
  ]

  unfoldable pub resume : Meets → String → String → Desk C → Desk C × Applied
  unfolding resume_written
  resume m id sid d =
      if not m.hosting
      then (d, rejected not_hosting)
      else if str_eq sid ""
      then resume_written m false d
      else resume_with m id sid d m.catalog

abbrev answer_of : CoreController × Bool → CoreController × Applied
answer_of (c, true) = (c, applied)
answer_of (c, false) = (c, rejected restart_failed)

-- `coreControl`
unfoldable pub core_control :
    Meets → String → Option Config.Config → CoreController → CoreController × Applied
unfolding restart stop_in_time
core_control m action cfg c =
    if not m.hosting
    then (c, rejected not_hosting)
    else if (str_eq action "start" || str_eq action "restart") && not (has_valid_session cfg)
    then (c, rejected no_token_yet)
    else if str_eq action "stop"
    then answer_of (stop_in_time m.ends_in_time c)
    else if str_eq action "start"
    then answer_of (Core.start m.before c)
    else if str_eq action "restart"
    then answer_of (restart m.ends_in_time m.before c)
    else (c, rejected bad_action)
