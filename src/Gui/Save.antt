-- ===== src/Gui/Save.antt =====
-- internal/gui/run.go and cmd/rfid-middleware/main.go: who writes the configuration. The window saves its form, and the command
-- `config set-reader` gives the first reader another name and address.
-- The folder and the age limit that the window remembers beside the configuration are left out.
pub mod Outcome
pub mod Renamed
use rfid_middleware_idro900e.Prelude.{
  String, Bool, true, false, not, ◌&&◌, ◌||◌, List, [], ◌∷◌, map, Option, none, some, str_eq,
  if◌then◌else◌,
}
use rfid_middleware_idro900e.Prelude.Int.{pos}
use rfid_middleware_idro900e.Config
use rfid_middleware_idro900e.Config.{Reader, Platform}
use rfid_middleware_idro900e.Gui.CfgWrite.{
  Codec, Files, Io, Undo, ReaderEdit, ConfigEdit, contents, full, write_config, rollback_config,
}
use rfid_middleware_idro900e.Gui.Core
use rfid_middleware_idro900e.Gui.Apply.{Desk, Meets, restart, finish, read_config}

pub data SaveResult : Type 0 where
  saved needs_restart no_readers not_written not_loaded core_restart_failed : SaveResult

abbrev pub edit_of : Config.Config → ConfigEdit
edit_of c = record {
  api_host = c.api_host;
  data_dir = c.data_dir;
  debounce_sec = c.debounce_sec;
  queue_max_age_hours = c.queue_max_age_hours;
  request_timeout_sec = c.request_timeout_sec;
  power_gain = c.power_gain;
  buzzer = c.buzzer;
  log_level = c.log_level;
  sessions_file = c.sessions_file;
  readers = map (λ (r : Reader). record { id = r.id; addr = r.addr }) c.readers;
}

-- The first reader of a form, which has one, by another name and address.
abbrev pub with_first : String → String → List ReaderEdit → List ReaderEdit
with_first id addr [] = record { id = id; addr = addr } ∷ []
with_first id addr (r ∷ rest) = record { id = id; addr = addr } ∷ rest

-- The form of `cmdConfig` where there is a configuration.
abbrev pub renamed : String → String → Config.Config → ConfigEdit
renamed id addr c = let e = edit_of c in record e { readers = with_first id addr e.readers }

-- And where none is loaded.
abbrev pub first_edit : String → String → String → ConfigEdit
first_edit dir id addr = record {
  api_host = "https://api.congkong.net";
  data_dir = dir;
  debounce_sec = pos 60;
  queue_max_age_hours = pos 24;
  request_timeout_sec = pos 10;
  power_gain = pos 300;
  buzzer = pos 0;
  log_level = "info";
  sessions_file = "";
  readers = record { id = id; addr = addr } ∷ [];
}

module _ {C : Type 0} (codec : Codec C) (p : Platform) where
  -- `config set-reader` behind its flags: `load_fails` is whether the file cannot be read, `here` the folder that it stands in.
  abbrev pub dir_or : String → String → String
  dir_or dir here = if str_eq dir "" then here else dir

  abbrev pub edit_for : String → String → String → Option Config.Config → ConfigEdit
  edit_for dir id addr none = first_edit dir id addr
  edit_for dir id addr (some c) = renamed id addr c

  unfoldable pub set_reader :
      Io → Bool → String → String → String → String → String → Files C → Files C × Bool
  set_reader io load_fails id addr path dir here fs =
      let old = read_config codec p none (contents codec load_fails fs) in
      if str_eq id "" || str_eq addr "" || str_eq path ""
      then (fs, false)
      else write_config codec p io (edit_for (dir_or dir here) id addr old) fs

module _ {C : Type 0} (codec : Codec C) (p : Platform) (u : Undo C) where
  -- The rollback, where there is a backup.
  abbrev pub rolled_back : Bool → Files C → Files C
  rolled_back false fs = fs
  rolled_back true fs = (rollback_config codec u fs).0

  abbrev pub has_backup : Option C → Bool
  has_backup none = false
  has_backup (some raw) = true

  -- The end of a success: the backup goes, where there is one, and the configuration is read again.
  abbrev pub closed : Bool → Desk C → Desk C
  closed false d = record d { cfg = read_config codec p d.cfg d.files.main }
  closed true d = finish codec p d

  -- Behind the new file: the core is started on it, where it is this process's. `bak` is whether there is a backup.
  unfoldable pub save_core : Meets → Bool → Desk C → Desk C × SaveResult
  unfolding restart
  save_core m bak d =
      let (core, ok) = restart m.ends_in_time m.before d.core in
      let again = (Core.start m.before_again core).0 in
      if not m.hosting
      then (closed bak d, needs_restart)
      else if ok
      then (closed bak (record d { core = core }), saved)
      else (record d { files = rolled_back bak d.files; core = again }, core_restart_failed)

  -- `load_fails` is whether the new file cannot be read again.
  unfoldable pub save_written : Meets → Bool → Bool → Desk C × Bool → Desk C × SaveResult
  unfolding save_core
  save_written m load_fails bak (d, false) = (d, not_written)
  save_written m load_fails bak (d, true) =
      if load_fails
      then (record d { files = rolled_back bak d.files }, not_loaded)
      else save_core m bak d

  abbrev pub with_readers : List ReaderEdit → Desk C → Desk C × SaveResult → Desk C × SaveResult
  with_readers [] d res = (d, no_readers)
  with_readers (r ∷ rs) d res = res

  -- `configSave`
  unfoldable pub config_save : Meets → Bool → ConfigEdit → Desk C → Desk C × SaveResult
  unfolding save_written
  config_save m load_fails e d =
      let bak = has_backup (full codec (contents codec m.io.read d.files)) in
      let (files, ok) = write_config codec p m.io e d.files in
      with_readers e.readers d (save_written m load_fails bak (record d { files = files }, ok))
