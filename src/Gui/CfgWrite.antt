-- ===== src/Gui/CfgWrite.antt =====
-- internal/gui/cfgwrite.go: the window writes the configuration file. The file system is the file, its backup and the temporary
-- file beside it; which calls fail is an argument. JSON is an argument too (`Codec`): a file is read as a `Wire`, in which a missing
-- member is empty. What a failed write leaves in the temporary file or the backup is left out. A member that `Wire` does not have, or of another type, is refused when the new text is parsed again, before
-- anything is written.
pub mod Edited
pub mod Undone
pub mod Atomic
pub mod Tokens
use rfid_middleware_idro900e.Prelude.{
  ℕ, String, Bool, true, false, not, ◌&&◌, ◌||◌, List, [], ◌∷◌, ◌++◌, map, Option, none, some, ◌==◌,
  str_eq, if◌then◌else◌, length, any,
}
use rfid_middleware_idro900e.Prelude.Int.{ℤ, pos}
use rfid_middleware_idro900e.Config.{
  WireReader, Wire, Platform, Document, Parsed, checked, accepted, parse_config,
}

pub record Codec (C : Type 0) : Type 0 where
  pub is_empty : C → Bool
  pub unmarshal : C → Option Wire
  pub decode : C → Document
  pub encode : Wire → C

-- The file, its backup and the temporary file.
pub record Files (C : Type 0) : Type 0 where
  pub main : Option C
  pub bak : Option C
  pub tmp : Option C

-- Which calls fail: to read the file, to write the backup, to make the folder, to write the temporary file, to rename it.
pub record Io : Type 0 where
  pub read : Bool
  pub backup : Bool
  pub mkdir : Bool
  pub temp : Bool
  pub rename : Bool

-- Which calls of a rollback fail: to read the backup, to open the file for writing, to write it, which leaves what `cut`
-- says in it, to remove the backup.
pub record Undo (C : Type 0) : Type 0 where
  pub read : Bool
  pub opening : Bool
  pub cut : Option C
  pub remove : Bool

pub record ReaderEdit : Type 0 where
  pub id : String
  pub addr : String

pub record ConfigEdit : Type 0 where
  pub api_host : String
  pub data_dir : String
  pub debounce_sec : ℤ
  pub queue_max_age_hours : ℤ
  pub request_timeout_sec : ℤ
  pub power_gain : ℤ
  pub buzzer : ℤ
  pub log_level : String
  pub sessions_file : String
  pub readers : List ReaderEdit

-- The token and the session of a reader, in a Go map: the last entry of a key counts.
abbrev pub Tokens : Type 0
Tokens = List (String × String × String)

unfoldable pub put_token : String → String → String → Tokens → Tokens
put_token id tok sid [] = (id, tok, sid) ∷ []
put_token id tok sid ((k, t, s) ∷ rest) =
    if str_eq k id then (id, tok, sid) ∷ rest else (k, t, s) ∷ put_token id tok sid rest

unfoldable pub tokens_from : Tokens → List WireReader → Tokens
unfolding put_token
tokens_from m [] = m
tokens_from m (r ∷ rest) = tokens_from (put_token r.id r.pulse_token r.session_id m) rest

abbrev pub tokens_of : Option Wire → Tokens
tokens_of none = []
tokens_of (some w) = tokens_from [] w.readers

unfoldable pub find_token : String → Tokens → Option (String × String)
find_token id [] = none
find_token id ((k, t, s) ∷ rest) = if str_eq k id then some (t, s) else find_token id rest

-- `loneOld`: one reader before and one now.
abbrev pub lone : Tokens → ℕ → Option (String × String)
lone ((k, t, s) ∷ []) n = if n == 1 then some (t, s) else none
lone _ n = none

abbrev pub no_token : String
no_token = "0000000000000000000000000000000000000000000000000000000000000000"

abbrev token_or : String → String
token_or t = if str_eq t "" then no_token else t

abbrev pub merged : ReaderEdit → Option (String × String) → Option (String × String) → WireReader
merged e (some (t, s)) l = record {
  id = e.id;
  addr = e.addr;
  pulse_token = token_or t;
  session_id = s;
}
merged e none (some (t, s)) = record {
  id = e.id;
  addr = e.addr;
  pulse_token = token_or t;
  session_id = s;
}
merged e none none = record { id = e.id; addr = e.addr; pulse_token = no_token; session_id = "" }

unfoldable pub merge_readers : Tokens → Option (String × String) → List ReaderEdit → List WireReader
unfolding find_token
merge_readers m l [] = []
merge_readers m l (e ∷ es) = merged e (find_token e.id m) l ∷ merge_readers m l es

-- The document that `WriteConfig` makes.
unfoldable pub edited : ConfigEdit → Tokens → Wire
unfolding merge_readers
edited e m = record {
  version = some (pos 1);
  api_host = e.api_host;
  data_dir = e.data_dir;
  debounce_sec = some e.debounce_sec;
  queue_max_age_hours = some e.queue_max_age_hours;
  request_timeout_sec = some e.request_timeout_sec;
  power_gain = some e.power_gain;
  buzzer = some e.buzzer;
  log_level = e.log_level;
  sessions_file = e.sessions_file;
  readers = merge_readers m (lone m (length e.readers)) e.readers;
}

abbrev pub is_accepted : Parsed → Bool
is_accepted (checked (accepted c)) = true
is_accepted _ = false

module _ {C : Type 0} (codec : Codec C) where
  -- What is read of the file; an empty one counts as none.
  abbrev pub contents : Bool → Files C → Option C
  contents fails fs = if fails then none else fs.main

  abbrev pub full : Option C → Option C
  full none = none
  full (some c) = if codec.is_empty c then none else some c

  abbrev pub old_wire : Option C → Option Wire
  old_wire none = none
  old_wire (some c) = codec.unmarshal c

  -- The temporary file takes the place of the file.
  unfoldable pub put_file : Io → C → Files C → Files C × Bool
  put_file io out fs =
      if io.temp
      then (fs, false)
      else if io.rename
      then (record fs { tmp = none }, false)
      else (record fs { main = some out; tmp = none }, true)

  -- The backup, where there was a file.
  unfoldable pub back_up : Io → Option C → Files C → Files C × Bool
  back_up io none fs = (fs, true)
  back_up io (some raw) fs = if io.backup then (fs, false) else (record fs { bak = some raw }, true)

  unfoldable pub after_backup : Io → Bool → C → Files C × Bool → Files C × Bool
  unfolding put_file
  after_backup io no_folder out (fs, false) = (fs, false)
  after_backup io no_folder out (fs, true) = if no_folder then (fs, false) else put_file io out fs

  -- The new text is checked, then written behind the backup of `raw`. `no_folder` is whether a folder that is needed cannot be made.
  unfoldable pub replace_by : Platform → Io → Bool → Option C → C → Files C → Files C × Bool
  unfolding after_backup back_up
  replace_by p io no_folder raw out fs =
      if is_accepted (parse_config p (codec.decode out))
      then after_backup io no_folder out (back_up io raw fs)
      else (fs, false)

  -- `WriteConfig`, and whether it succeeds.
  unfoldable pub write_config : Platform → Io → ConfigEdit → Files C → Files C × Bool
  unfolding edited replace_by
  write_config p io e fs =
      let raw = full (contents io.read fs) in
      replace_by p io io.mkdir raw (codec.encode (edited e (tokens_of (old_wire raw)))) fs

  abbrev pub set_session : String → String → String → WireReader → WireReader
  set_session id sid tok r =
      if str_eq r.id id then record r { pulse_token = tok; session_id = sid } else r

  abbrev pub session_wire : String → String → String → Wire → Wire
  session_wire id sid tok w = record w { readers = map (set_session id sid tok) w.readers }

  unfoldable pub session_in :
      Platform → Io → String → String → String → C → Option Wire → Files C → Files C × Bool
  unfolding replace_by
  session_in p io id sid tok raw none fs = (fs, false)
  session_in p io id sid tok raw (some w) fs =
      if any (λ r. str_eq r.id id) w.readers
      then replace_by p io false (some raw) (codec.encode (session_wire id sid tok w)) fs
      else (fs, false)

  unfoldable pub session_into :
      Platform → Io → String → String → String → Option C → Files C → Files C × Bool
  unfolding session_in
  session_into p io id sid tok none fs = (fs, false)
  session_into p io id sid tok (some raw) fs =
      session_in p io id sid tok raw (codec.unmarshal raw) fs

  -- `WriteReaderSession`, and whether it succeeds.
  unfoldable pub write_reader_session :
      Platform → Io → String → String → String → Files C → Files C × Bool
  unfolding session_into
  write_reader_session p io id sid tok fs = session_into p io id sid tok (contents io.read fs) fs

  -- `RollbackConfig`, behind its reading of the backup.
  unfoldable pub put_back : Undo C → C → Files C → Files C × Bool
  put_back u raw fs = if u.read || u.opening then (fs, false) else elim u.cut [
    | some rest ↦ (record fs { main = some rest }, false)
    | none ↦
        if u.remove
        then (record fs { main = some raw }, false)
        else (record fs { main = some raw; bak = none }, true)
  ]

  unfoldable pub roll_to : Undo C → Option C → Files C → Files C × Bool
  unfolding put_back
  roll_to u none fs = (fs, false)
  roll_to u (some raw) fs = put_back u raw fs

  -- `RollbackConfig`, and whether it succeeds.
  unfoldable pub rollback_config : Undo C → Files C → Files C × Bool
  unfolding roll_to
  rollback_config u fs = roll_to u fs.bak fs
