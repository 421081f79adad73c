-- ===== src/Config.antt =====
-- internal/config/config.go: the configuration as its file has it (`Wire`), and `validate`, which makes the `Config` that
-- runs or the list of all that is wrong. The faults are values where the code has sentences.
pub mod Addr
mod Host
pub mod Valid
pub mod Checks
pub mod Exact
pub mod Tokens
unfoldable pub use Host.*
use Addr.{id_matches, is_hex64, AddrFault, addr_fault}
use rfid_middleware_idro900e.Prelude.{
  ℕ, suc, String, Bool, true, false, not, ◌&&◌, ◌||◌, List, [], ◌∷◌, ◌++◌, map, Option, none, some,
  leb, ltb, str_eq, if◌then◌else◌, codes, length,
}
use rfid_middleware_idro900e.Prelude.Case.{lower}
use rfid_middleware_idro900e.Prelude.Int.{ℤ, pos, ltb_ℤ, eq_ℤ}
use rfid_middleware_idro900e.Domain.{Secret}

-- `wireReader` and `wire`. A missing number is `none`, a missing text is empty.
pub record WireReader : Type 0 where
  pub id : String
  pub addr : String
  pub pulse_token : String
  pub session_id : String

pub record Wire : Type 0 where
  pub version : Option ℤ
  pub api_host : String
  pub data_dir : String
  pub debounce_sec : Option ℤ
  pub queue_max_age_hours : Option ℤ
  pub request_timeout_sec : Option ℤ
  pub power_gain : Option ℤ
  pub buzzer : Option ℤ
  pub log_level : String
  pub sessions_file : String
  pub readers : List WireReader

pub record Reader : Type 0 where
  pub id : String
  pub addr : String
  pub token : Secret
  pub session_id : String

pub record Config : Type 0 where
  pub api_host : String
  pub data_dir : String
  pub debounce_sec : ℤ
  pub queue_max_age_hours : ℤ
  pub request_timeout_sec : ℤ
  pub power_gain : ℤ
  pub buzzer : ℤ
  pub log_level : String
  pub sessions_file : String
  pub readers : List Reader

pub data ReaderFault : Type 0 where
  bad_id same_id same_addr bad_token same_token : ReaderFault
  bad_addr : AddrFault → ReaderFault

pub data Fault : Type 0 where
  bad_version bad_data_dir bad_debounce bad_max_age bad_timeout bad_power bad_buzzer bad_level
        bad_count :
      Fault
  bad_host : HostFault → Fault
  of_reader : ℕ → ReaderFault → Fault

abbrev pub int_or : ℤ → Option ℤ → ℤ
int_or d none = d
int_or d (some n) = n

abbrev pub level_or : String → String → String
level_or d s = if str_eq s "" then d else s

abbrev pub to_reader : WireReader → Reader
to_reader r = record {
  id = r.id;
  addr = r.addr;
  token = record { v = lower r.pulse_token };
  session_id = r.session_id;
}

-- The `cfg` of `validate`, with its defaults.
unfoldable pub config_of : Wire → Config
config_of w = record {
  api_host = w.api_host;
  data_dir = w.data_dir;
  debounce_sec = int_or (pos 60) w.debounce_sec;
  queue_max_age_hours = int_or (pos 24) w.queue_max_age_hours;
  request_timeout_sec = int_or (pos 10) w.request_timeout_sec;
  power_gain = int_or (pos 300) w.power_gain;
  buzzer = int_or (pos 0) w.buzzer;
  log_level = level_or "info" w.log_level;
  sessions_file = w.sessions_file;
  readers = map to_reader w.readers;
}

-- `if !ok { fail(…) }`, and the failure of a call.
abbrev pub check : Bool → Fault → List Fault
check ok f = if ok then [] else f ∷ []

abbrev pub fault_of {ℓ} : {A : Type ℓ} → (A → Fault) → Option A → List Fault
fault_of f none = []
fault_of f (some a) = f a ∷ []

abbrev pub within : ℤ → ℤ → ℤ → Bool
within lo hi n = not (ltb_ℤ n lo || ltb_ℤ hi n)

abbrev pub is_level : String → Bool
is_level s = str_eq s "debug" || str_eq s "info" || str_eq s "warn" || str_eq s "error"

abbrev pub is_version : Option ℤ → Bool
is_version none = false
is_version (some v) = eq_ℤ v (pos 1)

abbrev pub max_readers : ℕ
max_readers = 8

-- The checks before the loop over the readers.
unfoldable pub global_faults : Platform → Wire → Config → List Fault
unfolding host_fault
global_faults p w c =
    check (is_version w.version) bad_version
    ++ (fault_of bad_host (host_fault p w.api_host)
        ++ (check (not (str_eq w.data_dir "") && p.is_abs w.data_dir) bad_data_dir
            ++ (check (within (pos 1) (pos 3_600) c.debounce_sec) bad_debounce
                ++ (check (within (pos 1) (pos 24) c.queue_max_age_hours) bad_max_age
                    ++ (check (within (pos 1) (pos 30) c.request_timeout_sec) bad_timeout
                        ++ (check (within (pos 50) (pos 300) c.power_gain) bad_power
                            ++ (check (eq_ℤ c.buzzer (pos 0) || eq_ℤ c.buzzer (pos 1)) bad_buzzer
                                ++ (check (is_level c.log_level) bad_level
                                    ++ check
                                        (leb 1 (length w.readers)
                                          && leb (length w.readers) max_readers)
                                        bad_count))))))))

-- A map that only remembers its keys.
unfoldable pub has_key : String → List String → Bool
has_key k [] = false
has_key k (x ∷ seen) = str_eq x k || has_key k seen

-- A round of the loop, with the identifiers, addresses and tokens that came before.
unfoldable pub reader_faults : ℕ → List String → List String → List String → WireReader → List Fault
unfolding is_hex64 addr_fault
reader_faults i ids addrs tokens r =
    check (id_matches (codes r.id)) (of_reader i bad_id)
    ++ (check (not (has_key r.id ids)) (of_reader i same_id)
        ++ (fault_of (λ a. of_reader i (bad_addr a)) (addr_fault r.addr)
            ++ (check (not (has_key r.addr addrs)) (of_reader i same_addr)
                ++ (check (is_hex64 (codes (lower r.pulse_token))) (of_reader i bad_token)
                    ++ check (not (has_key (lower r.pulse_token) tokens))
                        (of_reader i same_token)))))

unfoldable pub readers_faults :
    ℕ → List String → List String → List String → List WireReader → List Fault
unfolding reader_faults has_key
readers_faults i ids addrs tokens [] = []
readers_faults i ids addrs tokens (r ∷ rest) =
    reader_faults i ids addrs tokens r
    ++ readers_faults (suc i) (r.id ∷ ids) (r.addr ∷ addrs) (lower r.pulse_token ∷ tokens) rest

pub data Checked : Type 0 where
  refused : List Fault → Checked
  accepted : Config → Checked

abbrev verdict : Config → List Fault → Checked
verdict c [] = accepted c
verdict c (f ∷ fs) = refused (f ∷ fs)

-- `validate`
unfoldable pub validate : Platform → Wire → Checked
unfolding global_faults readers_faults config_of
validate p w =
    verdict (config_of w) (global_faults p w (config_of w) ++ readers_faults 0 [] [] [] w.readers)

-- What the decoder makes of a file: an error, a document with more behind it, or one document.
pub data Document : Type 0 where
  malformed trailing : Document
  document : Wire → Document

pub data Parsed : Type 0 where
  no_json several : Parsed
  checked : Checked → Parsed

-- `Parse`
unfoldable pub parse_config : Platform → Document → Parsed
unfolding validate
parse_config p malformed = no_json
parse_config p trailing = several
parse_config p (document w) = checked (validate p w)

-- `Config.Reader` and `Config.Token`
unfoldable pub reader_of : String → List Reader → Option Reader
reader_of id [] = none
reader_of id (r ∷ rest) = if str_eq r.id id then some r else reader_of id rest

unfoldable pub token_of : String → List Reader → Option Secret
token_of id [] = none
token_of id (r ∷ rest) = if str_eq r.id id then some r.token else token_of id rest
