-- ===== src/Config/Valid.antt =====
-- What a valid configuration is, without the checks of `validate`.
use rfid_middleware_idro900e.Prelude.{
  ℕ, ◌≤◌, String, true, false, List, [], ◌∷◌, map, some, codes, length, Bytes, All, ◌≡◌, ◌≢◌, ◌⊎◌,
}
use rfid_middleware_idro900e.Prelude.Case.{lower}
use rfid_middleware_idro900e.Prelude.Int.{ℤ, pos, ◌≤ℤ◌}
use rfid_middleware_idro900e.Config.{WireReader, Wire, Url, Platform, config_of}
use rfid_middleware_idro900e.Config.Addr.{id_matches, split_host_port, atoi}

-- No two are the same.
abbrev pub Distinct : List String → Type 0
Distinct [] = Unit
Distinct (x ∷ xs) = All (λ y. x ≢ y) xs × Distinct xs

abbrev pub IsLoopback : String → Type 0
IsLoopback h = (h ≡ "localhost") ⊎ ((h ≡ "127.0.0.1") ⊎ (h ≡ "::1"))

-- A scheme and a host, and nothing else; over plain HTTP only on the machine itself.
pub record IsOrigin (u : Url) : Type 0 where
  pub no_user : u.has_user ≡ false
  pub no_query : u.raw_query ≡ ""
  pub no_fragment : u.fragment ≡ ""
  pub no_path : (u.path ≡ "") ⊎ (u.path ≡ "/")
  pub a_host : u.host ≢ ""
  pub secure : (u.scheme ≡ "https") ⊎ ((u.scheme ≡ "http") × IsLoopback u.hostname)

abbrev pub IsHost : Platform → String → Type 0
IsHost p s = (s ≢ "") × ((u : Url) × (p.parse_url s ≡ some u) × IsOrigin u)

abbrev pub IsHexDigit : ℕ → Type 0
IsHexDigit c = ((b'0' ≤ c) × (c ≤ b'9')) ⊎ ((b'a' ≤ c) × (c ≤ b'f'))

abbrev pub IsToken : Bytes → Type 0
IsToken s = (length s ≡ 64) × All IsHexDigit s

-- A host and the number of a port.
abbrev pub IsAddr : String → Type 0
IsAddr s =
    (host : Bytes) × (port : Bytes) × (n : ℕ) × (split_host_port (codes s) ≡ some (host, port))
    × (host ≢ [])
    × (atoi port ≡ some (pos n))
    × (1 ≤ n)
    × (n ≤ 65_535)

pub record IsReader (r : WireReader) : Type 0 where
  pub named : id_matches (codes r.id) ≡ true
  pub addressed : IsAddr r.addr
  pub secret : IsToken (codes (lower r.pulse_token))

abbrev pub In : ℤ → ℤ → ℤ → Type 0
In lo hi n = (lo ≤ℤ n) × (n ≤ℤ hi)

abbrev pub IsLevel : String → Type 0
IsLevel s = (s ≡ "debug") ⊎ ((s ≡ "info") ⊎ ((s ≡ "warn") ⊎ (s ≡ "error")))

abbrev pub ids : List WireReader → List String
ids = map (λ r. r.id)

abbrev pub addrs : List WireReader → List String
addrs = map (λ r. r.addr)

abbrev pub tokens : List WireReader → List String
tokens = map (λ r. lower r.pulse_token)

-- The numbers are those that the defaults fill up.
pub record IsValid (p : Platform) (w : Wire) : Type 0 where
  pub version : w.version ≡ some (pos 1)
  pub host : IsHost p w.api_host
  pub data_dir : (w.data_dir ≢ "") × (p.is_abs w.data_dir ≡ true)
  pub debounce : In (pos 1) (pos 3_600) (config_of w).debounce_sec
  pub max_age : In (pos 1) (pos 24) (config_of w).queue_max_age_hours
  pub timeout : In (pos 1) (pos 30) (config_of w).request_timeout_sec
  pub power : In (pos 50) (pos 300) (config_of w).power_gain
  pub buzzer : ((config_of w).buzzer ≡ pos 0) ⊎ ((config_of w).buzzer ≡ pos 1)
  pub level : IsLevel (config_of w).log_level
  pub count : (1 ≤ length w.readers) × (length w.readers ≤ 8)
  pub readers : All IsReader w.readers
  pub own_ids : Distinct (ids w.readers)
  pub own_addrs : Distinct (addrs w.readers)
  pub own_tokens : Distinct (tokens w.readers)
