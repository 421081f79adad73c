-- ===== src/Config/Host.antt =====
-- The host of the configuration: `validateAPIHost` of internal/config/config.go.
use rfid_middleware_idro900e.Prelude.{
  String, Bool, not, ◌&&◌, ◌||◌, Option, none, some, str_eq, if◌then◌else◌,
}

-- What net/url makes of a text, as far as it is read here.
pub record Url : Type 0 where
  pub has_user : Bool
  pub raw_query : String
  pub fragment : String
  pub path : String
  pub host : String
  pub hostname : String
  pub scheme : String

-- `url.Parse` and `filepath.IsAbs`, which knows the paths of the system that it runs on.
pub record Platform : Type 0 where
  pub parse_url : String → Option Url
  pub is_abs : String → Bool

pub data HostFault : Type 0 where
  missing unreadable more_than_host no_host plain_http not_https : HostFault

abbrev is_loopback : String → Bool
is_loopback h = str_eq h "localhost" || str_eq h "127.0.0.1" || str_eq h "::1"

abbrev scheme_fault : Url → Option HostFault
scheme_fault u =
    if str_eq u.scheme "https"
    then none
    else if str_eq u.scheme "http"
    then (if is_loopback u.hostname then none else some plain_http)
    else some not_https

abbrev has_more : Url → Bool
has_more u =
    u.has_user
    || not (str_eq u.raw_query "")
    || not (str_eq u.fragment "")
    || not (str_eq u.path "") && not (str_eq u.path "/")

abbrev pub url_fault : Option Url → Option HostFault
url_fault none = some unreadable
url_fault (some u) =
    if has_more u
    then some more_than_host
    else if str_eq u.host ""
    then some no_host
    else scheme_fault u

-- `validateAPIHost`
unfoldable pub host_fault : Platform → String → Option HostFault
host_fault p host = if str_eq host "" then some missing else url_fault (p.parse_url host)
