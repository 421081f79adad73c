-- ===== src/Gui/Catalog.antt =====
-- internal/gui/catalog.go and manager.go: the catalogue of sessions, and the manager that holds the last good one.
pub mod Exact
pub mod Manager
use rfid_middleware_idro900e.Prelude.{
  ℕ, ◌+◌, String, Bool, true, false, not, ◌&&◌, ◌||◌, List, [], ◌∷◌, ◌++◌, Option, none, some, ltb,
  str_eq, if◌then◌else◌, codes,
}
use rfid_middleware_idro900e.Prelude.Int.{ℤ, pos, eq_ℤ}
use rfid_middleware_idro900e.Config.{has_key, is_version}
use rfid_middleware_idro900e.Config.Addr.{is_hex64}
use rfid_middleware_idro900e.Sender.{seconds}

-- An item of the file.
pub record Item : Type 0 where
  pub id : String
  pub name : String
  pub unit_name : String
  pub token_label : String
  pub pulse_token : String
  pub issued_at : String

-- `catalogWire`
pub record CatalogFile : Type 0 where
  pub version : Option ℤ
  pub event_name : String
  pub exported_at : String
  pub sessions : List Item

-- `CatalogSession`; `token_fp` is the first eight characters of the token.
pub record CatalogSession : Type 0 where
  pub id : String
  pub name : String
  pub unit_name : String
  pub token_label : String
  pub token : String
  pub token_fp : String
  pub issued_at : String

-- A warning names the item that is left out.
pub data Warning : Type 0 where
  incomplete bad_token repeated : String → Warning

pub record Catalog : Type 0 where
  pub event_name : String
  pub exported_at : String
  pub sessions : List CatalogSession
  pub warnings : List Warning

abbrev pub first_chars : ℕ → String → String
first_chars ℕ.zero s = String.[]
first_chars (ℕ.suc n) String.[] = String.[]
first_chars (ℕ.suc n) (String.◌∷◌ c s) = String.◌∷◌ c (first_chars n s)

abbrev pub to_session : Item → CatalogSession
to_session i = record {
  id = i.id;
  name = i.name;
  unit_name = i.unit_name;
  token_label = i.token_label;
  token = i.pulse_token;
  token_fp = first_chars 8 i.pulse_token;
  issued_at = i.issued_at;
}

-- `tokenPattern` is the pattern of `isHex64`: sixty-four digits, in lower case.
abbrev pub is_incomplete : Item → Bool
is_incomplete i = str_eq i.id "" || str_eq i.name "" || str_eq i.unit_name ""

abbrev pub token_matches : Item → Bool
token_matches i = is_hex64 (codes i.pulse_token)

abbrev pub keep : Item → Catalog → Catalog
keep i c = record c { sessions = c.sessions ++ to_session i ∷ [] }

abbrev pub warn_of : Warning → Catalog → Catalog
warn_of w c = record c { warnings = c.warnings ++ w ∷ [] }

-- The loop, with the identifiers of the items that were kept.
unfoldable pub take_items : List Item → List String → Catalog → Catalog
unfolding is_hex64 has_key
take_items [] seen c = c
take_items (i ∷ rest) seen c =
    let without = λ (w : Warning). take_items rest seen (warn_of w c) in
    let kept = take_items rest (i.id ∷ seen) (keep i c) in
    if is_incomplete i
    then without (incomplete i.id)
    else if not (token_matches i)
    then without (bad_token i.id)
    else if has_key i.id seen
    then without (repeated i.id)
    else kept

pub data Loaded : Type 0 where
  no_json bad_version no_content no_session : Loaded
  loaded : Catalog → Loaded

abbrev pub is_nil {ℓ} : {A : Type ℓ} → List A → Bool
is_nil [] = true
is_nil (x ∷ xs) = false

abbrev pub start_catalog : CatalogFile → Catalog
start_catalog w = record {
  event_name = w.event_name;
  exported_at = w.exported_at;
  sessions = [];
  warnings = [];
}

abbrev pub with_sessions : Catalog → Loaded
with_sessions c = if is_nil c.sessions then no_session else loaded c

-- `ParseCatalog`, on what the decoder makes of the bytes.
unfoldable pub parse_catalog : Option CatalogFile → Loaded
unfolding take_items
parse_catalog none = no_json
parse_catalog (some w) =
    if not (is_version w.version)
    then bad_version
    else if str_eq w.event_name "" || is_nil w.sessions
    then no_content
    else with_sessions (take_items w.sessions [] (start_catalog w))

-- `Find`
unfoldable pub find : String → List CatalogSession → Option CatalogSession
find id [] = none
find id (s ∷ rest) = if str_eq s.id id then some s else find id rest

-- `Stale`: exported more than seven days ago.
unfoldable pub stale : (String → Option ℕ) → ℕ → Catalog → Bool
stale parse now c = elim (parse c.exported_at) [
  | none ↦ false
  | some t ↦ ltb (t + seconds 604_800) now
]
