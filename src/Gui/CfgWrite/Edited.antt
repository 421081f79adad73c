-- ===== src/Gui/CfgWrite/Edited.antt =====
-- What the document that `WriteConfig` makes has of the form and of the old file: internal/gui/cfgwrite.go.
pub mod Lone
pub mod Made
use mathlib.Core.Path.{subst}
use rfid_middleware_idro900e.Prelude.{
  ℕ, Memᴰ, String, List, [], ◌∷◌, Option, none, some, All, ◌≡◌, ◌≢◌, ◌⊎◌, refl, sym, ap, ◌∙◌, arith,
  str_eq, str_eq_iff, str_eq_refl, ◌==◌, ==_iff, inl, inr, Bool-cases, Option-cases, if◌then◌else◌,
  length,
}
use rfid_middleware_idro900e.Prelude.Int.{pos}
use rfid_middleware_idro900e.Config.{WireReader, Wire}
use rfid_middleware_idro900e.Gui.CfgWrite.{
  ReaderEdit, ConfigEdit, Tokens, put_token, tokens_from, tokens_of, find_token, lone, merged,
  merge_readers, edited,
}
use rfid_middleware_idro900e.Gui.CfgWrite.Tokens.{find_token-put_token}

-- The last reader of an old file with a name.
abbrev pub last_named : String → List WireReader → Option WireReader
last_named id [] = none
last_named id (r ∷ rs) = elim (last_named id rs) [
  | some q ↦ some q
  | none ↦ if str_eq r.id id then some r else none
]

-- The reader that an edit makes, with a token and a session; an empty token is sixty-four zeros.
abbrev pub carrying : ReaderEdit → String → String → WireReader
carrying x tok sid = record {
  id = x.id;
  addr = x.addr;
  pulse_token =
      if str_eq tok ""
      then "0000000000000000000000000000000000000000000000000000000000000000"
      else tok;
  session_id = sid;
}

-- Two readers of the old file have different names, or it has none.
abbrev pub HasNoLone : List WireReader → Type 0
HasNoLone [] = Unit
HasNoLone (r ∷ rs) = (q : WireReader) × Memᴰ q rs × (q.id ≢ r.id)

-- What an edit takes over: the token and session of the last old reader of its name; where there is none, those of an old
-- file's only name, if the form has one reader too; and otherwise nothing.
abbrev pub Carries : List WireReader → ℕ → ReaderEdit → WireReader → Type 0
Carries olds n x y =
    ((r : WireReader) × (last_named x.id olds ≡ some r)
      × (y ≡ carrying x r.pulse_token r.session_id))
    ⊎ (last_named x.id olds ≡ none)
      × (((k : String) × (r : WireReader) × (n ≡ 1)
            × All (λ q. q.id ≡ k) olds
            × (last_named k olds ≡ some r)
            × (y ≡ carrying x r.pulse_token r.session_id))
          ⊎ ((n ≢ 1) ⊎ HasNoLone olds) × (y ≡ carrying x "" ""))

-- One reader for each of the form's, in order.
abbrev pub Each : List WireReader → ℕ → List ReaderEdit → List WireReader → Type 0
Each olds n [] [] = Unit
Each olds n (x ∷ xs) (y ∷ ys) = Carries olds n x y × Each olds n xs ys
Each olds n _ _ = ⊥

-- The new document has the form's values, and its readers with what they take over.
pub record IsEdited (e : ConfigEdit) (olds : List WireReader) (w : Wire) : Type 0 where
  pub version : w.version ≡ some (pos 1)
  pub api_host : w.api_host ≡ e.api_host
  pub data_dir : w.data_dir ≡ e.data_dir
  pub debounce_sec : w.debounce_sec ≡ some e.debounce_sec
  pub queue_max_age_hours : w.queue_max_age_hours ≡ some e.queue_max_age_hours
  pub request_timeout_sec : w.request_timeout_sec ≡ some e.request_timeout_sec
  pub power_gain : w.power_gain ≡ some e.power_gain
  pub buzzer : w.buzzer ≡ some e.buzzer
  pub log_level : w.log_level ≡ e.log_level
  pub sessions_file : w.sessions_file ≡ e.sessions_file
  pub readers : Each olds (length e.readers) e.readers w.readers

-- The readers of an old file, if one was read.
abbrev pub olds_of : Option Wire → List WireReader
olds_of none = []
olds_of (some w) = w.readers
