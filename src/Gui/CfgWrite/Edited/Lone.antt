-- ===== src/Gui/CfgWrite/Edited/Lone.antt =====
-- Whether the old file has one name only: `WriteConfig` of internal/gui/cfgwrite.go.
use rfid_middleware_idro900e.Prelude.{
  ℕ, String, List, [], ◌∷◌, none, ◌≡◌, ◌≢◌, refl, str_eq, str_eq_iff, inl, inr, Bool-cases,
}
use rfid_middleware_idro900e.Config.{WireReader}
use rfid_middleware_idro900e.Gui.CfgWrite.{Tokens, put_token, tokens_from, lone}

-- Two readers with different names leave more than one entry, so that none is the lone one.
abbrev pub IsMany : Tokens → Type 0
IsMany (a ∷ b ∷ m) = Unit {0}
IsMany _ = ⊥

pub put_token-IsMany :
    (id tok sid : String) (m : Tokens) → IsMany m → IsMany (put_token id tok sid m)
unfolding put_token
put_token-IsMany id tok sid [] h = h
put_token-IsMany id tok sid ((k, t, s) ∷ []) h = absurd h
put_token-IsMany id tok sid ((k, t, s) ∷ (k', t', s') ∷ m) h = elim (Bool-cases (str_eq k id)) [
  | inl e ↦ rw e tt
  | inr e ↦ elim (Bool-cases (str_eq k' id)) [ inl f ↦ rw (e, f) tt | inr f ↦ rw (e, f) tt ]
]

pub tokens_from-IsMany : (rs : List WireReader) (m : Tokens) → IsMany m → IsMany (tokens_from m rs)
unfolding tokens_from
tokens_from-IsMany [] m h = h
tokens_from-IsMany (r ∷ rs) m h = tokens_from-IsMany rs _ (put_token-IsMany _ _ _ m h)

pub two_IsMany :
    (r q : WireReader)
    → r.id ≢ q.id
    → IsMany
        (put_token q.id q.pulse_token q.session_id (put_token r.id r.pulse_token r.session_id []))
unfolding put_token
two_IsMany r q h = elim (Bool-cases (str_eq r.id q.id)) [
  | inl e ↦ absurd (h ((str_eq_iff r.id q.id).0 e))
  | inr e ↦ rw e tt
]

pub lone_many : (m : Tokens) → (n : ℕ) → IsMany m → lone m n ≡ none
lone_many (a ∷ b ∷ m) n h = refl
lone_many [] n h = refl
lone_many (a ∷ []) n h = absurd h
