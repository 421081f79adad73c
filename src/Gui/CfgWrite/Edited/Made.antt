-- ===== src/Gui/CfgWrite/Edited/Made.antt =====
-- That the document is what was edited: `WriteConfig` of internal/gui/cfgwrite.go.
use mathlib.Core.Path.{subst}
use rfid_middleware_idro900e.Prelude.{
  ℕ, Memᴰ, String, List, [], ◌∷◌, Option, none, some, All, ◌≡◌, ◌≢◌, ◌⊎◌, refl, sym, ap, ◌∙◌, arith,
  str_eq, str_eq_iff, str_eq_refl, ◌==◌, ==_iff, inl, inr, Bool-cases, Option-cases, length,
}
use rfid_middleware_idro900e.Config.{WireReader, Wire}
use rfid_middleware_idro900e.Gui.CfgWrite.{
  ReaderEdit, ConfigEdit, Tokens, put_token, tokens_from, tokens_of, find_token, lone, merged,
  merge_readers, edited,
}
use rfid_middleware_idro900e.Gui.CfgWrite.Tokens.{find_token-put_token}
use rfid_middleware_idro900e.Gui.CfgWrite.Edited.{last_named, Carries, Each, IsEdited, olds_of}
use rfid_middleware_idro900e.Gui.CfgWrite.Edited.Lone.{IsMany, tokens_from-IsMany, lone_many}

-- A Go map keeps the last entry of a key.
find_last :
    (id : String) (rs : List WireReader) (m : Tokens)
    → last_named id rs ≡ none
    → find_token id (tokens_from m rs) ≡ find_token id m
unfolding tokens_from
find_last id [] m h = refl
find_last id (r ∷ rs) m h = elim (Option-cases (last_named id rs)) [
  | inr (q, e) ↦ absurd (ground (arith, h, e))
  | inl e ↦
      find_last id rs (put_token r.id r.pulse_token r.session_id m) e
      ∙ ground (arith, find_token-put_token r.id id r.pulse_token r.session_id m, h, e)
]

find_named :
    (id : String) (rs : List WireReader) (m : Tokens) (r : WireReader)
    → last_named id rs ≡ some r
    → find_token id (tokens_from m rs) ≡ some (r.pulse_token, r.session_id)
unfolding tokens_from
find_named id [] m r h = cc h
find_named id (q ∷ rs) m r h = elim (Option-cases (last_named id rs)) [
  | inr (p, e) ↦ find_named id rs _ r (ground (arith, h, e))
  | inl e ↦
      find_last id rs (put_token q.id q.pulse_token q.session_id m) e
      ∙ ground (arith, find_token-put_token q.id id q.pulse_token q.session_id m, h, e)
]

last_named-id :
    (id : String) (rs : List WireReader) (r : WireReader) → last_named id rs ≡ some r → r.id ≡ id
last_named-id id [] r h = cc h
last_named-id id (q ∷ rs) r h = elim (Option-cases (last_named id rs)) [
  | inr (p, e) ↦ last_named-id id rs r (ground (arith, h, e))
  | inl e ↦ ground (arith, h, e, str_eq_iff q.id id)
]

-- One name gives one entry; another name gives a second.
single :
    (k tok sid : String) (rs : List WireReader)
    → All (λ q. q.id ≡ k) rs
        × ((v : String × String) × (tokens_from ((k, tok, sid) ∷ []) rs ≡ (k, v.0, v.1) ∷ []))
      ⊎ ((q : WireReader) × Memᴰ q rs × (q.id ≢ k)) × IsMany (tokens_from ((k, tok, sid) ∷ []) rs)
unfolding tokens_from put_token
single k tok sid [] = inl (tt, ((tok, sid), refl))
single k tok sid (r ∷ rs) = elim (Bool-cases (str_eq k r.id)) [
  | inl e ↦
      let k' = (str_eq_iff k r.id).0 e in
      let step : put_token r.id r.pulse_token r.session_id ((k, tok, sid) ∷ [])
          ≡ (k, r.pulse_token, r.session_id) ∷ [] =
        rw e (ap (λ (i : String). (i, r.pulse_token, r.session_id) ∷ []) (sym k')) in
      elim (single k r.pulse_token r.session_id rs) [
        | inl (a, (v, f)) ↦ inl ((sym k', a), (v, ap (λ (m : Tokens). tokens_from m rs) step ∙ f))
        | inr ((q, m, n), h) ↦
            inr
              ((q, Memᴰ.tail m, n), subst (λ (m : Tokens). IsMany (tokens_from m rs)) (sym step) h)
      ]
  | inr e ↦ inr (
    (r, Memᴰ.head refl, λ i. ground (arith, e, i, str_eq_iff k r.id)),
    rw e (tokens_from-IsMany rs _ tt),
  )
]

first_found : (k : String) (v : String × String) → find_token k ((k, v.0, v.1) ∷ []) ≡ some v
unfolding find_token
first_found k v = rw (str_eq_refl k) refl

-- What the merge makes of an edit whose name no old reader has.
merged_new :
    (olds : List WireReader) (n : ℕ) (x : ReaderEdit)
    → last_named x.id olds ≡ none
    → Carries olds n x (merged x none (lone (tokens_from [] olds) n))
unfolding tokens_from put_token
merged_new [] n x h = inr (h, inr (inr tt, refl))
merged_new (r ∷ rs) n x h = elim (single r.id r.pulse_token r.session_id rs) [
  | inr ((q, m, i), k) ↦ inr (
    h,
    inr (inr (q, m, i), ap (λ (l : Option (String × String)). merged x none l) (lone_many _ n k)),
  )
  | inl (a, (v, e)) ↦ elim (Bool-cases (n == 1)) [
    | inr k ↦ inr (h, inr (inl (λ i. ground (arith, k, i)), rw (e, k) refl))
    | inl k ↦ elim (Option-cases (last_named r.id (r ∷ rs))) [
      | inl f ↦ absurd (ground (arith, f, str_eq_refl r.id))
      | inr (q, f) ↦
          let found : some v ≡ some (q.pulse_token, q.session_id) =
            sym (first_found r.id v)
            ∙ (ap (find_token r.id) (sym e) ∙ find_named r.id (r ∷ rs) [] q f) in
          inr (
            h,
            inl (
              r.id,
              q,
              (==_iff n 1).0 k,
              (refl, a),
              f,
              rw (e, k) (ap (λ (l : Option (String × String)). merged x none l) found),
            ),
          )
    ]
  ]
]

merged-Carries :
    (olds : List WireReader) (n : ℕ) (x : ReaderEdit)
    → Carries olds n x
        (merged x (find_token x.id (tokens_from [] olds)) (lone (tokens_from [] olds) n))
unfolding find_token
merged-Carries olds n x = elim (Option-cases (last_named x.id olds)) [
  | inr (r, h) ↦ inl (
    r,
    h,
    ap (λ (o : Option (String × String)). merged x o (lone (tokens_from [] olds) n))
        (find_named x.id olds [] r h),
  )
  | inl h ↦
      subst
        (λ (o : Option (String × String)).
          Carries olds n x (merged x o (lone (tokens_from [] olds) n)))
        (sym (find_last x.id olds [] h)) (merged_new olds n x h)
]

merge_readers-Each :
    (olds : List WireReader) (n : ℕ) (xs : List ReaderEdit)
    → Each olds n xs (merge_readers (tokens_from [] olds) (lone (tokens_from [] olds) n) xs)
unfolding merge_readers
merge_readers-Each olds n [] = tt
merge_readers-Each olds n (x ∷ xs) = (merged-Carries olds n x, merge_readers-Each olds n xs)

pub edited-IsEdited :
    (e : ConfigEdit) (o : Option Wire) → IsEdited e (olds_of o) (edited e (tokens_of o))
unfolding edited tokens_from
edited-IsEdited e none = record {
  version = refl;
  api_host = refl;
  data_dir = refl;
  debounce_sec = refl;
  queue_max_age_hours = refl;
  request_timeout_sec = refl;
  power_gain = refl;
  buzzer = refl;
  log_level = refl;
  sessions_file = refl;
  readers = merge_readers-Each [] (length e.readers) e.readers;
}
edited-IsEdited e (some w) = record {
  version = refl;
  api_host = refl;
  data_dir = refl;
  debounce_sec = refl;
  queue_max_age_hours = refl;
  request_timeout_sec = refl;
  power_gain = refl;
  buzzer = refl;
  log_level = refl;
  sessions_file = refl;
  readers = merge_readers-Each w.readers (length e.readers) e.readers;
}
