-- ===== src/Config/Tokens.antt =====
-- The look-up of tokens in an accepted configuration.
use mathlib.Core.List.Memᴰ.{not-nil}
use rfid_middleware_idro900e.Prelude.{
  String, List, [], ◌∷◌, map, some, All, ◌≡◌, ◌≢◌, refl, sym, ap, ◌∙◌, arith, inl, inr, str_eq,
  str_eq_iff, str_eq_refl, Bool-cases, Memᴰ,
}
use rfid_middleware_idro900e.Prelude.Case.{lower}
use rfid_middleware_idro900e.Domain.{Secret}
use rfid_middleware_idro900e.Config.{
  WireReader, Wire, Platform, Config, config_of, to_reader, accepted, validate, token_of,
}
use rfid_middleware_idro900e.Config.Valid.{Distinct, ids}
use rfid_middleware_idro900e.Config.Exact.{validate_iff}

module _ {A : Type 0} (key : A → String) where
  key_ne :
      (k : String) (b : A) (xs : List A) → All (λ y. k ≢ y) (map key xs) → Memᴰ b xs → k ≢ key b
  key_ne k b [] h m = absurd (not-nil m)
  key_ne k b (x ∷ xs) h (Memᴰ.head e) = λ q. h.0 (q ∙ ap key e)
  key_ne k b (x ∷ xs) h (Memᴰ.tail m) = key_ne k b xs h.1 m

  -- Where all keys differ, a key belongs to one item.
  same_of_key :
      (a b : A) (xs : List A)
      → Distinct (map key xs)
      → Memᴰ a xs
      → Memᴰ b xs
      → key a ≡ key b
      → a ≡ b
  same_of_key a b [] d m n e = absurd (not-nil m)
  same_of_key a b (x ∷ xs) d (Memᴰ.head p) (Memᴰ.head q) e = p ∙ sym q
  same_of_key a b (x ∷ xs) d (Memᴰ.head p) (Memᴰ.tail n) e =
      absurd (key_ne (key x) b xs d.0 n (ap key (sym p) ∙ e))
  same_of_key a b (x ∷ xs) d (Memᴰ.tail m) (Memᴰ.head q) e =
      absurd (key_ne (key x) a xs d.0 m (ap key (sym q) ∙ sym e))
  same_of_key a b (x ∷ xs) d (Memᴰ.tail m) (Memᴰ.tail n) e = same_of_key a b xs d.1 m n e

-- A token that is found belongs to a reader of the file.
token_of_mem :
    (i : String) (t : Secret) (rs : List WireReader)
    → token_of i (map to_reader rs) ≡ some t
    → (r : WireReader) × Memᴰ r rs × (r.id ≡ i) × (record { v = lower r.pulse_token } ≡ t)
unfolding token_of
token_of_mem i t [] h = cc h
token_of_mem i t (r ∷ rs) h = elim (Bool-cases (str_eq r.id i)) [
  | inl e ↦ (r, Memᴰ.head refl, (str_eq_iff r.id i).0 e, ground (arith, h, e))
  | inr e ↦ let (s, m, p, q) = token_of_mem i t rs (ground (arith, h, e)) in (s, Memᴰ.tail m, p, q)
]

token_of_found :
    (r : WireReader) (rs : List WireReader)
    → Memᴰ r rs
    → Distinct (ids rs)
    → token_of r.id (map to_reader rs) ≡ some (record { v = lower r.pulse_token })
unfolding token_of
token_of_found r [] m d = absurd (not-nil m)
token_of_found r (s ∷ rs) (Memᴰ.head e) d = rw (e, str_eq_refl s.id) refl
token_of_found r (s ∷ rs) (Memᴰ.tail m) d = elim (Bool-cases (str_eq s.id r.id)) [
  | inl e ↦ absurd (key_ne (λ (x : WireReader). x.id) s.id r rs d.0 m ((str_eq_iff s.id r.id).0 e))
  | inr e ↦ rw e (token_of_found r rs m d.1)
]

-- In an accepted configuration, every reader of the file is found with its token.
pub token_of_accepted :
    (p : Platform) (w : Wire) (c : Config) (r : WireReader)
    → validate p w ≡ accepted c
    → Memᴰ r w.readers
    → token_of r.id c.readers ≡ some (record { v = lower r.pulse_token })
unfolding config_of
token_of_accepted p w c r h m =
    let (v, e) = (validate_iff p w c).0 h in rw e (token_of_found r w.readers m v.own_ids)

-- In an accepted configuration no two readers send with the same token.
pub tokens_identify_readers :
    (p : Platform) (w : Wire) (c : Config) (i j : String) (t : Secret)
    → validate p w ≡ accepted c
    → token_of i c.readers ≡ some t
    → token_of j c.readers ≡ some t
    → i ≡ j
unfolding config_of
tokens_identify_readers p w c i j t h a b =
    let (v, e) = (validate_iff p w c).0 h in
    let (r, m, p, q) = token_of_mem i t w.readers (rw e at a) in
    let (s, n, p', q') = token_of_mem j t w.readers (rw e at b) in
    let same : r ≡ s =
      same_of_key (λ (x : WireReader). lower x.pulse_token) r s w.readers v.own_tokens m n
        (ap (λ (x : Secret). x.v) (q ∙ sym q')) in
    sym p ∙ ap (λ (x : WireReader). x.id) same ∙ p'
