-- ===== src/Gui/Body/Confirmed.antt =====
-- The confirmation in a request's body: internal/gui/server.go.
use rfid_middleware_idro900e.Prelude.{
  String, Bool, true, false, List, Option, none, some, ◌≡◌, ◌⊎◌, refl, arith, inl, inr,
}
use rfid_middleware_idro900e.Congkong.Json.{
  Json, null, bool, num, str, arr, obj, Members, end, member, names, into_members, into_struct,
  unmarshal,
}
use rfid_middleware_idro900e.Gui.Body.{
  Posted, nothing_posted, into_bool, set_rest, set_posted, decode_body,
}

-- Among the members one is called confirm, in any case of its letters, and is true.
abbrev pub HasTrue : Members → Type 0
HasTrue end = ⊥
HasTrue (member k j rest) = (names "confirm" k ≡ true) × (j ≡ bool true) ⊎ HasTrue rest

abbrev pub SaysConfirm : Option Json → Type 0
SaysConfirm (some (obj ms)) = HasTrue ms
SaysConfirm _ = ⊥

into_bool-true :
    (j : Json) (old : Bool) → (into_bool j old).value ≡ true → (old ≡ true) ⊎ (j ≡ bool true)
into_bool-true null old h = inl h
into_bool-true (bool true) old h = inr refl
into_bool-true (bool false) old h = absurd (cc h)
into_bool-true (num n) old h = inl h
into_bool-true (str s) old h = inl h
into_bool-true (arr js) old h = inl h
into_bool-true (obj ms) old h = inl h

set_rest_confirm :
    (fs : List String) (k : String) (j : Json) (v : Posted)
    → (set_rest fs k j v).value.confirm ≡ v.confirm
unfolding set_rest
set_rest_confirm fs k j v = ground arith

-- Only a member with that name changes whether the body confirms.
set_posted_confirm :
    (fs : List String) (k : String) (j : Json) (v : Posted)
    → (set_posted fs k j v).value.confirm ≡ true
    → (v.confirm ≡ true) ⊎ (names "confirm" k ≡ true) × (j ≡ bool true)
unfolding set_posted
set_posted_confirm fs k j v h =
    ground (arith, set_rest_confirm fs k j v, into_bool-true j v.confirm)

members_confirm :
    (fs : List String) (ms : Members) (v : Posted)
    → (into_members (set_posted fs) ms v).value.confirm ≡ true
    → (v.confirm ≡ true) ⊎ HasTrue ms
unfolding into_members
members_confirm fs end v h = inl h
members_confirm fs (member k j rest) v h =
    elim (members_confirm fs rest (set_posted fs k j v).value h) [
      | inr t ↦ inr (inr t)
      | inl t ↦ elim (set_posted_confirm fs k j v t) [ inl e ↦ inl e | inr e ↦ inr (inl e) ]
    ]

unmarshal_confirm :
    (fs : List String) (body : Option Json)
    → (unmarshal (set_posted fs) body nothing_posted).value.confirm ≡ true
    → SaysConfirm body
unfolding unmarshal into_struct
unmarshal_confirm fs none h = cc h
unmarshal_confirm fs (some null) h = cc h
unmarshal_confirm fs (some (bool b)) h = cc h
unmarshal_confirm fs (some (num n)) h = cc h
unmarshal_confirm fs (some (str s)) h = cc h
unmarshal_confirm fs (some (arr js)) h = cc h
unmarshal_confirm fs (some (obj ms)) h = elim (members_confirm fs ms nothing_posted h) [
  | inl e ↦ absurd (cc e)
  | inr t ↦ t
]

-- A body that decodes with its confirmation, whatever fields the handler declares, says so.
pub decode_body-SaysConfirm :
    (fs : List String) (body : Option Json) (b : Posted)
    → decode_body fs body ≡ some b
    → b.confirm ≡ true
    → SaysConfirm body
unfolding decode_body
decode_body-SaysConfirm fs body b e h = unmarshal_confirm fs body (ground (arith, e, h))
