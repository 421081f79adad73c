-- ===== src/Congkong/Ignores.antt =====
-- What of a body does not reach a decision: members that no field is declared for.
use rfid_middleware_idro900e.Prelude.{
  String, false, Option, some, ◌==◌, str_eq_iff, ◌≡◌, ◌≢◌, ◌⊎◌, arith, refl, ap,
}
use rfid_middleware_idro900e.Prelude.Int.{ℤ}
use rfid_middleware_idro900e.Domain.{GateMeta, no_meta}
use rfid_middleware_idro900e.Congkong.Json.{
  Json, Members, end, member, obj, str, num, names, into_members, into_struct, unmarshal, Decoded,
}
use rfid_middleware_idro900e.Congkong.Decode.{
  set_envelope, set_meta, decode_envelope, env_result, preflight_meta, data_says, ErrorEnvelope,
  no_envelope,
}
use rfid_middleware_idro900e.Congkong.Classify.{HttpResult, classify}

-- A member put in front of the others, behind `before` of them.
unfoldable pub insert_member : Members → String → Json → Members → Members
insert_member end k j ms = member k j ms
insert_member (member k' j' before) k j ms = member k' j' (insert_member before k j ms)

unfoldable pub append : Members → Members → Members
append end ms = ms
append (member k j before) ms = member k j (append before ms)

module _ {ℓ} {A : Type ℓ} (set : String → Json → A → Decoded A) (k : String) (j : Json)
    (skips : (v : A) → set k j v ≡ record { value = v; mismatch = false }) where
  into_members-skip :
      (before ms : Members) (v : A)
      → into_members set (insert_member before k j ms) v ≡ into_members set (append before ms) v
  unfolding into_members insert_member append
  into_members-skip end ms v = rw (skips v) refl
  into_members-skip (member k' j' before) ms v =
      rw (into_members-skip before ms (set k' j' v).value) refl

-- A key that names no field of the envelope.
abbrev pub Foreign : String → Type 0
Foreign k = (names "message" k ≡ false) × (names "code" k ≡ false) × (names "data" k ≡ false)

envelope_ignores :
    (before ms : Members) (k : String) (j : Json)
    → Foreign k
    → decode_envelope (some (obj (insert_member before k j ms)))
      ≡ decode_envelope (some (obj (append before ms)))
unfolding decode_envelope unmarshal into_struct set_envelope
envelope_ignores before ms k j f =
    ap (λ d. d.value) (into_members-skip set_envelope k j skips before ms no_envelope)
  where
    skips : (v : ErrorEnvelope) → set_envelope k j v ≡ record { value = v; mismatch = false }
    skips v = rw (f.0, f.1, f.2) refl

-- Two bodies that decode to one envelope get one decision, unless the status is 200.
classify_by_envelope :
    (r : HttpResult) (b b' : Option Json)
    → decode_envelope b ≡ decode_envelope b'
    → r.status ≢ 200
    → classify (record r { body = b }) ≡ classify (record r { body = b' })
unfolding classify env_result data_says
classify_by_envelope r b b' e n =
    let other : (r.status == 200) ≡ false = ground (arith, n) in rw (other, e) refl

-- Whatever other members an error answer has, a top-level "result" or the attendee's data among them,
-- and wherever they stand, the decision is the same without them.
pub classify_ignores :
    (r : HttpResult) (before ms : Members) (k : String) (j : Json)
    → Foreign k
    → r.status ≢ 200
    → classify (record r { body = some (obj (insert_member before k j ms)) })
      ≡ classify (record r { body = some (obj (append before ms)) })
classify_ignores r before ms k j f n =
    classify_by_envelope r _ _ (envelope_ignores before ms k j f) n

-- The four members of `GateMeta`, in this order among members that no field is declared for.
abbrev pub meta_body : GateMeta → Members → Option Json
meta_body m rest = some (
    obj (
      member "eventName" (str m.event_name) (
        member "boothName" (str m.booth_name) (
          member "unitName" (str m.unit_name)
            (member "cooldownSec" (num (some m.cooldown_sec)) rest)))))

-- Members of which no key names a field of `GateMeta`.
abbrev pub IsForeign : Members → Type 0
IsForeign end = Unit
IsForeign (member k j rest) =
    (names "eventName" k ≡ false)
    × (names "boothName" k ≡ false)
    × (names "unitName" k ≡ false)
    × (names "cooldownSec" k ≡ false)
    × IsForeign rest

meta_rest :
    (ms : Members) (v : GateMeta)
    → IsForeign ms
    → into_members set_meta ms v ≡ record { value = v; mismatch = false }
unfolding into_members set_meta
meta_rest end v f = refl
meta_rest (member k j ms) v (a, b, c, d, f) = rw (a, b, c, d, meta_rest ms v f) refl

set_event :
    (s : String) (v : GateMeta)
    → set_meta "eventName" (str s) v
      ≡ record { value = record v { event_name = s }; mismatch = false }
unfolding set_meta names
set_event s v = refl

set_booth :
    (s : String) (v : GateMeta)
    → set_meta "boothName" (str s) v
      ≡ record { value = record v { booth_name = s }; mismatch = false }
unfolding set_meta names
set_booth s v = refl

set_unit :
    (s : String) (v : GateMeta)
    → set_meta "unitName" (str s) v
      ≡ record { value = record v { unit_name = s }; mismatch = false }
unfolding set_meta names
set_unit s v = refl

set_cooldown :
    (n : ℤ) (v : GateMeta)
    → set_meta "cooldownSec" (num (some n)) v
      ≡ record { value = record v { cooldown_sec = n }; mismatch = false }
unfolding set_meta names
set_cooldown n v = refl

meta_head :
    (m : GateMeta) (rest : Members)
    → IsForeign rest
    → unmarshal set_meta (meta_body m rest) no_meta ≡ record { value = m; mismatch = false }
unfolding unmarshal into_struct into_members
meta_head m rest f =
    rw
      (
        set_event m.event_name,
        set_booth m.booth_name,
        set_unit m.unit_name,
        set_cooldown m.cooldown_sec,
        meta_rest rest m f,
      )
      refl

-- A preflight body with the four members that `GateMeta` declares is read to the same values,
-- whatever other members follow them, where one of the three names is not empty.
pub preflight_meta_reads :
    (m : GateMeta) (rest : Members)
    → IsForeign rest
    → (m.booth_name ≢ "") ⊎ (m.event_name ≢ "") ⊎ (m.unit_name ≢ "")
    → preflight_meta (meta_body m rest) ≡ some m
unfolding preflight_meta
preflight_meta_reads m rest f h =
    rw (meta_head m rest f) ground
      (arith, h, str_eq_iff m.booth_name "", str_eq_iff m.event_name "", str_eq_iff m.unit_name "")
