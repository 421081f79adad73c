-- ===== src/Congkong/Json.antt =====
-- A JSON value as the scanner of encoding/json leaves it to the decoder, and how the decoder looks
-- for the struct field of a member: by the name, case folded. A text stands for its code points,
-- escapes resolved.
use rfid_middleware_idro900e.Prelude.{
  ℕ, ◌-◌, String, Bool, true, false, map, Option, none, some, ◌==◌, leb, ◌&&◌, if◌then◌else◌, codes,
  bytes_eq,
}
use rfid_middleware_idro900e.Prelude.Int.{ℤ}

mutual
  -- A number is the integer that its literal writes, if it writes one that 64 bits hold.
  pub data Json : Type 0 where
    null : Json
    bool : Bool → Json
    num : Option ℤ → Json
    str : String → Json
    arr : Items → Json
    obj : Members → Json

  pub data Items : Type 0 where
    no_item : Items
    item : Json → Items → Items

  pub data Members : Type 0 where
    end : Members
    member : (key : String) → (value : Json) → Members → Members

-- Two letters outside ASCII fold to ASCII ones: the long s and the Kelvin sign.
unfoldable fold_code : ℕ → ℕ
fold_code c =
    if leb 97 c && leb c 122 then c - 32 else if c == 383 then 83 else if c == 8_490 then 75 else c

-- Whether a member's key names the field.
unfoldable pub names : (field key : String) → Bool
unfolding fold_code bytes_eq
names field key = bytes_eq (map fold_code (codes key)) (map fold_code (codes field))

-- What decoding leaves, and whether some value had not the type of its place. The decoder goes on after such
-- a value and reports the first one at the end.
pub record Decoded {ℓ} (A : Type ℓ) : Type ℓ where
  pub value : A
  pub mismatch : Bool

-- `null` leaves a string, an integer or a struct as it is.
abbrev pub into_string : Json → String → Decoded String
into_string null old = record { value = old; mismatch = false }
into_string (str s) old = record { value = s; mismatch = false }
into_string _ old = record { value = old; mismatch = true }

abbrev pub into_int : Json → ℤ → Decoded ℤ
into_int null old = record { value = old; mismatch = false }
into_int (num (some n)) old = record { value = n; mismatch = false }
into_int _ old = record { value = old; mismatch = true }

-- The members of an object in their order, each into the struct that the ones before it left.
unfoldable pub into_members {ℓ} :
    {A : Type ℓ} → (String → Json → A → Decoded A) → Members → A → Decoded A
into_members set end v = record { value = v; mismatch = false }
into_members set (member k j rest) v =
    let d = set k j v in
    let r = into_members set rest d.value in
    record { value = r.value; mismatch = if d.mismatch then true else r.mismatch }

-- A value into a struct.
unfoldable pub into_struct {ℓ} :
    {A : Type ℓ} → (String → Json → A → Decoded A) → Json → A → Decoded A
into_struct set null v = record { value = v; mismatch = false }
into_struct set (obj ms) v = into_members set ms v
into_struct set _ v = record { value = v; mismatch = true }

-- `Unmarshal` of a body: nothing is decoded where it is no JSON text.
unfoldable pub unmarshal {ℓ} :
    {A : Type ℓ} → (String → Json → A → Decoded A) → Option Json → A → Decoded A
unmarshal set none v = record { value = v; mismatch = true }
unmarshal set (some j) v = into_struct set j v
