-- ===== src/Config/Checks.antt =====
-- Each check of `validate` beside what it checks: internal/config/config.go.
use rfid_middleware_idro900e.Prelude.{
  ℕ, ◌≤◌, String, Bool, true, false, ◌&&◌, ◌||◌, List, [], ◌∷◌, ◌++◌, Option, none, some, codes,
  bytes_eq_iff, Bytes, All, all, ◌≡◌, ◌≢◌, ◌↔◌, refl, sym, ap, ◌∙◌, arith, inl, inr, str_eq,
  str_eq_iff, Bool-cases, leb,
}
use rfid_middleware_idro900e.Prelude.Int.{ℤ, pos, negsuc, eq_ℤ_iff}
use rfid_middleware_idro900e.Config.{
  Url, Platform, Fault, check, fault_of, host_fault, url_fault, has_key, within, is_level,
  is_version,
}
use rfid_middleware_idro900e.Config.Addr.{
  is_hex64, is_digit, parts_fault, port_fault, is_placeholder, addr_fault, split_host_port, atoi,
}
use rfid_middleware_idro900e.Config.Valid.{
  IsOrigin, IsHost, IsToken, IsHexDigit, IsAddr, In, IsLevel, Distinct,
}

pub append_nil_iff :
    {P Q : Type 0} (xs ys : List Fault) → (xs ≡ []) ↔ P → (ys ≡ []) ↔ Q → (xs ++ ys ≡ []) ↔ (P × Q)
append_nil_iff [] ys f g = (λ h. (f.0 refl, g.0 h), λ k. g.1 k.1)
append_nil_iff (x ∷ xs) ys f g = (λ h. cc h, λ k. cc (f.1 k.0))

pub check_iff : {P : Type 0} (ok : Bool) (f : Fault) → (ok ≡ true) ↔ P → (check ok f ≡ []) ↔ P
check_iff true f i = (λ _. i.0 refl, λ _. refl)
check_iff false f i = (λ h. cc h, λ k. cc (i.1 k))

pub fault_of_iff {ℓ} :
    {A : Type ℓ} {P : Type 0} (f : A → Fault) (o : Option A)
    → (o ≡ none) ↔ P
    → (fault_of f o ≡ []) ↔ P
fault_of_iff f none i = (λ _. i.0 refl, λ _. refl)
fault_of_iff f (some a) i = (λ h. cc h, λ k. cc (i.1 k))

pub within_iff : (lo hi n : ℤ) → (within lo hi n ≡ true) ↔ In lo hi n
within_iff lo hi n = (λ h. ground (arith, h), λ h. ground (arith, h))

pub is_version_iff : (o : Option ℤ) → (is_version o ≡ true) ↔ (o ≡ some (pos 1))
is_version_iff none = (λ h. cc, λ h. cc)
is_version_iff (some v) =
    (λ h. ground (arith, h, eq_ℤ_iff v (pos 1)), λ h. ground (arith, h, eq_ℤ_iff v (pos 1)))

pub is_level_iff : (s : String) → (is_level s ≡ true) ↔ IsLevel s
is_level_iff s = (
  λ h. ground (
    arith,
    h,
    str_eq_iff s "debug",
    str_eq_iff s "info",
    str_eq_iff s "warn",
    str_eq_iff s "error",
  ),
  λ h. ground (
    arith,
    h,
    str_eq_iff s "debug",
    str_eq_iff s "info",
    str_eq_iff s "warn",
    str_eq_iff s "error",
  ),
)

-- What `ground` is told of the texts in a URL.
text_tests :
    (u : Url)
    → ((str_eq u.raw_query "" ≡ true) ↔ (u.raw_query ≡ ""))
      × ((str_eq u.fragment "" ≡ true) ↔ (u.fragment ≡ ""))
      × ((str_eq u.path "" ≡ true) ↔ (u.path ≡ ""))
      × ((str_eq u.path "/" ≡ true) ↔ (u.path ≡ "/"))
      × ((str_eq u.host "" ≡ true) ↔ (u.host ≡ ""))
      × ((str_eq u.scheme "https" ≡ true) ↔ (u.scheme ≡ "https"))
      × ((str_eq u.scheme "http" ≡ true) ↔ (u.scheme ≡ "http"))
      × ((str_eq u.hostname "localhost" ≡ true) ↔ (u.hostname ≡ "localhost"))
      × ((str_eq u.hostname "127.0.0.1" ≡ true) ↔ (u.hostname ≡ "127.0.0.1"))
      × ((str_eq u.hostname "::1" ≡ true) ↔ (u.hostname ≡ "::1"))
text_tests u = (
  str_eq_iff _ _,
  str_eq_iff _ _,
  str_eq_iff _ _,
  str_eq_iff _ _,
  str_eq_iff _ _,
  str_eq_iff _ _,
  str_eq_iff _ _,
  str_eq_iff _ _,
  str_eq_iff _ _,
  str_eq_iff _ _,
)

url_iff : (o : Option Url) → (url_fault o ≡ none) ↔ ((u : Url) × (o ≡ some u) × IsOrigin u)
url_iff none = (λ h. cc, λ h. cc)
url_iff (some u) = (λ h. (u, refl, origin h), λ h. no_fault h.0 h.1 h.2)
  where
    origin : url_fault (some u) ≡ none → IsOrigin u
    origin h = record {
      no_user = ground (arith, h);
      no_query = ground (arith, h, text_tests u);
      no_fragment = ground (arith, h, text_tests u);
      no_path = ground (arith, h, text_tests u);
      a_host = ground (arith, h, text_tests u);
      secure = ground (arith, h, text_tests u);
    }

    no_fault : (v : Url) → some u ≡ some v → IsOrigin v → url_fault (some u) ≡ none
    no_fault v e o = ground (
      arith,
      text_tests u,
      text_tests v,
      e,
      o.no_user,
      o.no_query,
      o.no_fragment,
      o.no_path,
      o.a_host,
      o.secure,
    )

pub IsHost-iff : (p : Platform) (s : String) → (host_fault p s ≡ none) ↔ IsHost p s
unfolding host_fault
IsHost-iff p s = elim (Bool-cases (str_eq s "")) [
  | inl t ↦ rw t (λ h. cc, λ h. ground (arith, t, h.0, str_eq_iff s ""))
  | inr t ↦ rw t (
    λ h. (λ e. ground (arith, t, e, str_eq_iff s ""), (url_iff (p.parse_url s)).0 h),
    λ h. (url_iff (p.parse_url s)).1 h.1,
  )
]

digits_iff :
    (s : Bytes) → (all (λ c. is_digit c || leb b'a' c && leb c b'f') s ≡ true) ↔ All IsHexDigit s
digits_iff [] = (λ h. tt, λ h. refl)
digits_iff (c ∷ s) = (
  λ h. (ground (arith, h), (digits_iff s).0 (ground (arith, h))),
  λ h. ground (arith, h.0, (digits_iff s).1 h.1),
)

pub is_hex64_iff : (s : Bytes) → (is_hex64 s ≡ true) ↔ IsToken s
unfolding is_hex64
is_hex64_iff s = (
  λ h. (ground (arith, h), (digits_iff s).0 (ground (arith, h))),
  λ h. ground (arith, h.0, (digits_iff s).1 h.1),
)

port_iff :
    (o : Option ℤ) → (port_fault o ≡ none) ↔ ((n : ℕ) × (o ≡ some (pos n)) × (1 ≤ n) × (n ≤ 65_535))
port_iff none = (λ h. cc, λ h. cc h.1)
port_iff (some (pos n)) =
    (λ h. (n, refl, ground (arith, h), ground (arith, h)), λ h. ground (arith, h.1, h.2, h.3))
port_iff (some (negsuc n)) = (λ h. ground (arith, h), λ h. cc h.1)

a_number : (port : Bytes) (n : ℕ) → atoi port ≡ some (pos n) → is_placeholder port ≡ false
unfolding atoi is_placeholder
a_number port n e = elim (Bool-cases (is_placeholder port)) [
  | inl t ↦ cc (no_number ((bytes_eq_iff port (codes "PORT")).0 t))
  | inr t ↦ t
]
  where
    no_number : port ≡ codes "PORT" → ◌≡◌ {A = Option ℤ} none (some (pos n))
    no_number h = ap atoi (sym h) ∙ e

IsAddrParts : Option (Bytes × Bytes) → Type 0
IsAddrParts o =
    (host : Bytes) × (port : Bytes) × (n : ℕ) × (o ≡ some (host, port))
    × (host ≢ [])
    × (atoi port ≡ some (pos n))
    × (1 ≤ n)
    × (n ≤ 65_535)

parts_iff : (o : Option (Bytes × Bytes)) → (parts_fault o ≡ none) ↔ IsAddrParts o
unfolding IsAddrParts
parts_iff none = (λ h. cc, λ h. cc h.3)
parts_iff (some ([], port)) = (λ h. cc, λ h. absurd (h.4 (cc (h.3))))
parts_iff (some (c ∷ host, port)) = elim (Bool-cases (is_placeholder port)) [
  | inl t ↦ rw t (λ h. cc, λ h. cc (a_number port h.2 (cc (h.3, h.5)), t))
  | inr t ↦ rw t (
    λ h.
        let (n, e, a, b) = (port_iff (atoi port)).0 h in
        (c ∷ host, port, n, refl, (λ k. cc k), e, a, b),
    λ h. (port_iff (atoi port)).1 (h.2, cc (h.3, h.5), h.6, h.7),
  )
]

pub IsAddr-iff : (s : String) → (addr_fault s ≡ none) ↔ IsAddr s
unfolding addr_fault IsAddrParts
IsAddr-iff s = parts_iff (split_host_port (codes s))

-- Nothing in `xs` stands in `seen` or comes twice.
abbrev pub Fresh : List String → List String → Type 0
Fresh seen [] = Unit
Fresh seen (x ∷ xs) = (has_key x seen ≡ false) × Fresh (x ∷ seen) xs

NotIn : List String → List String → Type 0
NotIn seen xs = All (λ y. has_key y seen ≡ false) xs

NotIn-iff :
    (x : String) (seen xs : List String)
    → NotIn (x ∷ seen) xs ↔ (All (λ y. x ≢ y) xs × NotIn seen xs)
unfolding has_key NotIn
NotIn-iff x seen [] = (λ h. (tt, tt), λ h. tt)
NotIn-iff x seen (y ∷ ys) = (
  λ h.
      let (a, b) = (NotIn-iff x seen ys).0 h.1 in
      (((λ e. ground (arith, h.0, e, str_eq_iff x y)), a), (ground (arith, h.0), b)),
  λ h. (ground (arith, h.0.0, h.1.0, str_eq_iff x y), (NotIn-iff x seen ys).1 (h.0.1, h.1.1)),
)

Fresh-NotIn : (seen xs : List String) → Fresh seen xs ↔ (NotIn seen xs × Distinct xs)
unfolding has_key NotIn
Fresh-NotIn seen [] = (λ h. (tt, tt), λ h. tt)
Fresh-NotIn seen (x ∷ xs) = (
  λ h.
      let (a, d) = (Fresh-NotIn (x ∷ seen) xs).0 h.1 in
      let (n, b) = (NotIn-iff x seen xs).0 a in ((h.0, b), (n, d)),
  λ h. (h.0.0, (Fresh-NotIn (x ∷ seen) xs).1 ((NotIn-iff x seen xs).1 (h.1.0, h.0.1), h.1.1)),
)

none_seen : (xs : List String) → NotIn [] xs
unfolding has_key NotIn
none_seen [] = tt
none_seen (x ∷ xs) = (refl, none_seen xs)

pub Fresh-iff : (xs : List String) → Fresh [] xs ↔ Distinct xs
Fresh-iff xs = (λ h. ((Fresh-NotIn [] xs).0 h).1, λ h. (Fresh-NotIn [] xs).1 (none_seen xs, h))
