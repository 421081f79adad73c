-- ===== src/Gui/Catalog/Exact.antt =====
-- Which sessions a catalogue has.
use rfid_middleware_idro900e.Prelude.{
  ◌+◌, String, Bool, true, false, not, ◌&&◌, ◌||◌, List, [], ◌∷◌, ◌++◌, Option, none, some, str_eq,
  str_eq_iff, if◌then◌else◌, length, length-append, ◌≡◌, ◌⊎◌, refl, sym, ap, ◌∙◌, arith, inl, inr,
  Bool-cases,
}
use rfid_middleware_idro900e.Config.{has_key}
use rfid_middleware_idro900e.Gui.Catalog.{
  Item, CatalogFile, CatalogSession, Catalog, incomplete, bad_token, repeated, to_session,
  is_incomplete, token_matches, keep, warn_of, take_items, start_catalog, loaded, parse_catalog,
  find,
}

-- The item that counts for `id`: the first one that is complete and has a token.
unfoldable pub first_good : String → List Item → Option Item
first_good id [] = none
first_good id (i ∷ rest) =
    if not (is_incomplete i) && token_matches i && str_eq i.id id
    then some i
    else first_good id rest

abbrev pub session_of : Option Item → Option CatalogSession
session_of none = none
session_of (some i) = some (to_session i)

abbrev pub first_some : Option CatalogSession → Option CatalogSession → Option CatalogSession
first_some none o = o
first_some (some s) o = some s

abbrev is_found : Option CatalogSession → Bool
is_found none = false
is_found (some s) = true

find-append :
    (id : String) (xs ys : List CatalogSession)
    → find id (xs ++ ys) ≡ first_some (find id xs) (find id ys)
unfolding find
find-append id [] ys = refl
find-append id (x ∷ xs) ys = elim (Bool-cases (str_eq x.id id)) [
  | inl t ↦ rw t refl
  | inr t ↦ rw t (find-append id xs ys)
]

-- The identifiers that were seen are those of the sessions.
Covers : List String → List CatalogSession → Type 0
Covers seen xs = (id : String) → has_key id seen ≡ is_found (find id xs)

module _ (i : Item) (seen : List String) (c : Catalog) (v : Covers seen c.sessions) where
  Covers-keep : Covers (i.id ∷ seen) (keep i c).sessions
  unfolding Covers has_key find
  Covers-keep id =
      rw (find-append id c.sessions (to_session i ∷ [])) (by_find (find id c.sessions) (v id))
    where
      by_find :
          (o : Option CatalogSession)
          → has_key id seen ≡ is_found o
          → (str_eq i.id id || has_key id seen)
            ≡ is_found (first_some o (find id (to_session i ∷ [])))
      by_find none e = ground (arith, e)
      by_find (some s) e = ground (arith, e)

  -- An item that is left out does not count, and one that is kept counts where none did before.
  left_out :
      (id : String) (rest : List Item)
      → ((is_incomplete i ≡ true) ⊎ ((token_matches i ≡ false) ⊎ (has_key i.id seen ≡ true)))
      → first_some (find id c.sessions) (session_of (first_good id rest))
        ≡ first_some (find id c.sessions) (session_of (first_good id (i ∷ rest)))
  unfolding first_good Covers
  left_out id rest h = by_find (find id c.sessions) (v id)
    where
      by_find :
          (o : Option CatalogSession)
          → has_key id seen ≡ is_found o
          → first_some o (session_of (first_good id rest))
            ≡ first_some o (session_of (first_good id (i ∷ rest)))
      by_find none e = ground (arith, h, e, str_eq_iff i.id id)
      by_find (some s) e = refl

  counted :
      (id : String) (rest : List Item)
      → is_incomplete i ≡ false
      → token_matches i ≡ true
      → first_some (find id (keep i c).sessions) (session_of (first_good id rest))
        ≡ first_some (find id c.sessions) (session_of (first_good id (i ∷ rest)))
  unfolding first_good find
  counted id rest h k =
      rw (find-append id c.sessions (to_session i ∷ [])) (by_find (find id c.sessions))
    where
      by_find :
          (o : Option CatalogSession)
          → first_some
              (first_some o (find id (to_session i ∷ [])))
              (session_of (first_good id rest))
            ≡ first_some o (session_of (first_good id (i ∷ rest)))
      by_find none = ground (arith, h, k)
      by_find (some s) = refl

none_more : (o : Option CatalogSession) → o ≡ first_some o none
none_more none = refl
none_more (some s) = refl

no_items :
    (seen : List String) (c : Catalog) (id : String)
    → find id (take_items [] seen c).sessions
      ≡ first_some (find id c.sessions) (session_of (first_good id []))
unfolding take_items first_good
no_items seen c id = none_more (find id c.sessions)

items_find :
    (items : List Item) (seen : List String) (c : Catalog) (id : String)
    → Covers seen c.sessions
    → find id (take_items items seen c).sessions
      ≡ first_some (find id c.sessions) (session_of (first_good id items))
unfolding take_items
items_find [] seen c id v = no_items seen c id
items_find (i ∷ items) seen c id v = elim (Bool-cases (is_incomplete i)) [
  | inl t ↦ rw t (items_find items seen _ id v ∙ left_out i seen c v id items (inl t))
  | inr t ↦ elim (Bool-cases (token_matches i)) [
    | inr k ↦ rw (t, k) (items_find items seen _ id v ∙ left_out i seen c v id items (inr (inl k)))
    | inl k ↦ elim (Bool-cases (has_key i.id seen)) [
      | inl m ↦
          rw (t, k, m) (items_find items seen _ id v ∙ left_out i seen c v id items (inr (inr m)))
      | inr m ↦
          rw (t, k, m)
            (items_find items (i.id ∷ seen) (keep i c) id (Covers-keep i seen c v)
              ∙ counted i seen c v id items t k)
    ]
  ]
]

items_counted :
    (items : List Item) (seen : List String) (c : Catalog)
    → length (take_items items seen c).sessions + length (take_items items seen c).warnings
      ≡ (length c.sessions + length c.warnings) + length items
unfolding take_items
items_counted [] seen c = omega arith
items_counted (i ∷ items) seen c = ground (
  arith,
  items_counted items seen (warn_of (incomplete i.id) c),
  items_counted items seen (warn_of (bad_token i.id) c),
  items_counted items seen (warn_of (repeated i.id) c),
  items_counted items (i.id ∷ seen) (keep i c),
  length-append c.warnings (incomplete i.id ∷ []),
  length-append c.warnings (bad_token i.id ∷ []),
  length-append c.warnings (repeated i.id ∷ []),
  length-append c.sessions (to_session i ∷ []),
)

loaded_is :
    (w : CatalogFile) (c : Catalog)
    → parse_catalog (some w) ≡ loaded c
    → take_items w.sessions [] (start_catalog w) ≡ c
unfolding parse_catalog
loaded_is w c h = ground (arith, h)

-- In a catalogue that was loaded, every identifier finds the first item of the file that is complete, has a token of sixty-four lower-case
-- hexadecimal digits, and bears it, and nothing where there is none; and each item is a session or has a warning.
pub parse_catalog_exact :
    (w : CatalogFile) (c : Catalog) (id : String)
    → parse_catalog (some w) ≡ loaded c
    → (find id c.sessions ≡ session_of (first_good id w.sessions))
      × (length c.sessions + length c.warnings ≡ length w.sessions)
unfolding Covers has_key find
parse_catalog_exact w c id h =
    let e = loaded_is w c h in
    (
      ap (λ (x : Catalog). find id x.sessions) (sym e)
          ∙ items_find w.sessions [] (start_catalog w) id (λ k. refl),
      ap (λ (x : Catalog). length x.sessions + length x.warnings) (sym e)
          ∙ items_counted w.sessions [] (start_catalog w)
          ∙ omega arith,
    )
