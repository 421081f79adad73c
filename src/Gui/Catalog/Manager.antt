-- ===== src/Gui/Catalog/Manager.antt =====
-- internal/gui/manager.go: the file of the catalogue as it changes, and files that were downloaded. What a load finds is an
-- argument; the calls of `OnChange` are noted.
use rfid_middleware_idro900e.Prelude.{
  ℕ, String, Bool, true, false, List, [], ◌∷◌, ◌++◌, Option, none, some, ltb, str_eq, if◌then◌else◌,
  select, ◌≡◌, refl, ap, ◌∙◌,
}
use rfid_middleware_idro900e.Gui.Catalog.{Catalog}

pub data Load : Type 0 where
  not_there broken : Load
  good : Catalog → Load

pub data Change : Type 0 where
  parse_error reloaded download_found : Change

pub record CatalogManager : Type 0 where
  pub cat : Option Catalog
  pub load_err : Bool
  pub pending_import : String
  pub changes : List Change

-- The second load, where the first one failed and may be repeated.
abbrev pub second : Bool → Load → Load → Load
second retry (good c) again = good c
second true not_there again = again
second true broken again = again
second false l again = l

abbrev changed : Change → CatalogManager → CatalogManager
changed c m = record m { changes = m.changes ++ c ∷ [] }

abbrev pub put_load : Load → CatalogManager → CatalogManager
put_load not_there m = record m { load_err = false }
put_load broken m = changed parse_error (record m { load_err = true })
put_load (good c) m = changed reloaded (record m { cat = some c; load_err = false })

-- `reload`
unfoldable pub reload : Bool → Load → Load → CatalogManager → CatalogManager
reload retry first again m = put_load (second retry first again) m

-- A file in the folder of downloads.
pub record Download : Type 0 where
  pub path : String
  pub readable : Bool
  pub partial : Bool
  pub modified : ℕ

-- Newer than the file that is loaded, if there is one.
abbrev pub is_candidate : Option ℕ → Download → Bool
is_candidate loaded d = elim d.readable [
  | false ↦ false
  | true ↦ elim d.partial [
    | true ↦ false
    | false ↦ elim loaded [ none ↦ true | some t ↦ ltb t d.modified ]
  ]
]

abbrev later_of : Download → Option Download → Download
later_of d none = d
later_of d (some e) = if ltb d.modified e.modified then e else d

-- The first one after the sort by time; of several with one time, which the sort leaves open, the first.
unfoldable pub latest : List Download → Option Download
latest [] = none
latest (d ∷ ds) = some (later_of d (latest ds))

abbrev found_file : Option Download → CatalogManager → CatalogManager
found_file none m = m
found_file (some d) m =
    if str_eq m.pending_import d.path
    then m
    else changed download_found (record m { pending_import = d.path })

-- `scanDownloads`
unfoldable pub scan_downloads : Bool → Option ℕ → List Download → CatalogManager → CatalogManager
unfolding latest
scan_downloads watched loaded ds m =
    if watched then found_file (latest (select (is_candidate loaded) ds)) m else m

-- `Import`, where the calls on the files succeed up to the one that `fails`; nothing is imported where no file was found.
unfoldable pub import : Bool → Load → Load → CatalogManager → CatalogManager × Bool
unfolding reload
import fails first again m =
    if str_eq m.pending_import ""
    then (m, false)
    else if fails
    then (m, false)
    else (reload true first again (record m { pending_import = "" }), true)

-- `ImportContent`: a content that is no catalogue is not written.
unfoldable pub import_content : Load → Bool → Load → Load → CatalogManager → CatalogManager × Bool
unfolding reload
import_content (good c) fails first again m =
    if fails then (m, false) else (reload true first again m, true)
import_content _ fails first again m = (m, false)

-- The last load that was good, after the one that `old` was.
unfoldable pub last_good : Option Catalog → List Load → Option Catalog
last_good old [] = old
last_good old (good c ∷ rest) = last_good (some c) rest
last_good old (not_there ∷ rest) = last_good old rest
last_good old (broken ∷ rest) = last_good old rest

unfoldable pub reload_all : List Load → CatalogManager → CatalogManager
unfolding reload
reload_all [] m = m
reload_all (l ∷ ls) m = reload_all ls (reload false l l m)

put_load-cat :
    (l : Load) (ls : List Load) (m : CatalogManager)
    → last_good (put_load l m).cat ls ≡ last_good m.cat (l ∷ ls)
unfolding last_good
put_load-cat not_there ls m = refl
put_load-cat broken ls m = refl
put_load-cat (good c) ls m = refl

second_same : (l : Load) → second false l l ≡ l
second_same not_there = refl
second_same broken = refl
second_same (good c) = refl

-- After any loads the catalogue is the last one that was good.
pub reload_all-cat :
    (ls : List Load) (m : CatalogManager) → (reload_all ls m).cat ≡ last_good m.cat ls
unfolding reload_all last_good
reload_all-cat [] m = refl
reload_all-cat (l ∷ ls) m =
    reload_all-cat ls _
    ∙ ap (λ (x : Load). last_good (put_load x m).cat ls) (second_same l)
    ∙ put_load-cat l ls m
