-- ===== src/Gui/Routes.antt =====
-- internal/gui/server.go: the table of `Serve`, `guard`, and what becomes of a request. The paths that net/http cleans before it
-- looks for a route are left out.
pub mod Guarded
use Prim.Native.String.{◌++◌ as append}
use rfid_middleware_idro900e.Prelude.{
  ℕ, String, Bool, true, false, not, ◌&&◌, ◌||◌, List, [], ◌∷◌, Option, none, some, str_eq,
  if◌then◌else◌,
}
use rfid_middleware_idro900e.Gui.Server.{
  Call, Server, Request, Served, Reply, forbidden, not_found, moved, answer, Handler, index, app_js,
  state, meta, system, events, service, network, set_network, catalog, op, upload, session,
  resume_reader, config, save, wizard, start, confirm, abort, report, core, handle,
}

-- The table of `Serve`, in the source's order, behind the nonce. The empty method stands for any, and GET for HEAD too; a wildcard matches
-- one segment that is not empty.
pub data Segment : Type 0 where
  lit : String → Segment
  wild : Segment

pub record Route : Type 0 where
  pub method : String
  pub pattern : List Segment
  pub handler : Handler

abbrev api : String → List Segment → Handler → Route
api m rest h = record { method = m; pattern = lit "api" ∷ rest; handler = h }

abbrev pub routes : List Route
routes =
    record { method = ""; pattern = lit "app.js" ∷ []; handler = app_js }
    ∷ api "" (lit "state" ∷ []) state
    ∷ api "" (lit "meta" ∷ []) meta
    ∷ api "" (lit "system" ∷ []) system
    ∷ api "" (lit "events" ∷ []) events
    ∷ api "" (lit "control" ∷ lit "service" ∷ []) service
    ∷ api "" (lit "network" ∷ []) network
    ∷ api "POST" (lit "control" ∷ lit "network" ∷ []) set_network
    ∷ api "GET" (lit "catalog" ∷ []) catalog
    ∷ api "POST" (lit "catalog" ∷ wild ∷ []) op
    ∷ api "POST" (lit "catalog-upload" ∷ []) upload
    ∷ api "POST" (lit "readers" ∷ wild ∷ lit "session" ∷ []) session
    ∷ api "POST" (lit "readers" ∷ wild ∷ lit "resume" ∷ []) resume_reader
    ∷ api "GET" (lit "config" ∷ []) config
    ∷ api "POST" (lit "config" ∷ []) save
    ∷ api "GET" (lit "wizard" ∷ []) wizard
    ∷ api "POST" (lit "wizard" ∷ lit "start" ∷ []) start
    ∷ api "POST" (lit "wizard" ∷ lit "confirm" ∷ []) confirm
    ∷ api "POST" (lit "wizard" ∷ lit "abort" ∷ []) abort
    ∷ api "POST" (lit "wizard" ∷ lit "report" ∷ []) report
    ∷ api "POST" (lit "control" ∷ lit "core" ∷ []) core
    ∷ []

-- A pattern against the segments, with what its wildcards stand for.
unfoldable pub matched : List Segment → List String → Option (List String)
matched [] [] = some []
matched (lit t ∷ ps) (x ∷ xs) = let rest = matched ps xs in if str_eq t x then rest else none
matched (wild ∷ ps) (x ∷ xs) =
    let rest = matched ps xs in
    if str_eq x "" then none else elim rest [ none ↦ none | some vs ↦ some (x ∷ vs) ]
matched _ _ = none

unfoldable pub method_fits : String → String → Bool
method_fits pattern m =
    str_eq pattern "" || str_eq pattern m || (str_eq pattern "GET" && str_eq m "HEAD")

-- `guard`
unfoldable pub guard : Server → Request → Served → Served
guard s q served =
    if not (str_eq q.host s.host)
    then answer forbidden
    else if not (str_eq q.method "GET")
        && (not (str_eq q.origin "") && not (str_eq q.origin (append "http://" s.host)))
    then answer forbidden
    else served

-- The route of a path behind the nonce: no two patterns but the index's overlap, and that one, which any path behind the nonce matches,
-- is the least specific.
unfoldable pub dispatch : Server → Request → List String → List Route → Served
unfolding matched method_fits handle
dispatch s q xs [] = handle s index [] q
dispatch s q xs (r ∷ rest) =
    let later = dispatch s q xs rest in
    if method_fits r.method q.method
    then elim (matched r.pattern xs) [ none ↦ later | some vs ↦ handle s r.handler vs q ]
    else later

-- `Serve`: no path without the nonce is a route; the nonce alone is redirected to the index.
unfoldable pub serve_path : Server → Request → List String → Served
unfolding guard dispatch
serve_path s q [] = answer not_found
serve_path s q (x ∷ []) = answer (if str_eq x s.nonce then moved else not_found)
serve_path s q (x ∷ y ∷ ys) =
    if str_eq x s.nonce then guard s q (dispatch s q (y ∷ ys) routes) else answer not_found

unfoldable pub serve : Server → Request → Served
unfolding serve_path
serve s q = serve_path s q q.path
