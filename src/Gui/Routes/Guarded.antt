-- ===== src/Gui/Routes/Guarded.antt =====
-- Which requests reach a hook: internal/gui/server.go.
use Prim.Native.String.{◌++◌ as append}
use rfid_middleware_idro900e.Prelude.{
  String, Bool, true, not, ◌||◌, List, [], ◌∷◌, some, str_eq, str_eq_iff, ◌≡◌, ◌⊎◌, refl, sym, ◌∙◌,
  arith, inl, inr, Bool-cases, Option-cases, all,
}
use rfid_middleware_idro900e.Gui.Server.{Call, Server, Request, Served, index}
use rfid_middleware_idro900e.Gui.Server.Calls.{posted_only, IsConfirmed, handle-Called}
use rfid_middleware_idro900e.Gui.Routes.{
  Route, routes, matched, method_fits, guard, dispatch, serve_path, serve,
}

-- The table gives such a handler no other method.
abbrev is_posted : Route → Bool
is_posted r = not (posted_only r.handler) || str_eq r.method "POST"

all_posted : all is_posted routes ≡ true
all_posted = refl

fits_post :
    (r : Route) (m : String)
    → is_posted r ≡ true
    → posted_only r.handler ≡ true
    → method_fits r.method m ≡ true
    → m ≡ "POST"
unfolding method_fits
fits_post r m a h f = sym ((str_eq_iff "POST" m).0 (ground (arith, rw post at f)))
  where
    post : r.method ≡ "POST"
    post = (str_eq_iff r.method "POST").0 (ground (arith, a, h))

get_not_post : (m : String) → m ≡ "POST" → m ≡ "GET" → ⊥
get_not_post m p g = cc ((str_eq_iff "POST" "GET").1 (sym p ∙ g))

abbrev Reaches : Request → Call → Type 0
Reaches q c = (q.method ≡ "POST") × IsConfirmed q c

dispatch-Reaches :
    (s : Server) (q : Request) (xs : List String) (rs : List Route) (c : Call)
    → all is_posted rs ≡ true
    → (dispatch s q xs rs).call ≡ some c
    → Reaches q c
unfolding dispatch
dispatch-Reaches s q xs [] c a h =
    let (m, n) = handle-Called s index [] q c h in elim m [ inl p ↦ cc p | inr p ↦ (p, n) ]
dispatch-Reaches s q xs (r ∷ rest) c a h =
    let later = dispatch-Reaches s q xs rest c (ground (arith, a)) in
    elim (Bool-cases (method_fits r.method q.method)) [
      | inr f ↦ later (rw f at h)
      | inl f ↦ elim (Option-cases (matched r.pattern xs)) [
        | inl n ↦ later (rw (f, n) at h)
        | inr (vs, e) ↦
            let (m, n) = handle-Called s r.handler vs q c (rw (f, e) at h) in
            elim m [ inl p ↦ (fits_post r q.method (ground (arith, a)) p f, n) | inr p ↦ (p, n) ]
      ]
    ]

guard-call :
    (s : Server) (q : Request) (served : Served) (c : Call)
    → (guard s q served).call ≡ some c
    → (q.host ≡ s.host)
      × ((q.method ≡ "GET") ⊎ (q.origin ≡ "") ⊎ (q.origin ≡ append "http://" s.host))
      × (served.call ≡ some c)
unfolding guard
guard-call s q served c h = (
  (str_eq_iff q.host s.host).0 (ground (arith, h)),
  elim (Bool-cases (str_eq q.method "GET")) [
    | inl e ↦ inl ((str_eq_iff q.method "GET").0 e)
    | inr n ↦ elim (Bool-cases (str_eq q.origin "")) [
      | inl e ↦ inr (inl ((str_eq_iff q.origin "").0 e))
      | inr o ↦
          inr (inr ((str_eq_iff q.origin (append "http://" s.host)).0 (ground (arith, h, n, o))))
    ]
  ],
  ground (arith, h),
)

module _ (s : Server) (q : Request) (c : Call) where
  -- What holds of a request that reaches a hook.
  abbrev pub IsAdmitted : List String → Type 0
  IsAdmitted path =
      (q.method ≡ "POST")
      × ((rest : List String) × (path ≡ s.nonce ∷ rest))
      × (q.host ≡ s.host)
      × ((q.origin ≡ "") ⊎ (q.origin ≡ append "http://" s.host))
      × IsConfirmed q c

  guarded-IsAdmitted :
      (y : String) (ys : List String)
      → (guard s q (dispatch s q (y ∷ ys) routes)).call ≡ some c
      → IsAdmitted (s.nonce ∷ y ∷ ys)
  guarded-IsAdmitted y ys h =
      let (host, origin, called) = guard-call s q _ c h in
      let (post, says) = dispatch-Reaches s q (y ∷ ys) routes c all_posted called in
      (
        post,
        (y ∷ ys, refl),
        host,
        elim origin [ inl g ↦ absurd (get_not_post q.method post g) | inr o ↦ o ],
        says,
      )

  path-IsAdmitted : (path : List String) → (serve_path s q path).call ≡ some c → IsAdmitted path
  unfolding serve_path
  path-IsAdmitted [] h = cc h
  path-IsAdmitted (x ∷ []) h = cc h
  path-IsAdmitted (x ∷ y ∷ ys) h = elim (Bool-cases (str_eq x s.nonce)) [
    | inr n ↦ absurd (cc (rw n at h))
    | inl e ↦ rw ((str_eq_iff x s.nonce).0 e) (guarded-IsAdmitted y ys (rw e at h))
  ]

  -- Whatever the request and the hooks: a hook that changes something is called only by a POST whose path begins with the nonce, whose Host is
  -- the server's, and whose Origin is the server's or missing; and, but for the end of a site check and its report, whose body has a
  -- member confirm that is true.
  pub serve-IsAdmitted : (serve s q).call ≡ some c → IsAdmitted q.path
  unfolding serve
  serve-IsAdmitted h = path-IsAdmitted q.path h
