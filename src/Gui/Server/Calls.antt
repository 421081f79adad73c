-- ===== src/Gui/Server/Calls.antt =====
-- What the handlers call: internal/gui/server.go.
use rfid_middleware_idro900e.Prelude.{
  String, Bool, true, false, List, some, str_eq, str_eq_iff, ◌≡◌, ◌⊎◌, refl, arith, inl, inr,
  Bool-cases, Option-cases,
}
use rfid_middleware_idro900e.Gui.Body.{Posted, decode_body}
use rfid_middleware_idro900e.Gui.Body.Confirmed.{SaysConfirm, decode_body-SaysConfirm}
use rfid_middleware_idro900e.Gui.Server.{
  Call, wizard_abort, wizard_report, Server, Request, Served, confirming, confirming_after, Handler,
  index, app_js, state, meta, system, events, service, network, set_network, catalog, op, upload,
  session, resume_reader, config, save, wizard, start, confirm, abort, report, core, posted_service,
  handle_service, handle,
}

-- The calls that a body has to confirm: all but the end of a site check and the report of it.
abbrev pub needs_confirm : Call → Bool
needs_confirm wizard_abort = false
needs_confirm wizard_report = false
needs_confirm _ = true

-- The handlers whose pattern must be one for POST alone.
abbrev pub posted_only : Handler → Bool
posted_only set_network = true
posted_only op = true
posted_only upload = true
posted_only session = true
posted_only resume_reader = true
posted_only save = true
posted_only start = true
posted_only confirm = true
posted_only abort = true
posted_only report = true
posted_only core = true
posted_only _ = false

abbrev pub IsConfirmed : Request → Call → Type 0
IsConfirmed q c = (needs_confirm c ≡ false) ⊎ SaysConfirm q.body

confirming-Says :
    (fs : List String) (code : String) (q : Request) (k : Posted → Served) (c : Call)
    → (confirming fs code q k).call ≡ some c
    → SaysConfirm q.body
unfolding confirming
confirming-Says fs code q k c h = elim (Option-cases (decode_body fs q.body)) [
  | inl n ↦ absurd (ground (arith, h, n))
  | inr (b, e) ↦ decode_body-SaysConfirm fs q.body b e (ground (arith, h, e))
]

confirming_after-Says :
    (fs : List String) (q : Request) (k : Posted → Served) (c : Call)
    → (confirming_after fs q k).call ≡ some c
    → SaysConfirm q.body
unfolding confirming_after
confirming_after-Says fs q k c h = elim (Option-cases (decode_body fs q.body)) [
  | inl n ↦ absurd (ground (arith, h, n))
  | inr (b, e) ↦ decode_body-SaysConfirm fs q.body b e (ground (arith, h, e))
]

service-Says :
    (s : Server) (q : Request) (c : Call) → (posted_service s q).call ≡ some c → SaysConfirm q.body
unfolding posted_service
service-Says s q c h = confirming_after-Says _ q _ c h

service-Posts :
    (s : Server) (q : Request) (c : Call)
    → (handle_service s q).call ≡ some c
    → (q.method ≡ "POST") × SaysConfirm q.body
unfolding handle_service
service-Posts s q c h = elim (Bool-cases (str_eq q.method "POST")) [
  | inr n ↦ absurd (ground (arith, h, n))
  | inl e ↦ ((str_eq_iff _ _).0 e, service-Says s q c (rw e at h))
]

abbrev pub Called : Request → Call → Handler → Type 0
Called q c h = ((posted_only h ≡ true) ⊎ (q.method ≡ "POST")) × IsConfirmed q c

pub handle-Called :
    (s : Server) (h : Handler) (vs : List String) (q : Request) (c : Call)
    → (handle s h vs q).call ≡ some c
    → Called q c h
unfolding handle
handle-Called s index vs q c e = cc e
handle-Called s app_js vs q c e = cc e
handle-Called s state vs q c e = cc e
handle-Called s meta vs q c e = cc e
handle-Called s system vs q c e = cc e
handle-Called s events vs q c e = cc e
handle-Called s service vs q c e = let (p, b) = service-Posts s q c e in (inr p, inr b)
handle-Called s network vs q c e = ground (arith, e)
handle-Called s set_network vs q c e = (inl refl, inr (confirming_after-Says _ q _ c e))
handle-Called s catalog vs q c e = ground (arith, e)
handle-Called s op vs q c e = (inl refl, inr (confirming-Says _ _ q _ c e))
handle-Called s upload vs q c e = (inl refl, inr (confirming-Says _ _ q _ c e))
handle-Called s session vs q c e = (inl refl, inr (confirming-Says _ _ q _ c e))
handle-Called s resume_reader vs q c e = (inl refl, inr (confirming-Says _ _ q _ c e))
handle-Called s config vs q c e = ground (arith, e)
handle-Called s save vs q c e = (inl refl, inr (confirming-Says _ _ q _ c e))
handle-Called s wizard vs q c e = cc e
handle-Called s start vs q c e = (inl refl, inr (confirming-Says _ _ q _ c e))
handle-Called s confirm vs q c e = (inl refl, inr (confirming-Says _ _ q _ c e))
handle-Called s abort vs q c e = (inl refl, inl (ground (arith, e)))
handle-Called s report vs q c e = (inl refl, inl (ground (arith, e)))
handle-Called s core vs q c e = (inl refl, inr (confirming-Says _ _ q _ c e))
