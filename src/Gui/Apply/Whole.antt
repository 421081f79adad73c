-- ===== src/Gui/Apply/Whole.antt =====
-- What a change of session leaves behind: `applySession` of internal/gui/run.go.
use mathlib.Core.Path.{subst}
use rfid_middleware_idro900e.Prelude.{
  String, Bool, true, false, ◌&&◌, List, [], ◌∷◌, map, Option, none, some, ltb, str_eq, str_eq_iff,
  any, All, ◌≡◌, ◌≢◌, ◌⊎◌, refl, ap, arith, inl, inr, Bool-cases, Option-cases,
}
use rfid_middleware_idro900e.Config
use rfid_middleware_idro900e.Config.{Wire, WireReader, Reader, Platform, parse_config, reader_of}
use rfid_middleware_idro900e.Gui.Catalog.{Catalog, CatalogSession, find}
use rfid_middleware_idro900e.Gui.CfgWrite.{
  Codec, Files, Io, Undo, is_accepted, set_session, session_wire, session_in, session_into,
  write_reader_session,
}
use rfid_middleware_idro900e.Gui.CfgWrite.Undone.{Undone, rollback_config-Undone}
use rfid_middleware_idro900e.Gui.CfgWrite.Atomic.{replace_by-Saved}
use rfid_middleware_idro900e.Gui.Apply.{
  ApplyError, write_failed, restart_failed, Applied, applied, rejected, Desk, Meets, restart,
  Checks, check_session, of_catalog, in_config, free_for, is_taken, after_write, apply_checked,
  apply_session,
}

-- The session is in the catalogue, the reader in the configuration, no other reader has the session or its token, and no row of
-- the reader waits.
abbrev pub MayTake : String → String → Meets → Option Config.Config → CatalogSession → Type 0
MayTake id sid m cfg s =
    ((cat : Catalog) × (m.catalog ≡ some cat) × (find sid cat.sessions ≡ some s))
    × ((c : Config.Config) × (cfg ≡ some c)
        × ((r : Reader) × (reader_of id c.readers ≡ some r))
        × All (λ r. (r.id ≡ id) ⊎ (r.session_id ≢ sid) × (r.token.v ≢ s.token)) c.readers)
    × (m.pending ≡ 0)

not_taken :
    (id sid : String) (s : CatalogSession) (rs : List Reader)
    → any (is_taken id sid s) rs ≡ false
    → All (λ r. (r.id ≡ id) ⊎ (r.session_id ≢ sid) × (r.token.v ≢ s.token)) rs
not_taken id sid s [] h = tt
not_taken id sid s (r ∷ rs) h = (
  elim (Bool-cases (str_eq r.id id)) [
    | inl e ↦ inl ((str_eq_iff r.id id).0 e)
    | inr n ↦ inr (
      λ i. ground (arith, h, n, i, str_eq_iff r.session_id sid),
      λ t. ground (arith, h, n, t, str_eq_iff r.token.v s.token),
    )
  ],
  not_taken id sid s rs (ground (arith, h)),
)

free_for-some :
    (id sid : String) (m : Meets) (q s : CatalogSession) (c : Config.Config)
    → (free_for id sid m q c).0 ≡ some s
    → (any (is_taken id sid q) c.readers ≡ false) × (m.pending ≡ 0) × (q ≡ s)
free_for-some id sid m q s c h = elim (Bool-cases (any (is_taken id sid q) c.readers)) [
  | inl t ↦ cc (rw t at h)
  | inr t ↦ elim (Bool-cases (ltb 0 m.pending)) [
    | inl k ↦ cc (rw (t, k) at h)
    | inr k ↦ (t, ground (arith, k), cc (rw (t, k) at h))
  ]
]

module _ (id sid : String) (m : Meets) (cfg : Option Config.Config) (s : CatalogSession) where
  in_config-MayTake :
      (cat : Catalog) (q : CatalogSession) (o : Option Config.Config)
      → m.catalog ≡ some cat
      → find sid cat.sessions ≡ some q
      → cfg ≡ o
      → (in_config id sid m q o).0 ≡ some s
      → MayTake id sid m cfg s
  in_config-MayTake cat q none mc f e h = cc h
  in_config-MayTake cat q (some c) mc f e h = elim (Option-cases (reader_of id c.readers)) [
    | inl n ↦ cc (rw (n, in_config) at h)
    | inr (r, k) ↦
        let (t, z, same) = free_for-some id sid m q s c (rw (k, in_config) at h) in
        subst (λ (x : CatalogSession). MayTake id sid m cfg x) same
          ((cat, mc, f), (c, e, (r, k), not_taken id sid q c.readers t), z)
  ]

  of_catalog-MayTake :
      (o : Option Catalog)
      → m.catalog ≡ o
      → (of_catalog id sid m cfg o).0 ≡ some s
      → MayTake id sid m cfg s
  of_catalog-MayTake none e h = cc h
  of_catalog-MayTake (some cat) e h = elim (Option-cases (find sid cat.sessions)) [
    | inl n ↦ cc (rw n at h)
    | inr (q, f) ↦ in_config-MayTake cat q cfg e f refl (rw f at h)
  ]

-- The readers of the new text: the named one has the session and its token, the others are as they were.
abbrev pub Reassigned : String → String → String → List WireReader → List WireReader → Type 0
Reassigned id sid tok [] [] = Unit
Reassigned id sid tok (x ∷ xs) (y ∷ ys) =
    ((x.id ≡ id) × (y ≡ record { id = x.id; addr = x.addr; pulse_token = tok; session_id = sid })
      ⊎ (x.id ≢ id) × (y ≡ x))
    × Reassigned id sid tok xs ys
Reassigned id sid tok _ _ = ⊥

module _ {C : Type 0} (codec : Codec C) (p : Platform) (u : Undo C) (id sid : String) where
  set_session-Reassigned :
      (tok : String) (xs : List WireReader)
      → Reassigned id sid tok xs (map (set_session codec id sid tok) xs)
  set_session-Reassigned tok [] = tt
  set_session-Reassigned tok (x ∷ xs) = (
    elim (Bool-cases (str_eq x.id id)) [
      | inl e ↦ inl ((str_eq_iff x.id id).0 e, rw e refl)
      | inr e ↦ inr (λ i. ground (arith, e, i, str_eq_iff x.id id), rw e refl)
    ],
    set_session-Reassigned tok xs,
  )

  -- The text `raw` becomes `out`: the same document but for its readers, and one that `Parse` accepts.
  abbrev pub IsChanged : String → C → C → Type 0
  IsChanged tok raw out =
      (w : Wire) × (ys : List WireReader) × (codec.unmarshal raw ≡ some w)
      × Reassigned id sid tok w.readers ys
      × (out ≡ codec.encode (record w { readers = ys }))
      × (is_accepted (parse_config p (codec.decode out)) ≡ true)

  -- A write that succeeded, with the old text in the backup.
  abbrev Wrote : String → Files C → Files C × Bool → Type 0
  Wrote tok files res =
      (res.1 ≡ false) × (res.0.main ≡ files.main)
      ⊎ (res.1 ≡ true)
        × ((raw : C) × (out : C) × (files.main ≡ some raw)
            × IsChanged tok raw out
            × (res.0.main ≡ some out)
            × (res.0.bak ≡ some raw))

  session_in-Wrote :
      (io : Io) (tok : String) (raw : C) (o : Option Wire) (files : Files C)
      → files.main ≡ some raw
      → codec.unmarshal raw ≡ o
      → Wrote tok files (session_in codec p io id sid tok raw o files)
  unfolding session_in
  session_in-Wrote io tok raw none files m k = inl (refl, refl)
  session_in-Wrote io tok raw (some w) files m k =
      elim (Bool-cases (any (λ (r : WireReader). str_eq r.id id) w.readers)) [
        | inr t ↦ rw t (inl (refl, refl))
        | inl t ↦
            rw t
              (elim (replace_by-Saved codec p io false (some raw)
                (codec.encode (session_wire codec id sid tok w)) files) [
                  | inl x ↦ inl x
                  | inr (b, a, e, h) ↦ inr (
                    b,
                    (raw, _, m, (w, _, k, set_session-Reassigned tok w.readers, refl, a), e, h),
                  )
                ])
      ]

  write-Wrote :
      (io : Io) (tok : String) (files : Files C)
      → Wrote tok files (write_reader_session codec p io id sid tok files)
  unfolding write_reader_session session_into
  write-Wrote io tok files = elim (Bool-cases io.read) [
    | inl t ↦ rw t (inl (refl, refl))
    | inr t ↦ rw t (by_main files.main refl)
  ]
    where
      by_main :
          (o : Option C)
          → files.main ≡ o
          → Wrote tok files (session_into codec p io id sid tok o files)
      by_main none m = inl (refl, refl)
      by_main (some raw) m = session_in-Wrote io tok raw (codec.unmarshal raw) files m refl

  -- What a change of session comes to.
  abbrev pub Whole : Meets → Desk C → Desk C × Applied → Type 0
  Whole m d res =
      ((e : ApplyError) × (res.1 ≡ rejected e) × (res.0.files.main ≡ d.files.main))
      ⊎ ((s : CatalogSession) × (raw : C) × (out : C) × MayTake id sid m d.cfg s
          × (d.files.main ≡ some raw)
          × IsChanged s.token raw out
          × ((res.1 ≡ applied) × (res.0.files.main ≡ some out)
              ⊎ (res.1 ≡ rejected restart_failed) × Undone u raw out res.0.files.main))

  after-Whole :
      (m : Meets) (d d' : Desk C) (ok : Bool) (s : CatalogSession)
      → MayTake id sid m d.cfg s
      → Wrote s.token d.files (d'.files, ok)
      → Whole m d (after_write codec p u m (d', ok))
  unfolding after_write
  after-Whole m d d' false s c (inl (k, e)) = inl (write_failed, refl, e)
  after-Whole m d d' false s c (inr (k, w)) = absurd (cc k)
  after-Whole m d d' true s c (inl (k, e)) = absurd (cc k)
  after-Whole m d d' true s c (inr (k, (raw, out, q, i, a, b))) =
      elim (Bool-cases (m.hosting && d'.core.running)) [
        | inr t ↦ rw t (inr (s, raw, out, c, q, i, inl (refl, a)))
        | inl t ↦ elim (Bool-cases (restart m.ends_in_time m.before d'.core).1) [
          | inl x ↦ rw (t, x) (inr (s, raw, out, c, q, i, inl (refl, a)))
          | inr x ↦
              rw (t, x)
                (inr (
                  s,
                  raw,
                  out,
                  c,
                  q,
                  i,
                  inr (refl, rollback_config-Undone codec u raw out d'.files b a),
                ))
        ]
      ]

  checked-Whole :
      (m : Meets) (d : Desk C) (c : Checks)
      → check_session id sid m d.cfg ≡ c
      → Whole m d (apply_checked codec p u m id sid d c)
  unfolding apply_checked check_session
  checked-Whole m d (none, e) q = inl (e, refl, refl)
  checked-Whole m d (some s, e) q =
      let res = write_reader_session codec p m.io id sid s.token d.files in
      after-Whole m d (record d { files = res.0 }) res.1 s
        (of_catalog-MayTake id sid m d.cfg s m.catalog refl (ap (λ (x : Checks). x.0) q))
        (write-Wrote m.io s.token d.files)

-- Whatever the catalogue, the configuration and the core are, and whichever calls fail, those of the rollback too: `applySession` is rejected
-- before the new text is in the file, which is as it was; or the session may be taken, and there is a new text, which `Parse` accepts and which
-- differs from the old one only in that the reader has the session and its token. Then it is applied, and the file has that text; or the core did not start again,
-- and the file has what the rollback leaves: the old text, or the new one where the backup cannot be read or the file not opened, or
-- what a broken write wrote.
pub apply_session-Whole :
    {C : Type 0} (codec : Codec C) (p : Platform) (u : Undo C) (id sid : String) (m : Meets)
    (d : Desk C)
    → Whole codec p u id sid m d (apply_session codec p u m id sid d)
unfolding apply_session
apply_session-Whole codec p u id sid m d =
    checked-Whole codec p u id sid m d (check_session id sid m d.cfg) refl
