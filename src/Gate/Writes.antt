-- ===== src/Gate/Writes.antt =====
-- What `Set` and `RefreshMeta` write in memory and in the store.
use rfid_middleware_idro900e.Prelude.{
  ap, none, ℕ, String, Bool, true, false, List, [], ◌∷◌, Option, some, str_eq, str_eq_refl, ◌≡◌,
  ◌↔◌, refl, arith, if◌then◌else◌, All, Bool-cases, Option-cases, inl, inr, map, ◌&&◌, ◌⊎◌,
}
use rfid_middleware_idro900e.Domain.{
  GateState, GateMeta, sendable, gate_eq, meta_eq, gate_eq_iff, meta_eq_iff,
}
use rfid_middleware_idro900e.Store.{Db}
use rfid_middleware_idro900e.Gate.{
  Written, Refresh, Entry, Registry, get, persist, get_entry, entry_or_zero, changed_entry,
  Persister, set, refresh_meta, refresh_entry, not_applied,
}
use rfid_middleware_idro900e.Gate.Entries.{get_entry-put_entry}

same_iff :
    (st : GateState) (m : GateMeta) (e : Entry)
    → ((gate_eq e.state st && meta_eq e.meta m) ≡ true) ↔ ((e.state ≡ st) × (e.meta ≡ m))
same_iff st m e = (
  λ h. ground (arith, h, gate_eq_iff e.state st, meta_eq_iff e.meta m),
  λ h. ground (arith, h, gate_eq_iff e.state st, meta_eq_iff e.meta m),
)

All-signalled :
    (subs : List (ℕ × Bool))
    → All (λ (s : ℕ × Bool). s.1 ≡ true) (map (λ (s : ℕ × Bool). (s.0, true)) subs)
All-signalled [] = tt
All-signalled (s ∷ subs) = (refl, All-signalled subs)

module _ (p : Persister) (r : String) (st : GateState) (why : String) (now : ℕ) (reg : Registry)
    (db : Db) where
  -- What `Set` leaves of the entry of `j`, and of the rest of the registry.
  abbrev pub Sets : String → Option GateMeta → String → Type 0
  Sets fp m j =
      let w = set p r st why now fp m reg db in
      (get j w.registry ≡ (
        if str_eq r j
        then some (changed_entry st why fp m (entry_or_zero (get r reg)))
        else get j reg))
      × (w.registry.global ≡ reg.global)
      × (w.registry.changed ≡ true)
      × All (λ (s : ℕ × Bool). s.1 ≡ true) w.registry.subs

  -- `Set` changes the entry of its reader and no other, leaves the sender's state alone, and signals
  -- the sender and every observer, whatever becomes of the write to the store.
  pub set_writes : (fp : String) (m : Option GateMeta) (j : String) → Sets fp m j
  unfolding set get
  set_writes fp m j = (get_entry-put_entry r j _ reg.entries, refl, refl, All-signalled reg.subs)

  module _ (m : GateMeta) (e : Entry) (h : get_entry r reg.entries ≡ some e) where
    refresh_stays :
        (sendable e.state ≡ false) ⊎ ((gate_eq e.state st && meta_eq e.meta m) ≡ true)
        → refresh_meta p r st why now m reg db ≡ not_applied reg db
    unfolding refresh_meta refresh_entry
    refresh_stays t = rw (h, refresh_meta) ground (arith, t)

    refresh_applies :
        sendable e.state ≡ true
        → (gate_eq e.state st && meta_eq e.meta m) ≡ false
        → ((refresh_meta p r st why now m reg db).result.applied ≡ true)
          × (get r (refresh_meta p r st why now m reg db).registry
              ≡ some (record e { state = st; reason = why; meta = m }))
    unfolding refresh_meta refresh_entry get
    refresh_applies s t =
        rw (h, refresh_meta) ground
          (
            arith,
            s,
            t,
            get_entry-put_entry r r (record e { state = st; reason = why; meta = m }) reg.entries,
            str_eq_refl r,
          )

  -- What `RefreshMeta` leaves of every entry.
  pub refresh_outcome :
      (m : GateMeta)
      → let w = refresh_meta p r st why now m reg db in
        (w.registry ≡ reg)
        ⊎ ((e : Entry) × (get r reg ≡ some e)
            × (sendable e.state ≡ true)
            × ((j : String)
                → get j w.registry ≡ (
                    if str_eq r j
                    then some (record e { state = st; reason = why; meta = m })
                    else get j reg)))
  unfolding refresh_meta refresh_entry get
  refresh_outcome m = elim (Option-cases (get_entry r reg.entries)) [
    | inl h ↦ inl (rw (h, refresh_meta) refl)
    | inr (e, h) ↦ elim (Bool-cases (sendable e.state)) [
      | inl s ↦ elim (Bool-cases (gate_eq e.state st && meta_eq e.meta m)) [
        | inl t ↦ inl (rw (h, refresh_meta, s, t) refl)
        | inr t ↦
            inr (e, h, s, λ j. rw (h, refresh_meta, s, t) (get_entry-put_entry r j _ reg.entries))
      ]
      | inr s ↦ inl (rw (h, refresh_meta, s) refl)
    ]
  ]

  -- What `RefreshMeta` leaves of the sender's state and of the tables.
  pub refresh_frame :
      (m : GateMeta)
      → let w = refresh_meta p r st why now m reg db in
        (w.registry.global ≡ reg.global)
        × ((w.db ≡ db) ⊎ ((fp : String) × (w.db ≡ (persist p r st why now fp (some m) db).1)))
  unfolding refresh_meta refresh_entry
  refresh_frame m = elim (Option-cases (get_entry r reg.entries)) [
    | inl h ↦ rw (h, refresh_meta) (refl, inl refl)
    | inr (e, h) ↦ elim (Bool-cases (sendable e.state)) [
      | inl s ↦ elim (Bool-cases (gate_eq e.state st && meta_eq e.meta m)) [
        | inl t ↦ rw (h, refresh_meta, s, t) (refl, inl refl)
        | inr t ↦ rw (h, refresh_meta, s, t) (refl, inr (e.fingerprint, refl))
      ]
      | inr s ↦ rw (h, refresh_meta, s) (refl, inl refl)
    ]
  ]

  -- The two outcomes of `RefreshMeta`.
  abbrev pub Exact : GateMeta → Type 0
  Exact m =
      let w = refresh_meta p r st why now m reg db in
      ((e : Entry) × (get r reg ≡ some e)
        × (sendable e.state ≡ true)
        × ¬ ((e.state ≡ st) × (e.meta ≡ m))
        × (w.result.applied ≡ true)
        × (get r w.registry ≡ some (record e { state = st; reason = why; meta = m })))
      ⊎ ((get r reg ≡ none)
          ⊎ ((e : Entry) × (get r reg ≡ some e)
              × ((sendable e.state ≡ false) ⊎ ((e.state ≡ st) × (e.meta ≡ m)))))
        × (w.result.applied ≡ false)
        × (w.registry ≡ reg)
        × (w.db ≡ db)

  stays :
      (m : GateMeta) (e : Entry)
      → get r reg ≡ some e
      → (sendable e.state ≡ false) ⊎ ((e.state ≡ st) × (e.meta ≡ m))
      → refresh_meta p r st why now m reg db ≡ not_applied reg db
      → Exact m
  stays m e h t q = inr (
    inr (e, h, t),
    ap (λ (x : Written Refresh). x.result.applied) q,
    ap (λ (x : Written Refresh). x.registry) q,
    ap (λ (x : Written Refresh). x.db) q,
  )

  -- `RefreshMeta` applies exactly to a sendable entry whose state or meta differ from the new ones.
  -- Where it applies, the entry has them and keeps its fingerprint; where it does not, neither the
  -- registry nor the tables change, and no signal is sent.
  pub refresh_meta_exact : (m : GateMeta) → Exact m
  unfolding refresh_meta get
  refresh_meta_exact m = elim (Option-cases (get_entry r reg.entries)) [
    | inl h ↦
        inr (inl h, rw (h, refresh_meta) refl, rw (h, refresh_meta) refl, rw (h, refresh_meta) refl)
    | inr (e, h) ↦ elim (Bool-cases (sendable e.state)) [
      | inl s ↦ elim (Bool-cases (gate_eq e.state st && meta_eq e.meta m)) [
        | inl t ↦ stays m e h (inr ((same_iff st m e).0 t)) (refresh_stays m e h (inr t))
        | inr t ↦
            let (a, b) = refresh_applies m e h s t in
            inl (e, h, s, λ both. cc (t, (same_iff st m e).1 both), a, b)
      ]
      | inr s ↦ stays m e h (inl s) (refresh_stays m e h (inl s))
    ]
  ]
