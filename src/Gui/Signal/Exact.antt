-- ===== src/Gui/Signal/Exact.antt =====
-- When the lamp is green.
use rfid_middleware_idro900e.Prelude.{
  ℕ, String, Bool, true, false, not, ◌&&◌, List, [], ◌∷◌, Option, none, some, leb, ltb, str_eq,
  str_eq_iff, ◌≡◌, ◌≢◌, ◌⊎◌, ◌↔◌, refl, inl, inr, arith, All, Bool-cases, if◌then◌else◌,
}
use rfid_middleware_idro900e.Prelude.Int.{ℤ, pos, negsuc, ◌≤ℤ◌}
use rfid_middleware_idro900e.App.Status.{Status, NtpInfo, ReaderStatus}
use rfid_middleware_idro900e.Gui.Signal.Healthy.{IsCalm, IsOnTime, Within, Lasts, Flows, IsHealthy}
use rfid_middleware_idro900e.Gui.Signal.{
  green, Shown, rule, found, first_of, has_state, is_broken, is_gone, is_retrying, clock_wrong,
  clock_known, expires_soon, piled_up, eval_signal, over, magnitude,
}

abbrev IsGreen : Shown → Type 0
IsGreen x = x.0 ≡ green

-- A rule that does not end in green is passed where it does not apply.
rule_iff :
    {Q : Type 0} (b : Bool) (x rest : Shown)
    → x.0 ≢ green
    → IsGreen rest ↔ Q
    → IsGreen (rule b x rest) ↔ ((b ≡ false) × Q)
rule_iff true x rest n q = (λ h. absurd (n h), λ h. cc (h.0))
rule_iff false x rest n q = (λ h. (refl, q.0 h), λ h. q.1 h.1)

found_iff :
    {Q : Type 0} (p : ReaderStatus → Bool) (f : ReaderStatus → Shown) (rs : List ReaderStatus)
    (rest : Shown)
    → ((r : ReaderStatus) → (f r).0 ≢ green)
    → IsGreen rest ↔ Q
    → IsGreen (found (first_of p f rs) rest) ↔ (All (λ r. p r ≡ false) rs × Q)
unfolding first_of
found_iff p f [] rest n q = (λ h. (tt, q.0 h), λ h. q.1 h.1)
found_iff p f (r ∷ rs) rest n q = elim (Bool-cases (p r)) [
  | inl t ↦ rw t (λ h. absurd (n r h), λ h. cc (h.0.0))
  | inr t ↦ rw t (
    λ h. let (a, g) = (found_iff p f rs rest n q).0 h in ((refl, a), g),
    λ h. (found_iff p f rs rest n q).1 (h.0.1, h.1),
  )
]

-- What the rules on one reader say together.
module _ (parse : String → Option ℕ) (now : ℕ) (r : ReaderStatus) where
  abbrev Passes : Type 0
  Passes =
      (has_state "SUSPENDED_TOKEN" r ≡ false)
      × (is_broken r ≡ false)
      × (is_gone parse now r ≡ false)
      × (is_retrying parse now r ≡ false)
      × (has_state "ACTIVE_WARNING" r ≡ false)

  tests :
      ((str_eq r.conn_state "DISCONNECTED" ≡ true) ↔ (r.conn_state ≡ "DISCONNECTED"))
      × ((str_eq r.gate_state "SUSPENDED_TOKEN" ≡ true) ↔ (r.gate_state ≡ "SUSPENDED_TOKEN"))
      × ((str_eq r.gate_state "SUSPENDED_CONFIG" ≡ true) ↔ (r.gate_state ≡ "SUSPENDED_CONFIG"))
      × ((str_eq r.gate_state "SUSPENDED_REBIND" ≡ true) ↔ (r.gate_state ≡ "SUSPENDED_REBIND"))
      × ((str_eq r.gate_state "PREFLIGHT_RETRY" ≡ true) ↔ (r.gate_state ≡ "PREFLIGHT_RETRY"))
      × ((str_eq r.gate_state "ACTIVE_WARNING" ≡ true) ↔ (r.gate_state ≡ "ACTIVE_WARNING"))
  tests = (
    str_eq_iff _ _,
    str_eq_iff _ _,
    str_eq_iff _ _,
    str_eq_iff _ _,
    str_eq_iff _ _,
    str_eq_iff _ _,
  )

  passes_iff : Passes ↔ IsCalm r
  passes_iff = (calm, passes)
    where
      calm : Passes → IsCalm r
      calm (a, b, c, d, e) = record {
        connected = λ h. ground (arith, h, c, d, tests);
        not_revoked = λ h. ground (arith, h, a, tests);
        not_broken = λ h. ground (arith, h, b, tests);
        not_rebound = λ h. ground (arith, h, b, tests);
        not_retrying = λ h. ground (arith, h, d, tests);
        not_warning = λ h. ground (arith, h, e, tests);
      }

      passes : IsCalm r → Passes
      passes h = (
        ground (arith, h.not_revoked, tests),
        ground (arith, h.not_broken, h.not_rebound, tests),
        ground (arith, h.connected, tests),
        ground (arith, h.connected, h.not_retrying, tests),
        ground (arith, h.not_warning, tests),
      )

module _ (parse : String → Option ℕ) (now hours : ℕ) where
  abbrev AllPass : List ReaderStatus → Type 0
  AllPass rs =
      All (λ r. has_state "SUSPENDED_TOKEN" r ≡ false) rs
      × All (λ r. is_broken r ≡ false) rs
      × All (λ r. is_gone parse now r ≡ false) rs
      × All (λ r. is_retrying parse now r ≡ false) rs
      × All (λ r. has_state "ACTIVE_WARNING" r ≡ false) rs

  AllPass-iff : (rs : List ReaderStatus) → AllPass rs ↔ All IsCalm rs
  AllPass-iff [] = (λ h. tt, λ h. (tt, tt, tt, tt, tt))
  AllPass-iff (r ∷ rs) = (
    λ h.
        let (a, b, c, d, e) = h in
        (
          (passes_iff parse now r).0 (a.0, b.0, c.0, d.0, e.0),
          (AllPass-iff rs).0 (a.1, b.1, c.1, d.1, e.1),
        ),
    λ h.
        let (a, b, c, d, e) = (passes_iff parse now r).1 h.0 in
        let (a', b', c', d', e') = (AllPass-iff rs).1 h.1 in
        ((a, a'), (b, b'), (c, c'), (d, d'), (e, e')),
  )

  clock_iff :
      (n : Option NtpInfo) → ((clock_wrong n ≡ false) × (not (clock_known n) ≡ false)) ↔ IsOnTime n
  unfolding clock_wrong clock_known
  clock_iff none = (λ h. cc (h.1), λ h. absurd h)
  clock_iff (some n) = by_sign n.skew_sec n.checked
    where
      by_sign :
          (z : ℤ) (c : Bool)
          → (((c && leb 240 (magnitude z)) ≡ false) × (not c ≡ false))
            ↔ ((c ≡ true) × (negsuc 238 ≤ℤ z) × (z ≤ℤ pos 239))
      by_sign (pos k) c = (λ h. ground (arith, h.0, h.1), λ h. ground (arith, h.0, h.1, h.2))
      by_sign (negsuc k) c = (λ h. ground (arith, h.0, h.1), λ h. ground (arith, h.0, h.1, h.2))

  over_iff : (d : ℕ) (o : Option ℕ) → (over d now o ≡ false) ↔ Within d now o
  over_iff d none = (λ h. tt, λ h. refl)
  over_iff d (some t) = (λ h. ground (arith, h), λ h. ground (arith, h))

  guarded_iff :
      {P : Type 0} (b : Bool) (d : ℕ) (o : Option ℕ)
      → (b ≡ false) ↔ P
      → ((if b then over d now o else false) ≡ false) ↔ (P ⊎ Within d now o)
  guarded_iff false d o i = (λ h. inl (i.0 refl), λ h. refl)
  guarded_iff true d o i = (
    λ h. inr ((over_iff d o).0 h),
    λ h. elim h [ inl x ↦ cc (i.1 x) | inr x ↦ (over_iff d o).1 x ],
  )

  lasts_iff :
      (oldest : String)
      → (expires_soon parse hours now oldest ≡ false) ↔ Lasts parse now hours oldest
  unfolding expires_soon
  lasts_iff oldest =
      guarded_iff (not (str_eq oldest "") && ltb 0 hours) _ (parse oldest)
        (λ h. ground (arith, h, str_eq_iff oldest ""), λ h. ground (arith, h, str_eq_iff oldest ""))

  Flows-iff : (s : Status) → (piled_up parse now s ≡ false) ↔ Flows parse now s
  unfolding piled_up
  Flows-iff s =
      guarded_iff (ltb 0 s.queue_depth && not (str_eq s.queue_non_empty_since "")) _
        (parse s.queue_non_empty_since)
        (
          λ h. ground (arith, h, str_eq_iff s.queue_non_empty_since ""),
          λ h. ground (arith, h, str_eq_iff s.queue_non_empty_since ""),
        )

  sends_iff : (t : String) → (not (str_eq t "RUNNING") ≡ false) ↔ (t ≡ "RUNNING")
  sends_iff t = (
    λ h. ground (arith, h, str_eq_iff t "RUNNING"),
    λ h. ground (arith, h, str_eq_iff t "RUNNING"),
  )

module _ (parse : String → Option ℕ) (s : Status) (now hours : ℕ) where
  chain_iff : IsGreen (eval_signal parse s now hours) ↔ (
      (not (str_eq s.sender_state "RUNNING") ≡ false)
      × (All (λ r. has_state "SUSPENDED_TOKEN" r ≡ false) s.readers
          × (All (λ r. is_broken r ≡ false) s.readers
              × (All (λ r. is_gone parse now r ≡ false) s.readers
                  × ((clock_wrong s.ntp ≡ false)
                      × ((expires_soon parse hours now s.oldest_checked_at ≡ false)
                          × (All (λ r. is_retrying parse now r ≡ false) s.readers
                              × (All (λ r. has_state "ACTIVE_WARNING" r ≡ false) s.readers
                                  × ((piled_up parse now s ≡ false)
                                      × ((not (clock_known s.ntp) ≡ false) × Unit {0}))))))))))
  unfolding eval_signal
  chain_iff =
      rule_iff _ _ _ (λ e. cc e)
        (found_iff _ _ s.readers _ (λ r e. cc e)
          (found_iff _ _ s.readers _ (λ r e. cc e)
            (found_iff _ _ s.readers _ (λ r e. cc e)
              (rule_iff _ _ _ (λ e. cc e)
                (rule_iff _ _ _ (λ e. cc e)
                  (found_iff _ _ s.readers _ (λ r e. cc e)
                    (found_iff _ _ s.readers _ (λ r e. cc e)
                      (rule_iff _ _ _ (λ e. cc e)
                        (rule_iff _ _ _ (λ e. cc e) (λ h. tt, λ h. refl))))))))))

-- The lamp is green exactly where the sender runs, every reader is connected and in a state that asks for nothing, the clock was compared and is
-- less than four minutes off, no row has used nine tenths of its time, and the queue has not been filled for more than five minutes.
pub green_iff :
    (parse : String → Option ℕ) (s : Status) (now hours : ℕ)
    → ((eval_signal parse s now hours).0 ≡ green) ↔ IsHealthy parse s now hours
green_iff parse s now hours = (
  λ h.
      let (a, (b, (c, (d, (e, (f, (g, (k, (l, (m, _)))))))))) = (chain_iff parse s now hours).0 h in
      record {
        sends = (sends_iff parse now hours s.sender_state).0 a;
        readers = (AllPass-iff parse now hours s.readers).0 (b, c, d, g, k);
        clock = (clock_iff parse now hours s.ntp).0 (e, m);
        oldest = (lasts_iff parse now hours s.oldest_checked_at).0 f;
        queue = (Flows-iff parse now hours s).0 l;
      },
  λ v.
      let (b, c, d, g, k) = (AllPass-iff parse now hours s.readers).1 v.readers in
      let (e, m) = (clock_iff parse now hours s.ntp).1 v.clock in
      let f = (lasts_iff parse now hours s.oldest_checked_at).1 v.oldest in
      let l = (Flows-iff parse now hours s).1 v.queue in
      (chain_iff parse s now hours).1 (
        (sends_iff parse now hours s.sender_state).1 v.sends,
        (b, (c, (d, (e, (f, (g, (k, (l, (m, tt))))))))),
      ),
)
