-- ===== src/Gui/Wizard/Guard.antt =====
-- What goes before a real check-in: `run` of internal/gui/wizard.go.
use mathlib.Core.Path.{subst}
use rfid_middleware_idro900e.Prelude.{
  ℕ, zero, suc, String, Bool, true, false, List, [], ◌∷◌, ◌++◌, map, Option, none, some, str_eq_iff,
  ◌≡◌, ◌⊎◌, refl, ap, sym, arith, inl, inr, Memᴰ, Bool-cases, length,
}
use rfid_middleware_idro900e.Prelude.Int.{pos, ◌≤ℤ◌}
use rfid_middleware_idro900e.Domain.{GateMeta}
use rfid_middleware_idro900e.Congkong.Decode.{preflight_meta}
use rfid_middleware_idro900e.Gui.Wizard.{
  StepStatus, pending, pass, warned, fail, skipped, StepResult, Observed, step_2, one_step,
  pending_of, run_steps, run,
}

-- The step was carried out.
abbrev pub IsJudged : StepStatus → Type 0
IsJudged s = (s ≡ pass) ⊎ ((s ≡ warned) ⊎ (s ≡ fail))

-- The steps that may make a check-in on the server.
abbrev pub IsTrial : String → Type 0
IsTrial id = (id ≡ "3a") ⊎ (id ≡ "3b")

-- A whole answer with a gate whose cooldown is on.
abbrev pub IsConfirmed : Observed → Type 0
IsConfirmed o =
    (o.answer.transport_err ≡ false)
    × (o.answer.status ≡ 200)
    × ((m : GateMeta) × (preflight_meta o.answer.body ≡ some m) × (pos 1 ≤ℤ m.cooldown_sec))

abbrev pub nth : ℕ → List StepResult → Option StepResult
nth n [] = none
nth zero (x ∷ xs) = some x
nth (suc n) (x ∷ xs) = nth n xs

step_2_pass : (o : Observed) → step_2 o ≡ pass → IsConfirmed o
unfolding step_2
step_2_pass o h = by_meta (preflight_meta o.answer.body) refl
  where
    by_meta : (m : Option GateMeta) → preflight_meta o.answer.body ≡ m → IsConfirmed o
    by_meta none e = ground (arith, h, e)
    by_meta (some m) e = (ground (arith, h, e), ground (arith, h, e), (m, e, ground (arith, h, e)))

-- Where the flag comes from.
flag_from :
    (reader id : String) (ok : Bool) (o : Observed)
    → (one_step reader ok id o).1 ≡ true
    → (ok ≡ true) ⊎ ((id ≡ "2") × (step_2 o ≡ pass))
unfolding one_step
flag_from reader id ok o h = ground (arith, h, str_eq_iff id "2")

skipped_not : IsJudged skipped → ⊥
skipped_not (inl e) = cc e
skipped_not (inr (inl e)) = cc e
skipped_not (inr (inr e)) = cc e

pending_not : IsJudged pending → ⊥
pending_not (inl e) = cc e
pending_not (inr (inl e)) = cc e
pending_not (inr (inr e)) = cc e

trial_flag :
    (reader id : String) (ok : Bool) (o : Observed)
    → IsTrial id
    → IsJudged (one_step reader ok id o).0
    → ok ≡ true
unfolding one_step
trial_flag reader id true o t j = refl
trial_flag reader id false o (inl e) j =
    absurd (skipped_not (subst (λ (i : String). IsJudged (one_step reader false i o).0) e j))
trial_flag reader id false o (inr e) j =
    absurd (skipped_not (subst (λ (i : String). IsJudged (one_step reader false i o).0) e j))

nth_pending :
    (n : ℕ) (xs : List (String × Observed)) (r : StepResult)
    → nth n (map pending_of xs) ≡ some r
    → r.status ≡ pending
nth_pending n [] r h = cc h
nth_pending zero (x ∷ xs) r h = ground (arith, h)
nth_pending (suc n) (x ∷ xs) r h = nth_pending n xs r h

-- At each place of the list, whether the flag was set or not before it.
trial_guarded :
    (reader : String) (ok : Bool) (before after : List (String × Observed)) (id : String)
    (o : Observed) (r : StepResult)
    → IsTrial id
    → IsJudged r.status
    → nth (length before) (run_steps reader ok (before ++ (id, o) ∷ after)) ≡ some r
    → (ok ≡ true) ⊎ ((x : Observed) × Memᴰ ("2", x) before × IsConfirmed x)
unfolding run_steps
trial_guarded reader ok [] after id o r t j h = elim (Bool-cases o.cancelled) [
  | inl c ↦ absurd (pending_not (subst IsJudged (nth_pending 0 ((id, o) ∷ after) r (rw c at h)) j))
  | inr c ↦
      let same : (one_step reader ok id o).0 ≡ r.status = ground (arith, rw c at h) in
      inl (trial_flag reader id ok o t (subst IsJudged (sym same) j))
]
trial_guarded reader ok ((i, x) ∷ before) after id o r t j h = elim (Bool-cases x.cancelled) [
  | inl c ↦ absurd (
      pending_not (
        subst IsJudged
          (nth_pending (suc (length before)) ((i, x) ∷ (before ++ (id, o) ∷ after)) r (rw c at h))
          j))
  | inr c ↦
      elim (trial_guarded reader (one_step reader ok i x).1 before after id o r t j (rw c at h)) [
        | inr (y, m, k) ↦ inr (y, Memᴰ.tail m, k)
        | inl k ↦ elim (flag_from reader i ok x k) [
          | inl q ↦ inl q
          | inr (e, q) ↦ inr (x, Memᴰ.head (ap (λ (s : String). (s, x)) (sym e)), step_2_pass x q)
        ]
      ]
]

-- Whatever the steps, their order and what they observe: where a step that may make a check-in was carried out, the server had
-- been asked before it in the same check, and had given a whole answer for a gate whose cooldown is on.
pub trial_follows_preflight :
    (reader : String) (before after : List (String × Observed)) (id : String) (o : Observed)
    (r : StepResult)
    → IsTrial id
    → IsJudged r.status
    → nth (length before) (run reader (before ++ (id, o) ∷ after)).steps ≡ some r
    → (x : Observed) × Memᴰ ("2", x) before × IsConfirmed x
unfolding run
trial_follows_preflight reader before after id o r t j h =
    elim (trial_guarded reader false before after id o r t j h) [ inl e ↦ cc e | inr x ↦ x ]
