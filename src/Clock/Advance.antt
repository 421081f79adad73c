-- ===== src/Clock/Advance.antt =====
-- Time that passes in steps.
use rfid_middleware_idro900e.Prelude.{
  ℕ, ◌+◌, ◌≤◌, ◌<◌, Bool, not, List, [], ◌∷◌, ◌++◌, map, select, count, leb, ◌==◌, ◌≡◌, refl, ap,
  ◌∙◌, arith, inl, inr, All, Bool-cases,
}
use rfid_middleware_idro900e.Clock.{Timer, Fake, is_due, advance}

-- How many times a channel was fired, and how many timers will.
abbrev pub fired_on : ℕ → Fake → ℕ
fired_on c f = count (λ (x : ℕ × ℕ). x.0 == c) f.fired

abbrev pub waiting_on : ℕ → Fake → ℕ
waiting_on c f = count (λ (t : Timer). t.channel == c) f.timers

parts_count :
    (c now : ℕ) (ts : List Timer)
    → count
          (λ (x : ℕ × ℕ). x.0 == c)
          (map (λ (t : Timer). (t.channel, now)) (select (is_due now) ts))
        + count (λ (t : Timer). t.channel == c) (select (λ t. not (is_due now t)) ts)
      ≡ count (λ (t : Timer). t.channel == c) ts
parts_count c now [] = refl
parts_count c now (t ∷ ts) = ground (arith, parts_count c now ts)

count-append {ℓ} :
    {A : Type ℓ} (p : A → Bool) (xs ys : List A) → count p (xs ++ ys) ≡ count p xs + count p ys
count-append p [] ys = omega arith
count-append p (x ∷ xs) ys = ground (arith, count-append p xs ys)

select_later :
    (n m : ℕ) (ts : List Timer)
    → n ≤ m
    → select (λ t. not (is_due m t)) (select (λ t. not (is_due n t)) ts)
      ≡ select (λ t. not (is_due m t)) ts
select_later n m [] h = refl
select_later n m (t ∷ ts) h = ground (arith, h, select_later n m ts)

All-later :
    (now : ℕ) (ts : List Timer) → All (λ t. now < t.at_ns) (select (λ t. not (is_due now t)) ts)
All-later now [] = tt
All-later now (t ∷ ts) = elim (Bool-cases (leb t.at_ns now)) [
  | inl e ↦ rw e (All-later now ts)
  | inr e ↦ rw e (ground (arith, e), All-later now ts)
]

-- However time passes: no timer is lost and none fires twice, what waits afterwards is later than the clock, and two steps leave the timers that
-- one step of the same length does.
pub advance_exact :
    (a b c : ℕ) (f : Fake)
    → (fired_on c (advance a f) + waiting_on c (advance a f) ≡ fired_on c f + waiting_on c f)
      × All (λ t. (advance a f).now < t.at_ns) (advance a f).timers
      × ((advance b (advance a f)).timers ≡ (advance (a + b) f).timers)
unfolding advance
advance_exact a b c f = (
  omega (
    arith,
    parts_count c (f.now + a) f.timers,
    count-append (λ (x : ℕ × ℕ). x.0 == c) f.fired
        (map (λ (t : Timer). (t.channel, f.now + a)) (select (is_due (f.now + a)) f.timers)),
  ),
  All-later (f.now + a) f.timers,
  select_later (f.now + a) (f.now + a + b) f.timers (omega arith)
      ∙ ap (λ (n : ℕ). select (λ t. not (is_due n t)) f.timers) sum,
)
  where
    sum : f.now + a + b ≡ f.now + (a + b)
    sum = omega arith
