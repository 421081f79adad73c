-- ===== src/App/Wiring/Accepted.antt =====
-- The parts that an accepted configuration is given.
use mathlib.Core.Path.{subst}
use rfid_middleware_idro900e.Prelude.{
  ℕ, ◌≤◌, true, false, List, [], ◌∷◌, map, some, ◌≡◌, ◌⊎◌, refl, sym, ap, arith, ◌||◌, All, Memᴰ,
}
use rfid_middleware_idro900e.Prelude.Int.{ℤ, pos, negsuc, ltb_ℤ, eq_ℤ, eq_ℤ_iff}
use rfid_middleware_idro900e.Domain.{millis}
use rfid_middleware_idro900e.Congkong.Classify.{HttpResult}
use rfid_middleware_idro900e.Sender.{Post, seconds}
use rfid_middleware_idro900e.Protocol.Commands.{cmd_set_power, cmd_set_buzzer}
use rfid_middleware_idro900e.Session
use rfid_middleware_idro900e.Session.{Command, init_steps}
use rfid_middleware_idro900e.Config
use rfid_middleware_idro900e.Config.{
  Reader, WireReader, Wire, Platform, to_reader, config_of, accepted, validate, token_of,
}
use rfid_middleware_idro900e.Config.Valid.{In}
use rfid_middleware_idro900e.Config.Exact.{validate_iff}
use rfid_middleware_idro900e.Config.Tokens.{token_of_accepted}
use rfid_middleware_idro900e.App.Wiring.{natural, service_of, sender_of, session_of, sessions}

-- A session that can write all of its initialisation.
abbrev pub CanStart : Session.Config → Type 0
CanStart s = (steps : List Command) × (init_steps s ≡ some steps)

pub record IsWired (answer : Post → HttpResult) (c : Config.Config) : Type 0 where
  pub can_start : All CanStart (sessions c)
  pub own_token : All (λ r. (sender_of answer c).creds r.id ≡ some r.token) c.readers
  pub interval :
      (1_000 ≤ millis (service_of c).debounce) × (millis (service_of c).debounce ≤ 3_600_000)
  pub age :
      (seconds 3_600 ≤ (sender_of answer c).max_age)
      × ((sender_of answer c).max_age ≤ seconds 86_400)

seconds-In : (lo hi : ℕ) (z : ℤ) → In (pos lo) (pos hi) z → (lo ≤ natural z) × (natural z ≤ hi)
seconds-In lo hi (pos n) (a, b) = (ground (arith, a), ground (arith, b))
seconds-In lo hi (negsuc n) (a, b) = absurd (ground (arith, a))

steps_exist :
    (s : Session.Config)
    → In (pos 50) (pos 300) s.power_gain
    → (s.buzzer ≡ pos 0) ⊎ (s.buzzer ≡ pos 1)
    → CanStart s
unfolding init_steps cmd_set_power cmd_set_buzzer
steps_exist s h k = rw (beeps, in_power) (_, refl)
  where
    in_power : (ltb_ℤ s.power_gain (pos 50) || ltb_ℤ (pos 300) s.power_gain) ≡ false
    in_power = ground (arith, h.0, h.1)

    beeps : (eq_ℤ s.buzzer (pos 0) || eq_ℤ s.buzzer (pos 1)) ≡ true
    beeps = ground (arith, k, eq_ℤ_iff s.buzzer (pos 0), eq_ℤ_iff s.buzzer (pos 1))

All-map {ℓ κ} :
    {A : Type ℓ} {B : Type κ} (P : B → Type 0) (f : A → B) (xs : List A)
    → ((x : A) → Memᴰ x xs → P (f x))
    → All P (map f xs)
All-map P f [] h = tt
All-map P f (x ∷ xs) h = (h x (Memᴰ.head refl), All-map P f xs (λ y m. h y (Memᴰ.tail m)))

-- Whatever the server answers: where `validate` accepts a configuration, every session has all the commands of its initialisation, the
-- sender finds each reader's own token, two reads of a tag count once within a second to an hour, and a row may wait for an hour to a day.
pub accepted-IsWired :
    (answer : Post → HttpResult) (p : Platform) (w : Wire) (c : Config.Config)
    → validate p w ≡ accepted c
    → IsWired answer c
unfolding config_of millis
accepted-IsWired answer p w c h =
    let (v, e) = (validate_iff p w c).0 h in
    let readers : c.readers ≡ map to_reader w.readers = ap (λ (x : Config.Config). x.readers) e in
    let hours = seconds-In 1 24 c.queue_max_age_hours (
      subst (λ (x : Config.Config). In (pos 1) (pos 24) x.queue_max_age_hours) (sym e) v.max_age) in
    let gap =
      seconds-In 1 3_600 c.debounce_sec
        (subst (λ (x : Config.Config). In (pos 1) (pos 3_600) x.debounce_sec) (sym e) v.debounce) in
    record {
      can_start = All-map CanStart (session_of c) c.readers (λ r m.
          steps_exist (session_of c r)
            (subst (λ (x : Config.Config). In (pos 50) (pos 300) x.power_gain) (sym e) v.power)
            (subst (λ (x : Config.Config). (x.buzzer ≡ pos 0) ⊎ (x.buzzer ≡ pos 1)) (sym e)
              v.buzzer));
      own_token =
          subst (λ (rs : List Reader). All (λ r. token_of r.id c.readers ≡ some r.token) rs)
            (sym readers) (All-map _ to_reader w.readers (λ r m. token_of_accepted p w c r h m));
      interval = (omega (arith, gap), omega (arith, gap));
      age = (omega (arith, hours), omega (arith, hours));
    }
