-- ===== src/Clock.antt =====
-- internal/clock/clock.go: the clock that the tests move by hand. A timer is known by a number, which stands for its channel; what its
-- channel holds is noted in `fired`.
pub mod Advance
use rfid_middleware_idro900e.Prelude.{
  ℕ, ◌+◌, Bool, true, false, not, List, [], ◌∷◌, ◌++◌, map, select, leb, if◌then◌else◌,
}
use rfid_middleware_idro900e.Prelude.Int.{ℤ, pos, negsuc}

pub record Timer : Type 0 where
  pub at_ns : ℕ
  pub channel : ℕ

pub record Fake : Type 0 where
  pub now : ℕ
  pub timers : List Timer
  pub next_channel : ℕ
  pub fired : List (ℕ × ℕ)

-- `NewFake`
abbrev pub new_fake : ℕ → Fake
new_fake start = record { now = start; timers = []; next_channel = 0; fired = [] }

abbrev at_once : Fake → Fake
at_once f = record f {
  next_channel = f.next_channel + 1;
  fired = f.fired ++ (f.next_channel, f.now) ∷ [];
}

abbrev waits : ℕ → Fake → Fake
waits d f = record f {
  next_channel = f.next_channel + 1;
  timers = f.timers ++ record { at_ns = f.now + d; channel = f.next_channel } ∷ [];
}

-- `After`, whose channel is the number that was next.
unfoldable pub after : ℤ → Fake → Fake
after (pos ℕ.zero) f = at_once f
after (pos (ℕ.suc n)) f = waits (ℕ.suc n) f
after (negsuc n) f = at_once f

abbrev pub is_due : ℕ → Timer → Bool
is_due now t = leb t.at_ns now

-- `Advance` by a time that is not negative.
unfoldable pub advance : ℕ → Fake → Fake
advance d f =
    let now = f.now + d in
    record f {
      now = now;
      timers = select (λ t. not (is_due now t)) f.timers;
      fired = f.fired ++ map (λ (t : Timer). (t.channel, now)) (select (is_due now) f.timers);
    }
