-- ===== src/Session/Reconnect.antt =====
-- `Run` of internal/reader/session/session.go: the delays between the sessions with a reader.
use rfid_middleware_idro900e.Prelude.{
  ℕ, zero, suc, ◌≤◌, Bool, true, List, [], ◌∷◌, ◌++◌, if◌then◌else◌, ◌≡◌, refl, ap, All, arith,
}
use rfid_middleware_idro900e.Prelude.Int.{pos}
use rfid_middleware_idro900e.Session.{reconnect_delay}
use rfid_middleware_idro900e.Sender.{seconds}

-- How a round of the loop ends: the dial fails, or a session is over that had reached its inventory or had not.
pub data Attempt : Type 0 where
  dial_failed : Attempt
  served : (entered : Bool) → Attempt

-- The delays after the rounds. The argument counts the attempts as the code does.
unfoldable pub run_delays : List Attempt → ℕ → List ℕ
run_delays [] k = []
run_delays (dial_failed ∷ rest) k = reconnect_delay (pos k) ∷ run_delays rest (suc k)
run_delays (served entered ∷ rest) k =
    let j = if entered then 0 else k in reconnect_delay (pos j) ∷ run_delays rest (suc j)

delay_bounds :
    (k : ℕ) → (seconds 1 ≤ reconnect_delay (pos k)) × (reconnect_delay (pos k) ≤ seconds 30)
unfolding reconnect_delay
delay_bounds zero = (omega arith, omega arith)
delay_bounds (suc zero) = (omega arith, omega arith)
delay_bounds (suc (suc k)) = (omega arith, omega arith)

bounded :
    (rounds : List Attempt) (k : ℕ)
    → All (λ d. (seconds 1 ≤ d) × (d ≤ seconds 30)) (run_delays rounds k)
unfolding run_delays
bounded [] k = tt
bounded (dial_failed ∷ rest) k = (delay_bounds k, bounded rest (suc k))
bounded (served entered ∷ rest) k =
    (delay_bounds (if entered then 0 else k), bounded rest (suc (if entered then 0 else k)))

resets :
    (rounds rest : List Attempt) (k : ℕ)
    → run_delays (rounds ++ served true ∷ rest) k
      ≡ run_delays rounds k ++ seconds 1 ∷ run_delays rest 1
unfolding run_delays reconnect_delay
resets [] rest k = refl
resets (dial_failed ∷ rounds) rest k =
    ap (◌∷◌ (reconnect_delay (pos k))) (resets rounds rest (suc k))
resets (served entered ∷ rounds) rest k =
    let j = if entered then 0 else k in
    ap (◌∷◌ (reconnect_delay (pos j))) (resets rounds rest (suc j))

-- Whatever rounds came before: the delay after a session that reached its inventory is one second, and the next ones count
-- from there; every delay is between one and thirty seconds.
pub run_delays-resets :
    (rounds rest : List Attempt) (k : ℕ)
    → (run_delays (rounds ++ served true ∷ rest) k
        ≡ run_delays rounds k ++ seconds 1 ∷ run_delays rest 1)
      × All (λ d. (seconds 1 ≤ d) × (d ≤ seconds 30)) (run_delays (rounds ++ served true ∷ rest) k)
run_delays-resets rounds rest k = (resets rounds rest k, bounded (rounds ++ served true ∷ rest) k)
