-- ===== src/System/Configured.antt =====
-- The system that `Run` starts on a configuration that was accepted.
use rfid_middleware_idro900e.Prelude.{ℕ, String, ◌≡◌, arith}
use rfid_middleware_idro900e.Domain.{millis}
use rfid_middleware_idro900e.Store.Invariant.{IsWf}
use rfid_middleware_idro900e.Store.Invariant.Reach.{Reach, Reach-IsWf}
use rfid_middleware_idro900e.Congkong.Classify.{HttpResult}
use rfid_middleware_idro900e.Sender.{Post}
use rfid_middleware_idro900e.Config
use rfid_middleware_idro900e.Config.{Wire, Platform, accepted, validate}
use rfid_middleware_idro900e.App.Wiring.{service_of, sender_of}
use rfid_middleware_idro900e.App.Wiring.Accepted.{accepted-IsWired}
use rfid_middleware_idro900e.System.{System, Steps}
use rfid_middleware_idro900e.System.Safety.{Steps-Reach}

-- On a configuration that `validate` accepts, from tables that the store reaches under its debounce interval, however the parts interleave
-- and whatever the server answers: identifiers ascend along the queue, and two rows of one tag at one reader are that interval
-- apart.
pub configured-IsWf :
    {sys sys' : System} (format : ℕ → String) (digest : String → String)
    (answer : Post → HttpResult) (p : Platform) (w : Wire) (c : Config.Config)
    → validate p w ≡ accepted c
    → Reach (millis (service_of c).debounce) sys.world.db
    → Steps format digest (service_of c) (sender_of answer c) sys sys'
    → IsWf (millis (service_of c).debounce) sys'.world.db
configured-IsWf format digest answer p w c h r s =
    let wired = accepted-IsWired answer p w c h in
    Reach-IsWf (millis (service_of c).debounce) (omega (arith, wired.interval)) (Steps-Reach s r)
