-- ===== src/System.antt =====
-- The parts at work together, on one registry and one store: the readers' tags are admitted, the sender takes rows one by
-- one, tokens are checked and meta refreshed, in any order. A request of the sender is under way for some time, in which
-- the other parts go on, so that its beginning and its end are two steps.
pub mod Safety
pub mod Configured
use rfid_middleware_idro900e.Prelude.{
  ℕ, String, Bool, true, false, not, List, [], ◌∷◌, ◌++◌, Option, none, some, ◌≡◌, if◌then◌else◌,
}
use rfid_middleware_idro900e.Domain.{millis, TagRead, QueueItem, SenderState, running, Secret}
use rfid_middleware_idro900e.Store.{Row, Db, Call}
use rfid_middleware_idro900e.Store.Transaction.{ok}
use rfid_middleware_idro900e.Store.Queue.{next_due, to_item}
use rfid_middleware_idro900e.Gate.{Persister, store, sendable_readers}
use rfid_middleware_idro900e.Admission.{Service, handle}
use rfid_middleware_idro900e.Congkong.Classify.{HttpResult, classify}
use rfid_middleware_idro900e.Sender.{Sender, Faults, World, Post, is_expired, settle, round}
use rfid_middleware_idro900e.Sender.Preflight.{attempt}
use rfid_middleware_idro900e.Sender.Refresh.{on_answer}

-- The world, and the row whose request is under way, with the instant at which it was taken.
pub record System : Type 0 where
  pub world : World
  pub in_flight : Option (Row × ℕ)

-- `Handle`, on the world.
abbrev pub received : (ℕ → String) → (Call → Bool) → Service → TagRead → World → World
received format fails svc read w =
    let h = handle format fails svc w.reg read w.db in record w { db = h.db; log = w.log ++ h.log }

abbrev pub requested : Secret → Row → World → World
requested token row w = record w {
  posts = w.posts ++ record { token = token; epc = row.epc; checked_at = row.checked_at } ∷ [];
}

abbrev pub settled_with : Sender → Faults → ℕ → Row → HttpResult → World → World
settled_with s f now row res w =
    settle s f now (to_item row) res (classify res).0 (classify res).1 w

-- One step of the system. The text of an instant and the digest of a token are parameters.
pub data Step (format : ℕ → String) (digest : String → String) (svc : Service) (s : Sender)
    : System → System → Type 0 where
  receives :
      (fails : Call → Bool) (read : TagRead) (sys : System)
      → Step format digest svc s sys
          (record sys { world = received format fails svc read sys.world })
  -- A round of the sender that nothing comes between.
  rounds :
      (f : Faults) (now : ℕ) (w : World)
      → Step format digest svc s
          (record { world = w; in_flight = none })
          (record { world = (round s f now w).0; in_flight = none })
  -- The sender has taken a row and its request is sent.
  requests :
      (f : Faults) (now : ℕ) (w : World) (row : Row) (token : Secret)
      → w.reg.global ≡ running
      → next_due f.read (millis now) (sendable_readers w.reg) w.db ≡ ok (some row)
      → is_expired s.max_age now (to_item row) ≡ false
      → s.creds row.reader_id ≡ some token
      → Step format digest svc s
          (record { world = w; in_flight = none })
          (record { world = requested token row w; in_flight = some (row, now) })
  -- Its answer has come.
  settles :
      (f : Faults) (now : ℕ) (w : World) (row : Row) (res : HttpResult)
      → Step format digest svc s
          (record { world = w; in_flight = some (row, now) })
          (record { world = settled_with s f now row res w; in_flight = none })
  checks :
      (fails : Bool) (r : String) (token : Secret) (now : ℕ) (res : HttpResult) (sys : System)
      → Step format digest svc s sys
          (record sys { world = (attempt digest (store fails) r token now res sys.world).0 })
  refreshes :
      (fails : Bool) (r : String) (now : ℕ) (res : HttpResult) (sys : System)
      → Step format digest svc s sys
          (record sys { world = on_answer (store fails) r now res sys.world })

-- The systems that steps lead to.
pub data Steps (format : ℕ → String) (digest : String → String) (svc : Service) (s : Sender)
    (start : System) : System → Type 0 where
  none_yet : Steps format digest svc s start start
  step :
      {sys sys' : System}
      → Steps format digest svc s start sys
      → Step format digest svc s sys sys'
      → Steps format digest svc s start sys'
