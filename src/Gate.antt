-- ===== src/Gate.antt =====
-- internal/gate/gate.go: the state of each reader's gate and of the sender, in memory. The lock makes
-- each method one function of the registry. `entries` and `subs` are Go maps: a key stands in them
-- once, and the order of the list is not part of what they mean. A channel of one place is whether
-- a signal waits in it. The proofs are in the modules below.
pub mod Entries
pub mod Writes
pub mod Mirror
use rfid_middleware_idro900e.Prelude.{
  ℕ, suc, ◌+◌, String, Bool, true, false, not, ◌&&◌, List, [], ◌∷◌, map, Option, none, some, str_eq,
  ◌==◌, if◌then◌else◌, select,
}
use rfid_middleware_idro900e.Domain.{
  GateState, preflight_pending, GateMeta, no_meta, SenderState, running, halted, sendable,
  suspended, gate_eq, meta_eq,
}
use rfid_middleware_idro900e.Store.{Db}
use rfid_middleware_idro900e.Store.Transaction.{Result, ok, failed}
use rfid_middleware_idro900e.Store.Gates.{set_gate}

pub record Entry : Type 0 where
  pub state : GateState
  pub reason : String
  pub fingerprint : String
  pub meta : GateMeta

abbrev pub Entries : Type 0
Entries = List (String × Entry)

pub record Registry : Type 0 where
  pub entries : Entries
  pub global : SenderState
  pub changed : Bool
  pub subs : List (ℕ × Bool)
  pub next_sub : ℕ

abbrev pub new_registry : Registry
new_registry = record { entries = []; global = running; changed = false; subs = []; next_sub = 0 }

unfoldable pub get_entry : String → Entries → Option Entry
get_entry r [] = none
get_entry r ((k, e) ∷ rest) = if str_eq k r then some e else get_entry r rest

-- r.entries[readerID] = e
unfoldable pub put_entry : String → Entry → Entries → Entries
put_entry r e [] = (r, e) ∷ []
put_entry r e ((k, f) ∷ rest) = if str_eq k r then (r, e) ∷ rest else (k, f) ∷ put_entry r e rest

-- Both sends have a `default`: they never wait, and a signal that is there already stays one.
abbrev pub notify : Registry → Registry
notify reg = record reg { changed = true; subs = map (λ s. (s.0, true)) reg.subs }

-- `Subscribe`, with the key of the subscription, and its cancellation.
unfoldable pub subscribe : Registry → Registry × ℕ
subscribe reg = (
  record reg { subs = (reg.next_sub, false) ∷ reg.subs; next_sub = suc reg.next_sub },
  reg.next_sub,
)

unfoldable pub cancel : ℕ → Registry → Registry
cancel id reg = record reg { subs = select (λ s. not (s.0 == id)) reg.subs }

unfoldable pub init : String → Entry → Registry → Registry
init r e reg = record reg { entries = put_entry r e reg.entries }

unfoldable pub get : String → Registry → Option Entry
get r reg = get_entry r reg.entries

-- The zero `Entry` has no gate state; `Set` writes one before it is read.
abbrev pub entry_or_zero : Option Entry → Entry
entry_or_zero none = record {
  state = preflight_pending;
  reason = "";
  fingerprint = "";
  meta = no_meta;
}
entry_or_zero (some e) = e

abbrev pub meta_or : Option GateMeta → GateMeta → GateMeta
meta_or none old = old
meta_or (some m) old = m

-- What `Set` makes of an entry: an empty fingerprint and a missing meta leave the old ones.
abbrev pub changed_entry : GateState → String → String → Option GateMeta → Entry → Entry
changed_entry st why fp m e = record {
  state = st;
  reason = why;
  fingerprint = if str_eq fp "" then e.fingerprint else fp;
  meta = meta_or m e.meta;
}

-- The `Persister`: none, or the store, with whether its write fails.
pub data Persister : Type 0 where
  no_store : Persister
  store : (fails : Bool) → Persister

unfoldable pub persist :
    Persister
    → String
    → GateState
    → String
    → ℕ
    → String
    → Option GateMeta
    → Db
    → Result (Unit {0}) × Db
persist no_store r st why now fp m db = (ok tt, db)
persist (store fails) r st why now fp m db = set_gate fails r st why now fp m db

-- The registry and the tables, with what a method returns.
pub record Written {ℓ} (A : Type ℓ) : Type ℓ where
  pub result : A
  pub registry : Registry
  pub db : Db

-- `Set`: the memory changes, and the observers hear of it, whether or not the write succeeds.
unfoldable pub set :
    Persister
    → String
    → GateState
    → String
    → ℕ
    → String
    → Option GateMeta
    → Registry
    → Db
    → Written (Result (Unit {0}))
set p r st why now fp m reg db =
    let e = changed_entry st why fp m (entry_or_zero (get_entry r reg.entries)) in
    let (res, db') = persist p r st why now fp m db in
    record {
      result = res;
      registry = notify (record reg { entries = put_entry r e reg.entries });
      db = db';
    }

pub record Refresh : Type 0 where
  pub applied : Bool
  pub err : Result (Unit {0})

abbrev pub not_applied : Registry → Db → Written Refresh
not_applied reg db = record {
  result = record { applied = false; err = ok tt };
  registry = reg;
  db = db;
}

refresh_entry :
    Persister
    → String
    → GateState
    → String
    → ℕ
    → GateMeta
    → Registry
    → Db
    → Option Entry
    → Written Refresh
refresh_entry p r st why now m reg db none = not_applied reg db
refresh_entry p r st why now m reg db (some e) =
    let e' = record e { state = st; reason = why; meta = m } in
    let (res, db') = persist p r st why now e.fingerprint (some m) db in
    if not (sendable e.state)
    then not_applied reg db
    else if gate_eq e.state st && meta_eq e.meta m
    then not_applied reg db
    else record {
      result = record { applied = true; err = res };
      registry = notify (record reg { entries = put_entry r e' reg.entries });
      db = db';
    }

-- `RefreshMeta`
unfoldable pub refresh_meta :
    Persister → String → GateState → String → ℕ → GateMeta → Registry → Db → Written Refresh
unfolding refresh_entry
refresh_meta p r st why now m reg db =
    refresh_entry p r st why now m reg db (get_entry r reg.entries)

-- The keys of the entries that are sendable.
unfoldable pub sendable_of : Entries → List String
sendable_of [] = []
sendable_of ((k, e) ∷ rest) =
    let more = sendable_of rest in if sendable e.state then k ∷ more else more

unfoldable pub sendable_readers : Registry → List String
sendable_readers reg = sendable_of reg.entries

abbrev entry_suspended : Option Entry → Bool
entry_suspended none = false
entry_suspended (some e) = suspended e.state

-- `Suspended`
unfoldable pub is_suspended : String → Registry → Bool
is_suspended r reg = entry_suspended (get_entry r reg.entries)

abbrev pub halt_global : Registry → Registry
halt_global reg = notify (record reg { global = halted })

abbrev pub resume_global : Registry → Registry
resume_global reg = notify (record reg { global = running })

abbrev pub snapshot : Registry → Entries × SenderState
snapshot reg = (reg.entries, reg.global)
