-- ===== src/Gui/Hub/Wf.antt =====
-- The channels of the windows over time: internal/gui/server.go.
use mathlib.Core.Path.{subst}
use rfid_middleware_idro900e.Prelude.{
  ℕ, ◌+◌, ◌≤◌, ◌<◌, Bool, true, not, List, [], ◌∷◌, map, Option, none, some, ltb, ◌==◌, str_eq_iff,
  Bytes, length, length-append, select, ◌≡◌, ◌≢◌, ◌⊎◌, sym, arith, inl, inr, Bool-cases, All,
  All-append, All-select, All-map, All-weaken,
}
use rfid_middleware_idro900e.Gui.Mask.Hides.{HasNoToken, mask_hides}
use rfid_middleware_idro900e.Gui.Hub.{
  Message, Subscriber, Hub, offer, take_from, rest_of, new_hub, broadcast, send_state, push_state,
  push_log, subscribe, receive, unsubscribe,
}

-- A line of the log on its way holds no token.
abbrev pub IsMasked : Message → Type 0
IsMasked m = (m.event ≢ "log") ⊎ HasNoToken m.payload

-- A channel holds no more than it has room for, and no token in a line of the log.
pub record IsBounded (s : Subscriber) : Type 0 where
  pub room : length s.channel ≤ 256
  pub masked : All IsMasked s.channel

abbrev IsOther : ℕ → Subscriber → Type 0
IsOther n s = s.id ≢ n

abbrev Distinct : List Subscriber → Type 0
Distinct [] = Unit {0}
Distinct (s ∷ rest) = All (IsOther s.id) rest × Distinct rest

pub record IsWf {S : Type 0} (h : Hub S) : Type 0 where
  pub bounded : All IsBounded h.subs
  pub below : All (λ (s : Subscriber). s.id < h.next_sub) h.subs
  pub distinct : Distinct h.subs

-- What a change of each channel leaves: the identifiers.
module _ (f : Subscriber → Subscriber) (same : (s : Subscriber) → (f s).id ≡ s.id) where
  map-IsOther : (n : ℕ) (ss : List Subscriber) → All (IsOther n) ss → All (IsOther n) (map f ss)
  map-IsOther n [] h = tt
  map-IsOther n (s ∷ ss) h = (λ e. h.0 (cc (e, same s)), map-IsOther n ss h.1)

  map-Distinct : (ss : List Subscriber) → Distinct ss → Distinct (map f ss)
  map-Distinct [] h = tt
  map-Distinct (s ∷ ss) h = (
    subst (λ (n : ℕ). All (IsOther n) (map f ss)) (sym (same s)) (map-IsOther s.id ss h.0),
    map-Distinct ss h.1,
  )

  map-IsWf :
      {S : Type 0} (h : Hub S)
      → ((s : Subscriber) → IsBounded s → IsBounded (f s))
      → IsWf h
      → IsWf (record h { subs = map f h.subs })
  map-IsWf h keep w = record {
    bounded = All-map IsBounded f h.subs keep w.bounded;
    below =
        All-map (λ (s : Subscriber). s.id < h.next_sub) f h.subs (λ s k. omega (arith, k, same s))
          w.below;
    distinct = map-Distinct h.subs w.distinct;
  }

offer-id : (m : Message) (s : Subscriber) → (offer m s).id ≡ s.id
unfolding offer
offer-id m s = ground arith

offer-IsBounded :
    (m : Message) → IsMasked m → (s : Subscriber) → IsBounded s → IsBounded (offer m s)
unfolding offer
offer-IsBounded m k s b = elim (Bool-cases (ltb (length s.channel) 256)) [
  | inr t ↦ rw t b
  | inl t ↦ rw t (record {
    room = omega (arith, length-append s.channel (m ∷ []), short t);
    masked = All-append IsMasked s.channel (m ∷ []) b.masked (k, tt);
  })
]
  where
    short : ltb (length s.channel) 256 ≡ true → length s.channel < 256
    short t = ground (arith, t)

take_from-id : (id : ℕ) (s : Subscriber) → (take_from id s).id ≡ s.id
unfolding take_from
take_from-id id s = ground arith

rest-IsBounded :
    (id : ℕ) (ms : List Message)
    → IsBounded (record { id = id; channel = ms })
    → IsBounded (record { id = id; channel = rest_of ms })
rest-IsBounded id [] b = b
rest-IsBounded id (m ∷ ms) b = record { room = omega (arith, b.room); masked = b.masked.1 }

take_from-IsBounded : (id : ℕ) (s : Subscriber) → IsBounded s → IsBounded (take_from id s)
unfolding take_from
take_from-IsBounded id s b = elim (Bool-cases (s.id == id)) [
  | inr t ↦ rw t b
  | inl t ↦ rw t (rest-IsBounded s.id s.channel b)
]

select-Distinct :
    (p : Subscriber → Bool) (ss : List Subscriber) → Distinct ss → Distinct (select p ss)
select-Distinct p [] h = tt
select-Distinct p (s ∷ ss) h = elim (Bool-cases (p s)) [
  | inr t ↦ rw t (select-Distinct p ss h.1)
  | inl t ↦ rw t (All-select (IsOther s.id) p ss h.0, select-Distinct p ss h.1)
]

module _ {S : Type 0} (marshal : S → Option Bytes) where
  -- What can happen: a state, a line of the log, another message, and a window that comes, takes a message or goes.
  pub data Step (h : Hub S) : Hub S → Type 0 where
    pushes : (st : S) → Step h (push_state marshal st h)
    logs : (line : Bytes) → Step h (push_log marshal line h)
    notifies : (m : Message) → m.event ≢ "log" → Step h (broadcast marshal m h)
    comes : Step h (subscribe marshal h).0
    takes : (id : ℕ) → Step h (receive marshal id h)
    goes : (id : ℕ) → Step h (unsubscribe marshal id h)

  pub data Steps (h : Hub S) : Hub S → Type 0 where
    here : Steps h h
    next : {d e : Hub S} → Steps h d → Step d e → Steps h e

  broadcast-IsWf : (m : Message) (h : Hub S) → IsMasked m → IsWf h → IsWf (broadcast marshal m h)
  unfolding broadcast
  broadcast-IsWf m h k w = map-IsWf (offer m) (offer-id m) h (offer-IsBounded m k) w

  not_a_line : (b : Bytes) → IsMasked (record { event = "state"; payload = b })
  not_a_line b = inl (λ l. cc ((str_eq_iff "state" "log").1 l))

  send_state-IsWf :
      (st : S) (o : Option Bytes) (h : Hub S) → IsWf h → IsWf (send_state marshal st o h)
  unfolding send_state
  send_state-IsWf st none h w = w
  send_state-IsWf st (some b) h w =
      broadcast-IsWf _ (record h { state = st }) (not_a_line b)
        (record { bounded = w.bounded; below = w.below; distinct = w.distinct })

  subscribe-IsWf : (h : Hub S) → IsWf h → IsWf (subscribe marshal h).0
  unfolding subscribe
  subscribe-IsWf h w = record {
    bounded = (record { room = omega arith; masked = tt }, w.bounded);
    below = (
      omega arith,
      All-weaken (λ (s : Subscriber). s.id < h.next_sub) (λ (s : Subscriber). s.id < h.next_sub + 1)
          h.subs (λ s k. omega (arith, k)) w.below,
    );
    distinct = (
      All-weaken (λ (s : Subscriber). s.id < h.next_sub) (IsOther h.next_sub) h.subs
          (λ s k e. omega (arith, k, e)) w.below,
      w.distinct,
    );
  }

  unsubscribe-IsWf : (id : ℕ) (h : Hub S) → IsWf h → IsWf (unsubscribe marshal id h)
  unfolding unsubscribe
  unsubscribe-IsWf id h w =
      let other = λ (s : Subscriber). not (s.id == id) in
      record {
        bounded = All-select IsBounded other h.subs w.bounded;
        below = All-select (λ (s : Subscriber). s.id < h.next_sub) other h.subs w.below;
        distinct = select-Distinct other h.subs w.distinct;
      }

  Step-IsWf : {h d : Hub S} → Step h d → IsWf h → IsWf d
  unfolding push_state push_log receive
  Step-IsWf {h} (pushes st) w = send_state-IsWf st (marshal st) h w
  Step-IsWf {h} (logs line) w = broadcast-IsWf _ h (inr (mask_hides line)) w
  Step-IsWf {h} (notifies m k) w = broadcast-IsWf m h (inl k) w
  Step-IsWf {h} comes w = subscribe-IsWf h w
  Step-IsWf {h} (takes id) w =
      map-IsWf (take_from id) (take_from-id id) h (take_from-IsBounded id) w
  Step-IsWf {h} (goes id) w = unsubscribe-IsWf id h w

  -- Whatever happens: the windows have different identifiers below the next one, at most 256 messages wait for each, and no line of the log that
  -- waits for one holds sixty-four hexadecimal digits in a row.
  pub Steps-IsWf : (st : S) {h : Hub S} → Steps (new_hub marshal st) h → IsWf h
  Steps-IsWf st here = record { bounded = tt; below = tt; distinct = tt }
  Steps-IsWf st (next r s) = Step-IsWf s (Steps-IsWf st r)
