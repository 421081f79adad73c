-- ===== src/Session/Frame.antt =====
-- What the handling of lines does not touch of a session.
use rfid_middleware_idro900e.Prelude.{
  ℕ, Bool, true, false, List, [], ◌∷◌, Option, Bytes, not, ◌&&◌, ◌||◌, ◌≡◌, refl, ◌∙◌, inl, inr,
  Bool-cases,
}
use rfid_middleware_idro900e.Prelude.Int.{ℤ}
use rfid_middleware_idro900e.Protocol.Parser.{Kind, Line, parse}
use rfid_middleware_idro900e.Protocol.Commands.{Matcher}
use rfid_middleware_idro900e.Session.{
  Config, Session, dispatch, dispatch_all, feed, handle_chunk, take_reply, consume, consume_until,
}

-- What the handling of lines does not touch.
unfoldable pub Frame : Session → Session → Type 0
Frame st st' =
    (st'.written ≡ st.written)
    × (st'.phase ≡ st.phase)
    × (st'.in_init ≡ st.in_init)
    × (st.in_init ≡ true → st'.reads ≡ st.reads)

pub Frame-refl : (st : Session) → Frame st st
unfolding Frame
Frame-refl st = (refl, refl, refl, λ h. refl)

pub Frame-trans : (a b c : Session) → Frame a b → Frame b c → Frame a c
unfolding Frame
Frame-trans a b c (w, p, i, r) (w', p', i', r') = (w' ∙ w, p' ∙ p, i' ∙ i, λ h. r' (i ∙ h) ∙ r h)

pub dispatch-Frame :
    (cfg : Config) (now : ℕ) (line : Line) (st : Session) → Frame st (dispatch cfg now line st)
unfolding Frame dispatch
dispatch-Frame cfg now line st = by_kind line.kind refl
  where
    by_kind : (k : Kind) → line.kind ≡ k → Frame st (dispatch cfg now line st)
    by_kind Kind.tag e = rw e elim (Bool-cases st.in_init) [
      | inl t ↦ rw t (refl, refl, refl, λ h. refl)
      | inr t ↦ rw t (refl, refl, refl, λ h. absurd (cc h))
    ]
    by_kind Kind.bad_tag e = rw e (refl, refl, refl, λ h. refl)
    by_kind Kind.ack e = rw e (refl, refl, refl, λ h. refl)
    by_kind Kind.code e = rw e (refl, refl, refl, λ h. refl)
    by_kind Kind.setting e = rw e (refl, refl, refl, λ h. refl)
    by_kind Kind.unknown e = rw e (refl, refl, refl, λ h. refl)

pub dispatch_all-Frame :
    (cfg : Config) (now : ℕ) (lines : List Bytes) (st : Session)
    → Frame st (dispatch_all cfg now lines st)
unfolding dispatch_all Frame
dispatch_all-Frame cfg now [] st = (refl, refl, refl, λ h. refl)
dispatch_all-Frame cfg now (raw ∷ rest) st =
    Frame-trans st (dispatch cfg now (parse raw) st)
      (dispatch_all cfg now rest (dispatch cfg now (parse raw) st))
      (dispatch-Frame cfg now (parse raw) st)
      (dispatch_all-Frame cfg now rest (dispatch cfg now (parse raw) st))

pub feed-Frame : (bytes : Bytes) (st : Session) → Frame st (feed bytes st).0
unfolding feed Frame
feed-Frame bytes st = (refl, refl, refl, λ h. refl)

pub handle_chunk-Frame :
    (cfg : Config) (now : ℕ) (bytes : Bytes) (st : Session)
    → Frame st (handle_chunk cfg now bytes st)
unfolding handle_chunk
handle_chunk-Frame cfg now bytes st =
    Frame-trans st (feed bytes st).0 (dispatch_all cfg now (feed bytes st).1 (feed bytes st).0)
      (feed-Frame bytes st) (dispatch_all-Frame cfg now (feed bytes st).1 (feed bytes st).0)

pub take_reply-Frame :
    (cfg : Config) (now : ℕ) (hit : Bool) (line : Line) (st : Session)
    → Frame st (take_reply cfg now hit line st)
unfolding Frame take_reply
take_reply-Frame cfg now true line st = (refl, refl, refl, λ h. refl)
take_reply-Frame cfg now false line st = dispatch-Frame cfg now line st

pub consume-Frame :
    (cfg : Config) (now : ℕ) (match : Matcher) (found : Bool) (lines : List Bytes) (st : Session)
    → Frame st (consume cfg now match found lines st).0
unfolding consume
consume-Frame cfg now match found [] st = Frame-refl st
consume-Frame cfg now match found (raw ∷ rest) st =
    let hit = not found && match (parse raw) in
    let next = take_reply cfg now hit (parse raw) st in
    Frame-trans st next (consume cfg now match (found || hit) rest next).0
      (take_reply-Frame cfg now hit (parse raw) st)
      (consume-Frame cfg now match (found || hit) rest next)

pub consume_until-Frame :
    (cfg : Config) (now : ℕ) (match : Matcher) (bytes : Bytes) (st : Session)
    → Frame st (consume_until cfg now match bytes st).0
unfolding consume_until
consume_until-Frame cfg now match bytes st =
    Frame-trans st (feed bytes st).0
      (consume cfg now match false (feed bytes st).1 (feed bytes st).0).0 (feed-Frame bytes st)
      (consume-Frame cfg now match false (feed bytes st).1 (feed bytes st).0)

pub reconfig-Frame : (st : Session) (o : Option ℤ) → Frame st (record st { reconfig = o })
unfolding Frame
reconfig-Frame st o = (refl, refl, refl, λ h. refl)
