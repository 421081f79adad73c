-- ===== src/Session/Inventory.antt =====
-- The inventory of a session: the tags that reach the handler are those of the stream, however it is cut.
use mathlib.Core.Path.{subst}
use mathlib.Core.List.{append_assoc, append-nil, flatten, map-append}
use rfid_middleware_idro900e.Prelude.{
  ℕ, Bool, false, List, [], ◌∷◌, ◌++◌, map, none, Bytes, length, ◌≤◌, ◌≡◌, refl, sym, ◌∙◌, ap, All,
}
use rfid_middleware_idro900e.Domain.{TagRead}
use rfid_middleware_idro900e.Protocol.Framer.{Framer, FrameResult, cut_crlf, push, push_all}
use rfid_middleware_idro900e.Protocol.Framer.Frames.{ready, unframe, IsShort, push_all-restores}
use rfid_middleware_idro900e.Protocol.Parser.{Kind, Line, parse}
use rfid_middleware_idro900e.Session.{
  Config, inventory, Session, Event, chunk, dispatch, dispatch_all, feed, handle_chunk, on_chunk,
  on_event, run,
}

-- The EPC of a line that is a tag.
unfoldable pub tag_epc : Line → Kind → List Bytes
tag_epc line Kind.tag = line.tag.epc ∷ []
tag_epc line _ = []

-- The EPCs of the lines that are tags.
unfoldable pub tags_of : List Bytes → List Bytes
tags_of [] = []
tags_of (raw ∷ rest) = tag_epc (parse raw) (parse raw).kind ++ tags_of rest

abbrev pub epcs : Session → List Bytes
epcs st = map (λ (r : TagRead). r.epc) st.reads

-- The session goes on with the inventory, and the handler has got `l` more.
Admits : Session → Framer → List Bytes → Session → Type 0
Admits st f l st' =
    (st'.phase ≡ inventory) × (st'.in_init ≡ false) × (st'.framer ≡ f) × (epcs st' ≡ epcs st ++ l)

dispatch-Admits :
    (cfg : Config) (now : ℕ) (line : Line) (st : Session)
    → st.phase ≡ inventory
    → st.in_init ≡ false
    → Admits st st.framer (tag_epc line line.kind) (dispatch cfg now line st)
unfolding dispatch Admits tag_epc
dispatch-Admits cfg now line st p i = by_kind line.kind refl
  where
    by_kind :
        (k : Kind) → line.kind ≡ k → Admits st st.framer (tag_epc line k) (dispatch cfg now line st)
    by_kind Kind.tag e = rw (e, i) (p, refl, refl, map-append (λ (r : TagRead). r.epc) st.reads _)
    by_kind Kind.bad_tag e = rw e (p, i, refl, sym (append-nil (epcs st)))
    by_kind Kind.ack e = rw e (p, i, refl, sym (append-nil (epcs st)))
    by_kind Kind.code e = rw e (p, i, refl, sym (append-nil (epcs st)))
    by_kind Kind.setting e = rw e (p, i, refl, sym (append-nil (epcs st)))
    by_kind Kind.unknown e = rw e (p, i, refl, sym (append-nil (epcs st)))

dispatch_all-Admits :
    (cfg : Config) (now : ℕ) (lines : List Bytes) (st : Session)
    → st.phase ≡ inventory
    → st.in_init ≡ false
    → Admits st st.framer (tags_of lines) (dispatch_all cfg now lines st)
unfolding dispatch_all tags_of Admits
dispatch_all-Admits cfg now [] st p i = (p, i, refl, sym (append-nil (epcs st)))
dispatch_all-Admits cfg now (raw ∷ rest) st p i =
    let (p', i', f, e) = dispatch-Admits cfg now (parse raw) st p i in
    let (p'', i'', f', e') =
      dispatch_all-Admits cfg now rest (dispatch cfg now (parse raw) st) p' i' in
    (
      p'',
      i'',
      f' ∙ f,
      e'
          ∙ ap (λ (x : List Bytes). x ++ tags_of rest) e
          ∙ append_assoc (epcs st) (tag_epc (parse raw) (parse raw).kind) (tags_of rest),
    )

handle_chunk-Admits :
    (cfg : Config) (now : ℕ) (bytes : Bytes) (st : Session)
    → st.phase ≡ inventory
    → st.in_init ≡ false
    → Admits st
        (push st.framer bytes).0
        (tags_of (push st.framer bytes).1.lines)
        (handle_chunk cfg now bytes st)
unfolding handle_chunk feed Admits
handle_chunk-Admits cfg now bytes st p i =
    dispatch_all-Admits cfg now (push st.framer bytes).1.lines (feed bytes st).0 p i

-- What the connection delivers, chunk by chunk, each at its instant.
abbrev pub events : List (ℕ × Bytes) → List Event
events [] = []
events ((now, bytes) ∷ rest) = chunk now bytes ∷ events rest

abbrev pub bytes_of : List (ℕ × Bytes) → List Bytes
bytes_of [] = []
bytes_of ((now, bytes) ∷ rest) = bytes ∷ bytes_of rest

tags_of-append : (xs ys : List Bytes) → tags_of (xs ++ ys) ≡ tags_of xs ++ tags_of ys
unfolding tags_of
tags_of-append [] ys = refl
tags_of-append (x ∷ xs) ys =
    ap (λ (l : List Bytes). tag_epc (parse x) (parse x).kind ++ l) (tags_of-append xs ys)
    ∙ sym (append_assoc (tag_epc (parse x) (parse x).kind) (tags_of xs) (tags_of ys))

chunk_in_inventory :
    (fails : ℕ → Bool) (cfg : Config) (now : ℕ) (bytes : Bytes) (st : Session)
    → st.phase ≡ inventory
    → on_event fails cfg (chunk now bytes) st ≡ handle_chunk cfg now bytes st
unfolding on_event on_chunk
chunk_in_inventory fails cfg now bytes st p = ap (on_chunk fails cfg now bytes st) p

run_chunk :
    (fails : ℕ → Bool) (cfg : Config) (now : ℕ) (bytes : Bytes) (es : List Event) (st : Session)
    → st.phase ≡ inventory
    → run fails cfg (chunk now bytes ∷ es) st ≡ run fails cfg es (handle_chunk cfg now bytes st)
unfolding run
run_chunk fails cfg now bytes es st p =
    ap (run fails cfg es) (chunk_in_inventory fails cfg now bytes st p)

run-Admits :
    (fails : ℕ → Bool) (cfg : Config) (chunks : List (ℕ × Bytes)) (st : Session)
    → st.phase ≡ inventory
    → st.in_init ≡ false
    → Admits st
        (push_all st.framer (bytes_of chunks)).0
        (tags_of (push_all st.framer (bytes_of chunks)).1.lines)
        (run fails cfg (events chunks) st)
unfolding run push_all Admits tags_of
run-Admits fails cfg [] st p i = (p, i, refl, sym (append-nil (epcs st)))
run-Admits fails cfg ((now, bytes) ∷ rest) st p i =
    let next = handle_chunk cfg now bytes st in
    let (p', i', f, e) = handle_chunk-Admits cfg now bytes st p i in
    let (p'', i'', f', e') = run-Admits fails cfg rest next p' i' in
    subst
      (Admits st (push_all st.framer (bytes ∷ bytes_of rest)).0
        (tags_of (push_all st.framer (bytes ∷ bytes_of rest)).1.lines))
      (sym (run_chunk fails cfg now bytes (events rest) st p))
      (
        p'',
        i'',
        f' ∙ ap (λ (g : Framer). (push_all g (bytes_of rest)).0) f,
        e'
            ∙ ap (λ (g : Framer). epcs next ++ tags_of (push_all g (bytes_of rest)).1.lines) f
            ∙ ap
                (λ (x : List Bytes).
                  x ++ tags_of (push_all (push st.framer bytes).0 (bytes_of rest)).1.lines)
                e
            ∙ append_assoc (epcs st) (tags_of (push st.framer bytes).1.lines)
                (tags_of (push_all (push st.framer bytes).0 (bytes_of rest)).1.lines)
            ∙ ap (λ (x : List Bytes). epcs st ++ x)
                (sym (tags_of-append (push st.framer bytes).1.lines _)),
      )

-- From an inventory with nothing held, a stream of lines that are shorter than the limit, cut into chunks in any way, reaches the handler as
-- exactly the EPCs of its tag lines, in order.
pub stream_reaches_handler :
    (fails : ℕ → Bool) (cfg : Config) (m : ℕ) (chunks : List (ℕ × Bytes)) (lines : List Bytes)
    (tail : Bytes) (st : Session)
    → st.phase ≡ inventory
    → st.in_init ≡ false
    → st.framer ≡ ready m []
    → flatten (bytes_of chunks) ≡ unframe lines tail
    → All (IsShort m) lines
    → cut_crlf tail ≡ none
    → length tail ≤ m
    → epcs (run fails cfg (events chunks) st) ≡ epcs st ++ tags_of lines
unfolding Admits
stream_reaches_handler fails cfg m chunks lines tail st p i g e a c t =
    let (_, _, _, h) = run-Admits fails cfg chunks st p i in
    h
    ∙ ap (λ (f : Framer). epcs st ++ tags_of (push_all f (bytes_of chunks)).1.lines) g
    ∙ ap (λ (r : Framer × FrameResult). epcs st ++ tags_of r.1.lines)
        (push_all-restores m (bytes_of chunks) lines tail e a c t)
