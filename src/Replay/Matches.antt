-- ===== src/Replay/Matches.antt =====
-- A replay beside a session with the reader: internal/replay/replay.go.
use mathlib.Core.List.{append_assoc, append-nil, flatten, map-append}
use rfid_middleware_idro900e.Prelude.{
  ℕ, suc, Bool, false, List, [], ◌∷◌, ◌++◌, map, Option, none, leb, ◌==◌, Bytes, length, ◌≡◌, ◌≢◌,
  refl, sym, ap, ◌∙◌, arith, All, All-weaken, Bool-cases, inl, inr,
}
use rfid_middleware_idro900e.Domain.{TagRead}
use rfid_middleware_idro900e.Protocol.Cut.{cut_at}
use rfid_middleware_idro900e.Protocol.Framer.{Framer, cr, lf, push, default_max_line}
use rfid_middleware_idro900e.Protocol.Framer.Frames.{ready, unframe, IsShort, push-unframe}
use rfid_middleware_idro900e.Protocol.Parser.{Kind, Line, parse}
use rfid_middleware_idro900e.Session.{Config, Session, run, inventory}
use rfid_middleware_idro900e.Session.Inventory.{
  tag_epc, tags_of, epcs, events, bytes_of, stream_reaches_handler,
}
use rfid_middleware_idro900e.Replay.{
  Runner, Replayed, consume_line, consume_lines, feed, lines_from, trim_cr, raw_lines, run_raw,
  fresh, done,
}

abbrev pub epcs_of : Replayed → List Bytes
epcs_of st = map (λ (r : TagRead). r.epc) st.reads

-- The replay goes on with the framer, and has handed over `l` more.
Hands : Replayed → Framer → List Bytes → Replayed → Type 0
Hands st f l st' = (st'.framer ≡ f) × (epcs_of st' ≡ epcs_of st ++ l)

consume_line-Hands :
    (r : Runner) (at : Option ℕ) (line : Line) (st : Replayed)
    → Hands st st.framer (tag_epc line line.kind) (consume_line r at line st)
unfolding consume_line Hands tag_epc
consume_line-Hands r at line st = by_kind line.kind refl
  where
    by_kind :
        (k : Kind) → line.kind ≡ k → Hands st st.framer (tag_epc line k) (consume_line r at line st)
    by_kind Kind.tag e = rw e (refl, map-append (λ (x : TagRead). x.epc) st.reads _)
    by_kind Kind.bad_tag e = rw e (refl, sym (append-nil (epcs_of st)))
    by_kind Kind.ack e = rw e (refl, sym (append-nil (epcs_of st)))
    by_kind Kind.code e = rw e (refl, sym (append-nil (epcs_of st)))
    by_kind Kind.setting e = rw e (refl, sym (append-nil (epcs_of st)))
    by_kind Kind.unknown e = rw e (refl, sym (append-nil (epcs_of st)))

consume_lines-Hands :
    (r : Runner) (at : Option ℕ) (lines : List Bytes) (st : Replayed)
    → Hands st st.framer (tags_of lines) (consume_lines r at lines st)
unfolding consume_lines tags_of Hands
consume_lines-Hands r at [] st = (refl, sym (append-nil (epcs_of st)))
consume_lines-Hands r at (raw ∷ rest) st =
    let (f, e) = consume_line-Hands r at (parse raw) st in
    let (f', e') = consume_lines-Hands r at rest (consume_line r at (parse raw) st) in
    (
      f' ∙ f,
      e'
          ∙ ap (λ (x : List Bytes). x ++ tags_of rest) e
          ∙ append_assoc (epcs_of st) (tag_epc (parse raw) (parse raw).kind) (tags_of rest),
    )

-- One line of the file, with the delimiter that the replay puts behind it.
feed-Hands :
    (r : Runner) (at : Option ℕ) (m : ℕ) (line : Bytes) (st : Replayed)
    → st.framer ≡ ready m []
    → IsShort m line
    → Hands st (ready m []) (tags_of (line ∷ [])) (feed r at (line ++ cr ∷ lf ∷ []) st)
unfolding feed Hands cut_at
feed-Hands r at m line st g h =
    let e : push st.framer (line ++ cr ∷ lf ∷ [])
        ≡ (ready m [], record { lines = line ∷ []; dropped = 0 }) =
      ap (λ (f : Framer). push f (line ++ cr ∷ lf ∷ [])) g
      ∙ push-unframe m [] (line ++ cr ∷ lf ∷ []) (line ∷ []) [] refl (h, tt) refl (omega arith) in
    rw e (consume_lines-Hands r at (line ∷ []) _)

-- A line of a file: one that the framer takes whole, with no LF inside and no CR at its end.
abbrev pub IsLine : Bytes → Type 0
IsLine line = IsShort default_max_line line × (trim_cr line ≡ line) × All (λ c. c ≢ 10) line

-- The file, with an LF behind each line.
abbrev pub file_of : List Bytes → Bytes
file_of [] = []
file_of (l ∷ ls) = l ++ 10 ∷ file_of ls

lines_from-line :
    (held l rest : Bytes)
    → All (λ c. c ≢ 10) l
    → lines_from held (l ++ 10 ∷ rest) ≡ (held ++ l) ∷ lines_from [] rest
unfolding lines_from
lines_from-line held [] rest h = ap (λ (x : Bytes). x ∷ lines_from [] rest) (sym (append-nil held))
lines_from-line held (c ∷ l) rest h = elim (Bool-cases (c == 10)) [
  | inl t ↦ absurd (h.0 (ground (arith, t)))
  | inr t ↦
      rw (t, lines_from)
        (lines_from-line (held ++ c ∷ []) l rest h.1
          ∙ ap (λ (x : Bytes). x ∷ lines_from [] rest) (append_assoc held (c ∷ []) l))
]

lines_from-file_of : (ls : List Bytes) → All IsLine ls → lines_from [] (file_of ls) ≡ ls
unfolding lines_from
lines_from-file_of [] h = refl
lines_from-file_of (l ∷ ls) h =
    lines_from-line [] l (file_of ls) h.0.2 ∙ ap (◌∷◌ l) (lines_from-file_of ls h.1)

never : ℕ → Bool
never i = false

raw_lines-Hands :
    (r : Runner) (i : ℕ) (ls : List Bytes) (st : Replayed)
    → st.framer ≡ ready default_max_line []
    → All IsLine ls
    → Hands st (ready default_max_line []) (tags_of ls) (raw_lines r never i ls st).0
      × ((raw_lines r never i ls st).1 ≡ done)
unfolding raw_lines tags_of Hands never
raw_lines-Hands r i [] st g h = ((g, sym (append-nil (epcs_of st))), refl)
raw_lines-Hands r i (l ∷ ls) st g h =
    let st' = feed r none (l ++ cr ∷ lf ∷ []) st in
    let (f, e) = feed-Hands r none default_max_line l st g h.0.0 in
    let ((f', e'), d) = raw_lines-Hands r (suc i) ls st' f h.1 in
    rw (h.0.1, the_length)
      (
        (
          f',
          e'
              ∙ ap (λ (x : List Bytes). x ++ tags_of ls) e
              ∙ append_assoc (epcs_of st) (tags_of (l ∷ [])) (tags_of ls)
              ∙ ap (λ (x : List Bytes). epcs_of st ++ x)
                  (append_assoc (tag_epc (parse l) (parse l).kind) [] (tags_of ls)),
        ),
        d,
      )
  where
    the_length : leb 65_536 (length l) ≡ false
    the_length = ground (arith, h.0.0.1)

-- A file of lines that are shorter than the limit, with no LF inside and no CR at the end, is replayed to its end, and hands over
-- the same EPCs as a session in its inventory that gets those lines from the reader in any chunks.
pub replay_matches_session :
    (r : Runner) (lines : List Bytes) (fails : ℕ → Bool) (cfg : Config) (chunks : List (ℕ × Bytes))
    (st : Session)
    → All IsLine lines
    → st.phase ≡ inventory
    → st.in_init ≡ false
    → st.framer ≡ ready default_max_line []
    → flatten (bytes_of chunks) ≡ unframe lines []
    → ((run_raw r (λ i. false) (file_of lines)).1 ≡ done)
      × (epcs (run fails cfg (events chunks) st)
          ≡ epcs st ++ epcs_of (run_raw r (λ i. false) (file_of lines)).0)
unfolding run_raw Hands never cut_at
replay_matches_session r lines fails cfg chunks st h p i g e =
    let ((f, k), d) = raw_lines-Hands r 0 lines fresh refl h in
    rw (lines_from-file_of lines h) (
      d,
      stream_reaches_handler fails cfg default_max_line chunks lines [] st p i g e
            (All-weaken IsLine (IsShort default_max_line) lines (λ l x. x.0) h) refl (omega arith)
          ∙ ap (λ (x : List Bytes). epcs st ++ x) (sym k),
    )
