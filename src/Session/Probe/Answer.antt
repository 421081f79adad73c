-- ===== src/Session/Probe/Answer.antt =====
-- What a probe finds: internal/reader/session/probe.go.
use mathlib.Core.List.{flatten}
use rfid_middleware_idro900e.Prelude.{
  ℕ, Bool, List, [], ◌∷◌, ◌++◌, map, Option, none, some, Bytes, length, ◌≤◌, ◌≡◌, refl, sym, ap,
  ◌∙◌, inl, inr, All, Bool-cases,
}
use rfid_middleware_idro900e.Protocol.Cut.{cut_at}
use rfid_middleware_idro900e.Protocol.Framer.{Framer, FrameResult, cut_crlf, push, push_all}
use rfid_middleware_idro900e.Protocol.Framer.Frames.{ready, unframe, IsShort, push_all-restores}
use rfid_middleware_idro900e.Protocol.Parser.{parse}
use rfid_middleware_idro900e.Protocol.Commands.{match_setting}
use rfid_middleware_idro900e.Session.Probe.{
  ProbePhase, asking, found, Prober, arrives, first_version, by_version, on_bytes, probe_step,
  run_probe,
}

abbrev first_some : Option Bytes → Option Bytes → Option Bytes
first_some none o = o
first_some (some v) o = some v

first_version-append :
    (xs ys : List Bytes)
    → first_version (xs ++ ys) ≡ first_some (first_version xs) (first_version ys)
unfolding first_version
first_version-append [] ys = refl
first_version-append (x ∷ xs) ys = elim (Bool-cases (match_setting b'v' (parse x))) [
  | inl t ↦ rw t refl
  | inr t ↦ rw t (first_version-append xs ys)
]

-- A probe that has its answer keeps it.
found_stays :
    (fails : ℕ → Bool) (chunks : List Bytes) (st : Prober) (v : Bytes)
    → st.phase ≡ found v
    → (run_probe fails (map arrives chunks) st).phase ≡ found v
unfolding run_probe probe_step on_bytes
found_stays fails [] st v p = p
found_stays fails (c ∷ cs) st v p =
    ap (λ (q : ProbePhase). (run_probe fails (map arrives cs) (on_bytes fails c st q)).phase) p
    ∙ found_stays fails cs st v p

after_chunk :
    (fails : ℕ → Bool) (chunks : List Bytes) (st : Prober) (o : Option Bytes) (more : List Bytes)
    → st.phase ≡ by_version o
    → ((st.phase ≡ asking)
        → (run_probe fails (map arrives chunks) st).phase ≡ by_version (first_version more))
    → (run_probe fails (map arrives chunks) st).phase
      ≡ by_version (first_some o (first_version more))
after_chunk fails chunks st none more p k = k p
after_chunk fails chunks st (some v) more p k = found_stays fails chunks st v p

asks_on :
    (fails : ℕ → Bool) (chunks : List Bytes) (st : Prober)
    → st.phase ≡ asking
    → (run_probe fails (map arrives chunks) st).phase
      ≡ by_version (first_version (push_all st.framer chunks).1.lines)
unfolding run_probe push_all first_version on_bytes probe_step
asks_on fails [] st p = p
asks_on fails (c ∷ cs) st p =
    let (f, res) = push st.framer c in
    let next = record st { framer = f; phase = by_version (first_version res.lines) } in
    let later = (push_all f cs).1.lines in
    ap (λ (q : ProbePhase). (run_probe fails (map arrives cs) (on_bytes fails c st q)).phase) p
    ∙ after_chunk fails cs next (first_version res.lines) later refl (asks_on fails cs next)
    ∙ ap by_version (sym (first_version-append res.lines later))

-- From a question with nothing held, a stream of lines shorter than the limit, cut into chunks in any way: the answer is the value of the first
-- line that is a reply to the question, and where there is none the probe goes on asking.
pub probe_answers :
    (fails : ℕ → Bool) (m : ℕ) (chunks lines : List Bytes) (tail : Bytes) (st : Prober)
    → st.phase ≡ asking
    → st.framer ≡ ready m []
    → flatten chunks ≡ unframe lines tail
    → All (IsShort m) lines
    → cut_crlf tail ≡ none
    → length tail ≤ m
    → (run_probe fails (map arrives chunks) st).phase ≡ by_version (first_version lines)
unfolding cut_at
probe_answers fails m chunks lines tail st p f e h c t =
    asks_on fails chunks st p
    ∙ ap (λ (g : Framer). by_version (first_version (push_all g chunks).1.lines)) f
    ∙ ap (λ (r : Framer × FrameResult). by_version (first_version r.1.lines))
        (push_all-restores m chunks lines tail e h c t)
