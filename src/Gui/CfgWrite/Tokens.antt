-- ===== src/Gui/CfgWrite/Tokens.antt =====
-- The tokens in an edit of the configuration: internal/gui/cfgwrite.go.
use mathlib.Core.Path.{subst}
use mathlib.Core.List.Memᴰ.{not-nil}
use rfid_middleware_idro900e.Prelude.{
  String, List, [], ◌∷◌, Option, some, All, ◌≡◌, ◌≢◌, refl, sym, ap, ◌∙◌, arith, str_eq, str_eq_iff,
  str_eq_refl, Memᴰ, if◌then◌else◌,
}
use rfid_middleware_idro900e.Config.{WireReader, Wire}
use rfid_middleware_idro900e.Config.Valid.{Distinct, ids}
use rfid_middleware_idro900e.Gui.CfgWrite.{
  ReaderEdit, ConfigEdit, Tokens, put_token, tokens_from, tokens_of, find_token, merged,
  merge_readers, edited,
}

pub find_token-put_token :
    (id j tok sid : String) (m : Tokens)
    → find_token j (put_token id tok sid m)
      ≡ (if str_eq id j then some (tok, sid) else find_token j m)
unfolding find_token put_token
find_token-put_token id j tok sid [] = refl
find_token-put_token id j tok sid ((k, t, s) ∷ m) =
    ground
      (arith, str_eq_iff id j, str_eq_iff k id, str_eq_iff k j, find_token-put_token id j tok sid m)

-- Readers with other names leave an entry alone.
pub others_leave :
    (j : String) (rs : List WireReader) (m : Tokens)
    → All (λ y. j ≢ y) (ids rs)
    → find_token j (tokens_from m rs) ≡ find_token j m
unfolding tokens_from
others_leave j [] m h = refl
others_leave j (r ∷ rs) m h =
    others_leave j rs (put_token r.id r.pulse_token r.session_id m) h.1
    ∙ ground
        (arith, find_token-put_token r.id j r.pulse_token r.session_id m, h.0, str_eq_iff r.id j)

pub own_token :
    (r : WireReader) (rs : List WireReader) (m : Tokens)
    → Distinct (ids rs)
    → Memᴰ r rs
    → find_token r.id (tokens_from m rs) ≡ some (r.pulse_token, r.session_id)
unfolding tokens_from
own_token r [] m d h = absurd (not-nil h)
own_token r (x ∷ rs) m d (Memᴰ.head e) =
    subst
      (λ (y : WireReader).
        find_token y.id (tokens_from (put_token x.id x.pulse_token x.session_id m) rs)
        ≡ some (y.pulse_token, y.session_id))
      (sym e)
      (others_leave x.id rs _ d.0
        ∙ ground
            (arith, find_token-put_token x.id x.id x.pulse_token x.session_id m, str_eq_refl x.id))
own_token r (x ∷ rs) m d (Memᴰ.tail h) = own_token r rs _ d.1 h

pub merged_mem :
    (m : Tokens) (l : Option (String × String)) (e : ReaderEdit) (es : List ReaderEdit)
    (tok sid : String)
    → find_token e.id m ≡ some (tok, sid)
    → tok ≢ ""
    → Memᴰ e es
    → Memᴰ
        (record { id = e.id; addr = e.addr; pulse_token = tok; session_id = sid })
        (merge_readers m l es)
unfolding merge_readers
merged_mem m l e [] tok sid f n h = absurd (not-nil h)
merged_mem m l e (x ∷ es) tok sid f n (Memᴰ.head q) = Memᴰ.head (
    subst
      (λ (y : ReaderEdit).
        record { id = e.id; addr = e.addr; pulse_token = tok; session_id = sid }
        ≡ merged y (find_token y.id m) l)
      q (rw f (ground (arith, n, str_eq_iff tok ""))))
merged_mem m l e (x ∷ es) tok sid f n (Memᴰ.tail h) = Memᴰ.tail (merged_mem m l e es tok sid f n h)

-- Where the old file names each reader once: a reader that an edit keeps, with whatever address, keeps its token, if it has one, and its session.
pub edit_keeps_token :
    (w : Wire) (r : WireReader) (e : ConfigEdit) (x : ReaderEdit)
    → Distinct (ids w.readers)
    → Memᴰ r w.readers
    → r.pulse_token ≢ ""
    → Memᴰ x e.readers
    → x.id ≡ r.id
    → Memᴰ
        (record {
          id = x.id;
          addr = x.addr;
          pulse_token = r.pulse_token;
          session_id = r.session_id;
        })
        (edited e (tokens_of (some w))).readers
unfolding edited
edit_keeps_token w r e x d h n k q =
    merged_mem (tokens_from [] w.readers) _ x e.readers r.pulse_token r.session_id
      (ap (λ (i : String). find_token i (tokens_from [] w.readers)) q
        ∙ own_token r w.readers [] d h)
      n k
