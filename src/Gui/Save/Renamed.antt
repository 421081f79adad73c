-- ===== src/Gui/Save/Renamed.antt =====
-- The tokens after `config set-reader`: cmd/rfid-middleware/main.go.
use mathlib.Core.Path.{subst}
use mathlib.Core.List.Memᴰ.{not-nil}
use rfid_middleware_idro900e.Prelude.{
  String, Bool, false, ◌||◌, List, [], ◌∷◌, map, Option, none, some, All, ◌≡◌, ◌≢◌, ◌⊎◌, refl, sym,
  ap, ◌∙◌, str_eq, Memᴰ, inl, inr, Bool-cases, length,
}
use rfid_middleware_idro900e.Config
use rfid_middleware_idro900e.Gui.Apply.{read_config}
use rfid_middleware_idro900e.Config.{
  WireReader, Wire, Reader, Platform, Document, document, Parsed, checked, accepted, parse_config,
  config_of, validate, to_reader,
}
use rfid_middleware_idro900e.Config.Exact.{validate_iff}
use rfid_middleware_idro900e.Config.Valid.{Distinct, ids}
use rfid_middleware_idro900e.Gui.CfgWrite.{
  Codec, Files, Io, ReaderEdit, Tokens, tokens_from, tokens_of, find_token, lone, no_token,
  merge_readers, edited, write_config, contents, full, old_wire,
}
use rfid_middleware_idro900e.Gui.CfgWrite.Tokens.{own_token, others_leave, merged_mem}
use rfid_middleware_idro900e.Gui.CfgWrite.Edited.Lone.{tokens_from-IsMany, two_IsMany, lone_many}
use rfid_middleware_idro900e.Gui.CfgWrite.Atomic.{write_config-Saved}
use rfid_middleware_idro900e.Gui.Save.{with_first, renamed, dir_or, edit_for, set_reader}

abbrev edit_reader : Reader → ReaderEdit
edit_reader r = record { id = r.id; addr = r.addr }

abbrev edits : List WireReader → List ReaderEdit
edits rs = map edit_reader (map to_reader rs)

mem_edits :
    (x : WireReader) (rs : List WireReader)
    → Memᴰ x rs
    → Memᴰ (record { id = x.id; addr = x.addr }) (edits rs)
mem_edits x [] h = absurd (not-nil h)
mem_edits x (y ∷ rs) (Memᴰ.head e) =
    Memᴰ.head (ap (λ (z : WireReader). edit_reader (to_reader z)) e)
mem_edits x (y ∷ rs) (Memᴰ.tail h) = Memᴰ.tail (mem_edits x rs h)

module _ (id addr : String) where
  abbrev first : WireReader
  first = record { id = id; addr = addr; pulse_token = no_token; session_id = "" }

  -- The first reader of the new list has no token, and `x` has its own.
  abbrev pub Drops : WireReader → List WireReader → Type 0
  Drops x rs = (others : List WireReader) × (rs ≡ first ∷ others) × Memᴰ x others

  abbrev readers_out : List WireReader → List ReaderEdit → List WireReader
  readers_out ws es = merge_readers (tokens_from [] ws) (lone (tokens_from [] ws) (length es)) es

  new_none :
      (ws : List WireReader) → All (λ y. id ≢ y) (ids ws) → find_token id (tokens_from [] ws) ≡ none
  unfolding find_token
  new_none ws h = others_leave id ws [] h

  merge_first :
      (m : Tokens) (l : Option (String × String)) (es : List ReaderEdit)
      → l ≡ none
      → find_token id m ≡ none
      → merge_readers m l (record { id = id; addr = addr } ∷ es) ≡ first ∷ merge_readers m none es
  unfolding merge_readers
  merge_first m l es u f =
      subst
        (λ (k : Option (String × String)).
          merge_readers m k (record { id = id; addr = addr } ∷ es)
          ≡ first ∷ merge_readers m none es)
        (sym u) (rw f refl)

  first-Drops :
      (r q : WireReader) (rest : List WireReader) (x : WireReader)
      → Distinct (ids (r ∷ q ∷ rest))
      → All (λ y. id ≢ y) (ids (r ∷ q ∷ rest))
      → Memᴰ x (q ∷ rest)
      → x.pulse_token ≢ ""
      → Drops x (readers_out (r ∷ q ∷ rest) (record { id = id; addr = addr } ∷ edits (q ∷ rest)))
  unfolding tokens_from
  first-Drops r q rest x d new h t = (
    merge_readers (tokens_from [] (r ∷ q ∷ rest)) none (edits (q ∷ rest)),
    merge_first (tokens_from [] (r ∷ q ∷ rest)) _ (edits (q ∷ rest))
        (lone_many _ _ (tokens_from-IsMany rest _ (two_IsMany r q (d.0.0))))
        (new_none (r ∷ q ∷ rest) new),
    merged_mem _ none (record { id = x.id; addr = x.addr }) (edits (q ∷ rest)) x.pulse_token
        x.session_id (own_token x (r ∷ q ∷ rest) [] d (Memᴰ.tail h)) t (mem_edits x (q ∷ rest) h),
  )

  edited-Drops :
      (w : Wire) (r q : WireReader) (rest : List WireReader) (x : WireReader)
      → w.readers ≡ r ∷ q ∷ rest
      → Distinct (ids w.readers)
      → All (λ y. id ≢ y) (ids w.readers)
      → Memᴰ x (q ∷ rest)
      → x.pulse_token ≢ ""
      → Drops x (edited (renamed id addr (config_of w)) (tokens_of (some w))).readers
  unfolding edited config_of
  edited-Drops w r q rest x e d new h t =
      subst
        (λ (ws : List WireReader).
          Distinct (ids ws)
          → All (λ y. id ≢ y) (ids ws)
          → Drops x (readers_out ws (with_first id addr (edits ws))))
        (sym e) (λ d new. first-Drops r q rest x d new h t) d new

module _ {C : Type 0} (codec : Codec C) (p : Platform) (fs : Files C) (raw : C) (w : Wire) where
  -- What is loaded of the file, and what is read of it for the tokens.
  loaded_config :
      fs.main ≡ some raw
      → codec.decode raw ≡ document w
      → validate p w ≡ accepted (config_of w)
      → read_config codec p none (contents codec false fs) ≡ some (config_of w)
  unfolding parse_config
  loaded_config m d a = rw (m, d, a) refl

  read_wire :
      (io : Io)
      → io.read ≡ false
      → fs.main ≡ some raw
      → codec.is_empty raw ≡ false
      → codec.unmarshal raw ≡ some w
      → old_wire codec (full codec (contents codec io.read fs)) ≡ some w
  read_wire io rd m ne un = rw (rd, m, ne, un) refl

-- Where the file that is read is accepted and has two readers or more with different identifiers, and set-reader gives the first one an
-- identifier that none has: it fails and leaves the file, or in the new file the first reader has the placeholder for a token and no
-- session, and every other one whose token is not empty has its token and session as before.
pub set_reader-Drops :
    {C : Type 0} (codec : Codec C) (p : Platform) (io : Io) (id addr path dir here : String)
    (fs : Files C) (raw : C) (w : Wire) (r q : WireReader) (rest : List WireReader) (x : WireReader)
    → fs.main ≡ some raw
    → codec.is_empty raw ≡ false
    → codec.decode raw ≡ document w
    → codec.unmarshal raw ≡ some w
    → validate p w ≡ accepted (config_of w)
    → io.read ≡ false
    → w.readers ≡ r ∷ q ∷ rest
    → All (λ y. id ≢ y) (ids w.readers)
    → Memᴰ x (q ∷ rest)
    → x.pulse_token ≢ ""
    → let res = set_reader codec p io false id addr path dir here fs in
      (res.1 ≡ false) × (res.0.main ≡ some raw)
      ⊎ ((out : Wire) × (res.0.main ≡ some (codec.encode out)) × Drops id addr x out.readers)
unfolding set_reader
set_reader-Drops {C = C} codec p io id addr path dir here fs raw w r q rest x m ne dec un acc rd e
      new h t =
    elim (Bool-cases (str_eq id "" || str_eq addr "" || str_eq path "")) [
      | inl b ↦ rw b (inl (refl, m))
      | inr b ↦ rw b (
          subst
            (λ (o : Option Config.Config).
              Ends
                (write_config codec p io (edit_for codec p (dir_or codec p dir here) id addr o) fs))
            (sym (loaded_config codec p fs raw w m dec acc)) written)
    ]
  where
    Ends : Files C × Bool → Type 0
    Ends res =
        (res.1 ≡ false) × (res.0.main ≡ some raw)
        ⊎ ((out : Wire) × (res.0.main ≡ some (codec.encode out)) × Drops id addr x out.readers)

    drops :
        (ow : Option Wire)
        → ow ≡ some w
        → Drops id addr x (edited (renamed id addr (config_of w)) (tokens_of ow)).readers
    drops ow u =
        subst
          (λ (o : Option Wire).
            Drops id addr x (edited (renamed id addr (config_of w)) (tokens_of o)).readers)
          (sym u)
          (edited-Drops id addr w r q rest x e ((validate_iff p w (config_of w)).0 acc).0.own_ids
            new h t)

    written : Ends (write_config codec p io (renamed id addr (config_of w)) fs)
    written = elim (write_config-Saved codec p io (renamed id addr (config_of w)) fs) [
      | inl (k, s) ↦ inl (k, s ∙ m)
      | inr (k, a, s, b) ↦ inr (_, s, drops _ (read_wire codec p fs raw w io rd m ne un))
    ]
