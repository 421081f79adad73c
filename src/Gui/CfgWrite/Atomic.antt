-- ===== src/Gui/CfgWrite/Atomic.antt =====
-- What a write of the configuration leaves behind: internal/gui/cfgwrite.go.
use mathlib.Core.Path.{subst}
use rfid_middleware_idro900e.Prelude.{
  Bool, true, false, Option, none, some, ◌≡◌, ◌⊎◌, refl, sym, inl, inr, Bool-cases, if◌then◌else◌,
}
use rfid_middleware_idro900e.Config.{Platform, parse_config}
use rfid_middleware_idro900e.Config.{Wire}
use rfid_middleware_idro900e.Gui.CfgWrite.Edited.{IsEdited, olds_of}
use rfid_middleware_idro900e.Gui.CfgWrite.Edited.Made.{edited-IsEdited}
use rfid_middleware_idro900e.Gui.CfgWrite.{
  Codec, Files, Io, ConfigEdit, is_accepted, contents, full, old_wire, put_file, back_up,
  after_backup, replace_by, write_config, edited, tokens_of,
}

module _ {C : Type 0} (codec : Codec C) (p : Platform) where
  -- The old text stands in the backup.
  abbrev pub HasBackup : Option C → Files C → Type 0
  HasBackup none fs = Unit
  HasBackup (some raw) fs = fs.bak ≡ some raw

  -- The result of a write of `out`, where the file had `raw`.
  abbrev pub Saved : Option C → C → Files C → Files C × Bool → Type 0
  Saved raw out fs res =
      (res.1 ≡ false) × (res.0.main ≡ fs.main)
      ⊎ ((res.1 ≡ true)
          × (is_accepted (parse_config p (codec.decode out)) ≡ true)
          × (res.0.main ≡ some out)
          × HasBackup raw res.0)

  put_file-Saved :
      (io : Io) (raw : Option C) (out : C) (fs fs' : Files C)
      → is_accepted (parse_config p (codec.decode out)) ≡ true
      → fs'.main ≡ fs.main
      → HasBackup raw (record fs' { main = some out; tmp = none })
      → Saved raw out fs (put_file codec io out fs')
  unfolding put_file
  put_file-Saved io raw out fs fs' a m b = elim (Bool-cases io.temp) [
    | inl t ↦ rw t (inl (refl, m))
    | inr t ↦ elim (Bool-cases io.rename) [
      | inl k ↦ rw (t, k) (inl (refl, m))
      | inr k ↦ rw (t, k) (inr (refl, a, refl, b))
    ]
  ]

  after_backup-Saved :
      (io : Io) (no_folder : Bool) (raw : Option C) (out : C) (fs : Files C) (r : Files C × Bool)
      → is_accepted (parse_config p (codec.decode out)) ≡ true
      → r.0.main ≡ fs.main
      → ((r.1 ≡ true) → HasBackup raw (record (r.0) { main = some out; tmp = none }))
      → Saved raw out fs (after_backup codec io no_folder out r)
  unfolding after_backup
  after_backup-Saved io no_folder raw out fs (fs', false) a m b = inl (refl, m)
  after_backup-Saved io true raw out fs (fs', true) a m b = inl (refl, m)
  after_backup-Saved io false raw out fs (fs', true) a m b =
      put_file-Saved io raw out fs fs' a m (b refl)

  -- The backup leaves the file, and can be rolled back.
  back_up_keeps :
      (io : Io) (raw : Option C) (out : C) (fs : Files C)
      → ((back_up codec io raw fs).0.main ≡ fs.main)
        × (((back_up codec io raw fs).1 ≡ true)
            → HasBackup raw (record ((back_up codec io raw fs).0) { main = some out; tmp = none }))
  unfolding back_up
  back_up_keeps io none out fs = (refl, λ h. tt)
  back_up_keeps io (some raw) out fs = elim (Bool-cases io.backup) [
    | inl t ↦ rw t (refl, λ h. cc h)
    | inr t ↦ rw t (refl, λ h. refl)
  ]

  pub replace_by-Saved :
      (io : Io) (no_folder : Bool) (raw : Option C) (out : C) (fs : Files C)
      → Saved raw out fs (replace_by codec p io no_folder raw out fs)
  unfolding replace_by
  replace_by-Saved io no_folder raw out fs =
      elim (Bool-cases (is_accepted (parse_config p (codec.decode out)))) [
        | inr t ↦ rw t (inl (refl, refl))
        | inl t ↦
            let (m, b) = back_up_keeps io raw out fs in
            subst
              (λ (x : Bool). Saved raw out fs (
                if x
                then after_backup codec io no_folder out (back_up codec io raw fs)
                else (fs, false)))
              (sym t) (after_backup-Saved io no_folder raw out fs (back_up codec io raw fs) t m b)
      ]

  -- What `WriteConfig` reads of the old file: nothing where the reading fails, and where the file is missing or empty.
  abbrev pub IsRead : Bool → Files C → Option C → Type 0
  IsRead fails fs none =
      (fails ≡ true) ⊎ (fs.main ≡ none) ⊎ ((c : C) × (fs.main ≡ some c) × (codec.is_empty c ≡ true))
  IsRead fails fs (some c) = (fails ≡ false) × (fs.main ≡ some c) × (codec.is_empty c ≡ false)

  pub contents-IsRead :
      (fails : Bool) (fs : Files C) → IsRead fails fs (full codec (contents codec fails fs))
  contents-IsRead true fs = inl refl
  contents-IsRead false fs = by_main fs.main refl
    where
      by_main : (o : Option C) → fs.main ≡ o → IsRead false fs (full codec o)
      by_main none m = inr (inl m)
      by_main (some c) m = elim (Bool-cases (codec.is_empty c)) [
        | inl t ↦ rw t (inr (inr (c, m, t)))
        | inr t ↦ rw t (refl, m, t)
      ]

  -- What a write of the form leaves, where `raw` was read.
  abbrev pub Wrote : Option C → ConfigEdit → Files C → Files C × Bool → Type 0
  Wrote raw e fs res =
      (res.1 ≡ false) × (res.0.main ≡ fs.main)
      ⊎ (res.1 ≡ true)
        × ((w : Wire) × IsEdited e (olds_of (old_wire codec raw)) w
            × (is_accepted (parse_config p (codec.decode (codec.encode w))) ≡ true)
            × (res.0.main ≡ some (codec.encode w))
            × HasBackup raw res.0)

  pub write_config-Saved :
      (io : Io) (e : ConfigEdit) (fs : Files C)
      → let raw = full codec (contents codec io.read fs) in
        Saved raw
          (codec.encode (edited e (tokens_of (old_wire codec raw))))
          fs
          (write_config codec p io e fs)
  unfolding write_config
  write_config-Saved io e fs = replace_by-Saved io io.mkdir _ _ fs

-- Whichever calls fail: `WriteConfig` fails and leaves the file as it was; or it succeeds, and the file is the text of a document that `Parse` accepts, with
-- the form's values, and for each of the form's readers the token and session of the last old reader of that name, or, where the old readers
-- have one name only and the form has one reader, those of the last old one, and otherwise the placeholder; the backup has the old text.
-- The old text is what was read: it counts as missing where it cannot be read.
pub write_config_atomic :
    {C : Type 0} (codec : Codec C) (p : Platform) (io : Io) (e : ConfigEdit) (fs : Files C)
    → (raw : Option C) × IsRead codec p io.read fs raw
      × Wrote codec p raw e fs (write_config codec p io e fs)
write_config_atomic codec p io e fs =
    let raw = full codec (contents codec io.read fs) in
    (
      raw,
      contents-IsRead codec p io.read fs,
      elim (write_config-Saved codec p io e fs) [
        | inl x ↦ inl x
        | inr (k, a, m, b) ↦ inr (k, (_, edited-IsEdited e (old_wire codec raw), a, m, b))
      ],
    )
