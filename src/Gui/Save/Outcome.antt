-- ===== src/Gui/Save/Outcome.antt =====
-- What a save of the form leaves behind: `configSave` of internal/gui/run.go.
use rfid_middleware_idro900e.Prelude.{Bool, true, false, Option, none, some, ◌≡◌, ◌⊎◌}
use rfid_middleware_idro900e.Config.{Platform, parse_config}
use rfid_middleware_idro900e.Config.{Wire}
use rfid_middleware_idro900e.Gui.CfgWrite.Edited.{IsEdited, olds_of}
use rfid_middleware_idro900e.Gui.CfgWrite.Undone.{Undone}
use rfid_middleware_idro900e.Gui.CfgWrite.{Undo, Codec, ConfigEdit, is_accepted, old_wire}
use rfid_middleware_idro900e.Gui.Save.{
  SaveResult, saved, needs_restart, no_readers, not_written, not_loaded, core_restart_failed,
}

abbrev pub is_saved : SaveResult → Bool
is_saved saved = true
is_saved needs_restart = true
is_saved _ = false

module _ {C : Type 0} (codec : Codec C) (p : Platform) (u : Undo C) where
  -- After the write, a failure goes back to the old text `raw` as far as the rollback does, and not at all where none was read.
  abbrev pub TakenBack : Option C → C → Option C → Type 0
  TakenBack none out main = main ≡ some out
  TakenBack (some raw) out main = Undone u raw out main

  -- `raw` is what was read of the file, `out` the new text.
  abbrev Outcome : Option C → C → Option C → Option C × SaveResult → Type 0
  Outcome raw out old (main, r) =
      ((r ≡ no_readers) ⊎ (r ≡ not_written)) × (main ≡ old)
      ⊎ ((r ≡ not_loaded) ⊎ (r ≡ core_restart_failed)) × TakenBack raw out main
      ⊎ (is_saved r ≡ true)
        × (is_accepted (parse_config p (codec.decode out)) ≡ true)
        × (main ≡ some out)

  -- What a save comes to, where `raw` was read of the file: `main` is the file afterwards.
  abbrev pub Saves : Option C → ConfigEdit → Option C → Option C × SaveResult → Type 0
  Saves raw e old (main, r) =
      ((r ≡ no_readers) ⊎ (r ≡ not_written)) × (main ≡ old)
      ⊎ ((w : Wire) × IsEdited e (olds_of (old_wire codec raw)) w
          × ((((r ≡ not_loaded) ⊎ (r ≡ core_restart_failed)) × TakenBack raw (codec.encode w) main)
              ⊎ (is_saved r ≡ true)
                × (is_accepted (parse_config p (codec.decode (codec.encode w))) ≡ true)
                × (main ≡ some (codec.encode w))))
