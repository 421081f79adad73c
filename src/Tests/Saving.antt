-- ===== src/Tests/Saving.antt =====
-- Runs of the writes of the configuration: internal/gui/run.go and cmd/rfid-middleware/main.go.
use mathlib.Core.List.{Memᴰ}
use rfid_middleware_idro900e.Prelude.{
  true, false, some, [], ◌≡◌, ◌⊎◌, refl, str_eq, str_eq_iff, bytes_eq, ◌≢◌,
}
use rfid_middleware_idro900e.Prelude.Case.{lower_char}
use rfid_middleware_idro900e.Config.{Wire, validate, config_of}
use rfid_middleware_idro900e.Config.Addr.{is_placeholder}
use rfid_middleware_idro900e.Gui.Save.{set_reader}
use rfid_middleware_idro900e.Gui.Save.Renamed.{Drops, set_reader-Drops}
use rfid_middleware_idro900e.Tests.Configuring.{
  reader_1, reader_2, wire, platform, codec, files, all_well,
}

-- The first of two readers gets another name.
set_reader-Drops_example :
    let res =
      set_reader codec platform all_well false "door" "192.168.9.30:5578" "c" "" "." files in
    (res.1 ≡ false) × (res.0.main ≡ some wire)
    ⊎ ((out : Wire) × (res.0.main ≡ some out)
        × Drops "door" "192.168.9.30:5578" reader_2 out.readers)
unfolding validate config_of lower_char is_placeholder bytes_eq
set_reader-Drops_example =
    set_reader-Drops codec platform all_well "door" "192.168.9.30:5578" "c" "" "." files wire wire
      reader_1 reader_2 [] reader_2 refl refl refl refl refl refl refl
      (
        (λ e. apart_1 ((str_eq_iff "door" reader_1.id).1 e)),
        ((λ e. apart_2 ((str_eq_iff "door" reader_2.id).1 e)), tt),
      )
      (Memᴰ.head refl) (λ e. apart_tokens ((str_eq_iff reader_2.pulse_token "").1 e))
  where
    apart_1 : str_eq "door" reader_1.id ≢ true
    apart_1 e = cc e

    apart_2 : str_eq "door" reader_2.id ≢ true
    apart_2 e = cc e

    apart_tokens : str_eq reader_2.pulse_token "" ≢ true
    apart_tokens e = cc e
