-- ===== src/Gui/LogRing.antt =====
-- internal/gui/logring.go: the lines of the log on their way to the window. `Write` never waits; the oldest line makes room.
pub mod Latest
use rfid_middleware_idro900e.Prelude.{
  ℕ, ◌+◌, Bool, true, false, List, [], ◌∷◌, ◌++◌, leb, if◌then◌else◌, Bytes, length, drop,
}
use rfid_middleware_idro900e.Prelude.Int.{ℤ, pos, negsuc}

-- `signal` is whether the channel of one place holds a signal.
pub record LogRing : Type 0 where
  pub buf : List Bytes
  pub cap : ℕ
  pub signal : Bool
  pub dropped : ℕ

abbrev capacity_of : ℤ → ℕ
capacity_of (pos n) = if leb n 0 then 4_096 else n
capacity_of (negsuc n) = 4_096

-- `NewLogRing`
unfoldable pub new_log_ring : ℤ → LogRing
new_log_ring capacity = record { buf = []; cap = capacity_of capacity; signal = false; dropped = 0 }

-- `Write`; it keeps a copy of the bytes.
unfoldable pub write : Bytes → LogRing → LogRing
write line r =
    if leb r.cap (length r.buf)
    then record r { buf = drop 1 r.buf ++ line ∷ []; signal = true; dropped = r.dropped + 1 }
    else record r { buf = r.buf ++ line ∷ []; signal = true }

-- `Drain`
unfoldable pub drain : LogRing → LogRing × List Bytes
drain r = (record r { buf = [] }, r.buf)

unfoldable pub write_all : List Bytes → LogRing → LogRing
write_all [] r = r
write_all (line ∷ rest) r = write_all rest (write line r)
