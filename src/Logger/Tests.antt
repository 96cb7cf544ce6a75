-- ===== src/Logger/Tests.antt =====
-- The theorems on the CSV logger at concrete inputs.
use can_sentinental.Prelude.{
  ◌≡◌, refl, false, [], ◌∷◌, ◌++◌, length, ℕ, ◌+◌, raise, struct_error, arith, map,
}
use can_sentinental.Prelude.Int.{ℤ, pos}
use can_sentinental.Prelude.Text.{codes}
use can_sentinental.Struct.{Bytes}
use can_sentinental.Floats.Fixed.{micro}
use can_sentinental.Frame.{CanFrame}
use can_sentinental.Logger.{CsvTelemetryLogger, new_logger, close, log_all, write_baseline, written}
use can_sentinental.Logger.Rows.{IsReady, contents, rows_of, log_all-rows}
use can_sentinental.Logger.Baseline.{write_baseline-transmission}

abbrev frame_of : ℕ → Bytes → CanFrame ℤ
frame_of can_id bytes = record {
  can_id = can_id;
  payload = bytes;
  dlc = length bytes;
  is_extended = false;
  is_error = false;
  is_rtr = false;
  timestamp = pos 1000000;
}

abbrev speed : CanFrame ℤ
speed = frame_of 0x120 (0x17 ∷ 0x70 ∷ [])

abbrev gearbox : CanFrame ℤ
gearbox = frame_of 0x180 (2 ∷ 0 ∷ 150 ∷ 1 ∷ 0 ∷ [])

-- A logger with room for one row, on an empty file.
abbrev logger : CsvTelemetryLogger ℤ
logger = new_logger 2 []

logger-IsReady : IsReady logger
unfolding new_logger
logger-IsReady = record { open_handle = refl; room = λ p. omega arith }

log_all-rows_example :
    let frames = speed ∷ speed ∷ speed ∷ gearbox ∷ speed ∷ [] in
    let after = (log_all frames (codes "NORMAL") logger).1 in
    let rows = rows_of (codes "NORMAL") frames logger.parser in
    IsReady after
    × (contents after ≡ contents logger ++ map written rows)
    × (after.total_logged ≡ logger.total_logged + length rows)
    × ((close after).file ≡ contents logger ++ map written rows)
    × ((close after).buffer ≡ [])
log_all-rows_example =
    log_all-rows (codes "NORMAL") (speed ∷ speed ∷ speed ∷ gearbox ∷ speed ∷ []) logger
      logger-IsReady

write_baseline-transmission_example :
    (write_baseline (speed ∷ gearbox ∷ speed ∷ []) []).0 ≡ raise struct_error
write_baseline-transmission_example =
    write_baseline-transmission (speed ∷ []) gearbox (speed ∷ []) [] refl (omega arith)
