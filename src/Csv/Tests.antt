-- ===== src/Csv/Tests.antt =====
-- The round trip through the CSV file at concrete frames.
use can_sentinental.Prelude.{◌≡◌, refl, ℕ, List, [], ◌∷◌, length, false, some, ok, arith, All, map}
use can_sentinental.Prelude.Int.{ℤ, pos}
use can_sentinental.Prelude.Text.{codes}
use can_sentinental.Prelude.Numeral.{from_hex}
use can_sentinental.Struct.{Bytes}
use can_sentinental.Floats.Fixed.{micro, digits_value, show_fixed}
use can_sentinental.Frame.{CanFrame}
use can_sentinental.Features.{new_extractor}
use can_sentinental.Logger.{new_logger, log_all, close}
use can_sentinental.Csv.{extract_features_from_csv}
use can_sentinental.Csv.Streaming.{
  IsLoggable, retimed, features_of, extract_features_from_csv-log_all,
}
use can_sentinental.Model.Samples.{np}

from_hex_mixed : from_hex (codes "0a FF") ≡ ok (10 ∷ 255 ∷ [])
unfolding from_hex
from_hex_mixed = refl

abbrev frame_of : ℕ → Bytes → CanFrame ℤ
frame_of can_id bytes = record {
  can_id = can_id;
  payload = bytes;
  dlc = length bytes;
  is_extended = false;
  is_error = false;
  is_rtr = false;
  timestamp = pos 1500000;
}

abbrev frames : List (CanFrame ℤ)
frames =
    frame_of 0x120 (0x17 ∷ 0x70 ∷ [])
    ∷ frame_of 0x110 (9 ∷ 0xC4 ∷ 40 ∷ 1 ∷ [])
    ∷ frame_of 0x180 (1 ∷ [])
    ∷ []

abbrev reread : ℤ → ℤ
reread t = pos (digits_value 0 (show_fixed 6 t))

loggable : All IsLoggable frames
loggable = (
  record { bytes = omega arith; parsed = λ e. omega arith },
  (
    record { bytes = omega arith; parsed = λ e. absurd (omega arith) },
    (record { bytes = omega arith; parsed = λ e. omega arith }, tt),
  ),
)

extract_features_from_csv-log_all_example :
    extract_features_from_csv np
      (some (close (log_all frames (codes "NORMAL") (new_logger 2 [])).1).file)
    ≡ ok (
      features_of np (map (retimed reread) frames) (new_extractor 50),
      map (λ _. some (codes "NORMAL")) frames,
    )
extract_features_from_csv-log_all_example =
    extract_features_from_csv-log_all np (codes "NORMAL") reread (λ t. refl) frames 2 loggable
