-- ===== src/Parser/Tests.antt =====
-- Runs of the telemetry parser, and its theorems at concrete inputs.
use can_sentinental.Prelude.{
  ◌≡◌, refl, false, List, [], ◌∷◌, length, ok, raise, ℕ, count_if, arith, struct_error,
}
use can_sentinental.Prelude.Dict.{get_or}
use can_sentinental.Prelude.Int.{ℤ, pos}
use can_sentinental.Prelude.Text.{codes, decimal, join, show_ℤ}
use can_sentinental.Struct.{Bytes}
use can_sentinental.Floats.Fixed.{micro}
use can_sentinental.Frame.{CanFrame}
use can_sentinental.Signals.{
  int, float, text, decode_signals, decode_speed, show_signal, format_decoded_signals,
}
use can_sentinental.Signals.Decoding.{decode_signals_raises}
use can_sentinental.Parser.{ParsedTelemetry, new_parser, observe, telemetry, parse_frame}
use can_sentinental.Parser.Histories.{parse_frame_raises, parse_frame-history, parse_all, has_id}

abbrev frame_at : ℕ → ℕ → Bytes → CanFrame ℤ
frame_at time can_id bytes = record {
  can_id = can_id;
  payload = bytes;
  dlc = length bytes;
  is_extended = false;
  is_error = false;
  is_rtr = false;
  timestamp = pos time;
}

-- 60 km/h, as 6000 hundredths.
abbrev speed : CanFrame ℤ
speed = frame_at 5000000 0x120 (0x17 ∷ 0x70 ∷ [])

abbrev gearbox : CanFrame ℤ
gearbox = frame_at 7000000 0x180 (2 ∷ 0 ∷ 150 ∷ 1 ∷ [])

decode_sixty :
    decode_signals 0x120 (0x17 ∷ 0x70 ∷ []) ≡ ok (("speed_kmh", float (pos 60000000)) ∷ [])
unfolding decode_signals decode_speed
decode_sixty = refl

format_rpm :
    format_decoded_signals {F = ℤ} (("rpm", int (pos 900)) ∷ ("gear", text (codes "G1")) ∷ [])
    ≡ codes "rpm=900; gear=G1"
unfolding format_decoded_signals show_signal join show_ℤ decimal
format_rpm = refl

decode_signals_raises_example :
    decode_signals {F = ℤ} 0x180 (2 ∷ 0 ∷ 150 ∷ 1 ∷ []) ≡ raise struct_error
decode_signals_raises_example =
    (decode_signals_raises 0x180 (2 ∷ 0 ∷ 150 ∷ 1 ∷ [])).0 refl (omega arith)

parse_frame_raises_example :
    parse_frame gearbox new_parser ≡ (raise struct_error, observe gearbox new_parser)
parse_frame_raises_example = (parse_frame_raises gearbox new_parser).0 refl (omega arith)

-- Two speed frames and a transmission frame, and then a third speed frame.
abbrev earlier : List (CanFrame ℤ)
earlier = speed ∷ frame_at 6000000 0x120 (0x17 ∷ 0x70 ∷ []) ∷ gearbox ∷ []

abbrev third : CanFrame ℤ
third = frame_at 8500000 0x120 (0x17 ∷ 0x70 ∷ [])

abbrev third_telemetry : ParsedTelemetry ℤ
third_telemetry =
    telemetry third (parse_all earlier new_parser) (("speed_kmh", float (pos 60000000)) ∷ [])

parse_third : (parse_frame third (parse_all earlier new_parser)).0 ≡ ok third_telemetry
unfolding parse_frame decode_signals decode_speed
parse_third = refl

parse_frame-history_example :
    (third_telemetry.delta_t ≡ pos 2500000)
    × (third_telemetry.global_delta_t ≡ pos 1500000)
    × ((can_id : ℕ)
        → get_or can_id (parse_all earlier new_parser).message_counts 0
          ≡ count_if (has_id can_id) earlier)
    × ((parse_all earlier new_parser).total_messages ≡ 3)
parse_frame-history_example = parse_frame-history earlier third parse_third
