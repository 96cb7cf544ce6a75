-- ===== src/Parser.antt =====
-- src/parser/telemetry_parser.py: `CANTelemetryParser`. A raise in `parse_frame` comes after the
-- histories and counters are written, so the state comes back beside the result.
pub mod Histories
mod Tests
use Prim.Native.String.{String}
use can_sentinental.Prelude.{
  ℕ, zero, suc, ◌+◌, ◌-◌, Bool, true, false, List, [], ◌∷◌, ◌++◌, length, take, replicate, is_empty,
  map, Option, none, some, if◌then◌else◌, Result, ok, raise,
}
use can_sentinental.Prelude.Dict.{Dict, lookup, get_or, insert}
use can_sentinental.Prelude.Counter.{counter}
use can_sentinental.Prelude.Text.{Text, codes, hex, join}
use can_sentinental.Struct.{Bytes}
use can_sentinental.Floats.{FloatOps, zero_float, of_nat, max_float}
use can_sentinental.Frame.{CanFrame, valid_bytes}
use can_sentinental.Ids.{
  can_id_brake_override, can_id_engine_rpm, can_id_vehicle_speed, can_id_engine_temp,
  can_id_transmission, can_id_body_doors, can_id_body_climate, can_id_lighting,
}
use can_sentinental.Signals.{Signals, decode_signals, format_decoded_signals}

abbrev pub ecu_names : Dict String
ecu_names =
    (can_id_brake_override, "Brake/ABS ECU")
    ∷ (can_id_engine_rpm, "Engine RPM ECU")
    ∷ (can_id_vehicle_speed, "Speedometer ECU")
    ∷ (can_id_engine_temp, "Coolant/Oil Temp ECU")
    ∷ (can_id_transmission, "Transmission ECU")
    ∷ (can_id_body_doors, "Body Doors ECU")
    ∷ (can_id_body_climate, "Climate/HVAC ECU")
    ∷ (can_id_lighting, "Lighting/Signals ECU")
    ∷ []

pub record ParsedTelemetry (F : Type 0) : Type 0 where
  pub timestamp : F
  pub can_id : ℕ
  pub can_id_hex : Text
  pub ecu_name : String
  pub dlc : ℕ
  pub payload : Bytes
  pub payload_hex : Text
  pub delta_t : F
  pub global_delta_t : F
  pub entropy : F
  pub decoded_signals : Signals F
  pub is_extended : Bool
  pub is_error : Bool

-- A cell of a row: Python's str or int.
pub data Cell : Type 0 where
  text : Text → Cell
  num : ℕ → Cell

abbrev pub Row : Type 0
Row = List (String × Cell)

-- list(data[:8]) + [0] * (8 - len(data[:8]))
abbrev pub byte_values : Bytes → List ℕ
byte_values bytes = let head = take 8 bytes in head ++ replicate (8 - length head) 0

abbrev pub nth : ℕ → List ℕ → ℕ
nth i [] = 0
nth zero (x ∷ xs) = x
nth (suc i) (x ∷ xs) = nth i xs

module _ {F : Type 0} ⦃fl : FloatOps F⦄ where
  unfoldable pub to_flat_dict : ParsedTelemetry F → Row
  to_flat_dict p =
      let bytes = byte_values p.payload in
      ("timestamp", text (fl.fixed 6 p.timestamp))
      ∷ ("can_id", num p.can_id)
      ∷ ("can_id_hex", text p.can_id_hex)
      ∷ ("ecu_name", text (codes p.ecu_name))
      ∷ ("dlc", num p.dlc)
      ∷ ("payload_hex", text p.payload_hex)
      ∷ ("delta_t", text (fl.fixed 6 p.delta_t))
      ∷ ("global_delta_t", text (fl.fixed 6 p.global_delta_t))
      ∷ ("entropy", text (fl.fixed 4 p.entropy))
      ∷ ("byte_0", num (nth 0 bytes))
      ∷ ("byte_1", num (nth 1 bytes))
      ∷ ("byte_2", num (nth 2 bytes))
      ∷ ("byte_3", num (nth 3 bytes))
      ∷ ("byte_4", num (nth 4 bytes))
      ∷ ("byte_5", num (nth 5 bytes))
      ∷ ("byte_6", num (nth 6 bytes))
      ∷ ("byte_7", num (nth 7 bytes))
      ∷ ("decoded_summary", text (format_decoded_signals p.decoded_signals))
      ∷ ("label", text (codes "NORMAL"))
      ∷ []

  -- The loop over the counts; `entropy` is its accumulator.
  unfoldable pub entropy_loop : ℕ → Dict ℕ → F → F
  entropy_loop total [] entropy = entropy
  entropy_loop total ((_, count) ∷ counts) entropy =
      let p = fl.div (of_nat count) (of_nat total) in
      entropy_loop total counts (fl.sub entropy (fl.mul p (fl.log2 p)))

  unfoldable pub calculate_shannon_entropy : Bytes → F
  unfolding entropy_loop counter
  calculate_shannon_entropy bytes =
      if is_empty bytes then zero_float else entropy_loop (length bytes) (counter bytes) zero_float

  -- The time since an earlier one, if there is one, and never negative.
  abbrev pub delta_since : F → Option F → F
  delta_since ts none = zero_float
  delta_since ts (some last) = max_float zero_float (fl.sub ts last)

pub record CanTelemetryParser (F : Type 0) : Type 0 where
  pub last_seen_per_id : Dict F
  pub last_global_timestamp : Option F
  pub message_counts : Dict ℕ
  pub total_messages : ℕ

module _ {F : Type 0} where
  -- __init__
  abbrev pub new_parser : CanTelemetryParser F
  new_parser = record {
    last_seen_per_id = [];
    last_global_timestamp = none;
    message_counts = [];
    total_messages = 0;
  }

  unfoldable pub reset_state : CanTelemetryParser F → CanTelemetryParser F
  reset_state p = record p {
    last_seen_per_id = [];
    last_global_timestamp = none;
    message_counts = [];
    total_messages = 0;
  }

  -- The part of `parse_frame` that writes the state.
  unfoldable pub observe : CanFrame F → CanTelemetryParser F → CanTelemetryParser F
  observe f p = record {
    last_seen_per_id = insert f.can_id f.timestamp p.last_seen_per_id;
    last_global_timestamp = some f.timestamp;
    message_counts = insert f.can_id (get_or f.can_id p.message_counts 0 + 1) p.message_counts;
    total_messages = p.total_messages + 1;
  }

module _ {F : Type 0} ⦃fl : FloatOps F⦄ where
  -- What is returned, from the state before and the decoded signals.
  unfoldable pub telemetry : CanFrame F → CanTelemetryParser F → Signals F → ParsedTelemetry F
  unfolding calculate_shannon_entropy
  telemetry f p signals = record {
    timestamp = f.timestamp;
    can_id = f.can_id;
    can_id_hex = codes "0x" ++ hex 3 f.can_id;
    ecu_name = get_or f.can_id ecu_names "Unknown ECU";
    dlc = f.dlc;
    payload = valid_bytes f;
    payload_hex = join [] (map (hex 2) (valid_bytes f));
    delta_t = delta_since f.timestamp (lookup f.can_id p.last_seen_per_id);
    global_delta_t = delta_since f.timestamp p.last_global_timestamp;
    entropy = calculate_shannon_entropy (valid_bytes f);
    decoded_signals = signals;
    is_extended = f.is_extended;
    is_error = f.is_error;
  }

  unfoldable pub parse_frame :
      CanFrame F → CanTelemetryParser F → Result (ParsedTelemetry F) × CanTelemetryParser F
  unfolding observe telemetry
  parse_frame f p = elim (decode_signals {F = F} f.can_id (valid_bytes f)) [
    | ok signals ↦ (ok (telemetry f p signals), observe f p)
    | raise e ↦ (raise e, observe f p)
  ]
