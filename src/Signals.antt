-- ===== src/Signals.antt =====
-- src/parser/telemetry_parser.py: `decode_signals`, and the summary text of what it decodes.
pub mod Decoding
use Prim.Native.String.{String}
use can_sentinental.Prelude.{
  ℕ, Bool, true, false, List, [], ◌∷◌, ◌++◌, length, take, leb, ◌==◌, ◌&&◌, if◌then◌else◌, is_empty,
  map, Result, ok, raise, ◌>>=◌,
}
use can_sentinental.Prelude.Int.{ℤ, pos, sub_ℕ}
use can_sentinental.Prelude.Text.{Text, codes, decimal, join, show_ℤ}
use can_sentinental.Struct.{Bytes, Code, uint, unpack, big}
use can_sentinental.Floats.{FloatOps, of_nat}
use can_sentinental.Ids.{
  can_id_brake_override, can_id_engine_rpm, can_id_vehicle_speed, can_id_engine_temp,
  can_id_transmission, can_id_body_doors, can_id_body_climate, can_id_lighting,
}

-- The values of the dictionary of signals.
pub data Signal (F : Type 0) : Type 0 where
  int : ℤ → Signal F
  float : F → Signal F
  text : Text → Signal F
  bool : Bool → Signal F

abbrev pub Signals : Type 0 → Type 0
Signals F = List (String × Signal F)

-- B and H
abbrev pub u8 : Code
u8 = uint 1

abbrev pub u16 : Code
u16 = uint 2

module _ {F : Type 0} ⦃fl : FloatOps F⦄ where
  -- One function for each branch, on the payload.
  unfoldable pub decode_engine : Bytes → Result (Signals F)
  decode_engine bytes = do
    (rpm, (throttle, (status, _))) ← unpack big (u16 ∷ u8 ∷ u8 ∷ []) (take 4 bytes)
    ok (
        ("rpm", int (pos rpm))
        ∷ ("throttle_pct", int (pos throttle))
        ∷ ("engine_status", text (if status == 1 then codes "RUNNING" else codes "OFF"))
        ∷ [])

  unfoldable pub decode_speed : Bytes → Result (Signals F)
  decode_speed bytes = do
    (speed_raw, _) ← unpack big (u16 ∷ []) (take 2 bytes)
    ok (("speed_kmh", float (fl.round 2 (fl.div (of_nat speed_raw) (fl.lit 100 0)))) ∷ [])

  unfoldable pub decode_temp : Bytes → Result (Signals F)
  decode_temp bytes = do
    (temp_raw, (oil_press, (err, _))) ← unpack big (u8 ∷ u8 ∷ u8 ∷ []) (take 3 bytes)
    ok (
        ("coolant_temp_c", int (sub_ℕ temp_raw 40))
        ∷ ("oil_pressure_bar", float (fl.round 1 (fl.div (of_nat oil_press) (fl.lit 10 0))))
        ∷ [])

  -- The format ">BHBB" is five bytes long.
  unfoldable pub decode_transmission : Bytes → Result (Signals F)
  unfolding decimal
  decode_transmission bytes = do
    (gear, (torque_nm, (clutch, (_, _)))) ← unpack big (u8 ∷ u16 ∷ u8 ∷ u8 ∷ []) (take 4 bytes)
    ok (
        ("gear", text (if gear == 0 then codes "P/N" else codes "G" ++ decimal gear))
        ∷ ("torque_nm", int (pos torque_nm))
        ∷ ("clutch", text (if clutch == 1 then codes "ENGAGED" else codes "DISENGAGED"))
        ∷ [])

  unfoldable pub decode_brake : Bytes → Result (Signals F)
  unfolding decimal
  decode_brake bytes = do
    (brake_pct, (abs_act, (fl', (fr, (rl, (rr, _)))))) ←
        unpack big (u8 ∷ u8 ∷ u8 ∷ u8 ∷ u8 ∷ u8 ∷ []) (take 6 bytes)
    ok (
        ("brake_pct", int (pos brake_pct))
        ∷ ("abs_active", bool (if abs_act == 0 then false else true))
        ∷ (
          "wheel_speeds",
          text (
              codes "["
              ++ decimal fl'
              ++ codes ","
              ++ decimal fr
              ++ codes ","
              ++ decimal rl
              ++ codes ","
              ++ decimal rr
              ++ codes "]"),
        )
        ∷ [])

  unfoldable pub decode_doors : Bytes → Result (Signals F)
  decode_doors bytes = do
    (doors, (window, (seatbelt, _))) ← unpack big (u8 ∷ u8 ∷ u8 ∷ []) (take 3 bytes)
    ok (("doors_locked", bool (doors == 0xFF)) ∷ ("driver_seatbelt", bool (seatbelt == 1)) ∷ [])

  unfoldable pub decode_climate : Bytes → Result (Signals F)
  decode_climate bytes = do
    (target, (ambient, (fan, (ac, _)))) ← unpack big (u8 ∷ u8 ∷ u8 ∷ u8 ∷ []) (take 4 bytes)
    ok (
        ("target_temp_c", int (pos target))
        ∷ ("ambient_temp_c", int (pos ambient))
        ∷ ("fan_speed", int (pos fan))
        ∷ ("ac_on", bool (ac == 1))
        ∷ [])

  unfoldable pub decode_lighting : Bytes → Result (Signals F)
  decode_lighting bytes = do
    (lights, (turn, _)) ← unpack big (u8 ∷ u8 ∷ []) (take 2 bytes)
    ok (
        ("headlights", text (if lights == 1 then codes "ON" else codes "OFF"))
        ∷ (
          "turn_signal",
          text (
              if turn == 0
              then codes "NONE"
              else if turn == 1
              then codes "LEFT"
              else codes "RIGHT"),
        )
        ∷ [])

  unfoldable pub decode_signals : ℕ → Bytes → Result (Signals F)
  decode_signals can_id bytes =
      let dlc = length bytes in
      if can_id == can_id_engine_rpm && leb 4 dlc
      then decode_engine bytes
      else if can_id == can_id_vehicle_speed && leb 2 dlc
      then decode_speed bytes
      else if can_id == can_id_engine_temp && leb 3 dlc
      then decode_temp bytes
      else if can_id == can_id_transmission && leb 4 dlc
      then decode_transmission bytes
      else if can_id == can_id_brake_override && leb 6 dlc
      then decode_brake bytes
      else if can_id == can_id_body_doors && leb 3 dlc
      then decode_doors bytes
      else if can_id == can_id_body_climate && leb 4 dlc
      then decode_climate bytes
      else if can_id == can_id_lighting && leb 2 dlc
      then decode_lighting bytes
      else ok []

  -- f"{v}"
  unfoldable pub show_signal : Signal F → Text
  unfolding show_ℤ
  show_signal (int n) = show_ℤ n
  show_signal (float x) = fl.str x
  show_signal (text t) = t
  show_signal (bool true) = codes "True"
  show_signal (bool false) = codes "False"

  -- format_decoded_signals
  unfoldable pub format_decoded_signals : Signals F → Text
  unfolding show_signal join
  format_decoded_signals signals =
      if is_empty signals
      then codes "Raw Payload"
      else join (codes "; ") (map (λ s. codes s.0 ++ codes "=" ++ show_signal s.1) signals)
