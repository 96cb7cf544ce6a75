-- ===== src/Frame.antt =====
-- src/sim/bus_emulator.py: `CANFrame`. The clock's reading, `time.time()`, is an argument.
use can_sentinental.Prelude.{
  ℕ, Bool, List, [], ◌∷◌, ◌++◌, Option, none, some, length, take, min, map, if◌then◌else◌, is_empty,
}
use can_sentinental.Prelude.Text.{Text, codes, hex, decimal, join}
use can_sentinental.Struct.{Bytes}
use can_sentinental.Floats.{FloatOps}

pub record CanFrame (F : Type 0) : Type 0 where
  pub can_id : ℕ
  pub payload : Bytes
  pub dlc : ℕ
  pub is_extended : Bool
  pub is_error : Bool
  pub is_rtr : Bool
  pub timestamp : F

-- The constructor's optional arguments, at their defaults.
pub record Options (F : Type 0) : Type 0 where
  pub given_dlc : Option ℕ
  pub extended : Bool
  pub error : Bool
  pub rtr : Bool
  pub given_timestamp : Option F

abbrev pub frame_dlc : Bytes → Option ℕ → ℕ
frame_dlc bytes none = length bytes
frame_dlc bytes (some dlc) = min dlc 8

abbrev flag_text : List Text → Text
flag_text names = if is_empty names then [] else codes " [" ++ join (codes ",") names ++ codes "]"

module _ {F : Type 0} where
  abbrev pub frame_timestamp : F → Option F → F
  frame_timestamp now none = now
  frame_timestamp now (some t) = t

  unfoldable pub new_frame : F → ℕ → Bytes → Options F → CanFrame F
  new_frame now can_id bytes o = record {
    can_id = can_id;
    payload = bytes;
    dlc = frame_dlc bytes o.given_dlc;
    is_extended = o.extended;
    is_error = o.error;
    is_rtr = o.rtr;
    timestamp = frame_timestamp now o.given_timestamp;
  }

  -- data[:dlc]
  abbrev pub valid_bytes : CanFrame F → Bytes
  valid_bytes f = take f.dlc f.payload

  abbrev flags : CanFrame F → List Text
  flags f =
      (if f.is_extended then codes "EXT" ∷ [] else [])
      ++ (if f.is_error then codes "ERR" ∷ [] else [])
      ++ (if f.is_rtr then codes "RTR" ∷ [] else [])

module _ {F : Type 0} ⦃fl : FloatOps F⦄ where
  -- __repr__
  unfoldable pub repr : CanFrame F → Text
  unfolding hex decimal join
  repr f =
      codes "<CANFrame ID=0x"
      ++ hex 3 f.can_id
      ++ flag_text (flags f)
      ++ codes " DLC="
      ++ decimal f.dlc
      ++ codes " Data=["
      ++ join (codes " ") (map (hex 2) (valid_bytes f))
      ++ codes "] @ "
      ++ fl.fixed 6 f.timestamp
      ++ codes ">"
