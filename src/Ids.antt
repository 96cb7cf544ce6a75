-- ===== src/Ids.antt =====
-- The arbitration identifiers that src/parser/telemetry_parser.py and src/sim/ecu_generator.py
-- both declare.
use can_sentinental.Prelude.{ℕ}

abbrev pub can_id_brake_override : ℕ
can_id_brake_override = 0x0A0

abbrev pub can_id_engine_rpm : ℕ
can_id_engine_rpm = 0x110

abbrev pub can_id_vehicle_speed : ℕ
can_id_vehicle_speed = 0x120

abbrev pub can_id_engine_temp : ℕ
can_id_engine_temp = 0x130

abbrev pub can_id_transmission : ℕ
can_id_transmission = 0x180

abbrev pub can_id_body_doors : ℕ
can_id_body_doors = 0x230

abbrev pub can_id_body_climate : ℕ
can_id_body_climate = 0x240

abbrev pub can_id_lighting : ℕ
can_id_lighting = 0x270
