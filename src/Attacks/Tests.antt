-- ===== src/Attacks/Tests.antt =====
-- The theorems on attacks at concrete inputs.
use mathlib.Core.Option
use can_sentinental.Prelude.{
  ℕ, ◌+◌, ◌<◌, ◌≤◌, raise, struct_error, ◌≡◌, refl, true, List, [], ◌∷◌, length, none, some, ok,
  arith, All,
}
use can_sentinental.Prelude.Int.{ℤ, negsuc, pos}
use can_sentinental.Prelude.Dict.{lookup}
use can_sentinental.Floats.Fixed.{micro}
use can_sentinental.Frame.{CanFrame, valid_bytes}
use can_sentinental.Callbacks.{Callback}
use can_sentinental.Signals.{decode_signals}
use can_sentinental.Bus.{send, contains_id}
use can_sentinental.Bus.Delivery.{kept}
use can_sentinental.Attacks.{
  Randint, IsRandint, Scene, craft_spoof_brake_frame, inject, inject_dos_flood, inject_fuzzing,
  craft_flood_frame,
}
use can_sentinental.Attacks.Crafting.{IsStandard, spoofed, decode_signals-craft_spoof_brake_frame}
use can_sentinental.Attacks.Injection.{IsReady, inject_fuzzing-delivers}

decode_signals-craft_spoof_brake_frame_example :
    (100 < 256
      → (f : CanFrame ℤ) × (craft_spoof_brake_frame (pos 100) true (pos 0) ≡ ok f)
        × (decode_signals {F = ℤ} f.can_id (valid_bytes f) ≡ ok (spoofed (pos 0) 100 true)))
    × (256 ≤ 100 → craft_spoof_brake_frame (pos 100) true (pos 0) ≡ raise struct_error)
    × (craft_spoof_brake_frame (negsuc 100) true (pos 0) ≡ raise struct_error)
decode_signals-craft_spoof_brake_frame_example =
    decode_signals-craft_spoof_brake_frame (pos 0) 100 true

-- A generator that always draws the lower end.
abbrev lowest : Randint (Unit {0})
lowest a b g = (a, g)

lowest-IsRandint : IsRandint lowest
lowest-IsRandint = record { low = λ a b g h. omega arith; high = λ a b g h. h }

-- One listener with room for two frames.
abbrev scene : Scene ℕ ℤ (Unit {0})
scene = record {
  bus = record {
    subscribers = 0 ∷ [];
    is_open = true;
    queues = (0, record { maxsize = 2; items = [] }) ∷ [];
    next = 1;
  };
  rng = tt;
  world = 0;
  crafted = 0;
}

scene-IsReady : IsReady scene
scene-IsReady = record { opened = refl; distinct = (refl, tt) }

abbrev clock : ℕ → ℤ
clock n = pos n

-- A callback that counts.
abbrev counts : Callback ℕ (CanFrame ℤ)
counts f w = (ok tt, w + 1)

-- A callback that counts the frames of a flood sees each of them.
flood_counted : (inject_dos_flood clock (some counts) 3 0 scene).1.world ≡ 3
unfolding inject_dos_flood inject craft_flood_frame send
flood_counted = refl

inject_fuzzing-delivers_example :
    (fs : List (CanFrame ℤ)) × (s' : Scene ℕ ℤ (Unit {0})) × (inject_fuzzing clock none lowest 2
        scene
      ≡ (ok fs, s'))
    × (length fs ≡ 2)
    × All (λ f. IsStandard f × (0 < f.can_id) × (f.can_id < 0x7FF) × (0 < f.dlc)) fs
    × ((j : ℕ)
        → contains_id j (0 ∷ []) ≡ true
        → lookup j s'.bus.queues ≡ Option.map (kept fs) (lookup j scene.bus.queues))
inject_fuzzing-delivers_example =
    inject_fuzzing-delivers clock none lowest 2 scene lowest-IsRandint tt scene-IsReady
