-- ===== src/Features/Tests.antt =====
-- Runs of the feature extractor, and its theorems at concrete inputs.
use can_sentinental.Prelude.{◌≡◌, false, List, [], ◌∷◌, ℕ, ◌+◌, ◌<◌, ◌≤◌, ◌↔◌}
use can_sentinental.Prelude.Int.{ℤ, pos}
use can_sentinental.Struct.{Bytes}
use can_sentinental.Floats.Fixed.{micro}
use can_sentinental.Frame.{CanFrame}
use can_sentinental.Features.{NumpyStats, new_extractor, changes}
use can_sentinental.Features.Window.{extract_frame, extract_all, extract_frame-window}
use can_sentinental.Features.Change.{changes_distance}
use can_sentinental.Features.Offline.{Call, frame, forget, run, replay, run_refines}

abbrev np : NumpyStats ℤ
np = record { mean = λ bytes. pos 0; var = λ bytes. pos 0 }

abbrev frame_of : ℕ → CanFrame ℤ
frame_of can_id = record {
  can_id = can_id;
  payload = 1 ∷ 2 ∷ [];
  dlc = 2;
  is_extended = false;
  is_error = false;
  is_rtr = false;
  timestamp = pos 0;
}

-- A window of three: the first of the earlier frames has left it.
abbrev earlier : List (CanFrame ℤ)
earlier = frame_of 0x120 ∷ frame_of 0x120 ∷ frame_of 0x110 ∷ []

extract_frame-window_example :
    let v = (extract_frame np (frame_of 0x120) (extract_all np earlier (new_extractor 3))).0 in
    (v.id_freq_window ≡ pos 2000000)
    × (2 ≤ 3)
    × (0 < 3 → (0 < 2) × (v.id_ratio_window ≡ pos 666666))
extract_frame-window_example = extract_frame-window np 3 earlier (frame_of 0x120)

changes_distance_example :
    (changes (1 ∷ 2 ∷ 3 ∷ []) (1 ∷ 5 ∷ []) ≡ changes (1 ∷ 5 ∷ []) (1 ∷ 2 ∷ 3 ∷ []))
    × ((changes (1 ∷ 2 ∷ 3 ∷ []) (1 ∷ 5 ∷ []) ≡ 0)
        ↔ (◌≡◌ {A = Bytes} (1 ∷ 2 ∷ 3 ∷ []) (1 ∷ 5 ∷ [])))
    × ((n : ℕ) → 3 ≤ n → 2 ≤ n → 2 ≤ n)
    × (2 ≤ 2 + 1)
changes_distance_example = changes_distance (1 ∷ 2 ∷ 3 ∷ []) (1 ∷ 5 ∷ []) (1 ∷ 4 ∷ [])

abbrev calls : List (Call ℤ)
calls = frame (frame_of 0x120) ∷ frame (frame_of 0x110) ∷ forget ∷ frame (frame_of 0x120) ∷ []

run_refines_example : run np calls (new_extractor 2) ≡ replay np 2 calls []
run_refines_example = run_refines np 2 calls
