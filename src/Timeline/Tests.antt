-- ===== src/Timeline/Tests.antt =====
-- The theorems on the attack dataset at concrete inputs.
use can_sentinental.Prelude.{ℕ, ◌≡◌, refl, [], ◌∷◌, raise, struct_error, arith}
use can_sentinental.Prelude.Int.{ℤ, pos}
use can_sentinental.Prelude.Text.{codes}
use can_sentinental.Floats.Fixed.{micro}
use can_sentinental.Frame.{CanFrame}
use can_sentinental.Attacks.{Randint, frame_of}
use can_sentinental.Timeline.{Event, insert_event, sort_events, generate_labeled_attack_dataset}
use can_sentinental.Timeline.Dataset.{generate_labeled_attack_dataset_raises}

abbrev event : ℕ → Event ℤ
event t = (pos t, frame_of (pos t) 0 [] 0, codes "NORMAL")

sorted : sort_events (event 5 ∷ event 3 ∷ event 4 ∷ []) ≡ event 3 ∷ event 4 ∷ event 5 ∷ []
unfolding sort_events insert_event
sorted = refl

-- A generator that always draws the upper end.
abbrev highest : Randint (Unit {0})
highest a b g = (b, g)

-- A frame that comes after the flood.
abbrev late : CanFrame ℤ
late = frame_of (pos 1000012000000) 0x110 [] 0

generate_labeled_attack_dataset_raises_example :
    generate_labeled_attack_dataset {F = ℤ} highest (pos 10000) [] tt ≡ raise struct_error
generate_labeled_attack_dataset_raises_example =
    generate_labeled_attack_dataset_raises highest (pos 10000) [] tt (omega arith)
