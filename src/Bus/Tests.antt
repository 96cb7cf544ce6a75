-- ===== src/Bus/Tests.antt =====
-- Runs of `VirtualCANBus`, and its theorems at concrete inputs.
use can_sentinental.Prelude.{ℕ, ◌≡◌, refl, true, false, Result, [], ◌∷◌, ok, raise, runtime_error}
use can_sentinental.Prelude.Dict.{Dict, lookup, insert}
use can_sentinental.Bus.{
  Queue, VirtualCanBus, new_bus, offer, deliver, deliver_all, send, create_subscriber, close,
  send_list, contains_id,
}
use can_sentinental.Bus.Delivery.{kept, send_list-delivers}
use can_sentinental.Bus.Invariant.{IsWellFormed}
use can_sentinental.Bus.Reach.{here, next, registers, Reach-IsWellFormed}
use mathlib.Core.Option
use can_sentinental.Prelude.{if◌then◌else◌}
use can_sentinental.Prelude.Text.{Text, codes, text_eq}
use can_sentinental.Bus.Factory.{socketcan_bus, virtual_bus, create_can_bus}

-- Two listeners, the first with room for two frames.
abbrev two_listeners : VirtualCanBus ℕ
two_listeners = record {
  subscribers = 0 ∷ 1 ∷ [];
  is_open = true;
  queues =
      (0, record { maxsize = 2; items = [] }) ∷ (1, record { maxsize = 0; items = 7 ∷ [] }) ∷ [];
  next = 2;
}

send_three :
    send_list (1 ∷ 2 ∷ 3 ∷ []) two_listeners
    ≡ ok (record two_listeners {
      queues =
          (0, record { maxsize = 2; items = 1 ∷ 2 ∷ [] })
          ∷ (1, record { maxsize = 0; items = 7 ∷ 1 ∷ 2 ∷ 3 ∷ [] })
          ∷ [];
    })
unfolding send_list send deliver_all deliver offer lookup insert
send_three = refl

send_closed : send 1 (close two_listeners) ≡ raise runtime_error
unfolding send close
send_closed = refl

send_list-delivers_example :
    (queues : Dict (Queue ℕ)) × (send_list (1 ∷ 2 ∷ 3 ∷ []) two_listeners
      ≡ ok (record two_listeners { queues = queues }))
    × ((j : ℕ)
        → lookup j queues ≡ (
            if contains_id j (0 ∷ 1 ∷ [])
            then Option.map (kept (1 ∷ 2 ∷ 3 ∷ [])) (lookup j two_listeners.queues)
            else lookup j two_listeners.queues))
send_list-delivers_example =
    send_list-delivers (1 ∷ 2 ∷ 3 ∷ []) two_listeners refl (refl, (refl, tt))

abbrev one_listener : VirtualCanBus ℕ
one_listener = (create_subscriber 1 new_bus).0

Reach-IsWellFormed_example : IsWellFormed (create_subscriber 2 one_listener).0
Reach-IsWellFormed_example = Reach-IsWellFormed (next (next here (registers 1)) (registers 2))

-- python-can opens its bus on the channel "can0" alone, and raises otherwise.
abbrev open_can0 : Text → Result ℕ
open_can0 channel = if text_eq channel (codes "can0") then ok 7 else raise runtime_error

create_opened :
    create_can_bus {A = ℕ} open_can0 true (codes "can0") (codes "auto") ≡ socketcan_bus 7
unfolding create_can_bus
create_opened = refl

create_not_opened :
    create_can_bus {A = ℕ} open_can0 true (codes "vcan0") (codes "socketcan") ≡ virtual_bus new_bus
unfolding create_can_bus
create_not_opened = refl

create_no_clock :
    create_can_bus {A = ℕ} open_can0 false (codes "can0") (codes "auto") ≡ virtual_bus new_bus
unfolding create_can_bus
create_no_clock = refl
