-- ===== src/Bus/Reach.antt =====
-- src/sim/bus_emulator.py: the states that a `VirtualCANBus` and its listeners can reach, in any
-- order of sends, registrations, removals, reads from the queues, and closing.
use can_sentinental.Prelude.{ℕ, ◌≡◌, List, ◌∷◌, some, ◌==◌, ok, arith, Bool-cases, inl, inr}
use can_sentinental.Prelude.Dict.{lookup, insert, lookup-insert}
use can_sentinental.Bus.{
  Queue, VirtualCanBus, new_bus, send, create_subscriber, remove_subscriber, close,
}
use can_sentinental.Bus.Invariant.{
  IsWellFormed, new_bus-IsWellFormed, send-IsWellFormed, create_subscriber-IsWellFormed,
  remove_subscriber-IsWellFormed, close-IsWellFormed,
}

pub data Step {A : Type 0} (bus : VirtualCanBus A) : VirtualCanBus A → Type 0 where
  sends : (frame : A) {bus' : VirtualCanBus A} → send frame bus ≡ ok bus' → Step bus bus'
  registers : (maxsize : ℕ) → Step bus (create_subscriber maxsize bus).0
  removes : (q : ℕ) → Step bus (remove_subscriber q bus)
  closes : Step bus (close bus)
  -- A listener takes the oldest frame of a queue.
  reads :
      (j : ℕ) (q : Queue A) (x : A) (rest : List A)
      → lookup j bus.queues ≡ some q
      → q.items ≡ x ∷ rest
      → Step bus (record bus { queues = insert j (record q { items = rest }) bus.queues })

pub data Reach {A : Type 0} : VirtualCanBus A → Type 0 where
  here : Reach new_bus
  next : {bus bus' : VirtualCanBus A} → Reach bus → Step bus bus' → Reach bus'

module _ {A : Type 0} where
  reads-IsWellFormed :
      (bus : VirtualCanBus A) (j : ℕ) (q : Queue A) (x : A) (rest : List A)
      → IsWellFormed bus
      → lookup j bus.queues ≡ some q
      → q.items ≡ x ∷ rest
      → IsWellFormed (record bus { queues = insert j (record q { items = rest }) bus.queues })
  reads-IsWellFormed bus j q x rest w found front =
      let q' : Queue A = record q { items = rest } in
      record {
        distinct = w.distinct;
        allocated = λ i h. elim (Bool-cases (j == i)) [
          | inl e ↦ (q', rw (lookup-insert, e))
          | inr e ↦ let (p, at) = w.allocated i h in (p, rw (lookup-insert, e, at))
        ];
        fresh = λ i h. ground (arith, lookup-insert j i q' bus.queues, w.fresh i h);
        bounded = λ i p h b.
            ground (arith, lookup-insert j i q' bus.queues, w.bounded i p, w.bounded j q found);
      }

  Step-IsWellFormed :
      {bus bus' : VirtualCanBus A} → Step bus bus' → IsWellFormed bus → IsWellFormed bus'
  Step-IsWellFormed {bus} (sends frame h) w = send-IsWellFormed frame bus w h
  Step-IsWellFormed {bus} (registers maxsize) w = create_subscriber-IsWellFormed maxsize bus w
  Step-IsWellFormed {bus} (removes q) w = remove_subscriber-IsWellFormed q bus w
  Step-IsWellFormed {bus} closes w = close-IsWellFormed bus w
  Step-IsWellFormed {bus} (reads j q x rest found front) w =
      reads-IsWellFormed bus j q x rest w found front

  -- In every state that sends, registrations, removals, reads and closing can reach, no listener
  -- is registered twice, every registered queue exists, and no bounded queue exceeds its bound.
  pub Reach-IsWellFormed : {bus : VirtualCanBus A} → Reach bus → IsWellFormed bus
  Reach-IsWellFormed here = new_bus-IsWellFormed
  Reach-IsWellFormed (next r s) = Step-IsWellFormed s (Reach-IsWellFormed r)
