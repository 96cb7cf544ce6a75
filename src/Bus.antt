-- ===== src/Bus.antt =====
-- src/sim/bus_emulator.py: `VirtualCANBus`. Subscriber queues are objects that the bus and its
-- listeners share, so they stand on a heap, named by their identity; a method returns the new
-- state. The lock makes each method one step.
pub mod Delivery
pub mod Invariant
pub mod Reach
pub mod Factory
mod Tests
use can_sentinental.Prelude.{
  ℕ, zero, suc, ◌+◌, ◌≤◌, ◌<◌, Bool, true, false, List, [], ◌∷◌, ◌++◌, Option, none, some, length,
  ltb, leb, ◌==◌, ◌&&◌, ◌||◌, if◌then◌else◌, Result, ok, raise, runtime_error,
}
use can_sentinental.Prelude.Dict.{Dict, lookup, insert}

-- queue.Queue(maxsize), unbounded where maxsize is 0.
pub record Queue (A : Type 0) : Type 0 where
  pub maxsize : ℕ
  pub items : List A

pub record VirtualCanBus (A : Type 0) : Type 0 where
  pub subscribers : List ℕ
  pub is_open : Bool
  -- The heap: every queue ever created, and the next free identity.
  pub queues : Dict (Queue A)
  pub next : ℕ

-- q in l, and l.remove(q)
abbrev pub contains_id : ℕ → List ℕ → Bool
contains_id q [] = false
contains_id q (p ∷ ps) = p == q || contains_id q ps

abbrev pub remove_id : ℕ → List ℕ → List ℕ
remove_id q [] = []
remove_id q (p ∷ ps) = if p == q then ps else p ∷ remove_id q ps

module _ {A : Type 0} where
  -- __init__
  abbrev pub new_bus : VirtualCanBus A
  new_bus = record { subscribers = []; is_open = true; queues = []; next = 0 }

  -- put_nowait: `none` is queue.Full.
  unfoldable pub put_nowait : A → Queue A → Option (Queue A)
  put_nowait frame q =
      if ltb 0 q.maxsize && leb q.maxsize (length q.items)
      then none
      else some (record q { items = q.items ++ frame ∷ [] })

  -- The body of the loop of `send`: a frame for a full queue is dropped.
  unfoldable pub offer : A → Queue A → Queue A
  unfolding put_nowait
  offer frame q = elim (put_nowait frame q) [ none ↦ q | some q' ↦ q' ]

  unfoldable pub deliver : A → ℕ → Dict (Queue A) → Dict (Queue A)
  deliver frame q queues = elim (lookup q queues) [
    | none ↦ queues
    | some queue ↦ insert q (offer frame queue) queues
  ]

  -- for q in self._subscribers
  unfoldable pub deliver_all : A → List ℕ → Dict (Queue A) → Dict (Queue A)
  deliver_all frame [] queues = queues
  deliver_all frame (q ∷ qs) queues = deliver_all frame qs (deliver frame q queues)

  unfoldable pub send : A → VirtualCanBus A → Result (VirtualCanBus A)
  send frame bus =
      if bus.is_open
      then ok (record bus { queues = deliver_all frame bus.subscribers bus.queues })
      else raise runtime_error

  unfoldable pub create_subscriber : ℕ → VirtualCanBus A → VirtualCanBus A × ℕ
  create_subscriber maxsize bus =
      let q = bus.next in
      (
        record bus {
          subscribers = bus.subscribers ++ q ∷ [];
          queues = insert q (record { maxsize = maxsize; items = [] }) bus.queues;
          next = suc q;
        },
        q,
      )

  unfoldable pub remove_subscriber : ℕ → VirtualCanBus A → VirtualCanBus A
  remove_subscriber q bus =
      if contains_id q bus.subscribers
      then record bus { subscribers = remove_id q bus.subscribers }
      else bus

  unfoldable pub close : VirtualCanBus A → VirtualCanBus A
  close bus = record bus { is_open = false; subscribers = [] }

  -- A caller that sends frames one after the other; the first raise ends it.
  unfoldable pub send_list : List A → VirtualCanBus A → Result (VirtualCanBus A)
  send_list [] bus = ok bus
  send_list (frame ∷ frames) bus = elim (send frame bus) [
    | ok bus' ↦ send_list frames bus'
    | raise e ↦ raise e
  ]
