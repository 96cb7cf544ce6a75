-- ===== src/Bus/Invariant.antt =====
-- src/sim/bus_emulator.py: the invariant of `VirtualCANBus`, kept by every method.
use mathlib.Core.Option
use mathlib.Core.Path.{subst}
use can_sentinental.Prelude.{
  ℕ, ◌≤◌, ◌<◌, ◌≡◌, refl, true, false, List, [], ◌∷◌, ◌++◌, none, some, length, ◌==◌, ◌||◌,
  if◌then◌else◌, ok, arith, length-append, Bool-cases, Option-cases, inl, inr,
}
use can_sentinental.Prelude.Dict.{Dict, lookup, lookup-insert}
use can_sentinental.Bus.{
  Queue, VirtualCanBus, new_bus, offer, send, create_subscriber, contains_id, remove_id,
  remove_subscriber, close,
}
use can_sentinental.Bus.Delivery.{Distinct, lookup-send}

abbrev pub IsBounded : {A : Type 0} → Queue A → Type 0
IsBounded q = 0 < q.maxsize → length q.items ≤ q.maxsize

pub record IsWellFormed {A : Type 0} (bus : VirtualCanBus A) : Type 0 where
  pub distinct : Distinct bus.subscribers
  pub allocated :
      (j : ℕ)
      → contains_id j bus.subscribers ≡ true
      → (q : Queue A) × (lookup j bus.queues ≡ some q)
  pub fresh : (j : ℕ) → bus.next ≤ j → lookup j bus.queues ≡ none
  pub bounded : (j : ℕ) (q : Queue A) → lookup j bus.queues ≡ some q → IsBounded q

contains_id-append :
    (j q : ℕ) (ps : List ℕ) → contains_id j (ps ++ q ∷ []) ≡ (contains_id j ps || q == j)
contains_id-append j q [] = ground arith
contains_id-append j q (p ∷ ps) = ground (arith, contains_id-append j q ps)

Distinct-append :
    (q : ℕ) (ps : List ℕ) → Distinct ps → contains_id q ps ≡ false → Distinct (ps ++ q ∷ [])
Distinct-append q [] d h = (refl, tt)
Distinct-append q (p ∷ ps) d h =
    (ground (arith, contains_id-append p q ps), Distinct-append q ps d.1 (ground arith))

contains_id-remove_id :
    (j q : ℕ) (ps : List ℕ) → contains_id j ps ≡ false → contains_id j (remove_id q ps) ≡ false
contains_id-remove_id j q [] h = refl
contains_id-remove_id j q (p ∷ ps) h = ground (arith, contains_id-remove_id j q ps)

remove_id-Distinct : (q : ℕ) (ps : List ℕ) → Distinct ps → Distinct (remove_id q ps)
remove_id-Distinct q [] d = tt
remove_id-Distinct q (p ∷ ps) d = elim (Bool-cases (p == q)) [
  | inl e ↦ rw e d.1
  | inr e ↦ rw e (contains_id-remove_id p q ps d.0, remove_id-Distinct q ps d.1)
]

-- After the removal the identity is gone, and the others are as before.
pub contains_id-remove_id_lem :
    (j q : ℕ) (ps : List ℕ)
    → Distinct ps
    → contains_id j (remove_id q ps) ≡ (if q == j then false else contains_id j ps)
contains_id-remove_id_lem j q [] d = ground arith
contains_id-remove_id_lem j q (p ∷ ps) d = ground (arith, contains_id-remove_id_lem j q ps d.1)

module _ {A : Type 0} where
  pub new_bus-IsWellFormed : IsWellFormed (new_bus {A = A})
  unfolding lookup
  new_bus-IsWellFormed = record {
    distinct = tt;
    allocated = λ j h. absurd (ground arith);
    fresh = λ j h. refl;
    bounded = λ j q h. absurd (ground arith);
  }

  offer-IsBounded : (frame : A) (q : Queue A) → IsBounded q → IsBounded (offer frame q)
  unfolding offer
  offer-IsBounded frame q h p = ground (arith, length-append q.items (frame ∷ []))

  offered-IsWellFormed :
      (frame : A) (bus : VirtualCanBus A) (queues : Dict (Queue A))
      → IsWellFormed bus
      → ((j : ℕ)
          → lookup j queues ≡ (
              if contains_id j bus.subscribers
              then Option.map (offer frame) (lookup j bus.queues)
              else lookup j bus.queues))
      → IsWellFormed (record bus { queues = queues })
  offered-IsWellFormed frame bus queues w at = record {
    distinct = w.distinct;
    allocated = λ j h. let (q, e) = w.allocated j h in (offer frame q, ground (arith, at j));
    fresh = λ j h. ground (arith, at j, w.fresh j h);
    bounded = λ j q h. elim (Option-cases (lookup j bus.queues)) [
      | inl e ↦ absurd (ground (arith, at j))
      | inr (old, e) ↦ ground (arith, at j, w.bounded j old e, offer-IsBounded frame old)
    ];
  }

  pub send-IsWellFormed :
      (frame : A) (bus : VirtualCanBus A) {bus' : VirtualCanBus A}
      → IsWellFormed bus
      → send frame bus ≡ ok bus'
      → IsWellFormed bus'
  unfolding send
  send-IsWellFormed frame bus {bus'} w h =
      let opened : bus.is_open ≡ true = ground arith in
      let (queues, sent, at) = lookup-send frame bus opened w.distinct in
      let same : record bus { queues = queues } ≡ bus' = cc (sent, h) in
      subst IsWellFormed same (offered-IsWellFormed frame bus queues w at)

  not-contains_id-next :
      (bus : VirtualCanBus A) → IsWellFormed bus → contains_id bus.next bus.subscribers ≡ false
  not-contains_id-next bus w = elim (Bool-cases (contains_id bus.next bus.subscribers)) [
    | inl e ↦ let (q, at) = w.allocated bus.next e in absurd (ground (arith, w.fresh bus.next))
    | inr e ↦ e
  ]

  pub create_subscriber-IsWellFormed :
      (maxsize : ℕ) (bus : VirtualCanBus A)
      → IsWellFormed bus
      → IsWellFormed (create_subscriber maxsize bus).0
  unfolding create_subscriber
  create_subscriber-IsWellFormed maxsize bus w =
      let q : Queue A = record { maxsize = maxsize; items = [] } in
      record {
        distinct = Distinct-append bus.next bus.subscribers w.distinct (not-contains_id-next bus w);
        allocated = λ j h. elim (Bool-cases (bus.next == j)) [
          | inl e ↦ (q, rw (lookup-insert, e))
          | inr e ↦
              let (p, at) =
                w.allocated j (ground (arith, contains_id-append j bus.next bus.subscribers)) in
              (p, rw (lookup-insert, e, at))
        ];
        fresh = λ j h. ground (arith, lookup-insert bus.next j q bus.queues, w.fresh j);
        bounded = λ j p h b. ground (arith, lookup-insert bus.next j q bus.queues, w.bounded j p);
      }

  pub remove_subscriber-IsWellFormed :
      (q : ℕ) (bus : VirtualCanBus A) → IsWellFormed bus → IsWellFormed (remove_subscriber q bus)
  unfolding remove_subscriber
  remove_subscriber-IsWellFormed q bus w = elim (Bool-cases (contains_id q bus.subscribers)) [
    | inl e ↦ rw e (record {
      distinct = remove_id-Distinct q bus.subscribers w.distinct;
      allocated = λ j h.
          w.allocated j (ground (arith, contains_id-remove_id_lem j q bus.subscribers w.distinct));
      fresh = w.fresh;
      bounded = w.bounded;
    })
    | inr e ↦ rw e w
  ]

  pub close-IsWellFormed : (bus : VirtualCanBus A) → IsWellFormed bus → IsWellFormed (close bus)
  unfolding close
  close-IsWellFormed bus w = record {
    distinct = tt;
    allocated = λ j h. absurd (ground arith);
    fresh = w.fresh;
    bounded = w.bounded;
  }
