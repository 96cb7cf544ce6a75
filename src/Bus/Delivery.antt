-- ===== src/Bus/Delivery.antt =====
-- src/sim/bus_emulator.py: what the listeners of a `VirtualCANBus` receive, and its invariant.
use can_sentinental.Prelude.{
  ℕ, zero, suc, ◌-◌, ◌<◌, ◌≡◌, refl, ap, true, false, List, [], ◌∷◌, ◌++◌, length, take, ltb, ◌==◌,
  if◌then◌else◌, ok, arith, length-append, Bool-cases, Option-cases, inl, inr,
}
use can_sentinental.Prelude.Dict.{Dict, lookup, lookup-insert}
use can_sentinental.Bus.{
  Queue, VirtualCanBus, offer, deliver, deliver_all, send, contains_id, send_list,
}
use mathlib.Core.Option
use mathlib.Core.List.{append_assoc, append-nil}

-- No identity stands twice.
abbrev pub Distinct : List ℕ → Type 0
Distinct [] = Unit
Distinct (p ∷ ps) = (contains_id p ps ≡ false) × Distinct ps

module _ {A : Type 0} where
  -- What a queue keeps of the frames that are sent, nobody reading in between: all of them if it
  -- is unbounded, and what fits otherwise.
  abbrev pub kept : List A → Queue A → Queue A
  kept frames q = record q {
    items =
        q.items ++ (if ltb 0 q.maxsize then take (q.maxsize - length q.items) frames else frames);
  }

  lookup-deliver :
      (frame : A) (q j : ℕ) (queues : Dict (Queue A))
      → lookup j (deliver frame q queues)
        ≡ (if q == j then Option.map (offer frame) (lookup j queues) else lookup j queues)
  unfolding deliver
  lookup-deliver frame q j queues = elim (Option-cases (lookup q queues)) [
    | inl e ↦ ground arith
    | inr (queue, e) ↦ ground (arith, lookup-insert q j (offer frame queue) queues)
  ]

  lookup-deliver_all :
      (frame : A) (qs : List ℕ) (j : ℕ) (queues : Dict (Queue A))
      → Distinct qs
      → lookup j (deliver_all frame qs queues)
        ≡ (if contains_id j qs then Option.map (offer frame) (lookup j queues) else lookup j queues)
  unfolding deliver_all
  lookup-deliver_all frame [] j queues d = refl
  lookup-deliver_all frame (q ∷ qs) j queues d = ground (
    arith,
    lookup-deliver_all frame qs j (deliver frame q queues) d.1,
    lookup-deliver frame q j queues,
  )

  pub lookup-send :
      (frame : A) (bus : VirtualCanBus A)
      → bus.is_open ≡ true
      → Distinct bus.subscribers
      → (queues : Dict (Queue A)) × (send frame bus ≡ ok (record bus { queues = queues }))
        × ((j : ℕ)
            → lookup j queues ≡ (
                if contains_id j bus.subscribers
                then Option.map (offer frame) (lookup j bus.queues)
                else lookup j bus.queues))
  unfolding send
  lookup-send frame bus o d = (
    deliver_all frame bus.subscribers bus.queues,
    ground arith,
    λ j. lookup-deliver_all frame bus.subscribers j bus.queues d,
  )

  take-cons-pos : (k : ℕ) (x : A) (xs : List A) → 0 < k → take k (x ∷ xs) ≡ x ∷ take (k - 1) xs
  take-cons-pos zero x xs h = absurd (omega arith)
  take-cons-pos (suc k) x xs h = ap (λ j. x ∷ take j xs) (omega arith)

  take-nil : (n : ℕ) → ◌≡◌ {A = List A} (take n []) []
  take-nil zero = refl
  take-nil (suc n) = refl

  -- One frame more is one offer more.
  kept-offer :
      (frame : A) (frames : List A) (q : Queue A)
      → kept frames (offer frame q) ≡ kept (frame ∷ frames) q
  unfolding offer
  kept-offer frame frames q =
      let n = q.maxsize - length q.items in
      ground (
        arith,
        take-cons-pos n frame frames,
        length-append q.items (frame ∷ []),
        append_assoc q.items (frame ∷ []) frames,
        append_assoc q.items (frame ∷ []) (take (n - 1) frames),
      )

  kept-nil : (q : Queue A) → kept [] q ≡ q
  kept-nil q = elim (Bool-cases (ltb 0 q.maxsize)) [
    | inl b ↦ rw b (rw (take-nil (q.maxsize - length q.items)) (rw append-nil refl))
    | inr b ↦ rw b (rw append-nil refl)
  ]

  -- On an open bus without double registration, sending frames never raises. Every subscriber's
  -- queue ends with the frames in their order, all of them if it is unbounded and as many as fit
  -- otherwise; every other queue, the subscribers and the flag stay as they are.
  pub send_list-delivers :
      (frames : List A) (bus : VirtualCanBus A)
      → bus.is_open ≡ true
      → Distinct bus.subscribers
      → (queues : Dict (Queue A)) × (send_list frames bus ≡ ok (record bus { queues = queues }))
        × ((j : ℕ)
            → lookup j queues ≡ (
                if contains_id j bus.subscribers
                then Option.map (kept frames) (lookup j bus.queues)
                else lookup j bus.queues))
  unfolding send_list
  send_list-delivers [] bus o d = (
    bus.queues,
    refl,
    λ j. elim (Option-cases (lookup j bus.queues)) [
      | inl e ↦ ground arith
      | inr (queue, e) ↦ ground (arith, kept-nil queue)
    ],
  )
  send_list-delivers (frame ∷ frames) bus o d =
      let (queues, sent, now) = lookup-send frame bus o d in
      let (final, rest, later) = send_list-delivers frames (record bus { queues = queues }) o d in
      (
        final,
        rw (sent, send_list) rest,
        λ j. elim (Option-cases (lookup j bus.queues)) [
          | inl e ↦ ground (arith, now j, later j)
          | inr (queue, e) ↦ ground (arith, now j, later j, kept-offer frame frames queue)
        ],
      )
