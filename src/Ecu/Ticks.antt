-- ===== src/Ecu/Ticks.antt =====
-- src/sim/ecu_generator.py: what a round of an ECU's loop sends, and to whom.
use mathlib.Core.Option
use can_sentinental.Prelude.{
  ok-injective, ℕ, ◌≡◌, refl, ap, ◌∙◌, true, List, [], ◌∷◌, ◌++◌, if◌then◌else◌, Result, ok, raise,
  bind-ok, Result-cases, inl, inr, sym, arith,
}
use can_sentinental.Prelude.Dict.{Dict, lookup}
use can_sentinental.Floats.{FloatOps}
use can_sentinental.Frame.{CanFrame}
use can_sentinental.Callbacks.{Callback, dispatch}
use can_sentinental.Bus.{VirtualCanBus, Queue, send, send_list, contains_id}
use can_sentinental.Bus.Delivery.{Distinct, kept, send_list-delivers}
use can_sentinental.Sim.{sequence}
use can_sentinental.Ecu.{
  VehicleEcuSimulator, Ecu, after_bus, broadcast, next_call, broadcast_all, emit, calls, tick_ecu,
}

module _ {A : Type 0} where
  send_list-cons :
      (x : A) (xs : List A) (bus : VirtualCanBus A) {end : VirtualCanBus A}
      → send_list (x ∷ xs) bus ≡ ok end
      → (b : VirtualCanBus A) × (send x bus ≡ ok b) × (send_list xs b ≡ ok end)
  unfolding send_list
  send_list-cons x xs bus h =
      let rest = λ (r : Result (VirtualCanBus A)). elim r as (λ _. Result (VirtualCanBus A)) [
        | ok b ↦ send_list xs b
        | raise e ↦ raise e
      ] in
      elim (Result-cases (send x bus)) [
        | inl (b, e) ↦ (b, e, ap rest (sym e) ∙ h)
        | inr (err, e) ↦ let raised = ap rest (sym e) ∙ h in absurd (ground arith)
      ]

  send_list-append :
      (xs ys : List A) (bus : VirtualCanBus A) {end : VirtualCanBus A}
      → send_list (xs ++ ys) bus ≡ ok end
      → (middle : VirtualCanBus A) × (send_list xs bus ≡ ok middle) × (send_list ys middle ≡ ok end)
  unfolding send_list
  send_list-append [] ys bus h = (bus, refl, h)
  send_list-append (x ∷ xs) ys bus h =
      let (b, first, later) = send_list-cons x (xs ++ ys) bus h in
      let (middle, front, back) = send_list-append xs ys b later in
      (
        middle,
        ap
              (λ (r : Result (VirtualCanBus A)). elim r as (λ _. Result (VirtualCanBus A)) [
                | ok b ↦ send_list xs b
                | raise e ↦ raise e
              ])
              first
            ∙ front,
        back,
      )

module _ {W F : Type 0} where
  -- The world after callbacks on each of the frames.
  unfoldable pub told : List (Callback W (CanFrame F)) → List (CanFrame F) → W → W
  told cbs [] w = w
  told cbs (frame ∷ frames) w = told cbs frames (dispatch cbs frame w).world

  told-append :
      (cbs : List (Callback W (CanFrame F))) (xs ys : List (CanFrame F)) (w : W)
      → told cbs (xs ++ ys) w ≡ told cbs ys (told cbs xs w)
  unfolding told
  told-append cbs [] ys w = refl
  told-append cbs (x ∷ xs) ys w = told-append cbs xs ys (dispatch cbs x w).world

  -- What sharing the frames leaves.
  abbrev shared :
      List (CanFrame F)
      → VirtualCanBus (CanFrame F)
      → VehicleEcuSimulator W F
      → VehicleEcuSimulator W F
  shared frames bus e = record e { bus = bus; world = told e.callbacks frames e.world }

  broadcast_all-send_list :
      (frames : List (CanFrame F)) (e : VehicleEcuSimulator W F) {bus : VirtualCanBus (CanFrame F)}
      → send_list frames e.bus ≡ ok bus
      → broadcast_all frames e ≡ (ok tt, shared frames bus e)
  unfolding broadcast_all send_list told broadcast after_bus
  broadcast_all-send_list [] e h = λ i. (ok tt, record e { bus = ok-injective h i })
  broadcast_all-send_list (frame ∷ frames) e h =
      let (b, first, later) = send_list-cons frame frames e.bus h in
      let e' = record e { bus = b; world = (dispatch e.callbacks frame e.world).world } in
      ap (λ r. next_call (after_bus r frame e) (broadcast_all frames)) first
      ∙ broadcast_all-send_list frames e' later

  broadcast_all-nil : (e : VehicleEcuSimulator W F) → (ok tt, e) ≡ broadcast_all [] e
  unfolding broadcast_all
  broadcast_all-nil e = refl

  emit-sequence :
      (cs : List (Result (List (CanFrame F)))) (e : VehicleEcuSimulator W F)
      {frames : List (CanFrame F)} {bus : VirtualCanBus (CanFrame F)}
      → sequence cs ≡ ok frames
      → send_list frames e.bus ≡ ok bus
      → emit cs e ≡ (ok tt, shared frames bus e)
  unfolding emit
  emit-sequence [] e {frames} {bus} h sent =
      let none_left : [] ≡ frames = ok-injective h in
      broadcast_all-nil e
      ∙ broadcast_all-send_list [] e (ap (λ q. send_list q e.bus) none_left ∙ sent)
      ∙ ap (λ q. (ok tt, shared q bus e)) none_left
  emit-sequence (raise err ∷ cs) e h sent = absurd (ground arith)
  emit-sequence (ok fs ∷ cs) e {frames} {bus} h sent =
      let (rest, joined, others) = bind-ok (sequence cs) _ h in
      let whole : fs ++ rest ≡ frames = ok-injective joined in
      let (middle, front, back) =
        send_list-append fs rest e.bus (ap (λ q. send_list q e.bus) whole ∙ sent) in
      ap (λ q. next_call q (emit cs)) (broadcast_all-send_list fs e front)
      ∙ emit-sequence cs (shared fs middle e) others back
      ∙ ap (λ w. (ok tt, record e { bus = bus; world = w }))
          (sym (told-append e.callbacks fs rest e.world))
      ∙ ap (λ q. (ok tt, shared q bus e)) whole

module _ {W F : Type 0} ⦃fl : FloatOps F⦄ where
  -- A round of any ECU's loop, on an open bus without double registration: where the data of its
  -- frames can be packed, it does not raise, every subscriber's queue gets the round's frames in
  -- their order, as many as fit, every callback is called on each of them whatever callbacks raise,
  -- and nothing else changes.
  pub tick_ecu-delivers :
      (ecu : Ecu) (tick : ℕ) (now : F) (e : VehicleEcuSimulator W F) {frames : List (CanFrame F)}
      → sequence (calls ecu tick now e) ≡ ok frames
      → e.bus.is_open ≡ true
      → Distinct e.bus.subscribers
      → (queues : Dict (Queue (CanFrame F))) × (tick_ecu ecu tick now e ≡ (
        ok tt,
        record e {
          bus = record e.bus { queues = queues };
          world = told e.callbacks frames e.world;
        },
      ))
        × ((j : ℕ)
            → lookup j queues ≡ (
                if contains_id j e.bus.subscribers
                then Option.map (kept frames) (lookup j e.bus.queues)
                else lookup j e.bus.queues))
  unfolding tick_ecu
  tick_ecu-delivers ecu tick now e {frames} packed opened distinct =
      let (queues, sent, held) = send_list-delivers frames e.bus opened distinct in
      (queues, emit-sequence (calls ecu tick now e) e packed sent, held)
