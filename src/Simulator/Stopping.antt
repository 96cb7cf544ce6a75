-- ===== src/Simulator/Stopping.antt =====
-- src/sim/ecu_generator.py: the threads end after `stop`, and what they still send.
use mathlib.Core.Path.{subst}
use can_sentinental.Prelude.{
  ℕ, ◌+◌, ◌-◌, ◌≤◌, ◌==◌, ◌≡◌, refl, sym, ap, ◌∙◌, Bool, true, false, List, [], ◌∷◌, length,
  if◌then◌else◌, arith, Result, ok, raise, Bool-cases, inl, inr, All, count_if,
}
use can_sentinental.Prelude.Slots.{
  slot, set_slot, slot-set_slot_other, rank-set_slot, slot-All, set_slot-All,
}
use can_sentinental.Floats.{FloatOps}
use can_sentinental.Frame.{CanFrame}
use can_sentinental.Ecu.{VehicleEcuSimulator, Ecu, emit}
use can_sentinental.Simulator.{
  Thread, physics_top, ecu_top, sending, ended, Simulator, Action, call_start, call_stop, go_on,
  thread_at, stop, after_emit, step_thread, perform, run,
}

-- The steps that a thread has left once the flag is false: what its round still sends, the round's
-- end, and the loop's test.
abbrev pub steps_left : {F : Type 0} → Thread F → ℕ
steps_left (physics_top time_sec) = 1
steps_left (ecu_top ecu tick) = 1
steps_left (sending ecu tick cs) = length cs + 2
steps_left ended = 0

-- The thread has not begun a round.
abbrev pub IsBetween : {F : Type 0} → Thread F → Type 0
IsBetween (physics_top time_sec) = Unit
IsBetween (ecu_top ecu tick) = Unit
IsBetween (sending ecu tick cs) = ⊥
IsBetween ended = Unit

abbrev pub is_step_of : {F : Type 0} → ℕ → Action F → Bool
is_step_of i call_start = false
is_step_of i call_stop = false
is_step_of i (go_on j now) = i == j

abbrev pub is_start : {F : Type 0} → Action F → Bool
is_start call_start = true
is_start call_stop = false
is_start (go_on j now) = false

ended-steps_left : {F : Type 0} (t : Thread F) → steps_left t ≤ 0 → t ≡ ended
ended-steps_left (physics_top time_sec) h = absurd (omega arith)
ended-steps_left (ecu_top ecu tick) h = absurd (omega arith)
ended-steps_left (sending ecu tick cs) h = absurd (omega arith)
ended-steps_left ended h = refl

module _ {W F : Type 0} ⦃fl : FloatOps F⦄ where
  after_emit-steps_left :
      (ecu : Ecu) (tick : ℕ) (cs : List (Result (List (CanFrame F))))
      (q : Result (Unit {0}) × VehicleEcuSimulator W F)
      → steps_left (after_emit ecu tick cs q).0 ≤ length cs + 2
  unfolding after_emit
  after_emit-steps_left ecu tick cs (raise e, shared) = omega arith
  after_emit-steps_left ecu tick cs (ok _, shared) = omega arith

  -- A step takes one off, and a thread that has not begun a round changes nothing.
  step_thread-steps_left :
      (now : F) (t : Thread F) (e : VehicleEcuSimulator W F)
      → steps_left (step_thread false now t e).0 ≤ steps_left t - 1
  unfolding step_thread
  step_thread-steps_left now (physics_top time_sec) e = omega arith
  step_thread-steps_left now (ecu_top ecu tick) e = omega arith
  step_thread-steps_left now (sending ecu tick []) e = omega arith
  step_thread-steps_left now (sending ecu tick (c ∷ cs)) e =
      omega (arith, after_emit-steps_left ecu tick cs (emit (c ∷ []) e))
  step_thread-steps_left now ended e = omega arith

  step_thread-IsBetween :
      (now : F) (t : Thread F) (e : VehicleEcuSimulator W F)
      → IsBetween t
      → (IsBetween (step_thread false now t e).0) × ((step_thread false now t e).1 ≡ e)
  unfolding step_thread
  step_thread-IsBetween now (physics_top time_sec) e h = (tt, refl)
  step_thread-IsBetween now (ecu_top ecu tick) e h = (tt, refl)
  step_thread-IsBetween now (sending ecu tick cs) e h = absurd h
  step_thread-IsBetween now ended e h = (tt, refl)

  perform-steps_left :
      (i : ℕ) (a : Action F) (s : Simulator W F)
      → s.running ≡ false
      → is_start a ≡ false
      → (steps_left (thread_at i (perform a s).threads)
          ≤ steps_left (thread_at i s.threads) - (if is_step_of i a then 1 else 0))
        × ((perform a s).running ≡ false)
  unfolding perform stop
  perform-steps_left i call_start s h starts = absurd (ground arith)
  perform-steps_left i call_stop s h starts = (omega arith, refl)
  perform-steps_left i (go_on j now) s h starts =
      let t = thread_at j s.threads in
      let next = (step_thread s.running now t s.shared).0 in
      let less : steps_left next ≤ steps_left t - 1 =
        rw h (step_thread-steps_left now t s.shared) in
      elim (Bool-cases (i == j)) [
        | inl e ↦
            let own : i ≡ j = ground arith in
            let written = rank-set_slot steps_left ended refl j next s.threads in
            (
              rw e (
                  subst
                    (λ k.
                      steps_left (slot ended k (set_slot j next s.threads))
                      ≤ steps_left (slot ended k s.threads) - 1)
                    (sym own) (omega (arith, written, less))),
              h,
            )
        | inr e ↦ (
          rw e (omega (arith, ap steps_left (slot-set_slot_other ended i j next s.threads e))),
          h,
        )
      ]

  run-steps_left :
      (i : ℕ) (as' : List (Action F)) (s : Simulator W F)
      → s.running ≡ false
      → All (λ a. is_start a ≡ false) as'
      → steps_left (thread_at i (run as' s).threads)
        ≤ steps_left (thread_at i s.threads) - count_if (is_step_of i) as'
  unfolding run
  run-steps_left i [] s h all = omega arith
  run-steps_left i (a ∷ as') s h (starts, all) =
      let (less, stays) = perform-steps_left i a s h starts in
      ground (arith, less, run-steps_left i as' (perform a s) stays all)

  perform-IsBetween :
      (a : Action F) (s : Simulator W F)
      → s.running ≡ false
      → is_start a ≡ false
      → All IsBetween s.threads
      → All IsBetween (perform a s).threads
        × ((perform a s).shared ≡ s.shared)
        × ((perform a s).running ≡ false)
  unfolding perform stop
  perform-IsBetween call_start s h starts between = absurd (ground arith)
  perform-IsBetween call_stop s h starts between = (between, refl, refl)
  perform-IsBetween (go_on j now) s h starts between =
      let t = thread_at j s.threads in
      let (next, same) =
        step_thread-IsBetween now t s.shared (slot-All IsBetween ended j s.threads tt between) in
      rw h (
        set_slot-All IsBetween j (step_thread false now t s.shared).0 s.threads next between,
        same,
        refl,
      )

  run-IsBetween :
      (as' : List (Action F)) (s : Simulator W F)
      → s.running ≡ false
      → All (λ a. is_start a ≡ false) as'
      → All IsBetween s.threads
      → (run as' s).shared ≡ s.shared
  unfolding run
  run-IsBetween [] s h all between = refl
  run-IsBetween (a ∷ as') s h (starts, all) between =
      let (later, same, stays) = perform-IsBetween a s h starts between in
      run-IsBetween as' (perform a s) stays all later ∙ same

  -- After `stop`, and while `start` is not called again, every thread ends at the latest when it has
  -- made the steps that it has left, whatever the others do in between: none past its loop, one
  -- before the loop's test, and within a round one for each of the calls still to be made, whether
  -- such a call has a frame to send or not, and two more. And where no thread has begun a round, nothing is sent any more, no
  -- callback is called and the vehicle's state stays.
  pub stop_quiets :
      (as' : List (Action F)) (s : Simulator W F)
      → All (λ a. is_start a ≡ false) as'
      → ((i : ℕ)
          → steps_left (thread_at i s.threads) ≤ count_if (is_step_of i) as'
          → thread_at i (run as' (stop s)).threads ≡ ended)
        × (All IsBetween s.threads → (run as' (stop s)).shared ≡ s.shared)
  unfolding stop
  stop_quiets as' s all = (
    λ i enough. ended-steps_left _ (omega (arith, run-steps_left i as' (stop s) refl all)),
    λ between. run-IsBetween as' (stop s) refl all between,
  )
