-- ===== src/Attacks/Injection.antt =====
-- src/attacks/attack_suite.py: what an injection leaves on the bus.
use can_sentinental.Prelude.{
  ℕ, zero, suc, ◌+◌, ◌<◌, ◌≡◌, refl, sym, ap, ◌∙◌, true, List, [], ◌∷◌, length, Option, none, some,
  Result, ok, raise, ◌>>=◌, arith, All, replicate,
}
use mathlib.Core.Option
use can_sentinental.Prelude.Dict.{lookup}
use can_sentinental.Frame.{CanFrame}
use can_sentinental.Callbacks.{Callback}
use can_sentinental.Bus.{VirtualCanBus, send, send_list, contains_id}
use can_sentinental.Bus.Delivery.{Distinct, kept, lookup-send, send_list-delivers}
use can_sentinental.Attacks.{
  Randint, IsRandint, Scene, notify, after_send, after_craft, round, inject, craft_flood_frame,
  craft_fuzzing_frame, inject_dos_flood, inject_fuzzing,
}
use can_sentinental.Attacks.Crafting.{IsStandard, craft_fuzzing_frame-IsStandard}

module _ {A : Type 0} where
  send_list-cons :
      (frame : A) (frames : List A) (bus : VirtualCanBus A) {bus' : VirtualCanBus A}
      {end : Result (VirtualCanBus A)}
      → send frame bus ≡ ok bus'
      → send_list frames bus' ≡ end
      → send_list (frame ∷ frames) bus ≡ end
  unfolding send_list
  send_list-cons frame frames bus sent rest = rw (sent, send_list) rest

  -- What frames sent one after the other leave in a subscriber's queue.
  delivered :
      (frames : List A) (bus : VirtualCanBus A) {bus' : VirtualCanBus A}
      → send_list frames bus ≡ ok bus'
      → bus.is_open ≡ true
      → Distinct bus.subscribers
      → (j : ℕ) → contains_id j bus.subscribers ≡ true
      → lookup j bus'.queues ≡ Option.map (kept frames) (lookup j bus.queues)
  delivered frames bus {bus'} sent o d j h =
      let (queues, sent', held) = send_list-delivers frames bus o d in
      let same : record bus { queues = queues } ≡ bus' = cc in
      ap (λ (b : VirtualCanBus A). lookup j b.queues) (sym same) ∙ (held j ∙ rw h)

-- A callback that does not raise.
abbrev pub IsQuiet : {W F : Type 0} → Option (Callback W (CanFrame F)) → Type 0
IsQuiet {W} {F} none = Unit {0}
IsQuiet {W} {F} (some cb) = (f : CanFrame F) (w : W) → (cb f w).0 ≡ ok tt

module _ {W F G : Type 0} where
  -- The bus accepts frames.
  pub record IsReady (s : Scene W F G) : Type 0 where
    pub opened : s.bus.is_open ≡ true
    pub distinct : Distinct s.bus.subscribers

module _ {W F : Type 0} where
  notify-IsQuiet :
      (callback : Option (Callback W (CanFrame F))) (f : CanFrame F) (w : W)
      → IsQuiet callback
      → (notify callback f w).0 ≡ ok tt
  unfolding notify
  notify-IsQuiet none f w h = refl
  notify-IsQuiet (some cb) f w h = h f w

module _ {W F G : Type 0} (clock : ℕ → F) (callback : Option (Callback W (CanFrame F)))
    (craft : F → G → Result (CanFrame F) × G) (quiet : IsQuiet callback) (P : CanFrame F → Type 0)
    (crafts : (now : F) (g : G) → (f : CanFrame F) × ((craft now g).0 ≡ ok f) × P f) where
  round-sends :
      (s : Scene W F G)
      → IsReady s
      → (f : CanFrame F) × (s' : Scene W F G) × (round clock callback craft s ≡ (ok f, s'))
        × P f
        × (send f s.bus ≡ ok s'.bus)
        × IsReady s'
  unfolding round after_craft after_send
  round-sends s r =
      let (f, crafted, p) = crafts (clock s.crafted) s.rng in
      let (queues, sent, _) = lookup-send f s.bus r.opened r.distinct in
      let told = notify-IsQuiet callback f s.world quiet in
      let bus = record s.bus { queues = queues } in
      let g = (craft (clock s.crafted) s.rng).1 in
      let s1 : Scene W F G = record s { rng = g; crafted = s.crafted + 1 } in
      let s2 : Scene W F G = record s1 { bus = bus; world = (notify callback f s.world).1 } in
      (
        f,
        s2,
        ap (λ c. after_craft callback c s1) crafted
            ∙ (ap (λ b. after_send callback f b s1) sent
                ∙ ap (λ (t : Result (Unit {0})). (do _ ← t; ok f, s2)) told),
        p,
        sent,
        record { opened = r.opened; distinct = r.distinct },
      )

  inject-cons :
      (count : ℕ) (s : Scene W F G) {f : CanFrame F} {fs : List (CanFrame F)} {s1 s2 : Scene W F G}
      → round clock callback craft s ≡ (ok f, s1)
      → inject clock callback craft count s1 ≡ (ok fs, s2)
      → inject clock callback craft (suc count) s ≡ (ok (f ∷ fs), s2)
  unfolding inject
  inject-cons count s {f} {fs} {s1} {s2} first rest =
      ap
        (λ (q : Result (CanFrame F) × Scene W F G).
          elim q.0 as (λ _. Result (List (CanFrame F)) × Scene W F G) [
            | raise e ↦ (raise e, q.1)
            | ok frame ↦
                let (rest, s') = inject clock callback craft count q.1 in
                (do frames ← rest; ok (frame ∷ frames), s')
          ])
        first
      ∙ ap
          (λ (q : Result (List (CanFrame F)) × Scene W F G).
            let added : Result (List (CanFrame F)) = (do frames ← q.0; ok (f ∷ frames)) in
            (added, q.1))
          rest

  inject-sends :
      (count : ℕ) (s : Scene W F G)
      → IsReady s
      → (fs : List (CanFrame F)) × (s' : Scene W F G) × (inject clock callback craft count s
          ≡ (ok fs, s'))
        × (length fs ≡ count)
        × All P fs
        × (send_list fs s.bus ≡ ok s'.bus)
  inject-sends zero s r = ([], s, unfold inject in refl, refl, tt, unfold send_list in refl)
  inject-sends (suc count) s r =
      let (f, s1, first, p, sent, ready) = round-sends s r in
      let (fs, s2, rest, many, all, sent') = inject-sends count s1 ready in
      (
        f ∷ fs,
        s2,
        inject-cons count s first rest,
        omega (arith, many),
        (p, all),
        send_list-cons f fs s.bus sent sent',
      )

module _ {W F G : Type 0} (clock : ℕ → F) (callback : Option (Callback W (CanFrame F))) where
  -- On an open bus without double registration, and with a callback that does not raise, a flood
  -- injects exactly the asked number of frames, each on the target with eight zero bytes, and none
  -- is lost before the subscribers' queues: every subscriber's queue ends with the frames, all of
  -- them if it is unbounded and as many as fit otherwise.
  pub inject_dos_flood-delivers :
      (count target_id : ℕ) (s : Scene W F G)
      → IsQuiet callback
      → IsReady s
      → (fs : List (CanFrame F)) × (s' : Scene W F G) × (inject_dos_flood clock callback count
            target_id s
          ≡ (ok fs, s'))
        × (length fs ≡ count)
        × All (λ f. (f.can_id ≡ target_id) × (f.payload ≡ replicate 8 0)) fs
        × ((j : ℕ)
            → contains_id j s.bus.subscribers ≡ true
            → lookup j s'.bus.queues ≡ Option.map (kept fs) (lookup j s.bus.queues))
  unfolding inject_dos_flood craft_flood_frame
  inject_dos_flood-delivers count target_id s quiet ready =
      let (fs, s', e, many, all, sent) =
        inject-sends clock callback (λ now g. (ok (craft_flood_frame target_id now), g)) quiet
          (λ f. (f.can_id ≡ target_id) × (f.payload ≡ replicate 8 0))
          (λ now g. (craft_flood_frame target_id now, refl, (refl, refl))) count s ready in
      (fs, s', e, many, all, delivered fs s.bus sent ready.opened ready.distinct)

  -- On an open bus without double registration, with a callback that does not raise or with none,
  -- and where `randint` keeps its range, a fuzzing attack injects exactly the asked number of
  -- frames, each a standard frame with one byte at least, on any identifier but 0 and 0x7FF. The
  -- queue of every subscriber ends with the frames in their order, all of them if it is unbounded
  -- and as many as fit otherwise.
  pub inject_fuzzing-delivers :
      (randint : Randint G) (count : ℕ) (s : Scene W F G)
      → IsRandint randint
      → IsQuiet callback
      → IsReady s
      → (fs : List (CanFrame F)) × (s' : Scene W F G) × (inject_fuzzing clock callback randint count
            s
          ≡ (ok fs, s'))
        × (length fs ≡ count)
        × All (λ f. IsStandard f × (0 < f.can_id) × (f.can_id < 0x7FF) × (0 < f.dlc)) fs
        × ((j : ℕ)
            → contains_id j s.bus.subscribers ≡ true
            → lookup j s'.bus.queues ≡ Option.map (kept fs) (lookup j s.bus.queues))
  unfolding inject_fuzzing
  inject_fuzzing-delivers randint count s laws quiet ready =
      let (fs, s', e, many, all, sent) =
        inject-sends clock callback
          (λ now g. let (frame, g') = craft_fuzzing_frame randint now g in (ok frame, g')) quiet
          (λ f. IsStandard f × (0 < f.can_id) × (f.can_id < 0x7FF) × (0 < f.dlc))
          (λ now g. (
            (craft_fuzzing_frame randint now g).0,
            refl,
            craft_fuzzing_frame-IsStandard randint laws now g,
          ))
          count s ready in
      (fs, s', e, many, all, delivered fs s.bus sent ready.opened ready.distinct)
