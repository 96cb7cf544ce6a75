-- ===== src/Attacks.antt =====
-- src/attacks/attack_suite.py: `CANAttackSuite`. The random generator and the clock are parameters;
-- the pauses between frames are left out, since they change no state.
pub mod Injection
pub mod Crafting
mod Tests
use can_sentinental.Prelude.{
  ℕ, zero, suc, ◌+◌, ◌≤◌, Bool, true, false, List, [], ◌∷◌, ◌++◌, Option, none, some, if◌then◌else◌,
  Error, Result, ok, raise, ◌>>=◌, replicate,
}
use can_sentinental.Prelude.Int.{ℤ, pos}
use can_sentinental.Struct.{Bytes, big, pack}
use can_sentinental.Floats.{FloatOps}
use can_sentinental.Frame.{CanFrame, new_frame}
use can_sentinental.Ids.{can_id_brake_override, can_id_engine_rpm}
use can_sentinental.Callbacks.{Callback}
use can_sentinental.Bus.{VirtualCanBus, send}

-- random.randint(a, b) on the generator's state.
abbrev pub Randint : Type 0 → Type 0
Randint G = ℕ → ℕ → G → ℕ × G

-- Both ends belong to the range.
pub record IsRandint {G : Type 0} (randint : Randint G) : Type 0 where
  pub low : (a b : ℕ) (g : G) → a ≤ b → a ≤ (randint a b g).0
  pub high : (a b : ℕ) (g : G) → a ≤ b → (randint a b g).0 ≤ b

module _ {F : Type 0} where
  -- CANFrame(can_id, data, dlc, timestamp=now)
  unfoldable pub frame_of : F → ℕ → Bytes → ℕ → CanFrame F
  unfolding new_frame
  frame_of now can_id bytes dlc = new_frame now can_id bytes (record {
    given_dlc = some dlc;
    extended = false;
    error = false;
    rtr = false;
    given_timestamp = some now;
  })

  unfoldable pub craft_flood_frame : ℕ → F → CanFrame F
  unfolding frame_of
  craft_flood_frame target_id now = frame_of now target_id (replicate 8 0) 8

  unfoldable pub craft_spoof_brake_frame : ℤ → Bool → F → Result (CanFrame F)
  unfolding frame_of
  craft_spoof_brake_frame brake_pct abs_active now = do
    payload ← pack big (
        (1, brake_pct)
        ∷ (1, pos (if abs_active then 1 else 0))
        ∷ (1, pos 0)
        ∷ (1, pos 0)
        ∷ (1, pos 0)
        ∷ (1, pos 0)
        ∷ [])
    ok (frame_of now can_id_brake_override payload 6)

  unfoldable pub craft_spoof_engine_kill_frame : F → Result (CanFrame F)
  unfolding frame_of
  craft_spoof_engine_kill_frame now = do
    payload ← pack big ((2, pos 0) ∷ (1, pos 0) ∷ (1, pos 0) ∷ [])
    ok (frame_of now can_id_engine_rpm payload 4)

module _ {G : Type 0} (randint : Randint G) where
  -- bytes(random.randint(0, 255) for _ in range(n))
  unfoldable pub random_bytes : ℕ → G → Bytes × G
  random_bytes zero g = ([], g)
  random_bytes (suc n) g =
      let (b, g') = randint 0 255 g in let (bs, g'') = random_bytes n g' in (b ∷ bs, g'')

  unfoldable pub craft_fuzzing_frame : {F : Type 0} → F → G → CanFrame F × G
  unfolding random_bytes frame_of
  craft_fuzzing_frame now g =
      let (rand_id, g1) = randint 0x001 0x7FE g in
      let (dlc, g2) = randint 1 8 g1 in
      let (bytes, g3) = random_bytes dlc g2 in (frame_of now rand_id bytes dlc, g3)

-- What an injection acts on: the bus, the generator, the callback's world, and the number of
-- frames crafted so far, by which the clock is read.
pub record Scene (W F G : Type 0) : Type 0 where
  pub bus : VirtualCanBus (CanFrame F)
  pub rng : G
  pub world : W
  pub crafted : ℕ

module _ {W F : Type 0} where
  -- if callback: callback(frame)
  unfoldable pub notify : Option (Callback W (CanFrame F)) → CanFrame F → W → Result (Unit {0}) × W
  notify none frame w = (ok tt, w)
  notify (some cb) frame w = cb frame w

module _ {W F G : Type 0} (callback : Option (Callback W (CanFrame F))) where
  -- From the result of sending on: the callback.
  unfoldable pub after_send :
      CanFrame F
      → Result (VirtualCanBus (CanFrame F))
      → Scene W F G
      → Result (CanFrame F) × Scene W F G
  unfolding notify
  after_send frame (raise e) s = (raise e, s)
  after_send frame (ok bus) s =
      let (r, w) = notify callback frame s.world in
      (do _ ← r; ok frame, record s { bus = bus; world = w })

  -- From the crafted frame on.
  unfoldable pub after_craft : Result (CanFrame F) → Scene W F G → Result (CanFrame F) × Scene W F G
  unfolding after_send
  after_craft (raise e) s = (raise e, s)
  after_craft (ok frame) s = after_send frame (send frame s.bus) s

-- The three loops, which differ in the frame that they craft.
module _ {W F G : Type 0} (clock : ℕ → F) (callback : Option (Callback W (CanFrame F)))
    (craft : F → G → Result (CanFrame F) × G) where
  -- The body of the loop.
  unfoldable pub round : Scene W F G → Result (CanFrame F) × Scene W F G
  unfolding after_craft
  round s =
      let (crafted, g) = craft (clock s.crafted) s.rng in
      after_craft callback crafted (record s { rng = g; crafted = s.crafted + 1 })

  -- for _ in range(count): the frames that were injected, or what was raised.
  unfoldable pub inject : ℕ → Scene W F G → Result (List (CanFrame F)) × Scene W F G
  inject zero s = (ok [], s)
  inject (suc count) s =
      let (r, s') = round s in
      let (rest, s'') = inject count s' in
      elim r [ raise e ↦ (raise e, s') | ok frame ↦ (do frames ← rest; ok (frame ∷ frames), s'') ]

module _ {W F G : Type 0} (clock : ℕ → F) (callback : Option (Callback W (CanFrame F))) where
  unfoldable pub inject_dos_flood : ℕ → ℕ → Scene W F G → Result (List (CanFrame F)) × Scene W F G
  unfolding inject round craft_flood_frame
  inject_dos_flood count target_id =
      inject clock callback (λ now g. (ok (craft_flood_frame target_id now), g)) count

  unfoldable pub inject_spoof_brake : ℕ → Scene W F G → Result (List (CanFrame F)) × Scene W F G
  unfolding inject round craft_spoof_brake_frame
  inject_spoof_brake count =
      inject clock callback (λ now g. (craft_spoof_brake_frame (pos 100) true now, g)) count

  unfoldable pub inject_fuzzing :
      Randint G → ℕ → Scene W F G → Result (List (CanFrame F)) × Scene W F G
  unfolding inject round craft_fuzzing_frame
  inject_fuzzing randint count =
      inject clock callback
        (λ now g. let (frame, g') = craft_fuzzing_frame randint now g in (ok frame, g')) count
