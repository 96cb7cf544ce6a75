-- ===== src/Attacks/Crafting.antt =====
-- src/attacks/attack_suite.py: what the crafted frames are, and what the parser reads from them.
use can_sentinental.Prelude.{
  ℕ, zero, suc, ◌+◌, ap, ◌≤◌, ◌<◌, ◌≡◌, refl, Bool, true, false, [], ◌∷◌, length, if◌then◌else◌, ok,
  raise, struct_error, arith, ltb, ◌%◌,
}
use can_sentinental.Prelude.Int.{negsuc, pos}
use can_sentinental.Prelude.Text.{codes, decimal}
use can_sentinental.Struct.{Bytes, IsBytes, big, pack}
use can_sentinental.Floats.{FloatOps}
use can_sentinental.Frame.{CanFrame, valid_bytes}
use can_sentinental.Ids.{can_id_brake_override}
use can_sentinental.Signals.{Signals, int, bool, text, decode_signals, decode_brake}
use can_sentinental.Attacks.{
  Randint, IsRandint, frame_of, craft_flood_frame, craft_spoof_brake_frame, random_bytes,
  craft_fuzzing_frame,
}

-- A frame as a CAN controller sends it: an identifier of eleven bits, and up to eight bytes.
pub record IsStandard {F : Type 0} (f : CanFrame F) : Type 0 where
  pub id : f.can_id < 2048
  pub size : length f.payload ≡ f.dlc
  pub short : f.dlc ≤ 8
  pub bytes : IsBytes f.payload

module _ {F : Type 0} where
  pub craft_flood_frame-IsStandard :
      (target_id : ℕ) (now : F) → target_id < 2048 → IsStandard (craft_flood_frame target_id now)
  unfolding craft_flood_frame
  craft_flood_frame-IsStandard target_id now h = record {
    id = h;
    size = refl;
    short = omega arith;
    bytes = omega arith;
  }

module _ {G : Type 0} (randint : Randint G) (r : IsRandint randint) where
  random_bytes_lem :
      (n : ℕ) (g : G)
      → (length (random_bytes randint n g).0 ≡ n) × IsBytes (random_bytes randint n g).0
  unfolding random_bytes
  random_bytes_lem zero g = (refl, tt)
  random_bytes_lem (suc n) g =
      let (b, g') = randint 0 255 g in
      let rest = random_bytes_lem n g' in
      (omega (arith, rest.0), (omega (arith, r.high 0 255 g (omega arith)), rest.1))

  -- A fuzzing frame is a standard frame with one byte at least, on any identifier but 0 and 0x7FF.
  pub craft_fuzzing_frame-IsStandard :
      {F : Type 0} (now : F) (g : G)
      → IsStandard (craft_fuzzing_frame randint now g).0
        × (0 < (craft_fuzzing_frame randint now g).0.can_id)
        × ((craft_fuzzing_frame randint now g).0.can_id < 0x7FF)
        × (0 < (craft_fuzzing_frame randint now g).0.dlc)
  unfolding craft_fuzzing_frame
  craft_fuzzing_frame-IsStandard now g =
      let (rand_id, g1) = randint 0x001 0x7FE g in
      let (dlc, g2) = randint 1 8 g1 in
      let drawn = random_bytes_lem dlc g2 in
      let id_low = r.low 0x001 0x7FE g (omega arith) in
      let id_high = r.high 0x001 0x7FE g (omega arith) in
      let dlc_low = r.low 1 8 g1 (omega arith) in
      let dlc_high = r.high 1 8 g1 (omega arith) in
      (
        record {
          id = omega (arith, id_high);
          size = omega (arith, drawn.0, dlc_high);
          short = omega (arith, dlc_high);
          bytes = drawn.1;
        },
        omega (arith, id_low),
        omega (arith, id_high),
        omega (arith, dlc_low),
      )

-- The flag of the frame, and its payload.
abbrev flag : Bool → ℕ
flag abs_active = if abs_active then 1 else 0

abbrev spoof_payload : ℕ → Bool → Bytes
spoof_payload brake_pct abs_active = brake_pct ∷ flag abs_active ∷ 0 ∷ 0 ∷ 0 ∷ 0 ∷ []

pack_spoof :
    (brake_pct : ℕ) (abs_active : Bool)
    → brake_pct < 256
    → pack big (
        (1, pos brake_pct)
        ∷ (1, pos (flag abs_active))
        ∷ (1, pos 0)
        ∷ (1, pos 0)
        ∷ (1, pos 0)
        ∷ (1, pos 0)
        ∷ [])
      ≡ ok (spoof_payload brake_pct abs_active)
pack_spoof brake_pct true h =
    let small : ltb brake_pct 256 ≡ true = ground arith in
    let whole : brake_pct % 256 ≡ brake_pct = omega arith in rw small (rw whole refl)
pack_spoof brake_pct false h =
    let small : ltb brake_pct 256 ≡ true = ground arith in
    let whole : brake_pct % 256 ≡ brake_pct = omega arith in rw small (rw whole refl)

add_zero : (n : ℕ) → n + 0 ≡ n
add_zero n = omega arith

module _ {F : Type 0} ⦃fl : FloatOps F⦄ (now : F) where
  -- What the parser reads from a spoofed brake frame.
  abbrev pub spoofed : ℕ → Bool → Signals F
  spoofed brake_pct abs_active =
      ("brake_pct", int (pos brake_pct))
      ∷ ("abs_active", bool abs_active)
      ∷ ("wheel_speeds", text (codes "[0,0,0,0]"))
      ∷ []

  decode_spoof :
      (brake_pct : ℕ) (abs_active : Bool)
      → decode_signals {F = F} can_id_brake_override (spoof_payload brake_pct abs_active)
        ≡ ok (spoofed brake_pct abs_active)
  unfolding decode_signals decode_brake decimal
  decode_spoof brake_pct true = ap (λ pct. ok (spoofed pct true)) (add_zero brake_pct)
  decode_spoof brake_pct false = ap (λ pct. ok (spoofed pct false)) (add_zero brake_pct)

  -- A spoofed brake frame with a percentage from 0 to 255 is crafted, and the parser reads from it
  -- the percentage and the ABS flag that the attacker chose, and standing wheels; crafting with
  -- any larger percentage, and with any negative one, raises.
  pub decode_signals-craft_spoof_brake_frame :
      (brake_pct : ℕ) (abs_active : Bool)
      → (brake_pct < 256
          → (f : CanFrame F) × (craft_spoof_brake_frame (pos brake_pct) abs_active now ≡ ok f)
            × (decode_signals {F = F} f.can_id (valid_bytes f) ≡ ok (spoofed brake_pct abs_active)))
        × (256 ≤ brake_pct
            → craft_spoof_brake_frame (pos brake_pct) abs_active now ≡ raise struct_error)
        × (craft_spoof_brake_frame (negsuc brake_pct) abs_active now ≡ raise struct_error)
  unfolding craft_spoof_brake_frame
  decode_signals-craft_spoof_brake_frame brake_pct abs_active = (
    λ h. (
      frame_of now can_id_brake_override (spoof_payload brake_pct abs_active) 6,
      rw (pack_spoof brake_pct abs_active h),
      unfold frame_of in decode_spoof brake_pct abs_active,
    ),
    λ h. let big_pct : ltb brake_pct 256 ≡ false = ground arith in rw big_pct,
    refl,
  )
