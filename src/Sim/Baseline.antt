-- ===== src/Sim/Baseline.antt =====
-- src/sim/ecu_generator.py and src/logger/csv_logger.py: every simulation that makes a step has a
-- frame of the transmission, which the logger does not get past.
use mathlib.Core.List.{append_assoc}
use can_sentinental.Prelude.{
  bind-ok, ℕ, zero, suc, ◌%◌, ◌^◌, ◌==◌, Bool, true, false, ◌-◌, ◌≤◌, ◌≡◌, refl, sym, ap, ◌∙◌, List,
  [], ◌∷◌, ◌++◌, length, Result, ok, raise, struct_error, ◌>>=◌, arith, ◌⊎◌, inl, inr, ltb,
  if◌then◌else◌, All, take, drop, length-take,
}
use can_sentinental.Prelude.Int.{ℤ, pos, negsuc}
use can_sentinental.Struct.{ByteOrder, pack, pack_uint, bytes_of, big}
use can_sentinental.Struct.Packing.{length-pack}
use can_sentinental.Floats.{FloatOps}
use can_sentinental.Frame.{CanFrame, valid_bytes, new_frame}
use can_sentinental.Ids.{can_id_transmission}
use can_sentinental.Logger.{Line}
use can_sentinental.Logger.Baseline.{write_baseline-transmission}
use can_sentinental.Sim.{
  Vehicle, sequence, step_calls, every, frame_at, transmission_fields, initial, step_frames,
  run_steps, total_steps, generate_batch, generate_baseline_dataset,
}

-- A call that returns, or raises the error of `struct`.
abbrev IsPacking : {A : Type 0} → Result A → Type 0
IsPacking {A} r = ((a : A) × (r ≡ ok a)) ⊎ (r ≡ raise struct_error)

bind-IsPacking :
    {A B : Type 0} (m : Result A) (f : A → Result B)
    → IsPacking m
    → ((a : A) → IsPacking (f a))
    → IsPacking (m >>= f)
bind-IsPacking m f (inl (a, e)) k = rw e (k a)
bind-IsPacking m f (inr e) k = inr (rw e)

if-IsPacking :
    {A : Type 0} (t : Bool) (m n : Result A)
    → IsPacking m
    → IsPacking n
    → IsPacking (if t then m else n)
if-IsPacking true m n km kn = km
if-IsPacking false m n km kn = kn

pack_uint-IsPacking : (o : ByteOrder) (w : ℕ) (n : ℤ) → IsPacking (pack_uint o w n)
pack_uint-IsPacking o w (pos n) =
    if-IsPacking (ltb n (256 ^ w)) _ _ (inl (bytes_of o w n, refl)) (inr refl)
pack_uint-IsPacking o w (negsuc n) = inr refl

pack-IsPacking : (o : ByteOrder) (fields : List (ℕ × ℤ)) → IsPacking (pack o fields)
pack-IsPacking o [] = inl ([], refl)
pack-IsPacking o ((w, n) ∷ fields) =
    bind-IsPacking (pack_uint o w n) _ (pack_uint-IsPacking o w n)
      λ a. bind-IsPacking (pack o fields) _ (pack-IsPacking o fields) λ b. inl (a ++ b, refl)

sequence-IsPacking :
    {A : Type 0} (rs : List (Result (List A))) → All IsPacking rs → IsPacking (sequence rs)
sequence-IsPacking [] h = inl ([], refl)
sequence-IsPacking (r ∷ rs) h =
    bind-IsPacking r _ h.0
      λ xs. bind-IsPacking (sequence rs) _ (sequence-IsPacking rs h.1) λ ys. inl (xs ++ ys, refl)

-- Where a sequence returns, what each statement appends stands in the whole.
sequence-part :
    {A : Type 0} (before : List (Result (List A))) (r : Result (List A))
    (after : List (Result (List A))) {all : List A}
    → sequence (before ++ r ∷ after) ≡ ok all
    → (part : List A) × (r ≡ ok part)
      × ((front : List A) × (back : List A) × (all ≡ front ++ (part ++ back)))
sequence-part [] r after {all} h =
    let (xs, then_rest, first) = bind-ok r _ h in
    let (ys, total, others) = bind-ok (sequence after) _ then_rest in (xs, first, ([], ys, cc))
sequence-part (b ∷ before) r after {all} h =
    let (xs, then_rest, first) = bind-ok b _ h in
    let (ys, total, others) = bind-ok (sequence (before ++ r ∷ after)) _ then_rest in
    let (part, e, (front, back, at)) = sequence-part before r after others in
    let whole : all ≡ xs ++ ys = cc in
    (
      part,
      e,
      (
        xs ++ front,
        back,
        whole ∙ (ap (λ zs. xs ++ zs) at ∙ sym (append_assoc xs front (part ++ back))),
      ),
    )

module _ {F : Type 0} ⦃fl : FloatOps F⦄ where
  every-IsPacking :
      (period step : ℕ) (t : F) (can_id dlc : ℕ) (fields : List (ℕ × ℤ))
      → IsPacking (every period step t can_id dlc fields)
  unfolding every
  every-IsPacking period step t can_id dlc fields =
      if-IsPacking (step % period == 0) _ _
        (bind-IsPacking (pack big fields) _ (pack-IsPacking big fields)
          λ bytes. inl (frame_at t can_id dlc bytes ∷ [], refl))
        (inl ([], refl))

  step_frames-IsPacking : (step : ℕ) (t : F) (v : Vehicle F) → IsPacking (step_frames step t v)
  unfolding step_frames
  step_frames-IsPacking step t v = sequence-IsPacking (step_calls step t v) (
    search every-IsPacking,
    (
      search every-IsPacking,
      (
        search every-IsPacking,
        (
          search every-IsPacking,
          (
            search every-IsPacking,
            (search every-IsPacking, (search every-IsPacking, (search every-IsPacking, tt))),
          ),
        ),
      ),
    ),
  )

  run_steps-IsPacking : (n step : ℕ) (v : Vehicle F) → IsPacking (run_steps n step v)
  unfolding run_steps
  run_steps-IsPacking zero step v = inl ([], refl)
  run_steps-IsPacking (suc n) step v =
      bind-IsPacking _ _ (step_frames-IsPacking step _ _)
        λ fs. bind-IsPacking _ _ (run_steps-IsPacking n (suc step) _) λ rest. inl (fs ++ rest, refl)

  -- The first step sends a frame of the transmission with five bytes.
  step_frames-transmission :
      (t : F) (v : Vehicle F) {all : List (CanFrame F)}
      → step_frames 0 t v ≡ ok all
      → (f : CanFrame F) × (f.can_id ≡ can_id_transmission)
        × (4 ≤ length (valid_bytes f))
        × ((front : List (CanFrame F)) × (back : List (CanFrame F)) × (all ≡ front ++ (f ∷ back)))
  unfolding step_frames new_frame every
  step_frames-transmission t v {all} h =
      let (part, sent, (front, back, at)) =
        sequence-part (take 3 (step_calls 0 t v))
          (every 10 0 t can_id_transmission 5 (transmission_fields v)) (drop 4 (step_calls 0 t v))
          h in
      let (bytes, one, packed) = bind-ok (pack big (transmission_fields v)) _ sent in
      let f = frame_at t can_id_transmission 5 bytes in
      let alone : f ∷ [] ≡ part = ground arith in
      let five : length bytes ≡ 5 = length-pack big (transmission_fields v) packed in
      (
        f,
        refl,
        omega (arith, length-take 5 bytes, five),
        (front, back, at ∙ ap (λ p. front ++ (p ++ back)) (sym alone)),
      )

  run_steps-transmission :
      (n : ℕ) (v : Vehicle F) {all : List (CanFrame F)}
      → run_steps (suc n) 0 v ≡ ok all
      → (f : CanFrame F) × (f.can_id ≡ can_id_transmission)
        × (4 ≤ length (valid_bytes f))
        × ((front : List (CanFrame F)) × (back : List (CanFrame F)) × (all ≡ front ++ (f ∷ back)))
  unfolding run_steps
  run_steps-transmission n v {all} h =
      let (fs, later, sent) = bind-ok (step_frames 0 _ _) _ h in
      let (rest, total, others) = bind-ok (run_steps n 1 _) _ later in
      let (f, c, long, (front, back, at)) = step_frames-transmission _ _ sent in
      let whole : all ≡ fs ++ rest = cc in
      (
        f,
        c,
        long,
        (
          front,
          back ++ rest,
          whole ∙ (ap (λ zs. zs ++ rest) at ∙ append_assoc front (f ∷ back) rest),
        ),
      )

  -- With one step at least, the batch raises in packing or has a frame of the transmission.
  pub generate_batch-cases :
      (duration_sec : F)
      → 1 ≤ total_steps duration_sec
      → (generate_batch duration_sec ≡ raise struct_error)
        ⊎ ((frames : List (CanFrame F)) × (generate_batch duration_sec ≡ ok frames)
            × ((f : CanFrame F) × (f.can_id ≡ can_id_transmission)
                × (4 ≤ length (valid_bytes f))
                × ((front : List (CanFrame F)) × (back : List (CanFrame F)) × (frames
                      ≡ front ++ f ∷ back))))
  unfolding generate_batch
  generate_batch-cases duration_sec long =
      let n = total_steps duration_sec - 1 in
      let steps : total_steps duration_sec ≡ suc n = omega arith in
      elim (run_steps-IsPacking (total_steps duration_sec) 0 initial) [
        | inr e ↦ inl e
        | inl (frames, e) ↦
            let first : run_steps (suc n) 0 initial ≡ ok frames =
              ap (λ k. run_steps k 0 initial) (sym steps) ∙ e in
            inr (frames, e, run_steps-transmission n initial first)
      ]

  -- Generating a baseline dataset raises whenever the duration has at least one step of the
  -- simulation: packing raises, or the parser does on the first frame of the transmission.
  pub generate_baseline_dataset_raises :
      (duration_sec : F) (file : List Line)
      → 1 ≤ total_steps duration_sec
      → generate_baseline_dataset duration_sec file ≡ raise struct_error
  unfolding generate_baseline_dataset
  generate_baseline_dataset_raises duration_sec file long =
      elim (generate_batch-cases duration_sec long) [
        | inl e ↦ rw e
        | inr (frames, e, (f, c, valid, (front, back, at))) ↦
            rw (e, at) (write_baseline-transmission front f back file c valid)
      ]
