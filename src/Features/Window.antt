-- ===== src/Features/Window.antt =====
-- src/ml/features.py: the sliding window holds the last identifiers, and the features that are
-- taken from it.
use mathlib.Core.List.{append_assoc, append-nil}
use can_sentinental.Prelude.{
  ℕ, ◌+◌, ◌-◌, ◌≤◌, ◌<◌, ◌≡◌, refl, sym, ap, ◌∙◌, List, [], ◌∷◌, ◌++◌, length, drop, map, true, ltb,
  arith, length-append, drop-append, drop-of-le, lt→ltb,
}
use mathlib.Core.Path.{ap₂}
use can_sentinental.Prelude.Deque.{append, last_n, append-last_n, length-last_n}
use can_sentinental.Floats.{FloatOps, of_nat}
use can_sentinental.Frame.{CanFrame}
use can_sentinental.Features.{
  NumpyStats, Features, StreamingFeatureExtractor, new_extractor, extract_features, count,
}

count-append : (x : ℕ) (ys zs : List ℕ) → count x (ys ++ zs) ≡ count x ys + count x zs
count-append x [] zs = omega arith
count-append x (y ∷ ys) zs = omega (arith, count-append x ys zs)

count-le-length : (x : ℕ) (ys : List ℕ) → count x ys ≤ length ys
count-le-length x [] = omega arith
count-le-length x (y ∷ ys) = ground (arith, count-le-length x ys)

-- The identifier that came last stands in the window, if that has room for one.
count-last_n_pos : (n x : ℕ) (h : List ℕ) → 0 < n → 0 < count x (last_n n (h ++ x ∷ []))
count-last_n_pos n x h p =
    let k = length (h ++ x ∷ []) - n in
    let within : k ≤ length h = omega (arith, length-append h (x ∷ [])) in
    rw (drop-append k h (x ∷ []) within) (ground (arith, count-append x (drop k h) (x ∷ [])))

module _ {F : Type 0} ⦃fl : FloatOps F⦄ (np : NumpyStats F) where
  -- The call of `extract_features` on a frame, as the detector makes it.
  abbrev pub extract_frame :
      CanFrame F → StreamingFeatureExtractor F → Features F × StreamingFeatureExtractor F
  extract_frame f e = extract_features np f.can_id f.dlc f.payload f.timestamp e

  unfoldable pub extract_all :
      List (CanFrame F) → StreamingFeatureExtractor F → StreamingFeatureExtractor F
  extract_all [] e = e
  extract_all (f ∷ fs) e = extract_all fs (extract_frame f e).1

  window-extract_all :
      (fs : List (CanFrame F)) (h : List ℕ) (e : StreamingFeatureExtractor F)
      → e.window ≡ last_n e.window_size h
      → (extract_all fs e).window ≡ last_n e.window_size (h ++ map (λ f. f.can_id) fs)
  unfolding extract_all extract_features
  window-extract_all [] h e w = w ∙ ap (last_n e.window_size) (sym (append-nil h))
  window-extract_all (f ∷ fs) h e w =
      window-extract_all fs (h ++ f.can_id ∷ []) (extract_frame f e).1
        (ap (append e.window_size f.can_id) w ∙ append-last_n e.window_size f.can_id h)
      ∙ ap (last_n e.window_size) (append_assoc h (f.can_id ∷ []) (map (λ g. g.can_id) fs))

  size-extract_all :
      (fs : List (CanFrame F)) (e : StreamingFeatureExtractor F)
      → (extract_all fs e).window_size ≡ e.window_size
  unfolding extract_all extract_features
  size-extract_all [] e = refl
  size-extract_all (f ∷ fs) e = size-extract_all fs (extract_frame f e).1

  -- After any frames, the frequency feature of the next one counts its identifier among the last
  -- identifiers that fit the window, its own included: it is at most the window's size, and at
  -- least one if the window has room at all; the ratio is that count over the window's length.
  pub extract_frame-window :
      (size : ℕ) (fs : List (CanFrame F)) (f : CanFrame F)
      → let ids = last_n size (map (λ g. g.can_id) fs ++ f.can_id ∷ []) in
        let v = (extract_frame f (extract_all fs (new_extractor size))).0 in
        (v.id_freq_window ≡ of_nat (count f.can_id ids))
        × (count f.can_id ids ≤ size)
        × (0 < size
            → (0 < count f.can_id ids)
              × (v.id_ratio_window ≡ fl.div (of_nat (count f.can_id ids)) (of_nat (length ids))))
  unfolding extract_features
  extract_frame-window size fs f =
      let ids = map (λ g. g.can_id) fs in
      let e = extract_all fs (new_extractor size) in
      let start : ◌≡◌ {A = List ℕ} [] (last_n size []) =
        sym (drop-of-le (0 - size) [] (omega arith)) in
      let held : e.window ≡ last_n size ids = window-extract_all fs [] (new_extractor size) start in
      let now : append e.window_size f.can_id e.window ≡ last_n size (ids ++ f.can_id ∷ []) =
        ap₂ (λ n w. append n f.can_id w) (size-extract_all fs (new_extractor size)) held
        ∙ append-last_n size f.can_id ids in
      let last = last_n size (ids ++ f.can_id ∷ []) in
      rw now (
        refl,
        omega (arith, count-le-length f.can_id last, length-last_n size (ids ++ f.can_id ∷ [])),
        λ p.
            let some_last = count-last_n_pos size f.can_id ids p in
            let room : ltb 0 (length last) ≡ true =
              lt→ltb 0 (length last) (omega (arith, count-le-length f.can_id last, some_last)) in
            (some_last, rw room),
      )
