-- ===== src/Server/Lifecycle.antt =====
-- src/ipc/ipc_server.py: which threads end, and which servers never serve again.
use mathlib.Core.Path.{subst}
use can_sentinental.Prelude.{
  ℕ, not, ◌&&◌, ◌-◌, ◌≤◌, ◌==◌, ◌≡◌, refl, sym, ap, ◌∙◌, Bool, true, false, List, [], ◌∷◌,
  if◌then◌else◌, arith, Bool-cases, inl, inr, All, count_if,
}
use can_sentinental.Prelude.Slots.{slot-set_slot_other, rank-set_slot, slot-All, set_slot-slot}
use can_sentinental.Server.{
  Phase, setting_up, checking, accepting, ended, Reply, success, timeout, exception, remove_raises,
  socket_raises, listen_raises, set_up, Server, start, stop, advance, phase_at, set_phase, Action,
  call_start, call_stop, go_on, perform, run,
}

-- The steps that a thread still has to make once the server does not run.
abbrev rank : Phase → ℕ
rank setting_up = 2
rank checking = 1
rank accepting = 2
rank ended = 0

rank-ended : (p : Phase) → rank p ≤ 0 → p ≡ ended
rank-ended setting_up h = absurd (omega arith)
rank-ended checking h = absurd (omega arith)
rank-ended accepting h = absurd (omega arith)
rank-ended ended h = refl

-- A step keeps the list of threads and whether the server runs; where it does not run, the thread
-- has one step less to make.
advance-rank :
    (reply : Reply) (p : Phase) (s : Server)
    → s.running ≡ false
    → (rank (advance reply p s).0 ≤ rank p - 1)
      × ((advance reply p s).1.threads ≡ s.threads)
      × ((advance reply p s).1.running ≡ false)
unfolding advance
advance-rank success setting_up s h = (omega arith, refl, h)
advance-rank timeout setting_up s h = (omega arith, refl, h)
advance-rank exception setting_up s h = (omega arith, refl, h)
advance-rank socket_raises setting_up s h = (omega arith, refl, h)
advance-rank listen_raises setting_up s h = (omega arith, refl, h)
advance-rank remove_raises setting_up s h = elim (Bool-cases (not s.use_tcp && s.socket_file)) [
  | inl e ↦ rw (e, set_up) (omega arith, refl, h)
  | inr e ↦ rw (e, set_up) (omega arith, refl, h)
]
advance-rank reply checking s h = (rw h (omega arith), refl, h)
advance-rank success accepting s h = (omega arith, refl, h)
advance-rank timeout accepting s h = (omega arith, refl, h)
advance-rank exception accepting s h = (omega arith, refl, h)
advance-rank remove_raises accepting s h = (omega arith, refl, h)
advance-rank socket_raises accepting s h = (omega arith, refl, h)
advance-rank listen_raises accepting s h = (omega arith, refl, h)
advance-rank reply ended s h = (omega arith, refl, h)

-- Whether an action is a step of the thread, and whether it is a call of `start` or of `stop`.
abbrev pub is_step_of : ℕ → Action → Bool
is_step_of i call_start = false
is_step_of i call_stop = false
is_step_of i (go_on j reply) = i == j

abbrev pub is_start : Action → Bool
is_start call_start = true
is_start call_stop = false
is_start (go_on j reply) = false

abbrev pub is_stop : Action → Bool
is_stop call_start = false
is_stop call_stop = true
is_stop (go_on j reply) = false

perform-rank :
    (i : ℕ) (a : Action) (s : Server)
    → s.running ≡ false
    → is_start a ≡ false
    → (rank (phase_at i (perform a s).threads)
        ≤ rank (phase_at i s.threads) - (if is_step_of i a then 1 else 0))
      × ((perform a s).running ≡ false)
unfolding perform stop
perform-rank i call_start s h starts = absurd (ground arith)
perform-rank i call_stop s h starts = (omega arith, refl)
perform-rank i (go_on j reply) s h starts =
    let (less, same, stays) = advance-rank reply (phase_at j s.threads) s h in
    let next = (advance reply (phase_at j s.threads) s).0 in
    elim (Bool-cases (i == j)) [
      | inl e ↦
          let own : i ≡ j = ground arith in
          let threads = s.threads in
          (
            rw (same, e)
                (subst
                  (λ k.
                    rank (phase_at k (set_phase j next threads)) ≤ rank (phase_at k threads) - 1)
                  (sym own) (omega (arith, rank-set_slot rank ended refl j next threads, less))),
            stays,
          )
      | inr e ↦ (
        rw (same, e) (omega (arith, ap rank (slot-set_slot_other ended i j next s.threads e))),
        stays,
      )
    ]

run-rank :
    (i : ℕ) (as' : List Action) (s : Server)
    → s.running ≡ false
    → All (λ a. is_start a ≡ false) as'
    → rank (phase_at i (run as' s).threads)
      ≤ rank (phase_at i s.threads) - count_if (is_step_of i) as'
unfolding run
run-rank i [] s h all = omega arith
run-rank i (a ∷ as') s h (starts, all) =
    let (less, stays) = perform-rank i a s h starts in
    ground (arith, less, run-rank i as' (perform a s) stays all)

-- After `stop`, and while `start` is not called again, every thread of the accept loop, as `start`
-- makes them, ends at the latest with the second step that it makes, whatever the others do in
-- between and the socket answers. The threads that serve clients are not meant.
pub stop_ends :
    (i : ℕ) (as' : List Action) (s : Server)
    → All (λ a. is_start a ≡ false) as'
    → 2 ≤ count_if (is_step_of i) as'
    → phase_at i (run as' (stop s)).threads ≡ ended
unfolding stop
stop_ends i as' s all twice =
    rank-ended _ (omega (arith, run-rank i as' (stop s) refl all, rank-two (phase_at i s.threads)))
  where
    rank-two : (p : Phase) → rank p ≤ 2
    rank-two setting_up = omega arith
    rank-two checking = omega arith
    rank-two accepting = omega arith
    rank-two ended = omega arith

-- No thread of the server is in its loop, or on the way there.
abbrev pub AllEnded : List Phase → Type 0
AllEnded ps = All (λ p. p ≡ ended) ps

idle : (i : ℕ) (ps : List Phase) → AllEnded ps → phase_at i ps ≡ ended
idle i ps h = slot-All (λ p. p ≡ ended) ended i ps refl h

kept : (i : ℕ) (ps : List Phase) → AllEnded ps → set_phase i ended ps ≡ ps
kept i ps h = ap (λ p. set_phase i p ps) (sym (idle i ps h)) ∙ set_slot-slot ended i ps

perform-AllEnded :
    (a : Action) (s : Server)
    → s.running ≡ true
    → AllEnded s.threads
    → is_stop a ≡ false
    → perform a s ≡ s
unfolding perform start advance
perform-AllEnded call_start s r h stops = rw r refl
perform-AllEnded call_stop s r h stops = absurd (ground arith)
perform-AllEnded (go_on i reply) s r h stops =
    ap
      (λ p.
        let (phase, s') = advance reply p s in record s' { threads = set_phase i phase s'.threads })
      (idle i s.threads h)
    ∙ (λ j. record s { threads = kept i s.threads h j })

-- A server that counts as running but whose threads have all ended, as after an exception of `bind`
-- or of `accept`, stays as it is until `stop` is called: `start` does not help, and no client is
-- accepted any more.
pub run-AllEnded :
    (as' : List Action) (s : Server)
    → s.running ≡ true
    → AllEnded s.threads
    → All (λ a. is_stop a ≡ false) as'
    → run as' s ≡ s
unfolding run
run-AllEnded [] s r h all = refl
run-AllEnded (a ∷ as') s r h (stops, all) =
    ap (run as') (perform-AllEnded a s r h stops) ∙ run-AllEnded as' s r h all
