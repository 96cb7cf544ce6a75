-- ===== src/Ipc/Stepping.antt =====
-- src/ipc/ipc_server.py: what a client's thread takes off its stream and has the callbacks do with
-- it, step by step.
use mathlib.Core.Path.{subst}
use mathlib.Core.List.{append-nil, append_assoc}
use native.Mathlib.Nat.{suc-add}
use can_sentinental.Prelude.{
  ℕ, zero, suc, ◌+◌, ◌*◌, ◌≤◌, ◌<◌, ◌≡◌, refl, sym, ap, ◌∙◌, Bool, true, false, List, [], ◌∷◌, ◌++◌,
  length, take, drop, leb, arith, Bool-cases, inl, inr, length-append, length-drop, length-take,
  drop-append, drop-drop,
}
use can_sentinental.Floats.{FloatOps}
use can_sentinental.Struct.{Bytes, ByteOrder, unpack_fields}
use can_sentinental.Frame.{CanFrame}
use can_sentinental.Callbacks.{Callback}
use can_sentinental.Ipc.{
  ipc_frame_struct_format, CanIpcServer, Recv, chunk, failed, frame_of_fields,
}
use can_sentinental.Ipc.Packet.{unpack_binary_frame-sized}
use can_sentinental.Ipc.Framing.{packets, packets-append}
use can_sentinental.Ipc.Clients.{
  Client, receiving, draining, closed, counting, storing, calling, after_recv, step_client,
}
use can_sentinental.Ipc.Observing.{
  Taken, Call, packets_of, calls_on, calls_for, after_calls, buffer_of, IsReceiving, pending, taken,
  called, got, uncounted,
}

-- The packets are the first ones of the stream, the rest of which is in the buffer.
pub record Framed (sent : List Bytes) (stream b : Bytes) : Type 0 where
  pub in_order : sent ≡ packets (length sent) stream
  pub whole : length sent * 24 ≤ length stream
  pub kept : b ≡ drop (length sent * 24) stream

packets-snoc :
    (n : ℕ) (stream : Bytes)
    → packets n stream ++ take 24 (drop (n * 24) stream) ∷ [] ≡ packets (n + 1) stream
packets-snoc zero stream = refl
packets-snoc (suc n) stream = rw suc-add (
    ap (λ rest. take 24 stream ∷ (packets n (drop 24 stream) ++ take 24 rest ∷ []))
      (ap (λ k. drop k stream) (omega arith) ∙ sym (drop-drop (n * 24) 24 stream))
    ∙ ap (λ ps. take 24 stream ∷ ps) (packets-snoc n (drop 24 stream)))

Framed-got :
    (sent : List Bytes) (stream bytes b : Bytes)
    → Framed sent stream b
    → Framed sent (stream ++ bytes) (b ++ bytes)
Framed-got sent stream bytes b f =
    let n = length sent in
    record {
      in_order =
          f.in_order
          ∙ sym (packets-append n 0 stream bytes f.whole ∙ append-nil (packets n stream))
          ∙ ap (λ k. packets k (stream ++ bytes)) (omega arith);
      whole = omega (arith, length-append stream bytes, f.whole);
      kept = ap (λ rest. rest ++ bytes) f.kept ∙ sym (drop-append (n * 24) stream bytes f.whole);
    }

Framed-taken :
    (sent : List Bytes) (stream b : Bytes)
    → Framed sent stream b
    → 24 ≤ length b
    → Framed (sent ++ take 24 b ∷ []) stream (drop 24 b)
Framed-taken sent stream b f long =
    let n = length sent in
    let next : length (sent ++ take 24 b ∷ []) ≡ n + 1 = length-append sent (take 24 b ∷ []) in
    record {
      in_order =
          ap (λ ps. ps ++ take 24 b ∷ []) f.in_order
          ∙ ap (λ rest. packets n stream ++ take 24 rest ∷ []) f.kept
          ∙ packets-snoc n stream
          ∙ ap (λ k. packets k stream) (sym next);
      whole = omega (arith, next, f.whole, ap length f.kept, length-drop (n * 24) stream, long);
      kept =
          ap (drop 24) f.kept
          ∙ drop-drop 24 (n * 24) stream
          ∙ ap (λ k. drop k stream) (omega (arith, next));
    }

packets_of-append :
    {F : Type 0} (ps qs : List (Taken F)) → packets_of (ps ++ qs) ≡ packets_of ps ++ packets_of qs
packets_of-append [] qs = refl
packets_of-append ((now, p) ∷ ps) qs = ap (λ rest. p ∷ rest) (packets_of-append ps qs)

module _ {W F : Type 0} ⦃fl : FloatOps F⦄ (o : ByteOrder)
    (cbs : List (Callback W (CanFrame F))) where
  calls_for-append :
      (ps qs : List (Taken F))
      → calls_for o cbs (ps ++ qs) ≡ calls_for o cbs ps ++ calls_for o cbs qs
  calls_for-append [] qs = refl
  calls_for-append ((now, p) ∷ ps) qs =
      let first = calls_on cbs (frame_of_fields now (unpack_fields o ipc_frame_struct_format p)) in
      ap (λ rest. first ++ rest) (calls_for-append ps qs)
      ∙ sym (append_assoc first (calls_for o cbs ps) (calls_for o cbs qs))

  -- A thread with what it has taken, received and called so far.
  pub record Served (sent : List (Taken F)) (stream : Bytes) (calls : List (Call W F))
      (c : Client W F) : Type 0 where
    pub framed : Framed (packets_of sent) stream (buffer_of c)
    pub short : IsReceiving c → length (buffer_of c) < 24
    pub served : calls ++ pending cbs c ≡ calls_for o cbs sent

  -- A step that takes and receives nothing.
  Served-same :
      (sent : List (Taken F)) (stream : Bytes) (calls more : List (Call W F)) (c d : Client W F)
      → Served sent stream calls c
      → buffer_of d ≡ buffer_of c
      → (IsReceiving d → length (buffer_of d) < 24)
      → more ++ pending cbs d ≡ pending cbs c
      → Served (sent ++ []) (stream ++ []) (calls ++ more) d
  Served-same sent stream calls more c d s same short left =
      rw (append-nil sent, append-nil stream)
        (record {
          framed = record {
            in_order = s.framed.in_order;
            whole = s.framed.whole;
            kept = same ∙ s.framed.kept;
          };
          short = short;
          served =
              append_assoc calls more (pending cbs d) ∙ ap (λ rest. calls ++ rest) left ∙ s.served;
        })

  Served-taken :
      (sent : List (Taken F)) (stream : Bytes) (calls : List (Call W F)) (b : Bytes) (now : F)
      → Served sent stream calls (draining b)
      → 24 ≤ length b
      → Served (sent ++ (now, take 24 b) ∷ []) (stream ++ []) (calls ++ []) (
          counting
            (drop 24 b)
            (frame_of_fields now (unpack_fields o ipc_frame_struct_format (take 24 b))))
  Served-taken sent stream calls b now s long =
      let x : Taken F = (now, take 24 b) in
      let frame = frame_of_fields now (unpack_fields o ipc_frame_struct_format (take 24 b)) in
      rw (append-nil stream, append-nil calls)
        (record {
          framed =
              subst (λ ps. Framed ps stream (drop 24 b)) (sym (packets_of-append sent (x ∷ [])))
                (Framed-taken (packets_of sent) stream b s.framed long);
          short = λ h. absurd h;
          served =
              ap (λ front. front ++ calls_on cbs frame) (sym (append-nil calls) ∙ s.served)
              ∙ ap (λ back. calls_for o cbs sent ++ back) (sym (append-nil (calls_on cbs frame)))
              ∙ sym (calls_for-append sent (x ∷ []));
        })

  after_recv-Served :
      (running : Bool) (r : Recv) (sent : List (Taken F)) (stream : Bytes) (calls : List (Call W F))
      (b : Bytes)
      → Served sent stream calls (receiving b)
      → Served
          (sent ++ [])
          (stream ++ got {W = W} {F = F} running r (receiving b))
          (calls ++ [])
          (after_recv running r b)
  after_recv-Served false r sent stream calls b s =
      Served-same sent stream calls [] (receiving b) (closed b) s refl (λ h. absurd h) refl
  after_recv-Served true (failed e) sent stream calls b s =
      Served-same sent stream calls [] (receiving b) (closed b) s refl (λ h. absurd h) refl
  after_recv-Served true (chunk []) sent stream calls b s =
      Served-same sent stream calls [] (receiving b) (closed b) s refl (λ h. absurd h) refl
  after_recv-Served true (chunk (byte ∷ bytes)) sent stream calls b s =
      rw (append-nil sent, append-nil calls)
        (record {
          framed = Framed-got (packets_of sent) stream (byte ∷ bytes) b s.framed;
          short = λ h. absurd h;
          served = s.served;
        })

  -- A thread's step keeps all this, where the server has these callbacks,
  pub step_client-Served :
      (running : Bool) (now : F) (r : Recv) (c : Client W F) (s : CanIpcServer W F)
      (sent : List (Taken F)) (stream : Bytes) (calls : List (Call W F))
      → s.callbacks ≡ cbs
      → Served sent stream calls c
      → Served
          (sent ++ taken now c)
          (stream ++ got running r c)
          (calls ++ called c)
          (step_client o running now r c s).0
  unfolding step_client
  step_client-Served running now r (receiving b) s sent stream calls same v =
      after_recv-Served running r sent stream calls b v
  step_client-Served running now r (closed b) s sent stream calls same v =
      Served-same sent stream calls [] (closed b) (closed b) v refl (λ h. absurd h) refl
  step_client-Served running now r (counting b f) s sent stream calls same v =
      Served-same sent stream calls [] (counting b f) (storing b f s.total_frames_received) v refl
        (λ h. absurd h) refl
  step_client-Served running now r (storing b f n) s sent stream calls same v =
      Served-same sent stream calls [] (storing b f n) (calling b f s.callbacks) v refl
        (λ h. absurd h) (ap (λ left. calls_on left f) same)
  step_client-Served running now r (calling b f []) s sent stream calls same v =
      Served-same sent stream calls [] (calling b f []) (draining b) v refl (λ h. absurd h) refl
  step_client-Served running now r (calling b f (cb ∷ rest)) s sent stream calls same v =
      Served-same sent stream calls ((cb, f) ∷ []) (calling b f (cb ∷ rest)) (calling b f rest) v
        refl (λ h. absurd h) refl
  step_client-Served running now r (draining b) s sent stream calls same v =
      elim (Bool-cases (leb 24 (length b))) [
        | inl e ↦
            let long : 24 ≤ length b = ground arith in
            let whole : length (take 24 b) ≡ 24 = omega (arith, length-take 24 b) in
            rw (e, unpack_binary_frame-sized o now (take 24 b) whole)
              (Served-taken sent stream calls b now v long)
        | inr e ↦ rw e (
            Served-same sent stream calls [] (draining b) (receiving b) v refl (λ h. ground arith)
              refl)
      ]

-- and does to the server what the callback that it calls does, and keeps the callbacks.
module _ {W F : Type 0} ⦃fl : FloatOps F⦄ (o : ByteOrder) where
  pub step_client-server :
      (running : Bool) (now : F) (r : Recv) (c : Client W F) (s : CanIpcServer W F)
      → (uncounted (step_client o running now r c s).1 ≡ after_calls (called c) (uncounted s))
        × ((step_client o running now r c s).1.callbacks ≡ s.callbacks)
  unfolding step_client
  step_client-server running now r (receiving b) s = (refl, refl)
  step_client-server running now r (closed b) s = (refl, refl)
  step_client-server running now r (counting b f) s = (refl, refl)
  step_client-server running now r (storing b f n) s = (refl, refl)
  step_client-server running now r (calling b f []) s = (refl, refl)
  step_client-server running now r (calling b f (cb ∷ rest)) s = (refl, refl)
  step_client-server running now r (draining b) s = elim (Bool-cases (leb 24 (length b))) [
    | inl e ↦ rw e (refl, refl)
    | inr e ↦ rw e (refl, refl)
  ]
