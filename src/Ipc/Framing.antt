-- ===== src/Ipc/Framing.antt =====
-- src/ipc/ipc_server.py: `_handle_client` cuts the byte stream into frames, wherever the chunks of
-- the stream end.
use can_sentinental.Prelude.{
  ℕ, zero, suc, ◌+◌, ◌*◌, ◌/◌, ◌≤◌, ◌<◌, ◌≡◌, refl, sym, ap, ◌∙◌, true, false, List, [], ◌∷◌, ◌++◌,
  length, take, drop, leb, map, ok, arith, length-append, length-take, length-drop, take-append,
  drop-append, drop-drop, is_empty, All,
}
use mathlib.Core.List.{append_assoc, append-nil, flatten}
use native.Mathlib.Nat.{zero-add, suc-add}
use can_sentinental.Floats.{FloatOps}
use can_sentinental.Struct.{Bytes, ByteOrder, unpack_fields}
use can_sentinental.Ipc.{
  ipc_frame_struct_format, frame_of_fields, CanIpcServer, Connection, chunk, dispatch_frame, drain,
  receive, handle_client,
}
use can_sentinental.Ipc.Packet.{unpack_binary_frame-sized}

-- The first n packets of a stream.
abbrev pub packets : ℕ → Bytes → List Bytes
packets zero stream = []
packets (suc n) stream = take 24 stream ∷ packets n (drop 24 stream)

pub packets-append :
    (n m : ℕ) (x y : Bytes)
    → n * 24 ≤ length x
    → packets (n + m) (x ++ y) ≡ packets n x ++ packets m (drop (n * 24) x ++ y)
packets-append zero m x y h = rw zero-add
packets-append (suc n) m x y h =
    rw (suc-add, take-append 24 x y (omega arith), drop-append 24 x y (omega arith))
      (rw (packets-append n m (drop 24 x) y (omega (arith, length-drop 24 x)), drop-drop)
        (ap (λ k. take 24 x ∷ (packets n (drop 24 x) ++ packets m (drop k x ++ y))) (omega arith)))

module _ {W F : Type 0} ⦃fl : FloatOps F⦄ (o : ByteOrder) (clock : ℕ → F) where
  -- Dispatch the frames of packets, one after the other.
  abbrev pub dispatch_packets : List Bytes → CanIpcServer W F → CanIpcServer W F
  dispatch_packets [] s = s
  dispatch_packets (p ∷ ps) s = dispatch_packets ps (
      dispatch_frame
        (frame_of_fields (clock s.total_frames_received)
          (unpack_fields o ipc_frame_struct_format p))
        s)

  -- What a stream of bytes amounts to: its whole packets are dispatched, and the rest waits.
  abbrev pub after_stream : Bytes → CanIpcServer W F → Connection W F
  after_stream stream s = record {
    server = dispatch_packets (packets (length stream / 24) stream) s;
    buffer = drop (length stream / 24 * 24) stream;
    closed = false;
  }

  drain-packets :
      (n fuel : ℕ) (buffer : Bytes) (s : CanIpcServer W F)
      → n * 24 ≤ length buffer
      → length buffer < n * 24 + 24
      → n < fuel
      → drain o clock fuel buffer s
        ≡ (ok (drop (n * 24) buffer), dispatch_packets (packets n buffer) s)
  unfolding drain
  drain-packets n zero buffer s lo hi f = absurd (omega arith)
  drain-packets zero (suc fuel) buffer s lo hi f =
      let short : leb 24 (length buffer) ≡ false = ground arith in rw (short, drain)
  drain-packets (suc n) (suc fuel) buffer s lo hi f =
      let long : leb 24 (length buffer) ≡ true = ground arith in
      let whole : length (take 24 buffer) ≡ 24 = omega (arith, length-take 24 buffer) in
      rw
        (
          long,
          drain,
          unpack_binary_frame-sized o (clock s.total_frames_received) (take 24 buffer) whole,
        )
        (drain-packets n fuel (drop 24 buffer) _ (omega (arith, length-drop 24 buffer))
            (omega (arith, length-drop 24 buffer)) (omega arith)
          ∙ (λ i. (ok (rest i), dispatch_packets (packets (suc n) buffer) s)))
    where
      rest : drop (n * 24) (drop 24 buffer) ≡ drop (suc n * 24) buffer
      rest = drop-drop (n * 24) 24 buffer ∙ ap (λ k. drop k buffer) (omega arith)

  -- The inner loop ends on any fuel above the number of whole packets in the buffer: it never
  -- raises, dispatches every whole packet and leaves less than one.
  pub drain_terminates :
      (fuel : ℕ) (buffer : Bytes) (s : CanIpcServer W F)
      → length buffer / 24 < fuel
      → (rest : Bytes) × (drain o clock fuel buffer s
          ≡ (ok rest, dispatch_packets (packets (length buffer / 24) buffer) s))
        × (length rest < 24)
  drain_terminates fuel buffer s enough =
      let n = length buffer / 24 in
      (
        drop (n * 24) buffer,
        drain-packets n fuel buffer s (omega arith) (omega arith) enough,
        omega (arith, length-drop (n * 24) buffer),
      )

  pub dispatch_packets-append :
      (ps qs : List Bytes) (s : CanIpcServer W F)
      → dispatch_packets (ps ++ qs) s ≡ dispatch_packets qs (dispatch_packets ps s)
  dispatch_packets-append [] qs s = refl
  dispatch_packets-append (p ∷ ps) qs s = dispatch_packets-append ps qs _

  -- Consuming a stream and then more is consuming both at once.
  after_stream-append :
      (x y : Bytes) (s : CanIpcServer W F)
      → after_stream ((after_stream x s).buffer ++ y) (after_stream x s).server
        ≡ after_stream (x ++ y) s
  after_stream-append x y s = λ i. record { server = servers i; buffer = buffers i; closed = false }
    where
      n : ℕ
      n = length x / 24

      rest : Bytes
      rest = drop (n * 24) x ++ y

      m : ℕ
      m = length rest / 24

      together : length (x ++ y) / 24 ≡ n + m
      together =
          omega
            (arith, length-append x y, length-append (drop (n * 24) x) y, length-drop (n * 24) x)

      servers :
          dispatch_packets (packets m rest) (dispatch_packets (packets n x) s)
          ≡ dispatch_packets (packets (length (x ++ y) / 24) (x ++ y)) s
      servers =
          sym (dispatch_packets-append (packets n x) (packets m rest) s)
          ∙ ap (λ ps. dispatch_packets ps s)
              (sym (packets-append n m x y (omega arith))
                ∙ ap (λ k. packets k (x ++ y)) (sym together))

      buffers : drop (m * 24) rest ≡ drop (length (x ++ y) / 24 * 24) (x ++ y)
      buffers =
          ap (drop (m * 24)) (sym (drop-append (n * 24) x y (omega arith)))
          ∙ (drop-drop (m * 24) (n * 24) (x ++ y)
              ∙ ap (λ k. drop k (x ++ y)) (omega (arith, together)))

  receive-chunk :
      (bytes b : Bytes) (s : CanIpcServer W F)
      → is_empty bytes ≡ false
      → receive o clock true (chunk bytes) (record { server = s; buffer = b; closed = false })
        ≡ after_stream (b ++ bytes) s
  unfolding receive
  receive-chunk bytes b s h =
      let stream = b ++ bytes in
      let drained =
        drain-packets (length stream / 24) (suc (length stream)) stream s (omega arith)
          (omega arith) (omega arith) in
      rw (h, drained)

  -- However a stream of bytes is cut into non-empty chunks, the loop dispatches exactly its whole
  -- 24-byte packets, in order, and keeps the rest for later: chunk boundaries do not matter, and
  -- unpacking never raises.
  pub handle_client-stream :
      (chunks : List Bytes) (b : Bytes) (s : CanIpcServer W F)
      → length b < 24
      → All (λ bytes. is_empty bytes ≡ false) chunks
      → handle_client o clock
          (map (λ bytes. (true, chunk bytes)) chunks)
          (record { server = s; buffer = b; closed = false })
        ≡ after_stream (b ++ flatten chunks) s
  unfolding handle_client flatten
  handle_client-stream [] b s h all =
      let none_yet : length b / 24 ≡ 0 = omega arith in rw (append-nil, none_yet)
  handle_client-stream (bytes ∷ chunks) b s h all =
      let after = after_stream (b ++ bytes) s in
      rw (receive-chunk bytes b s all.0) (
        handle_client-stream chunks after.buffer after.server
          (omega (arith, length-drop (length (b ++ bytes) / 24 * 24) (b ++ bytes))) all.1
        ∙ (after_stream-append (b ++ bytes) (flatten chunks) s
            ∙ ap (λ stream. after_stream stream s) (append_assoc b bytes (flatten chunks))))
