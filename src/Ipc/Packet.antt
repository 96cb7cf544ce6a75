-- ===== src/Ipc/Packet.antt =====
-- src/ipc/ipc_server.py: a packet of the C side, `can_sentinel_ipc_frame_t` of
-- src/c/can_sentinel_common.h, against `unpack_binary_frame`.
use can_sentinental.Prelude.{
  ℕ, ◌^◌, ◌≤◌, ◌<◌, ◌≡◌, refl, ap, ◌∙◌, [], ◌∷◌, length, take, min, ok, raise, value_error, ◌≢◌,
  drop, arith, length-take, length-drop,
}
use can_sentinental.Floats.{FloatOps}
use can_sentinental.Struct.{Bytes, ByteOrder, unpack_fields, Fields, bytes_of}
use can_sentinental.Struct.Laws.{
  Segments, layout, Fits, unpack_fields-layout, length-layout, length-bytes_of, value-bytes_of,
  value-one,
}
use can_sentinental.Frame.{CanFrame}
use can_sentinental.Ipc.{
  ipc_frame_struct_format, truthy, timestamp_sec, frame_of_fields, unpack_binary_frame,
}

-- The packed C struct, and its bytes in memory.
pub record IpcPacket : Type 0 where
  pub timestamp_us : ℕ
  pub can_id : ℕ
  pub dlc : ℕ
  pub payload : Bytes
  pub is_extended : ℕ
  pub is_error : ℕ
  pub is_rtr : ℕ

pub record InRange (p : IpcPacket) : Type 0 where
  pub timestamp_us : p.timestamp_us < 256 ^ 8
  pub can_id : p.can_id < 256 ^ 4
  pub payload : length p.payload ≡ 8

abbrev packet_segments : ByteOrder → IpcPacket → Segments ipc_frame_struct_format
packet_segments o p = (
  bytes_of o 8 p.timestamp_us,
  (
    bytes_of o 4 p.can_id,
    (p.dlc ∷ [], (p.payload, (p.is_extended ∷ [], (p.is_error ∷ [], (p.is_rtr ∷ [], tt))))),
  ),
)

abbrev pub packet_bytes : ByteOrder → IpcPacket → Bytes
packet_bytes o p = layout ipc_frame_struct_format (packet_segments o p)

packet_segments-Fits :
    (o : ByteOrder) (p : IpcPacket) → InRange p → Fits ipc_frame_struct_format (packet_segments o p)
packet_segments-Fits o p r = (
  length-bytes_of o 8 p.timestamp_us,
  (length-bytes_of o 4 p.can_id, (refl, (r.payload, (refl, (refl, (refl, tt)))))),
)

abbrev packet_fields : IpcPacket → Fields ipc_frame_struct_format
packet_fields p = (
  p.timestamp_us,
  (p.can_id, (p.dlc, (p.payload, (p.is_extended, (p.is_error, (p.is_rtr, tt)))))),
)

unpack-packet_bytes :
    (o : ByteOrder) (p : IpcPacket)
    → InRange p
    → unpack_fields o ipc_frame_struct_format (packet_bytes o p) ≡ packet_fields p
unpack-packet_bytes o p r =
    unpack_fields-layout o ipc_frame_struct_format (packet_segments o p)
      (packet_segments-Fits o p r)
    ∙ (λ i. (
      value-bytes_of o 8 p.timestamp_us r.timestamp_us i,
      (
        value-bytes_of o 4 p.can_id r.can_id i,
        (
          value-one o p.dlc i,
          (
            p.payload,
            (value-one o p.is_extended i, (value-one o p.is_error i, (value-one o p.is_rtr i, tt))),
          ),
        ),
      ),
    ))

module _ {F : Type 0} ⦃fl : FloatOps F⦄ (o : ByteOrder) (now : F) where
  pub unpack_binary_frame-sized :
      (raw_bytes : Bytes)
      → length raw_bytes ≡ 24
      → unpack_binary_frame o now raw_bytes
        ≡ ok (frame_of_fields now (unpack_fields o ipc_frame_struct_format raw_bytes))
  unfolding unpack_binary_frame
  unpack_binary_frame-sized raw_bytes h = rw h

  -- Unpacking the bytes of a packet whose fields are in range, in either byte order, gives a frame
  -- with the packet's identifier and flags, at most eight payload bytes as its DLC says, and its
  -- time in seconds, or the clock's where the packet has none.
  pub unpack_binary_frame-packet_bytes :
      (p : IpcPacket)
      → InRange p
      → unpack_binary_frame o now (packet_bytes o p)
        ≡ ok (record {
          can_id = p.can_id;
          payload = take p.dlc p.payload;
          dlc = min p.dlc 8;
          is_extended = truthy p.is_extended;
          is_error = truthy p.is_error;
          is_rtr = truthy p.is_rtr;
          timestamp = timestamp_sec now p.timestamp_us;
        })
  unfolding frame_of_fields
  unpack_binary_frame-packet_bytes p r =
      unpack_binary_frame-sized (packet_bytes o p)
        (length-layout ipc_frame_struct_format (packet_segments o p) (packet_segments-Fits o p r))
      ∙ ap (λ f. ok (frame_of_fields now f)) (unpack-packet_bytes o p r)

  -- A buffer of any other size raises, and of this size never does; the frame then has exactly as
  -- many payload bytes as its DLC, at most eight.
  pub unpack_binary_frame_size :
      (raw_bytes : Bytes)
      → (length raw_bytes ≢ 24 → unpack_binary_frame o now raw_bytes ≡ raise value_error)
        × (length raw_bytes ≡ 24
            → (frame : CanFrame F) × (unpack_binary_frame o now raw_bytes ≡ ok frame)
              × (length frame.payload ≡ frame.dlc)
              × (frame.dlc ≤ 8))
  unfolding unpack_binary_frame
  unpack_binary_frame_size raw_bytes = (
    λ h. ground arith,
    λ h.
        let fields = unpack_fields o ipc_frame_struct_format raw_bytes in
        let dlc : ℕ = fields.1.1.0 in
        let body = drop 4 (drop 8 raw_bytes) in
        let sizes : length (take 8 (drop 1 body)) ≡ 8 = omega (
          arith,
          length-take 8 (drop 1 body),
          length-drop 1 body,
          length-drop 4 (drop 8 raw_bytes),
          length-drop 8 raw_bytes,
        ) in
        (
          frame_of_fields now fields,
          unpack_binary_frame-sized raw_bytes h,
          omega (arith, length-take dlc (take 8 (drop 1 body)), sizes),
          omega arith,
        ),
  )
