-- ===== src/Ipc/Observing.antt =====
-- src/ipc/ipc_server.py: what can be seen of a client's thread and of its steps.
use can_sentinental.Prelude.{
  Bool, true, false, List, [], ◌∷◌, ◌++◌, length, take, leb, if◌then◌else◌,
}
use can_sentinental.Floats.{FloatOps}
use can_sentinental.Struct.{Bytes, ByteOrder, unpack_fields}
use can_sentinental.Frame.{CanFrame}
use can_sentinental.Callbacks.{Callback}
use can_sentinental.Ipc.{
  ipc_frame_struct_format, CanIpcServer, Recv, chunk, failed, frame_of_fields,
}
use can_sentinental.Ipc.Clients.{
  Client, receiving, draining, closed, counting, storing, calling, call_callback,
}

-- A packet with the clock's reading at its unpacking, and a callback with the frame it is called on.
abbrev pub Taken : Type 0 → Type 0
Taken F = F × Bytes

abbrev pub Call : Type 0 → Type 0 → Type 0
Call W F = Callback W (CanFrame F) × CanFrame F

abbrev pub packets_of : {F : Type 0} → List (Taken F) → List Bytes
packets_of [] = []
packets_of ((now, p) ∷ ps) = p ∷ packets_of ps

abbrev pub calls_on : {W F : Type 0} → List (Callback W (CanFrame F)) → CanFrame F → List (Call W F)
calls_on [] frame = []
calls_on (cb ∷ cbs) frame = (cb, frame) ∷ calls_on cbs frame

-- The calls that the packets lead to: for each packet, every callback on its frame.
abbrev pub calls_for :
    {W F : Type 0} ⦃fl : FloatOps F⦄
    → ByteOrder
    → List (Callback W (CanFrame F))
    → List (Taken F)
    → List (Call W F)
calls_for o cbs [] = []
calls_for o cbs ((now, p) ∷ ps) =
    calls_on cbs (frame_of_fields now (unpack_fields o ipc_frame_struct_format p))
    ++ calls_for o cbs ps

-- What calls leave behind, one after the other: only the counter is left out.
abbrev pub after_calls : {W F : Type 0} → List (Call W F) → CanIpcServer W F → CanIpcServer W F
after_calls [] s = s
after_calls ((cb, frame) ∷ cs) s = after_calls cs (call_callback cb frame s)

module _ {W F : Type 0} where
  abbrev pub buffer_of : Client W F → Bytes
  buffer_of (receiving buffer) = buffer
  buffer_of (draining buffer) = buffer
  buffer_of (closed buffer) = buffer
  buffer_of (counting buffer frame) = buffer
  buffer_of (storing buffer frame n) = buffer
  buffer_of (calling buffer frame cbs) = buffer

  abbrev pub IsReceiving : Client W F → Type 0
  IsReceiving (receiving buffer) = Unit
  IsReceiving (draining buffer) = ⊥
  IsReceiving (closed buffer) = ⊥
  IsReceiving (counting buffer frame) = ⊥
  IsReceiving (storing buffer frame n) = ⊥
  IsReceiving (calling buffer frame cbs) = ⊥

  -- The calls that a thread still has to make for the frame it is at.
  abbrev pub pending : List (Callback W (CanFrame F)) → Client W F → List (Call W F)
  pending cbs (receiving buffer) = []
  pending cbs (draining buffer) = []
  pending cbs (closed buffer) = []
  pending cbs (counting buffer frame) = calls_on cbs frame
  pending cbs (storing buffer frame n) = calls_on cbs frame
  pending cbs (calling buffer frame rest) = calls_on rest frame

  -- What a thread's next step takes off the buffer, which callback it calls, and what it receives.
  abbrev pub taken : F → Client W F → List (Taken F)
  taken now (receiving buffer) = []
  taken now (draining buffer) = if leb 24 (length buffer) then (now, take 24 buffer) ∷ [] else []
  taken now (closed buffer) = []
  taken now (counting buffer frame) = []
  taken now (storing buffer frame n) = []
  taken now (calling buffer frame cbs) = []

  abbrev pub called : Client W F → List (Call W F)
  called (receiving buffer) = []
  called (draining buffer) = []
  called (closed buffer) = []
  called (counting buffer frame) = []
  called (storing buffer frame n) = []
  called (calling buffer frame []) = []
  called (calling buffer frame (cb ∷ cbs)) = (cb, frame) ∷ []

  abbrev pub got : Bool → Recv → Client W F → Bytes
  got running r (draining buffer) = []
  got running r (closed buffer) = []
  got running r (counting buffer frame) = []
  got running r (storing buffer frame n) = []
  got running r (calling buffer frame cbs) = []
  got false r (receiving buffer) = []
  got true (failed e) (receiving buffer) = []
  got true (chunk bytes) (receiving buffer) = bytes

  -- The server but for its counter, which the threads overwrite.
  abbrev pub uncounted : CanIpcServer W F → CanIpcServer W F
  uncounted s = record s { total_frames_received = 0 }
