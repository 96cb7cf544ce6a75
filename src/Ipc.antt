-- ===== src/Ipc.antt =====
-- src/ipc/ipc_server.py: the binary frame format, and the loop that serves one client. The
-- platform's byte order, which the format's `=` stands for, the clock and what the socket's `recv`
-- returns are arguments.
pub mod Packet
pub mod Framing
pub mod Clients
pub mod Observing
pub mod Stepping
pub mod Interleaving
mod Tests
use can_sentinental.Prelude.{
  ℕ, zero, suc, ◌+◌, ◌≤◌, ◌<◌, Bool, true, false, not, List, [], ◌∷◌, ◌++◌, Option, none, some,
  length, take, drop, ltb, leb, ◌==◌, if◌then◌else◌, is_empty, Error, Result, ok, raise,
  value_error, ◌>>=◌,
}
use can_sentinental.Prelude.Int.{pos}
use can_sentinental.Floats.{FloatOps, of_nat}
use can_sentinental.Struct.{Bytes, ByteOrder, Code, uint, chars, calcsize, unpack, Fields}
use can_sentinental.Frame.{CanFrame, Options, new_frame}
use can_sentinental.Callbacks.{Callback, Outcome, dispatch}

-- IPC_FRAME_STRUCT_FORMAT, "=QIB8sBBB", and IPC_FRAME_SIZE
abbrev pub ipc_frame_struct_format : List Code
ipc_frame_struct_format = uint 8 ∷ uint 4 ∷ uint 1 ∷ chars 8 ∷ uint 1 ∷ uint 1 ∷ uint 1 ∷ []

abbrev pub ipc_frame_size : ℕ
ipc_frame_size = calcsize ipc_frame_struct_format

-- bool(n)
abbrev pub truthy : ℕ → Bool
truthy n = not (n == 0)

-- What `recv` returns, or that it raises; an empty chunk is the end of the stream.
pub data Recv : Type 0 where
  chunk : Bytes → Recv
  failed : Error → Recv

module _ {F : Type 0} ⦃fl : FloatOps F⦄ where
  abbrev pub timestamp_sec : F → ℕ → F
  timestamp_sec now ts_us = if ltb 0 ts_us then fl.div (of_nat ts_us) (fl.lit 1000000 0) else now

  -- The return of `unpack_binary_frame`.
  unfoldable pub frame_of_fields : F → Fields ipc_frame_struct_format → CanFrame F
  unfolding new_frame
  frame_of_fields now (ts_us, (can_id, (dlc, (data_bytes, (is_ext, (is_err, (is_rtr, _))))))) =
      new_frame now can_id (take dlc data_bytes) (record {
        given_dlc = some dlc;
        extended = truthy is_ext;
        error = truthy is_err;
        rtr = truthy is_rtr;
        given_timestamp = some (timestamp_sec now ts_us);
      })

  unfoldable pub unpack_binary_frame : ByteOrder → F → Bytes → Result (CanFrame F)
  unfolding frame_of_fields
  unpack_binary_frame o now raw_bytes =
      if length raw_bytes == ipc_frame_size
      then (do fields ← unpack o ipc_frame_struct_format raw_bytes; ok (frame_of_fields now fields))
      else raise value_error

-- The fields of `CANIPCServer` that serving a client touches.
pub record CanIpcServer (W F : Type 0) : Type 0 where
  pub callbacks : List (Callback W (CanFrame F))
  pub total_frames_received : ℕ
  -- What the callbacks act on, and what has been printed.
  pub world : W
  pub printed : List Error

-- A client's connection: the bytes not yet consumed, and whether the socket has been closed.
pub record Connection (W F : Type 0) : Type 0 where
  pub server : CanIpcServer W F
  pub buffer : Bytes
  pub closed : Bool

module _ {W F : Type 0} where
  unfoldable pub add_frame_subscriber :
      Callback W (CanFrame F) → CanIpcServer W F → CanIpcServer W F
  add_frame_subscriber cb s = record s { callbacks = s.callbacks ++ cb ∷ [] }

  unfoldable pub dispatch_frame : CanFrame F → CanIpcServer W F → CanIpcServer W F
  dispatch_frame frame s =
      let out = dispatch s.callbacks frame s.world in
      record s {
        total_frames_received = s.total_frames_received + 1;
        world = out.world;
        printed = s.printed ++ out.printed;
      }

-- `clock n` is the reading of the clock when the n-th frame is unpacked.
module _ {W F : Type 0} ⦃fl : FloatOps F⦄ (o : ByteOrder) (clock : ℕ → F) where
  -- while len(buffer) >= IPC_FRAME_SIZE; each round takes a frame off the buffer, so a fuel above
  -- its length is enough. The result is the rest of the buffer, or what unpacking raised.
  unfoldable pub drain : ℕ → Bytes → CanIpcServer W F → Result Bytes × CanIpcServer W F
  drain zero buffer s = (ok buffer, s)
  drain (suc fuel) buffer s = elim (leb ipc_frame_size (length buffer)) [
    | true ↦
        elim (unpack_binary_frame o (clock s.total_frames_received) (take ipc_frame_size buffer)) [
          | ok frame ↦ drain fuel (drop ipc_frame_size buffer) (dispatch_frame frame s)
          | raise e ↦ (raise e, s)
        ]
    | false ↦ (ok buffer, s)
  ]

  abbrev after_drain : Result Bytes × CanIpcServer W F → Connection W F
  after_drain (ok rest, s) = record { server = s; buffer = rest; closed = false }
  after_drain (raise e, s) = record { server = s; buffer = []; closed = true }

  -- One round of `while self.running`, with the flag as the loop reads it.
  unfoldable pub receive : Bool → Recv → Connection W F → Connection W F
  unfolding drain
  receive false r c = record c { closed = true }
  receive true (failed e) c = record c { closed = true }
  receive true (chunk bytes) c =
      if is_empty bytes
      then record c { closed = true }
      else let buffer = c.buffer ++ bytes in
        after_drain (drain (suc (length buffer)) buffer c.server)

  -- `_handle_client`, on the events seen so far: after the socket is closed nothing happens.
  unfoldable pub handle_client : List (Bool × Recv) → Connection W F → Connection W F
  handle_client [] c = c
  handle_client ((running, r) ∷ events) c =
      if c.closed then c else handle_client events (receive running r c)
