-- ===== src/Ipc/Clients.antt =====
-- src/ipc/ipc_server.py: the threads of `_handle_client`, one for each client that `_server_loop`
-- has accepted, on the one server that they share. A schedule says when a client connects and which
-- thread goes on. Nothing is locked, so the steps of a dispatch are apart: unpacking the frame,
-- reading the counter, writing it, and each call of a callback, which is one step.
use can_sentinental.Prelude.{
  ℕ, ◌+◌, Bool, true, false, List, [], ◌∷◌, ◌++◌, length, take, drop, leb, is_empty, if◌then◌else◌,
  Result, ok, raise,
}
use can_sentinental.Prelude.Slots.{slot, set_slot}
use can_sentinental.Floats.{FloatOps}
use can_sentinental.Struct.{Bytes, ByteOrder}
use can_sentinental.Frame.{CanFrame}
use can_sentinental.Callbacks.{Callback, note}
use can_sentinental.Ipc.{ipc_frame_size, CanIpcServer, Recv, chunk, failed, unpack_binary_frame}

-- Where a client's thread stands, with its buffer: before `while self.running`, before the test of
-- the inner loop, past both with the socket closed, or in `_dispatch_frame` with its frame. There it
-- is before the counter is read, before the counter is written with what was read, or in the loop
-- over the callbacks that are left.
pub data Client (W F : Type 0) : Type 0 where
  receiving draining closed : Bytes → Client W F
  counting : Bytes → CanFrame F → Client W F
  storing : Bytes → CanFrame F → ℕ → Client W F
  calling : Bytes → CanFrame F → List (Callback W (CanFrame F)) → Client W F

pub record Clients (W F : Type 0) : Type 0 where
  pub server : CanIpcServer W F
  -- The threads, the first client's first.
  pub clients : List (Client W F)

pub data Event (F : Type 0) : Type 0 where
  connects : Event F
  -- The thread that goes on, `running` and the clock as it reads them, and what `recv` does if it is
  -- called.
  goes_on : ℕ → Bool → F → Recv → Event F

abbrev pub client_at : {W F : Type 0} → ℕ → List (Client W F) → Client W F
client_at i cs = slot (closed []) i cs

abbrev pub after_recv : {W F : Type 0} → Bool → Recv → Bytes → Client W F
after_recv false r buffer = closed buffer
after_recv true (failed e) buffer = closed buffer
after_recv true (chunk bytes) buffer =
    if is_empty bytes then closed buffer else draining (buffer ++ bytes)

abbrev pub after_unpack : {W F : Type 0} → Bytes → Result (CanFrame F) → Client W F
after_unpack rest (ok frame) = counting rest frame
after_unpack rest (raise e) = closed rest

-- A callback's call, with the server that it leaves; an exception is printed.
abbrev pub call_callback :
    {W F : Type 0} → Callback W (CanFrame F) → CanFrame F → CanIpcServer W F → CanIpcServer W F
call_callback cb frame s =
    let (r, w) = cb frame s.world in record s { world = w; printed = s.printed ++ note r [] }

module _ {W F : Type 0} ⦃fl : FloatOps F⦄ (o : ByteOrder) where
  unfoldable pub step_client :
      Bool → F → Recv → Client W F → CanIpcServer W F → Client W F × CanIpcServer W F
  step_client running now r (receiving buffer) s = (after_recv running r buffer, s)
  step_client running now r (draining buffer) s =
      if leb ipc_frame_size (length buffer)
      then (
        after_unpack (drop ipc_frame_size buffer)
            (unpack_binary_frame o now (take ipc_frame_size buffer)),
        s,
      )
      else (receiving buffer, s)
  step_client running now r (counting buffer frame) s =
      (storing buffer frame s.total_frames_received, s)
  step_client running now r (storing buffer frame n) s =
      (calling buffer frame s.callbacks, record s { total_frames_received = n + 1 })
  step_client running now r (calling buffer frame []) s = (draining buffer, s)
  step_client running now r (calling buffer frame (cb ∷ cbs)) s =
      (calling buffer frame cbs, call_callback cb frame s)
  step_client running now r (closed buffer) s = (closed buffer, s)

  unfoldable pub perform : Event F → Clients W F → Clients W F
  unfolding step_client
  perform connects st = record st { clients = st.clients ++ receiving [] ∷ [] }
  perform (goes_on i running now r) st =
      let (c, s) = step_client running now r (client_at i st.clients) st.server in
      record { server = s; clients = set_slot i c st.clients }

  unfoldable pub run : List (Event F) → Clients W F → Clients W F
  unfolding perform
  run [] st = st
  run (e ∷ es) st = run es (perform e st)
