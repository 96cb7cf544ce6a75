-- ===== src/Ipc/Tests.antt =====
-- Runs of the IPC server, and its theorems at concrete inputs.
use can_sentinental.Prelude.{
  ℕ, ◌<◌, ◌/◌, ◌≡◌, ◌≢◌, refl, true, false, List, [], ◌∷◌, ◌++◌, ok, raise, value_error, length,
  ◌≤◌, map, arith, take, drop,
}
use mathlib.Core.List.{flatten}
use can_sentinental.Prelude.Int.{ℤ, pos}
use can_sentinental.Struct.{Bytes, little, big}
use can_sentinental.Floats.Fixed.{micro}
use can_sentinental.Frame.{CanFrame}
use can_sentinental.Callbacks.{Callback, dispatch}
use can_sentinental.Ipc.{
  drain, CanIpcServer, chunk, unpack_binary_frame, receive, handle_client, dispatch_frame,
}
use can_sentinental.Ipc.Packet.{
  IpcPacket, packet_bytes, unpack_binary_frame-packet_bytes, unpack_binary_frame_size,
}
use can_sentinental.Ipc.Framing.{
  after_stream, packets, dispatch_packets, drain_terminates, handle_client-stream,
}
use can_sentinental.Ipc.Clients.{Clients, Event, connects, goes_on, client_at, run}
use can_sentinental.Ipc.Observing.{IsReceiving}

-- The packet of tests/test_ipc.py: engine RPM at 1000 s.
abbrev engine : IpcPacket
engine = record {
  timestamp_us = 1000000000;
  can_id = 0x110;
  dlc = 4;
  payload = 0x09 ∷ 0xC4 ∷ 0x28 ∷ 0x01 ∷ 0 ∷ 0 ∷ 0 ∷ 0 ∷ [];
  is_extended = 0;
  is_error = 0;
  is_rtr = 0;
}

abbrev engine_frame : CanFrame ℤ
engine_frame = record {
  can_id = 0x110;
  payload = 0x09 ∷ 0xC4 ∷ 0x28 ∷ 0x01 ∷ [];
  dlc = 4;
  is_extended = false;
  is_error = false;
  is_rtr = false;
  timestamp = pos 1000000000;
}

unpack_engine : unpack_binary_frame little (pos 0) (packet_bytes little engine) ≡ ok engine_frame
unfolding unpack_binary_frame
unpack_engine = refl

unpack_short : unpack_binary_frame little (pos 0) (1 ∷ 2 ∷ []) ≡ raise value_error
unfolding unpack_binary_frame
unpack_short = refl

unpack_binary_frame-packet_bytes_example :
    unpack_binary_frame big (pos 0) (packet_bytes big engine) ≡ ok engine_frame
unpack_binary_frame-packet_bytes_example =
    unpack_binary_frame-packet_bytes big (pos 0) engine
      (record { timestamp_us = omega arith; can_id = omega arith; payload = refl })

abbrev stream : Bytes
stream = packet_bytes little engine

unpack_binary_frame_size_example :
    (length stream ≢ 24 → unpack_binary_frame {F = ℤ} little (pos 0) stream ≡ raise value_error)
    × (length stream ≡ 24
        → (frame : CanFrame ℤ) × (unpack_binary_frame little (pos 0) stream ≡ ok frame)
          × (length frame.payload ≡ frame.dlc)
          × (frame.dlc ≤ 8))
unpack_binary_frame_size_example = unpack_binary_frame_size little (pos 0) stream

-- A subscriber that keeps the identifiers it sees, and one that raises.
abbrev keep_id : Callback (List ℕ) (CanFrame ℤ)
keep_id f w = (ok tt, w ++ f.can_id ∷ [])

abbrev fails : Callback (List ℕ) (CanFrame ℤ)
fails f w = (raise value_error, w)

abbrev server : CanIpcServer (List ℕ) ℤ
server = record {
  callbacks = fails ∷ keep_id ∷ [];
  total_frames_received = 0;
  world = [];
  printed = [];
}

abbrev clock : ℕ → ℤ
clock n = pos 0

-- A packet cut in two, with the start of the next.
abbrev chunks : List Bytes
chunks = take 5 stream ∷ (drop 5 stream ++ 1 ∷ []) ∷ []

serve_two_chunks :
    handle_client little clock
      (map (λ bytes. (true, chunk bytes)) chunks)
      (record { server = server; buffer = []; closed = false })
    ≡ record {
      server = record server {
        total_frames_received = 1;
        world = 0x110 ∷ [];
        printed = value_error ∷ [];
      };
      buffer = 1 ∷ [];
      closed = false;
    }
unfolding handle_client receive dispatch_frame unpack_binary_frame dispatch
serve_two_chunks = refl

handle_client-stream_example :
    handle_client little clock
      (map (λ bytes. (true, chunk bytes)) chunks)
      (record { server = server; buffer = []; closed = false })
    ≡ after_stream little clock (flatten chunks) server
handle_client-stream_example =
    handle_client-stream little clock chunks [] server (omega arith) (refl, (refl, tt))

drain_terminates_example :
    (rest : Bytes) × (drain little clock 2 stream server
      ≡ (ok rest, dispatch_packets little clock (packets (length stream / 24) stream) server))
    × (length rest < 24)
drain_terminates_example = drain_terminates little clock 2 stream server (omega arith)

-- A step of a thread that does not receive, or receives nothing, and one that receives.
abbrev step_of : ℕ → Event ℤ
step_of i = goes_on i true (pos 0) (chunk [])

abbrev receives : ℕ → Bytes → Event ℤ
receives i bytes = goes_on i true (pos 0) (chunk bytes)

-- Two clients; the packet of the first is cut in two, the second's comes in between, and the two
-- dispatches overlap: both threads read the counter before one of them writes it.
abbrev schedule : List (Event ℤ)
schedule =
    connects
    ∷ connects
    ∷ receives 0 (take 5 stream)
    ∷ step_of 0
    ∷ receives 1 stream
    ∷ receives 0 (drop 5 stream ++ 1 ∷ [])
    ∷ step_of 1
    ∷ step_of 0
    ∷ step_of 1
    ∷ step_of 0
    ∷ step_of 0
    ∷ step_of 1
    ∷ step_of 0
    ∷ step_of 1
    ∷ step_of 0
    ∷ step_of 1
    ∷ step_of 0
    ∷ step_of 0
    ∷ []

abbrev nobody : Clients (List ℕ) ℤ
nobody = record { server = server; clients = [] }

interleaved : (run little schedule nobody).server.world ≡ 0x110 ∷ 0x110 ∷ []
unfolding run unpack_binary_frame
interleaved = refl

-- An increment is lost: two frames are dispatched, and one is counted.
lost_increment : (run little schedule nobody).server.total_frames_received ≡ 1
unfolding run unpack_binary_frame
lost_increment = refl

first_waits : IsReceiving (client_at 0 (run little schedule nobody).clients)
unfolding run unpack_binary_frame
first_waits = tt
