-- ===== src/Server.antt =====
-- src/ipc/ipc_server.py: `start`, `stop` and `_server_loop`, with their threads. A schedule names
-- the calls and which thread goes on, and what its socket call does is part of it; setting the
-- socket up is one step. The threads that serve clients are counted.
pub mod Lifecycle
mod Tests
use can_sentinental.Prelude.{
  ℕ, zero, suc, ◌+◌, Bool, true, false, not, ◌&&◌, List, [], ◌∷◌, ◌++◌, if◌then◌else◌,
}
use can_sentinental.Prelude.Slots.{slot, set_slot}

-- Where a thread stands in `_server_loop`: before the socket is bound, before `while self.running`,
-- in `accept`, or past the loop.
pub data Phase : Type 0 where
  setting_up checking accepting ended : Phase

-- What a step meets: its calls succeed, `accept` times out, or a call raises. Before the loop this is
-- `os.remove`, `socket`, `bind` (or `setsockopt` before it) or `listen`; in the loop, `accept`, or the
-- start of the client's thread.
pub data Reply : Type 0 where
  success timeout exception remove_raises socket_raises listen_raises : Reply

pub data Socket : Type 0 where
  unset opened listening closed : Socket

pub record Server : Type 0 where
  pub use_tcp : Bool
  pub running : Bool
  pub server_sock : Socket
  -- Whether the Unix socket's path exists.
  pub socket_file : Bool
  -- The threads that `start` has made, the first one first.
  pub threads : List Phase
  pub client_threads : ℕ

unfoldable pub new_server : Bool → Bool → Server
new_server use_tcp socket_file = record {
  use_tcp = use_tcp;
  running = false;
  server_sock = unset;
  socket_file = socket_file;
  threads = [];
  client_threads = 0;
}

unfoldable pub start : Server → Server
start s =
    if s.running then s else record s { running = true; threads = s.threads ++ setting_up ∷ [] }

-- self._server_sock.close(), where there is one; an exception is caught.
abbrev pub close_socket : Socket → Socket
close_socket unset = unset
close_socket opened = closed
close_socket listening = closed
close_socket closed = closed

unfoldable pub stop : Server → Server
stop s = record s {
  running = false;
  server_sock = close_socket s.server_sock;
  socket_file = s.use_tcp && s.socket_file;
}

-- The socket is bound and listens.
abbrev pub listening_on : Server → Server
listening_on s = record s {
  server_sock = listening;
  socket_file = if s.use_tcp then s.socket_file else true;
}

-- Up to the loop; an exception ends the thread, with what came before it done. An old socket's path
-- is removed first, which cannot raise where there is none.
unfoldable pub set_up : Reply → Server → Phase × Server
set_up success s = (checking, listening_on s)
set_up timeout s = (checking, listening_on s)
set_up remove_raises s =
    if not s.use_tcp && s.socket_file then (ended, s) else (checking, listening_on s)
set_up socket_raises s = (ended, record s { socket_file = s.use_tcp && s.socket_file })
set_up exception s =
    (ended, record s { server_sock = opened; socket_file = s.use_tcp && s.socket_file })
set_up listen_raises s = (ended, record (listening_on s) { server_sock = opened })

-- The body of the loop.
unfoldable pub accept_client : Reply → Server → Phase × Server
accept_client success s = (checking, record s { client_threads = s.client_threads + 1 })
accept_client timeout s = (checking, s)
accept_client exception s = (ended, s)
accept_client remove_raises s = (ended, s)
accept_client socket_raises s = (ended, s)
accept_client listen_raises s = (ended, s)

unfoldable pub advance : Reply → Phase → Server → Phase × Server
unfolding set_up accept_client
advance reply setting_up s = set_up reply s
advance reply checking s = (if s.running then accepting else ended, s)
advance reply accepting s = accept_client reply s
advance reply ended s = (ended, s)

-- The phase of a thread; one that was never made has nothing to do.
abbrev pub phase_at : ℕ → List Phase → Phase
phase_at i ps = slot ended i ps

abbrev pub set_phase : ℕ → Phase → List Phase → List Phase
set_phase i p ps = set_slot i p ps

pub data Action : Type 0 where
  call_start call_stop : Action
  go_on : ℕ → Reply → Action

unfoldable pub perform : Action → Server → Server
unfolding start stop advance
perform call_start s = start s
perform call_stop s = stop s
perform (go_on i reply) s =
    let (phase, s') = advance reply (phase_at i s.threads) s in
    record s' { threads = set_phase i phase s'.threads }

unfoldable pub run : List Action → Server → Server
unfolding perform
run [] s = s
run (a ∷ as') s = run as' (perform a s)
