-- ===== src/Server/Tests.antt =====
-- Schedules of the server.
use can_sentinental.Prelude.{◌≡◌, refl, true, false, List, [], ◌∷◌, arith}
use can_sentinental.Server.{
  accepting, ended, success, timeout, exception, Server, new_server, stop, Action, call_start,
  call_stop, go_on, phase_at, run,
}
use can_sentinental.Server.Lifecycle.{stop_ends, run-AllEnded}

-- A Unix server that has accepted one client and waits for the next.
abbrev serving : List Action
serving = call_start ∷ go_on 0 success ∷ go_on 0 timeout ∷ go_on 0 success ∷ go_on 0 timeout ∷ []

one_client : run serving (new_server false true) ≡ record (run serving (new_server false true)) {
  client_threads = 1;
  running = true;
  threads = accepting ∷ [];
}
unfolding run new_server
one_client = refl

-- A server that is stopped before its thread has bound the socket leaves the file behind.
file_left :
    (run
      (call_start ∷ call_stop ∷ go_on 0 success ∷ go_on 0 timeout ∷ [])
      (new_server false false)).socket_file
    ≡ true
unfolding run new_server
file_left = refl

stop_ends_example :
    phase_at 0
      (run
        (go_on 0 timeout ∷ call_stop ∷ go_on 0 success ∷ [])
        (stop (run serving (new_server false true)))).threads
    ≡ ended
stop_ends_example =
    stop_ends 0 (go_on 0 timeout ∷ call_stop ∷ go_on 0 success ∷ [])
      (run serving (new_server false true)) (refl, (refl, (refl, tt))) (omega arith)

-- `bind` has failed.
abbrev failed : Server
failed = record (new_server true false) { running = true; threads = ended ∷ [] }

bind_failed :
    (run (call_start ∷ go_on 0 exception ∷ []) (new_server true false)).threads ≡ failed.threads
unfolding run new_server
bind_failed = refl

run-AllEnded_example : run (call_start ∷ go_on 0 success ∷ go_on 1 success ∷ []) failed ≡ failed
run-AllEnded_example =
    run-AllEnded (call_start ∷ go_on 0 success ∷ go_on 1 success ∷ []) failed refl (refl, tt)
      (refl, (refl, (refl, tt)))
