-- ===== src/Ipc/Interleaving.antt =====
-- src/ipc/ipc_server.py: clients do not disturb each other's frames, however their threads
-- interleave.
use can_sentinental.Prelude.{ℕ, ◌==◌, List, [], ◌∷◌, ◌++◌, if◌then◌else◌}
use can_sentinental.Floats.{FloatOps}
use can_sentinental.Struct.{ByteOrder}
use can_sentinental.Ipc.Clients.{Clients, Event, connects, goes_on, client_at, perform}
use can_sentinental.Ipc.Observing.{Taken, Call, taken, called, got}

-- What each of some steps has to show, with the number of its thread: one thread's part, and all.
abbrev pub from_client : {A : Type 0} → ℕ → List (ℕ × List A) → List A
from_client i [] = []
from_client i ((j, as') ∷ shown) =
    let rest = from_client i shown in if i == j then as' ++ rest else rest

abbrev pub from_all : {A : Type 0} → List (ℕ × List A) → List A
from_all [] = []
from_all ((j, as') ∷ shown) = as' ++ from_all shown

module _ {W F : Type 0} ⦃fl : FloatOps F⦄ (o : ByteOrder) where
  -- The packets that the steps of a run take off, the bytes that they receive, and the callbacks that
  -- they call.
  unfoldable pub unpacked : List (Event F) → Clients W F → List (ℕ × List (Taken F))
  unpacked [] st = []
  unpacked (connects ∷ es) st = unpacked es (perform o connects st)
  unpacked (goes_on i running now r ∷ es) st =
      (i, taken now (client_at i st.clients)) ∷ unpacked es (perform o (goes_on i running now r) st)

  unfoldable pub received : List (Event F) → Clients W F → List (ℕ × List ℕ)
  received [] st = []
  received (connects ∷ es) st = received es (perform o connects st)
  received (goes_on i running now r ∷ es) st =
      (i, got running r (client_at i st.clients))
      ∷ received es (perform o (goes_on i running now r) st)

  unfoldable pub calls : List (Event F) → Clients W F → List (ℕ × List (Call W F))
  calls [] st = []
  calls (connects ∷ es) st = calls es (perform o connects st)
  calls (goes_on i running now r ∷ es) st =
      (i, called (client_at i st.clients)) ∷ calls es (perform o (goes_on i running now r) st)
