-- ===== src/Engine/Clients/Limit.antt =====
-- The limit on clients, while none is refused, and when one is.
use pluster.Prelude.{◌<◌, ◌≡◌, true, false, arith}
use pluster.Proto.Int64.{half_word}
use pluster.Engine.Clients.{Clients, takes_client, on_client_open, on_client_close}

-- A connection that is taken and closed again leaves the count as it was.
pub on_client_close-open :
    (c : Clients)
    → c.num_clients < half_word
    → takes_client c ≡ true
    → (on_client_close (on_client_open c)).num_clients ≡ c.num_clients
unfolding on_client_open on_client_close
on_client_close-open c h t = rw t (omega arith)

-- Where the limit is reached, a connection is refused; but once it has been closed, the next
-- connection is taken, although no client has left.
pub on_client_close-refused :
    (c : Clients)
    → 0 < c.max_clients
    → c.max_clients < half_word
    → c.num_clients ≡ c.max_clients
    → (takes_client c ≡ false) × (takes_client (on_client_close (on_client_open c)) ≡ true)
unfolding on_client_open on_client_close
on_client_close-refused c p h e =
    let refused : takes_client c ≡ false = ground arith in (refused, rw refused (ground arith))
