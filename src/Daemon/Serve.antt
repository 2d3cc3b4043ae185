-- ===== src/Daemon/Serve.antt =====
-- crates/daemon/src/control.rs: `serve`, what it does before it listens, and how many clients it has
-- at a time. What the file system and the socket answer is an argument.
use omarchy_presence_unlock.Base.{
  ℕ, ◌-◌, ◌≤◌, ◌≡◌, ◌⊎◌, Bool, true, List, [], ◌∷◌, ltb, if◌then◌else◌, arith, ◌+◌,
}
use omarchy_presence_unlock.Daemon.Control.{max_concurrent_clients}

-- How a probe by `connect` ends, within its 100 ms or not.
pub data Probe : Type 0 where
  connected connection_refused probe_error timed_out : Probe

-- What stands at the path of the socket.
pub data Endpoint : Type 0 where
  not_found metadata_error other_file : Endpoint
  socket : Probe → Endpoint

-- The exclusive lock of the sibling file: opening it may fail, another may hold it.
pub data Lock : Type 0 where
  held would_block lock_error open_error : Lock

pub data ServeError : Type 0 where
  addr_in_use io_error : ServeError

pub data Prepared : Type 0 where
  prepared : Prepared
  failed : ServeError → Prepared

abbrev pub remove_probed : Probe → Bool → Prepared
remove_probed connected removed = failed addr_in_use
remove_probed connection_refused removed = if removed then prepared else failed io_error
remove_probed probe_error removed = failed io_error
remove_probed timed_out removed = failed addr_in_use

-- `remove_stale_socket`; `removed` is whether `remove_file` succeeds where it is called.
unfoldable pub remove_stale_socket : Endpoint → Bool → Prepared
remove_stale_socket not_found removed = prepared
remove_stale_socket metadata_error removed = failed io_error
remove_stale_socket other_file removed = failed addr_in_use
remove_stale_socket (socket probe) removed = remove_probed probe removed

-- `serve` up to the bound listener.
unfoldable pub prepare : Lock → Endpoint → Bool → Prepared
prepare held endpoint removed = remove_stale_socket endpoint removed
prepare would_block endpoint removed = failed addr_in_use
prepare lock_error endpoint removed = failed io_error
prepare open_error endpoint removed = failed io_error

-- A daemon listens only under the lock, and takes the place of nothing but a socket that refuses
-- connections and that it could remove.
pub prepare_prepared :
    (lock : Lock) (endpoint : Endpoint) (removed : Bool)
    → prepare lock endpoint removed ≡ prepared
    → (lock ≡ held)
      × ((endpoint ≡ not_found) ⊎ ((endpoint ≡ socket connection_refused) × (removed ≡ true)))
unfolding prepare remove_stale_socket
prepare_prepared lock endpoint removed h = ground arith

-- What happens to the clients: one connects, or a task that answers one ends.
pub data ClientEvent : Type 0 where
  accepted answered : ClientEvent

-- The clients in flight and those that were dropped.
pub record Clients : Type 0 where
  pub in_flight : ℕ
  pub dropped : ℕ

abbrev pub idle : Clients
idle = record { in_flight = 0; dropped = 0 }

-- The loop of `serve` and the tasks that it spawns: a connection without a permit is dropped.
unfoldable pub client_step : Clients → ClientEvent → Clients
client_step c accepted =
    if ltb c.in_flight max_concurrent_clients
    then record c { in_flight = c.in_flight + 1 }
    else record c { dropped = c.dropped + 1 }
client_step c answered = record c { in_flight = c.in_flight - 1 }

unfoldable pub clients_after : List ClientEvent → Clients
clients_after [] = idle
clients_after (e ∷ es) = client_step (clients_after es) e

-- After any sequence of connections and answers, at most eight clients are in flight.
pub clients_after-le :
    (es : List ClientEvent) → (clients_after es).in_flight ≤ max_concurrent_clients
unfolding clients_after client_step
clients_after-le [] = omega arith
clients_after-le (accepted ∷ es) = ground (arith, clients_after-le es)
clients_after-le (answered ∷ es) = omega (arith, clients_after-le es)
