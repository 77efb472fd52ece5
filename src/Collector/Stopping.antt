-- ===== src/Collector/Stopping.antt =====
-- What event-stream-store.ts does after stopCollection.
use mathlib.Core.Option
use cantontrace.Base.{ℕ, ◌≡◌, refl, ap, [], ◌∷◌, ◌++◌, Option, none, some}
use cantontrace.Collector.{
  Collector, Socket, clear_timer, connect_web_socket, disconnect_web_socket, on_close, on_timeout,
  stop_collection,
}
use cantontrace.Collector.Operations.{closed, fired, stop, perform}

-- Clearing the timer leaves the filter.
filter-clear_timer : (c : Collector) → (clear_timer c).filter ≡ c.filter
unfolding clear_timer
filter-clear_timer c = go c.reconnect_timer
  where
    go : (r : Option ℕ) → (clear_timer (record c { reconnect_timer = r })).filter ≡ c.filter
    go none = refl
    go (some id) = refl

-- When the socket that `stopCollection` closes reports that it is closed, the store sets a timeout of
-- one second, whatever state it was stopped in, and when that fires a socket is opened again.
pub on_close-stop_collection :
    (c : Collector)
    → ((perform closed (perform stop c)).pending
        ≡ (clear_timer c).pending
          ++ record { timeout_id = (clear_timer c).next_id; delay = 1000 } ∷ [])
      × (Option.map
            (λ (s : Socket). s.opened_with)
            (perform (fired (clear_timer c).next_id) (perform closed (perform stop c))).ws
          ≡ some c.filter)
unfolding perform on_close stop_collection disconnect_web_socket on_timeout connect_web_socket
    clear_timer
on_close-stop_collection c = (refl, ap some (filter-clear_timer c))
