-- ===== src/Stream/Tests.antt =====
-- The theorems on routing and on the stream handler, at the sample cryptography.
use dist_storage.Prelude.{
  ◌>>=◌, undefined, ◌≡◌, refl, true, false, List, [], ◌∷◌, ◌++◌, ok, Bytes-discrete, bytes_less,
}
use dist_storage.Prelude.Maps.{lookup, insert_or_assign}
use dist_storage.Peer.Store.{AuthStore, verify, SignedMessage, has, validate_message}
use dist_storage.Peer.Sample.{sample, trusting, asked, from_peer}
use dist_storage.Stream.Router.{
  World, Handler, k_read, k_write, k_streaming, read, write, enqueue_outgoing, try_enqueue,
  is_valid, handler_at, put_handler, deliver, route_to_recipient,
}
use dist_storage.Stream.Router.Delivery.{Delivered, route_to_recipient-Delivered}
use dist_storage.Stream.Handler.{process, handle_write_completion, pop_and_write, write_next}
use dist_storage.Stream.Handler.Outbound.{
  arrives, written, run_traffic, writes, Idle, Waits, run_traffic-fifo,
}
use dist_storage.Stream.Handler.Misread.{process-enqueue_outgoing}

-- An open stream of peer 7.
abbrev open_stream : Handler
open_stream = record {
  stream_connect_phase = k_streaming;
  pending = k_read;
  request = from_peer (5 ∷ []);
  response = from_peer [];
  outbound = [];
  write_pending = false;
  closing_after_writes = false;
  session_active = true;
  registered_peer_id = 7 ∷ [];
  self_ref = true;
  calls = read ∷ [];
}

abbrev queued : Handler
queued = record open_stream {
  outbound = from_peer (7 ∷ []) ∷ [];
  response = from_peer (7 ∷ []);
  write_pending = true;
  pending = k_write;
  calls = read ∷ write (from_peer (7 ∷ [])) ∷ [];
}

abbrev world_of : AuthStore sample → Handler → World sample
world_of auth h = record { auth = auth; by_peer = ((7 ∷ []), 0) ∷ []; handlers = h ∷ [] }

abbrev world : Handler → World sample
world h = world_of trusting h

route_runs :
    route_to_recipient (world open_stream) (7 ∷ []) (from_peer (7 ∷ []))
    ≡ ok (world_of asked queued, true)
unfolding route_to_recipient has validate_message verify insert_or_assign bytes_less deliver
    try_enqueue enqueue_outgoing is_valid handler_at put_handler lookup Bytes-discrete
route_runs = refl

route_to_recipient-Delivered_example :
    Delivered (world open_stream) (world_of asked queued) (7 ∷ []) (from_peer (7 ∷ []))
route_to_recipient-Delivered_example =
    route_to_recipient-Delivered {c = sample} (world open_stream) (world_of asked queued) (7 ∷ [])
      (from_peer (7 ∷ [])) route_runs

-- The same stream with a message for peer 8, whose verifier is called twice.
abbrev forwarding : Handler
forwarding = record open_stream { request = from_peer (8 ∷ []) }

open_stream-Idle : Idle open_stream
open_stream-Idle = record { no_write = refl; nothing = refl; open_ = refl }

-- Two messages arrive, and the first is written.
abbrev second : Handler
second = record open_stream {
  outbound = from_peer [] ∷ [];
  response = from_peer [];
  write_pending = true;
  pending = k_write;
  calls = read ∷ write (from_peer (7 ∷ [])) ∷ write (from_peer []) ∷ [];
}

traffic_runs :
    run_traffic open_stream (arrives (from_peer (7 ∷ [])) ∷ arrives (from_peer []) ∷ written ∷ [])
    ≡ ok second
unfolding run_traffic enqueue_outgoing handle_write_completion pop_and_write write_next
traffic_runs = refl

run_traffic-fifo_example :
    (ws : List SignedMessage) × Waits second ws
    × (writes (read ∷ write (from_peer (7 ∷ [])) ∷ write (from_peer []) ∷ []) ++ ws
        ≡ from_peer (7 ∷ []) ∷ from_peer [] ∷ [])
run_traffic-fifo_example =
    run_traffic-fifo open_stream second
      (arrives (from_peer (7 ∷ [])) ∷ arrives (from_peer []) ∷ written ∷ []) open_stream-Idle
      traffic_runs

open_stream_found : handler_at (world open_stream) 0 ≡ ok open_stream
unfolding handler_at
open_stream_found = refl

process-enqueue_outgoing_example :
    (process
        (put_handler (world open_stream) 0 (enqueue_outgoing open_stream (from_peer [])))
        0
        true
      >>= λ w'. process w' 0 true)
    ≡ undefined
process-enqueue_outgoing_example =
    process-enqueue_outgoing {c = sample} (world open_stream) 0 open_stream (from_peer [])
      open_stream_found refl open_stream-Idle
