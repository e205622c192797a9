-- ===== src/Stream/Handler.antt =====
-- The completion handler of MessageStreamHandler (minion/message/message_stream.cc) with the
-- connection phases of GRPCStreamHandler (common/grpc/callback.h).
pub mod Outbound
pub mod Steps
pub mod Spent
pub mod Misread
use dist_storage.Prelude.{
  ℕ, Bool, true, false, not, ◌&&◌, Option, none, some, List, [], ◌∷◌, ◌++◌, length, get_elem?, set,
  Result, ok, undefined, ◌>>=◌, or_undefined, Bytes, if◌then◌else◌,
}
use dist_storage.Peer.Store.{
  Crypto, SignedMessage, MessageData, SignedPayloadAuthResult, auth_ok, authenticate_in, is_empty,
}
use dist_storage.Stream.Router.{
  World, Handler, PendingOp, k_read, k_write, k_finish, StreamConnectPhase, k_initial, k_accepted,
  k_streaming, Status, status_ok, unauthenticated, Call, bind, read, write, finish, calls_on,
  enqueue_outgoing, handler_at, put_handler, register_session, unregister_session,
  RecipientDispatchAction, deliver_local, forwarded, no_route_continue,
  dispatch_signed_message_recipient,
}

-- stream.Finish, after `pending_ = PendingOp::kFinish`
abbrev pub finishing : Handler → Status → Handler
finishing h st = record h { pending = k_finish; calls = calls_on h (finish st) }

-- stream.Read, after `pending_ = PendingOp::kRead`
abbrev pub reading : Handler → Handler
reading h = record h { pending = k_read; calls = calls_on h read }

-- The end of both branches of handle_write_completion: nothing is left to write.
unfoldable pub stop_writing : Handler → Handler
stop_writing h =
    let h' = record h { write_pending = false; closing_after_writes = false } in
    if h.closing_after_writes then finishing h' status_ok else h'

-- handle_write_completion, once the written message has left the queue.
unfoldable pub write_next : Handler → List SignedMessage → Handler
write_next h [] = stop_writing (record h { outbound = [] })
write_next h (m ∷ ms) = record h {
  outbound = m ∷ ms;
  response = m;
  pending = k_write;
  calls = calls_on h (write m);
}

-- pop_front on an empty deque is undefined.
unfoldable pub pop_and_write : Handler → List SignedMessage → Result Handler
pop_and_write h [] = undefined
pop_and_write h (m ∷ ms) = ok (write_next h ms)

-- handle_write_completion
unfoldable pub handle_write_completion : Handler → Bool → Result Handler
handle_write_completion h false = ok (stop_writing (record h { outbound = [] }))
handle_write_completion h true = pop_and_write h h.outbound

-- A message without content, as a new handler holds it.
abbrev blank_message : SignedMessage
blank_message = record { sender_id = []; signature = []; sender_cert = []; content = []; ttl = 0 }

-- A copy of the handler for the next request, which has bound itself.
unfoldable pub next_acceptor : Handler → Handler
next_acceptor h = record h {
  request = blank_message;
  response = blank_message;
  stream_connect_phase = k_accepted;
  pending = k_read;
  outbound = [];
  write_pending = false;
  closing_after_writes = false;
  session_active = false;
  registered_peer_id = [];
  self_ref = true;
  calls = bind ∷ [];
}

abbrev pub is_streaming : StreamConnectPhase → Bool
is_streaming k_streaming = true
is_streaming _ = false

module _ {c : Crypto} where
  -- unregister_if_registered
  unfoldable pub unregister_if_registered : World c → Handler → World c × Handler
  unregister_if_registered w h =
      if is_empty h.registered_peer_id
      then (w, h)
      else (unregister_session w h.registered_peer_id, record h { registered_peer_id = [] })

  -- complete_after_stream_finish and on_stream_connect_failed, which do the same.
  unfoldable pub tear_down : World c → ℕ → Handler → World c
  tear_down w i h =
      let (w', h') = unregister_if_registered w (record h { session_active = false }) in
      put_handler w' i (record h' { self_ref = false })

  -- begin_shutdown_after_read_closed
  unfoldable pub begin_shutdown_after_read_closed : World c → ℕ → Handler → World c
  begin_shutdown_after_read_closed w i h =
      let (w', h') = unregister_if_registered w (record h { session_active = false }) in
      let h'' = record h' { outbound = []; closing_after_writes = h'.write_pending } in
      put_handler w' i (if h''.write_pending then h'' else finishing h'' status_ok)

  -- shutdown_with_status
  unfoldable pub shutdown_with_status : World c → ℕ → Handler → Status → World c
  shutdown_with_status w i h st =
      let (w', h') = unregister_if_registered w (record h { session_active = false }) in
      put_handler w' i (
        finishing (record h' { outbound = []; write_pending = false; closing_after_writes = false })
          st)

  -- The last `switch` of handle_incoming_message; a handler may route to itself, so it is read anew.
  unfoldable pub after_dispatch :
      World c → ℕ → SignedMessage → RecipientDispatchAction → Result (World c)
  after_dispatch w i req deliver_local = do
    h ← handler_at w i
    ok (put_handler w i (enqueue_outgoing h req))
  after_dispatch w i req forwarded = ok w
  after_dispatch w i req no_route_continue = ok w

  -- handle_incoming_message for an authenticated request.
  unfoldable pub accept_message : World c → ℕ → Handler → MessageData → Result (World c)
  accept_message w i h message_data = do
    let req = h.request
    let w1 = register_session w req.sender_id i
    let w2 = put_handler w1 i (record h { registered_peer_id = req.sender_id })
    (w3, action) ← dispatch_signed_message_recipient w2 req message_data
    after_dispatch w3 i req action

  -- The first `switch` of handle_incoming_message.
  unfoldable pub authenticated :
      World c → ℕ → Handler → SignedPayloadAuthResult → Option MessageData → Result (World c × Bool)
  authenticated w i h auth_ok (some message_data) = do
    w' ← accept_message w i h message_data
    ok (w', true)
  authenticated w i h _ _ = ok (w, false)

  -- handle_incoming_message
  unfoldable pub handle_incoming_message : World c → ℕ → Handler → Result (World c × Bool)
  handle_incoming_message w i h = authenticate_in c w.auth h.request >>= λ r.
      authenticated (record w { auth = r.0 }) i h r.1 r.2

  -- handle_read_completion after the message: read on, or shut down.
  unfoldable pub read_on : World c → ℕ → Bool → Result (World c)
  read_on w i true = do h ← handler_at w i; ok (put_handler w i (reading h))
  read_on w i false = do h ← handler_at w i; ok (shutdown_with_status w i h unauthenticated)

  -- handle_read_completion
  unfoldable pub handle_read_completion : World c → ℕ → Handler → Bool → Result (World c)
  handle_read_completion w i h false = ok (begin_shutdown_after_read_closed w i h)
  handle_read_completion w i h true = do
    (w', accepted) ← handle_incoming_message w i h
    read_on w' i accepted

  -- on_stream_rpc_connected after clone_acceptor_for_next_request
  unfoldable pub connect : World c → ℕ → Handler → World c
  connect w i h =
      let h' = record h { stream_connect_phase = k_streaming; session_active = true } in
      put_handler (record w { handlers = w.handlers ++ next_acceptor h ∷ [] }) i (reading h')

  -- handle_stream_connect
  unfoldable pub handle_stream_connect :
      World c → ℕ → Handler → Bool → StreamConnectPhase → Result (World c)
  handle_stream_connect w i h running k_initial =
      ok (put_handler w i (record h { stream_connect_phase = k_accepted; calls = calls_on h bind }))
  handle_stream_connect w i h false k_accepted = ok (tear_down w i h)
  handle_stream_connect w i h true k_accepted = ok (connect w i h)
  handle_stream_connect w i h running k_streaming = ok w

  -- The `switch` of process.
  unfoldable pub dispatch_pending : World c → ℕ → Handler → Bool → PendingOp → Result (World c)
  dispatch_pending w i h running k_read = handle_read_completion w i h running
  dispatch_pending w i h running k_write = do
    h' ← handle_write_completion h running
    ok (put_handler w i h')
  dispatch_pending w i h running k_finish = ok (tear_down w i h)

  -- process: some call of handler `i` on its stream has completed.
  unfoldable pub process : World c → ℕ → Bool → Result (World c)
  process w i running = do
    h ← handler_at w i
    if not (is_streaming h.stream_connect_phase)
        then handle_stream_connect w i h running h.stream_connect_phase
        else dispatch_pending w i h running h.pending
