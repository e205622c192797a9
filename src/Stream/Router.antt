-- ===== src/Stream/Router.antt =====
-- MessageStreamRouter (minion/message/stream_router.cc), the dispatch of recipient_dispatch.cc, and
-- the state of MessageStreamHandler that they touch (minion/message/message_stream.cc). Handlers are
-- shared objects: the router holds their numbers in the list of all handlers. The store and the
-- router exist, as in the program's `main`; the mutexes make each call one step.
pub mod Delivery
use dist_storage.Prelude.{
  ℕ, Bool, true, false, not, ◌&&◌, Option, none, some, List, [], ◌∷◌, ◌++◌, length, get_elem?, set,
  Result, ok, ◌>>=◌, or_undefined, Bytes, Bytes-discrete, bytes_less, if◌then◌else◌,
}
use dist_storage.Prelude.Maps.{lookup, insert_or_assign, erase}
use dist_storage.Peer.Store.{
  Crypto, AuthStore, SignedMessage, MessageData, has, validate_message, is_self, is_empty,
}

pub data PendingOp : Type 0 where
  k_read k_write k_finish : PendingOp

pub data StreamConnectPhase : Type 0 where
  k_initial k_accepted k_streaming : StreamConnectPhase

pub data Status : Type 0 where
  status_ok unauthenticated : Status

-- The calls that a handler makes on its gRPC stream.
pub data Call : Type 0 where
  bind read : Call
  write : SignedMessage → Call
  finish : Status → Call

-- MessageStreamHandler; `calls` records what it asked of gRPC, oldest first.
pub record Handler : Type 0 where
  pub stream_connect_phase : StreamConnectPhase
  pub pending : PendingOp
  pub request : SignedMessage
  pub response : SignedMessage
  pub outbound : List SignedMessage
  pub write_pending : Bool
  pub closing_after_writes : Bool
  pub session_active : Bool
  pub registered_peer_id : Bytes
  pub self_ref : Bool
  pub calls : List Call

pub record World (c : Crypto) : Type 0 where
  pub auth : AuthStore c
  pub by_peer : List (Bytes × ℕ)
  pub handlers : List Handler

abbrev pub calls_on : Handler → Call → List Call
calls_on h call = h.calls ++ call ∷ []

abbrev pub front : List SignedMessage → SignedMessage → SignedMessage
front [] msg = msg
front (m ∷ ms) msg = m

-- enqueue_outgoing
unfoldable pub enqueue_outgoing : Handler → SignedMessage → Handler
enqueue_outgoing h msg =
    let outbound = h.outbound ++ msg ∷ [] in
    let first = front h.outbound msg in
    if h.write_pending then record h { outbound = outbound } else record h {
      outbound = outbound;
      response = first;
      write_pending = true;
      pending = k_write;
      calls = calls_on h (write first);
    }

-- try_enqueue
unfoldable pub try_enqueue : Handler → SignedMessage → Handler × Bool
try_enqueue h msg = (enqueue_outgoing h msg, true)

-- is_valid
unfoldable pub is_valid : Handler → Bool
is_valid h = h.session_active

pub data RecipientDispatchAction : Type 0 where
  deliver_local forwarded no_route_continue : RecipientDispatchAction

module _ {c : Crypto} where
  unfoldable pub handler_at : World c → ℕ → Result Handler
  handler_at w i = or_undefined (get_elem? w.handlers i)

  -- A write to a handler that exists.
  unfoldable pub put_handler : World c → ℕ → Handler → World c
  put_handler w i h = record w { handlers = set w.handlers i h }

  unfoldable pub register_session : World c → Bytes → ℕ → World c
  register_session w peer_id channel = record w {
    by_peer = insert_or_assign Bytes-discrete bytes_less peer_id channel w.by_peer;
  }

  unfoldable pub unregister_session : World c → Bytes → World c
  unregister_session w peer_id = record w { by_peer = erase Bytes-discrete peer_id w.by_peer }

  -- get_channel
  unfoldable pub get_channel : World c → Bytes → Result (World c × Option ℕ)
  get_channel w peer_id = elim (lookup Bytes-discrete peer_id w.by_peer) [
    | none ↦ ok (w, none)
    | some ch ↦ do
      h ← handler_at w ch
      ok (if is_valid h then (w, some ch) else (unregister_session w peer_id, none))
  ]

  -- The part of route_to_recipient under the lock.
  unfoldable pub deliver : World c → Bytes → SignedMessage → Option ℕ → Result (World c × Bool)
  deliver w recipient_id msg none = ok (w, false)
  deliver w recipient_id msg (some ch) = do
    h ← handler_at w ch
    let (h', queued) = try_enqueue h msg
    ok (
        if is_valid h
        then (put_handler w ch h', queued)
        else (unregister_session w recipient_id, false))

  -- route_to_recipient
  unfoldable pub route_to_recipient : World c → Bytes → SignedMessage → Result (World c × Bool)
  route_to_recipient w recipient_id msg =
      if not (has c w.auth msg.sender_id) then ok (w, false) else (do
        (auth, valid) ← validate_message c w.auth msg
        let w' = record w { auth = auth }
        if valid
            then deliver w' recipient_id msg (lookup Bytes-discrete recipient_id w.by_peer)
            else ok (w', false))

  -- dispatch_signed_message_recipient
  unfoldable pub dispatch_signed_message_recipient :
      World c → SignedMessage → MessageData → Result (World c × RecipientDispatchAction)
  dispatch_signed_message_recipient w msg message_data =
      if is_empty message_data.recipient_id
      then ok (w, deliver_local)
      else if is_self c w.auth message_data.recipient_id
      then ok (w, deliver_local)
      else (do
        (w', routed) ← route_to_recipient w message_data.recipient_id msg
        ok (w', if routed then forwarded else no_route_continue))
