-- ===== src/Stream/Handler/Misread.antt =====
-- A message routed to a stream that awaits a read: `pending_` then names only the write.
use dist_storage.Prelude.{ℕ, ◌≡◌, refl, ap, ◌∙◌, true, false, [], ◌∷◌, ok, undefined, ◌>>=◌}
use dist_storage.Peer.Store.{Crypto, SignedMessage}
use dist_storage.Stream.Router.{
  World, Handler, k_write, k_streaming, write, calls_on, enqueue_outgoing, handler_at, put_handler,
}
use dist_storage.Stream.Handler.{
  process, dispatch_pending, handle_write_completion, pop_and_write, write_next, stop_writing,
}
use dist_storage.Stream.Handler.Outbound.{Idle}
use dist_storage.Stream.Handler.Steps.{handler_at-put, process_streaming}

-- The handler whose write of `msg` has been started.
abbrev started : Handler → SignedMessage → Handler
started h msg = record h {
  outbound = msg ∷ [];
  response = msg;
  write_pending = true;
  pending = k_write;
  calls = calls_on h (write msg);
}

-- The same after one completion.
abbrev stopped : Handler → SignedMessage → Handler
stopped h msg = record (started h msg) {
  outbound = [];
  write_pending = false;
  closing_after_writes = false;
}

enqueue_outgoing-started :
    (h : Handler) (msg : SignedMessage) → Idle h → enqueue_outgoing h msg ≡ started h msg
unfolding enqueue_outgoing
enqueue_outgoing-started h msg i = rw (i.no_write, i.nothing)

completed :
    (h : Handler) (msg : SignedMessage)
    → Idle h
    → handle_write_completion (started h msg) true ≡ ok (stopped h msg)
unfolding handle_write_completion pop_and_write write_next stop_writing
completed h msg i = rw i.open_

completed_again :
    (h : Handler) (msg : SignedMessage) → handle_write_completion (stopped h msg) true ≡ undefined
unfolding handle_write_completion pop_and_write
completed_again h msg = refl

module _ {c : Crypto} where
  process-started :
      (w : World c) (i : ℕ) (h : Handler) (msg : SignedMessage)
      → handler_at w i ≡ ok (started h msg)
      → h.stream_connect_phase ≡ k_streaming
      → Idle h
      → process w i true ≡ ok (put_handler w i (stopped h msg))
  unfolding dispatch_pending
  process-started w i h msg found phase idle =
      process_streaming w i (started h msg) true k_write found phase refl
      ∙ rw (completed h msg idle)

  process-stopped :
      (w : World c) (i : ℕ) (h : Handler) (msg : SignedMessage)
      → handler_at w i ≡ ok (stopped h msg)
      → h.stream_connect_phase ≡ k_streaming
      → process w i true ≡ undefined
  unfolding dispatch_pending
  process-stopped w i h msg found phase =
      process_streaming w i (stopped h msg) true k_write found phase refl
      ∙ rw (completed_again h msg)

  -- When a message is queued on an open stream that is not closing, on which no write is out and
  -- nothing waits, and two operations of the stream then succeed, as do the read that is out and the
  -- new write: the first completion is handled as that of the write, and the second pops from an empty
  -- deque, so that the behaviour is undefined.
  pub process-enqueue_outgoing :
      (w : World c) (i : ℕ) (h : Handler) (msg : SignedMessage)
      → handler_at w i ≡ ok h
      → h.stream_connect_phase ≡ k_streaming
      → Idle h
      → (process (put_handler w i (enqueue_outgoing h msg)) i true >>= λ w'. process w' i true)
        ≡ undefined
  process-enqueue_outgoing w i h msg found phase idle =
      let queued = enqueue_outgoing-started h msg idle in
      let w1 = put_handler w i (started h msg) in
      let e1 = handler_at-put w i h (started h msg) found in
      let e2 = handler_at-put w1 i (started h msg) (stopped h msg) e1 in
      ap (λ g. process (put_handler w i g) i true >>= λ w'. process w' i true) queued
      ∙ ap (λ r. r >>= λ w'. process w' i true) (process-started w1 i h msg e1 phase idle)
      ∙ process-stopped (put_handler w1 i (stopped h msg)) i h msg e2 phase
