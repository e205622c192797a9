-- ===== src/Stream/Handler/Steps.antt =====
-- How a completion finds its handler and the branch of process that handles it.
use dist_storage.Prelude.{
  Bool, ℕ, ◌≡◌, ap, ◌∙◌, not, get_elem?-set_self, lt-length_of_get_elem?, ok, ◌>>=◌,
  or_undefined-eq-ok, if◌then◌else◌,
}
use dist_storage.Peer.Store.{Crypto}
use dist_storage.Stream.Router.{PendingOp, World, Handler, k_streaming, handler_at, put_handler}
use dist_storage.Stream.Handler.{process, dispatch_pending, is_streaming, handle_stream_connect}

module _ {c : Crypto} where
  pub handler_at-put :
      (w : World c) (i : ℕ) (h h' : Handler)
      → handler_at w i ≡ ok h
      → handler_at (put_handler w i h') i ≡ ok h'
  unfolding handler_at put_handler
  handler_at-put w i h h' e = rw (
      get_elem?-set_self w.handlers i h'
        (lt-length_of_get_elem? w.handlers i h (or_undefined-eq-ok _ e)))

  -- A completion on an open stream goes where `pending_` says.
  pub process_streaming :
      (w : World c) (i : ℕ) (h : Handler) (running : Bool) (op : PendingOp)
      → handler_at w i ≡ ok h
      → h.stream_connect_phase ≡ k_streaming
      → h.pending ≡ op
      → process w i running ≡ dispatch_pending w i h running op
  unfolding process
  process_streaming w i h running op found phase awaits =
      ap
        (λ r. r >>= λ g.
          if not (is_streaming g.stream_connect_phase)
          then handle_stream_connect w i g running g.stream_connect_phase
          else dispatch_pending w i g running g.pending)
        found
      ∙ ap
          (λ p.
            if not (is_streaming p)
            then handle_stream_connect w i h running p
            else dispatch_pending w i h running h.pending)
          phase
      ∙ ap (λ q. dispatch_pending w i h running q) awaits
