-- ===== src/Stream/Router/Delivery.antt =====
-- To whom route_to_recipient delivers.
use dist_storage.Prelude.{
  ℕ, ◌≡◌, sym, ap, true, none, some, get_elem?, set, ok, >>=-eq-ok, or_undefined-eq-ok,
  ok-injective, Bool, false, [], ◌∷◌, ◌++◌, if◌then◌else◌, Bytes, Bytes-discrete, Bool-cases,
  Option-cases, inl, inr, arith,
}
use dist_storage.Prelude.Maps.{lookup}
use dist_storage.Peer.Store.{Crypto, AuthStore, SignedMessage, has, validate_message}
use dist_storage.Peer.Trust.{IsSigned, validate_message-IsSigned}
use dist_storage.Stream.Router.{
  k_write, write, World, Handler, enqueue_outgoing, try_enqueue, is_valid, handler_at, put_handler,
  deliver, route_to_recipient,
}

-- A handler that has been given a message for its peer: while a write is out, the message only waits
-- behind the others; with no write out and nothing waiting, its write is started.
pub record Queued (h : Handler) (msg : SignedMessage) (h' : Handler) : Type 0 where
  pub waits : h.write_pending ≡ true → h' ≡ record h { outbound = h.outbound ++ msg ∷ [] }
  pub starts :
      h.write_pending ≡ false
      → h.outbound ≡ []
      → h' ≡ record h {
        outbound = msg ∷ [];
        response = msg;
        write_pending = true;
        pending = k_write;
        calls = h.calls ++ write msg ∷ [];
      }
  pub appended : h'.outbound ≡ h.outbound ++ msg ∷ []

-- What enqueue_outgoing does, by whether a write is out.
enqueue_outgoing-Queued :
    (h : Handler) (msg : SignedMessage) → Queued h msg (enqueue_outgoing h msg)
unfolding enqueue_outgoing
enqueue_outgoing-Queued h msg = record {
  waits = λ busy. rw busy;
  starts = λ free empty. rw (free, empty);
  appended = ground arith;
}

module _ {c : Crypto} where
  -- The session that a message was delivered to.
  pub record Delivered (w w' : World c) (recipient_id : Bytes) (msg : SignedMessage) : Type 0 where
    pub auth : AuthStore c
    pub signed : IsSigned c w.auth auth msg
    pub channel : ℕ
    pub session : lookup Bytes-discrete recipient_id w.by_peer ≡ some channel
    pub handler : Handler
    pub open_ : get_elem? w.handlers channel ≡ some handler
    pub active : handler.session_active ≡ true
    pub given : Handler
    pub queued : Queued handler msg given
    pub same : w' ≡ record w { auth = auth; handlers = set w.handlers channel given }

  delivered :
      (w w' : World c) (recipient_id : Bytes) (msg : SignedMessage) (ch : ℕ)
      → deliver w recipient_id msg (some ch) ≡ ok (w', true)
      → (h : Handler) × (get_elem? w.handlers ch ≡ some h)
        × (h.session_active ≡ true)
        × (w' ≡ record w { handlers = set w.handlers ch (enqueue_outgoing h msg) })
  unfolding deliver handler_at try_enqueue is_valid put_handler
  delivered w w' recipient_id msg ch e =
      let (h, found, r) = >>=-eq-ok (handler_at w ch) _ e in
      elim (Bool-cases h.session_active) [
        | inl a ↦ (h, or_undefined-eq-ok _ found, a, sym (ap (λ p. p.0) (ok-injective (rw a at r))))
        | inr a ↦ absurd (ground (arith, ap (λ p. p.1) (ok-injective (rw a at r))))
      ]

  undelivered :
      (w w' : World c) (recipient_id : Bytes) (msg : SignedMessage)
      → ¬ (deliver w recipient_id msg none ≡ ok (w', true))
  unfolding deliver
  undelivered w w' recipient_id msg e = ground (arith, ap (λ p. p.1) (ok-injective e))

  -- When route_to_recipient reports success, the sender is in the store and its verifier accepts the
  -- signature, the recipient has a session that is active, and that session's handler has been given
  -- the message: it waits behind the other messages for the peer, and it is written at once when no
  -- write is out and nothing waits. Apart from that handler, only the sender's verifier has changed, to
  -- what its call leaves.
  pub route_to_recipient-Delivered :
      (w w' : World c) (recipient_id : Bytes) (msg : SignedMessage)
      → route_to_recipient w recipient_id msg ≡ ok (w', true)
      → Delivered w w' recipient_id msg
  unfolding route_to_recipient
  route_to_recipient-Delivered w w' recipient_id msg e =
      elim (Bool-cases (has c w.auth msg.sender_id)) [
        | inr f ↦ absurd (ground (arith, ap (λ p. p.1) (ok-injective (rw f at e))))
        | inl t ↦
            let ((auth, valid), validated, e1) =
              >>=-eq-ok (validate_message c w.auth msg) _ (rw t at e) in
            routed auth valid validated e1
      ]
    where
      sent :
          (auth : AuthStore c)
          → IsSigned c w.auth auth msg
          → deliver
              (record w { auth = auth })
              recipient_id
              msg
              (lookup Bytes-discrete recipient_id w.by_peer)
            ≡ ok (w', true)
          → Delivered w w' recipient_id msg
      sent auth signed e = elim (Option-cases (lookup Bytes-discrete recipient_id w.by_peer)) [
        | inl absent ↦
            absurd (undelivered (record w { auth = auth }) w' recipient_id msg (rw absent at e))
        | inr (ch, session) ↦
            let (h, open', active, same) =
              delivered (record w { auth = auth }) w' recipient_id msg ch (rw session at e) in
            record {
              auth = auth;
              signed = signed;
              channel = ch;
              session = session;
              handler = h;
              open_ = open';
              active = active;
              given = enqueue_outgoing h msg;
              queued = enqueue_outgoing-Queued h msg;
              same = same;
            }
      ]

      routed :
          (auth : AuthStore c) (valid : Bool)
          → validate_message c w.auth msg ≡ ok (auth, valid)
          → (if valid
              then deliver
                  (record w { auth = auth })
                  recipient_id
                  msg
                  (lookup Bytes-discrete recipient_id w.by_peer)
              else ok (record w { auth = auth }, false))
            ≡ ok (w', true)
          → Delivered w w' recipient_id msg
      routed auth true validated e =
          sent auth (validate_message-IsSigned c w.auth auth msg validated) e
      routed auth false validated e = absurd (ground (arith, ap (λ p. p.1) (ok-injective e)))
