-- ===== src/Peer/Trust.antt =====
-- Which messages are accepted, and which are signed.
use dist_storage.Prelude.{
  ◌≡◌, refl, sym, ap, ◌∙◌, Bool, true, false, Option, none, some, Result, ok, throws, undefined,
  ◌>>=◌, runtime_error, >>=-eq-ok, Bytes-discrete, arith, ◌↔◌, inl, inr, Option-cases, Bool-cases,
  ok-injective, Error,
}
use dist_storage.Prelude.Maps.{lookup}
use dist_storage.Peer.Store.{
  Crypto, AuthStore, PeerInfo, SignedMessage, MessageData, or_throw, has, verify, with_verifier,
  validate_message, authenticate_in, authenticate_signed_message_data, auth_ok, after_validation,
}

or_throw-eq-ok : {A : Type 0} (o : Option A) (e : Error) {a : A} → or_throw o e ≡ ok a → o ≡ some a
or_throw-eq-ok none e h = cc
or_throw-eq-ok (some b) e h = cc

module _ (c : Crypto) where
  -- The message is signed by a peer of the store, whose verifier goes on to `verifier`.
  pub record IsSigned (store store' : AuthStore c) (msg : SignedMessage) : Type 0 where
    pub sender : PeerInfo c
    pub verifier : c.Verifier
    pub known : lookup Bytes-discrete msg.sender_id store.peers ≡ some sender
    pub signed : c.digest_verify sender.verifier msg.content msg.signature ≡ some (verifier, true)
    pub verified : store' ≡ with_verifier c store msg.sender_id sender verifier

  pub validate_message-IsSigned :
      (store store' : AuthStore c) (msg : SignedMessage)
      → validate_message c store msg ≡ ok (store', true)
      → IsSigned store store' msg
  unfolding validate_message verify
  validate_message-IsSigned store store' msg h =
      elim (Option-cases (lookup Bytes-discrete msg.sender_id store.peers)) [
        | inl e ↦ absurd (ground (arith, ap (λ p. p.1) (ok-injective (rw e at h))))
        | inr (sender, e) ↦
            let h1 : (or_throw (c.digest_verify sender.verifier msg.content msg.signature)
                    runtime_error
                  >>= λ r. ok (with_verifier c store msg.sender_id sender r.0, r.1))
                ≡ ok (store', true) =
              rw e at h in
            let (r, made, same) = >>=-eq-ok (or_throw _ runtime_error) _ h1 in
            let valid = ap (λ p. p.1) (ok-injective same) in
            record {
              sender = sender;
              verifier = r.0;
              known = e;
              signed = or_throw-eq-ok _ runtime_error made ∙ ap (λ b. some (r.0, b)) valid;
              verified = sym (ap (λ p. p.0) (ok-injective same));
            }
      ]

  validate_message-signed :
      (store store' : AuthStore c) (msg : SignedMessage)
      → IsSigned store store' msg
      → validate_message c store msg ≡ ok (store', true)
  unfolding validate_message verify
  validate_message-signed store store' msg s = rw (s.known, s.signed, s.verified) refl

  has-IsSigned :
      (store store' : AuthStore c) (msg : SignedMessage)
      → IsSigned store store' msg
      → has c store msg.sender_id ≡ true
  unfolding has
  has-IsSigned store store' msg s = rw s.known

  pub authenticate_in-IsSigned :
      (store store' : AuthStore c) (msg : SignedMessage) (message_data : MessageData)
      → IsSigned store store' msg
      → c.parse msg.content ≡ some message_data
      → authenticate_in c store msg ≡ ok (store', auth_ok, some message_data)
  unfolding authenticate_in
  authenticate_in-IsSigned store store' msg message_data s p =
      rw (has-IsSigned _ _ _ s, validate_message-signed _ _ _ s, p)

  -- authenticate_signed_message_data accepts a message exactly when its sender is in the store, the
  -- sender's verifier accepts the signature over the content, and the content parses; then it gives the
  -- parsed data, and in the store only the sender's verifier has changed, to what its call leaves.
  pub authenticate_signed_message_data-auth_ok :
      (store store' : AuthStore c) (msg : SignedMessage) (message_data : MessageData)
      → (authenticate_signed_message_data c (some store) msg
          ≡ ok (some store', auth_ok, some message_data))
        ↔ (IsSigned store store' msg × (c.parse msg.content ≡ some message_data))
  unfolding authenticate_signed_message_data authenticate_in
  authenticate_signed_message_data-auth_ok store store' msg message_data =
      (forward, λ (s, p). rw (has-IsSigned _ _ _ s, validate_message-signed _ _ _ s, p))
    where
      from_some : Option (AuthStore c) → AuthStore c
      from_some none = store
      from_some (some s) = s

      payload :
          (valid : Result (AuthStore c × Bool)) (parsed : Option MessageData)
          → (valid >>= (λ v. after_validation c v parsed)) ≡ ok (store', auth_ok, some message_data)
          → (valid ≡ ok (store', true)) × (parsed ≡ some message_data)
      payload undefined parsed h = cc
      payload (throws e) parsed h = cc
      payload (ok (s, false)) parsed h = absurd (ground (arith, ap (λ r. r.1) (ok-injective h)))
      payload (ok (s, true)) none h = absurd (ground (arith, ap (λ r. r.1) (ok-injective h)))
      payload (ok (s, true)) (some x) h =
          (ap (λ r. ok (r.0, true)) (ok-injective h), ap (λ r. r.2) (ok-injective h))

      forward :
          authenticate_signed_message_data c (some store) msg
            ≡ ok (some store', auth_ok, some message_data)
          → IsSigned store store' msg × (c.parse msg.content ≡ some message_data)
      forward h =
          let (r, e, same) = >>=-eq-ok (authenticate_in c store msg) _ h in
          let all : r ≡ (store', auth_ok, some message_data) =
            ap (λ t. (from_some t.0, t.1, t.2)) (ok-injective same) in
          elim (Bool-cases (has c store msg.sender_id)) [
            | inl known ↦
                let (v, p) =
                  payload (validate_message c store msg) (c.parse msg.content)
                    (rw known at (e ∙ ap ok all)) in
                (validate_message-IsSigned store store' msg v, p)
            | inr unknown ↦
                absurd
                  (ground (arith, ap (λ t. t.1) (ok-injective (rw unknown at (e ∙ ap ok all)))))
          ]
