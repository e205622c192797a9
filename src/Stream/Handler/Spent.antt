-- ===== src/Stream/Handler/Spent.antt =====
-- A message for another peer is validated twice, by the same verifier.
use dist_storage.Prelude.{◌≡◌, Bool, false, some, Bytes}
use dist_storage.Peer.Store.{Crypto, AuthStore, SignedMessage, with_verifier}
use dist_storage.Peer.Trust.{IsSigned}
use dist_storage.Stream.Router.{Handler}

-- A verifier that has been called accepts nothing more, as EVP_DigestVerify on a context that it has
-- finalised.
pub record IsOneShot (c : Crypto) : Type 0 where
  pub spent :
      (v v' : c.Verifier) (content signature : Bytes) (valid : Bool)
      → c.digest_verify v content signature ≡ some (v', valid)
      → (content' signature' : Bytes)
      → (v'' : c.Verifier) × (c.digest_verify v' content' signature' ≡ some (v'', false))

module _ {c : Crypto} where
  -- The store after one more call of the sender's verifier.
  abbrev pub again :
      (store store' : AuthStore c) (msg : SignedMessage)
      → IsSigned c store store' msg
      → c.Verifier
      → AuthStore c
  again store store' msg s v =
      with_verifier c store' msg.sender_id (record s.sender { verifier = s.verifier }) v
