-- ===== src/Peer/Store.antt =====
-- AuthStore (common/peer/store.cc) and the message functions of common/peer/message.cc. OpenSSL and
-- protobuf are the parameter `Crypto`; time stamps are not modelled, since nothing reads them. The
-- OpenSSL contexts of a signer and a verifier change with every call that signs or verifies.
use dist_storage.Hashing.{Evp, ssl_call, peer_id_from_pubkey}
use dist_storage.Prelude.{
  ℕ, Bool, true, false, not, ◌&&◌, Option, none, some, List, [], ◌∷◌, Result, ok, throws, Error,
  runtime_error, invalid_argument, ◌>>=◌, ◌>>◌, guard, codes, replicate, take, length, ◌==◌, Bytes,
  Bytes-discrete, bytes_less, ite, if◌then◌else◌,
}
use dist_storage.Prelude.Maps.{lookup, insert_or_assign, emplace}

-- The members of the oneof `m` of message::MessageData; their contents play no part here.
pub data Payload : Type 0 where
  not_set minion_register hole_punch listen : Payload

-- message::MessageData
pub record MessageData : Type 0 where
  pub recipient_id : Bytes
  pub has_recipient_cert : Bool
  pub payload : Payload

-- message::SignedMessage
pub record SignedMessage : Type 0 where
  pub sender_id : Bytes
  pub signature : Bytes
  pub sender_cert : Bytes
  pub content : Bytes
  pub ttl : ℕ

-- What the code uses of OpenSSL and protobuf. `none` is a failure that the code sees as a null
-- pointer, a `false`, a number that stands for a failure, or an exception of the wrapper. `Verifier`
-- and `Signer` are the contexts. digest_sign takes the size of the buffer, as EVP_DigestSign does in
-- `siglen`, and gives the signature; digest_verify gives what a result of 1 or 0 stands for.
pub record Crypto : Type 1 where
  pub Cert : Type 0
  pub Key : Type 0
  pub Verifier : Type 0
  pub Signer : Type 0
  pub string_to_x509 : Bytes → Option Cert
  pub get_pubkey : Cert → Option Key
  pub authority_key_id : Cert → Option Bytes
  pub x509_verify : Cert → Key → Bool
  pub i2d_pubkey : Key → Option Bytes
  pub evp : Evp
  pub make_verifier : Key → Option Verifier
  pub digest_verify : Verifier → Bytes → Bytes → Option (Verifier × Bool)
  pub signature_size : Signer → ℕ
  pub digest_sign : Signer → ℕ → Bytes → Option (Signer × Bytes)
  pub serialize : MessageData → Option Bytes
  pub parse : Bytes → Option MessageData

pub record PeerInfo (c : Crypto) : Type 0 where
  pub cert : Bytes
  pub verifier : c.Verifier

pub record AuthorityInfo (c : Crypto) : Type 0 where
  pub cert : Bytes
  pub pubkey : Option c.Key

pub record AuthStore (c : Crypto) : Type 0 where
  pub self_id : Bytes
  pub self_cert : Bytes
  pub signer : Option c.Signer
  pub root_authorities : List (Bytes × AuthorityInfo c)
  pub peers : List (Bytes × PeerInfo c)

abbrev pub is_empty : Bytes → Bool
is_empty [] = true
is_empty (x ∷ xs) = false

abbrev pub or_throw {ℓ} : {A : Type ℓ} → Option A → Error → Result A
or_throw none e = throws e
or_throw (some a) e = ok a

abbrev pub is_some {ℓ} : {A : Type ℓ} → Option A → Bool
is_some none = false
is_some (some a) = true

pub data SignedPayloadAuthResult : Type 0 where
  auth_ok unknown_sender bad_signature bad_payload : SignedPayloadAuthResult

module _ (c : Crypto) where
  open c use {
    Cert, Key, Verifier, Signer, string_to_x509, get_pubkey, authority_key_id, x509_verify,
    i2d_pubkey, evp, make_verifier, digest_verify, signature_size, digest_sign, serialize, parse,
  }

  unfoldable pub is_self : AuthStore c → Bytes → Bool
  is_self store peer_id =
      not (is_empty store.self_id) && ite (Bytes-discrete peer_id store.self_id) true false

  unfoldable pub has : AuthStore c → Bytes → Bool
  has store id = is_some (lookup Bytes-discrete id store.peers)

  unfoldable pub push_authority : AuthStore c → Bytes → Bytes → Result (AuthStore c)
  push_authority store authority_id cert = do
    x509 ← or_throw (string_to_x509 cert) runtime_error
    pubkey ← or_throw (get_pubkey x509) runtime_error
    let info : AuthorityInfo c = record { cert = cert; pubkey = some pubkey }
    ok (record store {
      root_authorities =
          insert_or_assign Bytes-discrete bytes_less authority_id info store.root_authorities;
    })

  -- The checks of `push` on a certificate: the peer id and its verifier.
  unfoldable pub check_cert : AuthStore c → Bytes → Result (Bytes × Verifier)
  check_cert store cert = do
    x509 ← or_throw (string_to_x509 cert) runtime_error
    pubkey ← or_throw (get_pubkey x509) runtime_error
    authority_id ← or_throw (authority_key_id x509) runtime_error
    guard (not (is_empty authority_id)) runtime_error
    authority ← or_throw (lookup Bytes-discrete authority_id store.root_authorities) runtime_error
    authority_pubkey ← or_throw authority.pubkey runtime_error
    guard (x509_verify x509 authority_pubkey) runtime_error
    (id, peer_id_len) ←
        peer_id_from_pubkey evp (i2d_pubkey pubkey) (codes "sha512") (replicate 64 0)
    verifier ← ssl_call (make_verifier pubkey)
    ok (take peer_id_len id, verifier)

  unfoldable pub push : AuthStore c → Bytes → Result (AuthStore c)
  push store cert = do
    (id, verifier) ← check_cert store cert
    let info : PeerInfo c = record { cert = cert; verifier = verifier }
    ok (record store { peers = emplace Bytes-discrete bytes_less id info store.peers })

  -- SSLVerifier::verify, with the context that it leaves
  unfoldable pub verify : Verifier → Bytes → Bytes → Result (Verifier × Bool)
  verify verifier dgst sgn = or_throw (digest_verify verifier dgst sgn) runtime_error

  -- SSLSigner::sign, with the context that it leaves; `out_len` is 0.
  unfoldable pub sign : Signer → Bytes → Result (Signer × Bytes)
  sign signer bytes = do
    (signer', sgn) ← ssl_call (digest_sign signer 0 bytes)
    guard (length sgn == signature_size signer) runtime_error
    ok (signer', sgn)

  -- The store with another context for the verifier of a peer.
  abbrev pub with_verifier : AuthStore c → Bytes → PeerInfo c → Verifier → AuthStore c
  with_verifier store id peer verifier = record store {
    peers =
        insert_or_assign Bytes-discrete bytes_less id (record peer { verifier = verifier })
          store.peers;
  }

  abbrev pub verified_by :
      AuthStore c → SignedMessage → Option (PeerInfo c) → Result (AuthStore c × Bool)
  verified_by store msg none = ok (store, false)
  verified_by store msg (some peer) = do
    (verifier, valid) ← verify peer.verifier msg.content msg.signature
    ok (with_verifier store msg.sender_id peer verifier, valid)

  unfoldable pub validate_message : AuthStore c → SignedMessage → Result (AuthStore c × Bool)
  validate_message store msg =
      verified_by store msg (lookup Bytes-discrete msg.sender_id store.peers)

  -- fillMessageData
  unfoldable pub fill_message_data :
      SignedMessage → MessageData → Signer → Result (Signer × SignedMessage)
  fill_message_data msg message_data signer = do
    content ← or_throw (serialize message_data) invalid_argument
    (signer', signature) ← sign signer content
    ok (signer', record msg { content = content; signature = signature })

  -- getMessageData
  unfoldable pub get_message_data : SignedMessage → Verifier → Result (Verifier × MessageData)
  get_message_data msg verifier = do
    (verifier', valid) ← verify verifier msg.content msg.signature
    guard valid invalid_argument
    message_data ← or_throw (parse msg.content) invalid_argument
    ok (verifier', message_data)

  unfoldable pub sign_message :
      AuthStore c → MessageData → Bytes → Bool → Result (AuthStore c × SignedMessage)
  sign_message store message_data recipient_id add_cert = do
    let send_data = record message_data {
      recipient_id = recipient_id;
      has_recipient_cert = has store recipient_id;
    }
    let msg : SignedMessage = record {
      sender_id = store.self_id;
      signature = [];
      sender_cert = if add_cert then store.self_cert else [];
      content = [];
      ttl = 4;
    }
    signer ← or_throw store.signer runtime_error
    (signer', signed) ← fill_message_data msg send_data signer
    ok (record store { signer = some signer' }, signed)

  abbrev pub Authenticated : Type 0
  Authenticated = AuthStore c × SignedPayloadAuthResult × Option MessageData

  -- authenticate_signed_message_data once validate_message has returned, on what ParseFromString gives.
  abbrev pub after_validation : AuthStore c × Bool → Option MessageData → Result Authenticated
  after_validation (store, false) parsed = ok (store, bad_signature, none)
  after_validation (store, true) none = ok (store, bad_payload, none)
  after_validation (store, true) (some message_data) = ok (store, auth_ok, some message_data)

  -- authenticate_signed_message_data on a store that is not null; the data is the output parameter.
  unfoldable pub authenticate_in : AuthStore c → SignedMessage → Result Authenticated
  authenticate_in store msg =
      if not (has store msg.sender_id)
      then ok (store, unknown_sender, none)
      else validate_message store msg >>= λ v. after_validation v (parse msg.content)

  -- authenticate_signed_message_data; `none` is a null store.
  unfoldable pub authenticate_signed_message_data :
      Option (AuthStore c)
      → SignedMessage
      → Result (Option (AuthStore c) × SignedPayloadAuthResult × Option MessageData)
  authenticate_signed_message_data none msg = ok (none, unknown_sender, none)
  authenticate_signed_message_data (some store) msg = do
    (store', result, message_data) ← authenticate_in store msg
    ok (some store', result, message_data)
