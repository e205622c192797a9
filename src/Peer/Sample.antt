-- ===== src/Peer/Sample.antt =====
-- A small cryptography to run the model with: a certificate is a key and the key of its authority,
-- and a signature is the content behind the signer's key. A verifier counts its calls,
-- and accepts a signature in the first one only.
use dist_storage.Prelude.{
  ℕ, suc, zero, Bool, true, false, Option, none, some, [], ◌∷◌, Bytes, Bytes-discrete, ite, ◌==◌,
  ◌++◌, leb, if◌then◌else◌,
}
use dist_storage.Peer.Store.{
  Payload, not_set, minion_register, hole_punch, listen, MessageData, SignedMessage, Crypto,
  AuthStore,
}

abbrev payload_code : Payload → ℕ
payload_code not_set = 0
payload_code minion_register = 1
payload_code hole_punch = 2
payload_code listen = 3

abbrev code_payload : ℕ → Payload
code_payload zero = not_set
code_payload (suc zero) = minion_register
code_payload (suc (suc zero)) = hole_punch
code_payload (suc (suc (suc k))) = listen

abbrev flag_code : Bool → ℕ
flag_code false = 0
flag_code true = 1

abbrev certificate : Bytes → Option (ℕ × ℕ)
certificate (key ∷ authority ∷ []) = some (key, authority)
certificate _ = none

abbrev decode : Bytes → Option MessageData
decode (payload ∷ flag ∷ recipient) = some (record {
  recipient_id = recipient;
  has_recipient_cert = flag == 1;
  payload = code_payload payload;
})
decode _ = none

abbrev pub sample : Crypto
sample = record {
  Cert = ℕ × ℕ;
  Key = ℕ;
  Verifier = ℕ × ℕ;
  Signer = ℕ;
  string_to_x509 = certificate;
  get_pubkey = λ x509. some x509.0;
  authority_key_id = λ x509. some (x509.1 ∷ []);
  x509_verify = λ x509 key. x509.1 == key;
  i2d_pubkey = λ key. some (key ∷ []);
  evp = record {
    Digest = Unit;
    Context = Bytes;
    get_digestbyname = λ name. some tt;
    md_size = λ md. 64;
    ctx_new = some [];
    digest_init = λ ctx md. some [];
    digest_update = λ ctx bytes. some (ctx ++ bytes);
    digest_final = λ ctx. some (ctx, ctx);
  };
  make_verifier = λ key. some (key, 0);
  digest_verify = λ verifier content signature. some (
    (verifier.0, suc verifier.1),
    ite (Bytes-discrete signature (verifier.0 ∷ content)) (verifier.1 == 0) false,
  );
  signature_size = λ key. 64;
  digest_sign = λ key size content. if leb 64 size then some (key, key ∷ content) else none;
  serialize = λ d. some (payload_code d.payload ∷ flag_code d.has_recipient_cert ∷ d.recipient_id);
  parse = decode;
}

-- The authority 9 vouches for the server 5 and the peer 7.
abbrev pub trusting : AuthStore sample
trusting = record {
  self_id = 5 ∷ [];
  self_cert = 5 ∷ 9 ∷ [];
  signer = some 5;
  root_authorities = ((9 ∷ []), record { cert = 9 ∷ 9 ∷ []; pubkey = some 9 }) ∷ [];
  peers = ((7 ∷ []), record { cert = 7 ∷ 9 ∷ []; verifier = (7, 0) }) ∷ [];
}

-- The same store when the verifier of peer 7 has been called.
abbrev pub asked : AuthStore sample
asked = record trusting { peers = ((7 ∷ []), record { cert = 7 ∷ 9 ∷ []; verifier = (7, 1) }) ∷ [] }

-- Peer 7 registers, with the recipient `recipient`.
abbrev pub from_peer : Bytes → SignedMessage
from_peer recipient = record {
  sender_id = 7 ∷ [];
  signature = 7 ∷ 1 ∷ 0 ∷ recipient;
  sender_cert = [];
  content = 1 ∷ 0 ∷ recipient;
  ttl = 4;
}

abbrev pub registers : Bytes → MessageData
registers recipient = record {
  recipient_id = recipient;
  has_recipient_cert = false;
  payload = minion_register;
}
