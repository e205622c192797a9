-- ===== src/Peer/Tests.antt =====
-- The theorems on trust, at the sample cryptography.
use dist_storage.Prelude.{
  ◌≡◌, refl, false, some, [], ◌∷◌, ok, undefined, Bytes-discrete, bytes_less, ◌↔◌,
}
use dist_storage.Prelude.Maps.{lookup, insert_or_assign}
use dist_storage.Peer.Store.{
  MessageData, listen, AuthStore, push, authenticate_signed_message_data, auth_ok,
}
use dist_storage.Peer.Admission.{IsVouched, push-IsVouched}
use dist_storage.Peer.Trust.{IsSigned, authenticate_signed_message_data-auth_ok}
use dist_storage.Peer.Sample.{sample, trusting, asked, from_peer, registers}

push-IsVouched_example :
    ((push sample trusting (8 ∷ 9 ∷ []) ≡ undefined) ↔ IsVouched sample trusting (8 ∷ 9 ∷ []))
    × ((store : AuthStore sample) → ¬ (push sample trusting (8 ∷ 9 ∷ []) ≡ ok store))
push-IsVouched_example = push-IsVouched sample trusting (8 ∷ 9 ∷ [])

-- Peer 8 is vouched for, so that the digest is read that was never set.
push_runs : push sample trusting (8 ∷ 9 ∷ []) ≡ undefined
unfolding lookup Bytes-discrete
push_runs = push-IsVouched_example.0.1 (record {
  x509 = (8, 9);
  key = 8;
  authority_id = 9 ∷ [];
  authority = record { cert = 9 ∷ 9 ∷ []; pubkey = some 9 };
  authority_key = 9;
  info = 8 ∷ [];
  md = tt;
  ctx = [];
  parsed = refl;
  keyed = refl;
  named = refl;
  nonempty = refl;
  known = refl;
  with_key = refl;
  signed = refl;
  encoded = refl;
  digest = refl;
  context = refl;
})

authenticate_signed_message_data-auth_ok_example :
    (authenticate_signed_message_data sample (some trusting) (from_peer (5 ∷ []))
      ≡ ok (some asked, auth_ok, some (registers (5 ∷ []))))
    ↔ (IsSigned sample trusting asked (from_peer (5 ∷ []))
        × (sample.parse (1 ∷ 0 ∷ 5 ∷ []) ≡ some (registers (5 ∷ []))))
authenticate_signed_message_data-auth_ok_example =
    authenticate_signed_message_data-auth_ok sample trusting asked (from_peer (5 ∷ []))
      (registers (5 ∷ []))

trusting-IsSigned : IsSigned sample trusting asked (from_peer (5 ∷ []))
unfolding lookup Bytes-discrete insert_or_assign bytes_less
trusting-IsSigned = record {
  sender = record { cert = 7 ∷ 9 ∷ []; verifier = (7, 0) };
  verifier = (7, 1);
  known = refl;
  signed = refl;
  verified = refl;
}

authenticated_once :
    authenticate_signed_message_data sample (some trusting) (from_peer (5 ∷ []))
    ≡ ok (some asked, auth_ok, some (registers (5 ∷ [])))
authenticated_once = authenticate_signed_message_data-auth_ok_example.1 (trusting-IsSigned, refl)

-- What the server tells peer 7.
abbrev listening : MessageData
listening = record { recipient_id = []; has_recipient_cert = false; payload = listen }
