-- ===== src/Peer/Admission.antt =====
-- Who gets into the store.
use dist_storage.Prelude.{
  ◌≡◌, refl, Bool, true, false, not, Option, none, some, Result, ok, throws, undefined, ◌>>=◌, ◌>>◌,
  guard, Bytes, Bytes-discrete, arith, ◌↔◌, Error, codes, ℕ,
}
use dist_storage.Prelude.Maps.{lookup}
use dist_storage.Hashing.{
  Evp, SslHasher, ssl_call, make_hasher, digest_size, peer_id_from_hash, peer_id_from_pubkey,
}
use dist_storage.Peer.Store.{Crypto, AuthStore, AuthorityInfo, or_throw, is_empty, check_cert, push}

module _ (c : Crypto) where
  -- The certificate names a root authority of the store, whose key has signed it, and OpenSSL gives
  -- what is asked of it for the peer id.
  pub record IsVouched (store : AuthStore c) (cert : Bytes) : Type 0 where
    pub x509 : c.Cert
    pub key : c.Key
    pub authority_id : Bytes
    pub authority : AuthorityInfo c
    pub authority_key : c.Key
    pub info : Bytes
    pub md : c.evp.Digest
    pub ctx : c.evp.Context
    pub parsed : c.string_to_x509 cert ≡ some x509
    pub keyed : c.get_pubkey x509 ≡ some key
    pub named : c.authority_key_id x509 ≡ some authority_id
    pub nonempty : is_empty authority_id ≡ false
    pub known : lookup Bytes-discrete authority_id store.root_authorities ≡ some authority
    pub with_key : authority.pubkey ≡ some authority_key
    pub signed : c.x509_verify x509 authority_key ≡ true
    pub encoded : c.i2d_pubkey key ≡ some info
    pub digest : c.evp.get_digestbyname (codes "sha512") ≡ some md
    pub context : c.evp.ctx_new ≡ some ctx

-- A call that gives no value.
data Unfinished {A : Type 0} : Result A → Type 0 where
  raised : {e : Error} → Unfinished (throws e)
  lost : Unfinished undefined

Unfinished-bind :
    {A B : Type 0} {m : Result A} (next : A → Result B) → Unfinished m → Unfinished (m >>= next)
Unfinished-bind next raised = raised
Unfinished-bind next lost = lost

-- A call that gives no value is undefined already when the next one makes it so.
Unfinished-undefined :
    {A B : Type 0} {m : Result A} (next : A → Result B)
    → Unfinished m
    → (m >>= next) ≡ undefined
    → m ≡ undefined
Unfinished-undefined next raised h = cc
Unfinished-undefined next lost h = refl

Unfinished-or_throw :
    {A B : Type 0} (o : Option A) (e : Error) {next : A → Result B}
    → ((a : A) → Unfinished (next a))
    → Unfinished (or_throw o e >>= next)
Unfinished-or_throw none e h = raised
Unfinished-or_throw (some a) e h = h a

Unfinished-guard :
    {B : Type 0} (b : Bool) (e : Error) {r : Result B} → Unfinished r → Unfinished (guard b e >> r)
Unfinished-guard true e h = h
Unfinished-guard false e h = raised

Unfinished-no : {A : Type 0} {r : Result A} {a : A} → Unfinished r → ¬ (r ≡ ok a)
Unfinished-no raised h = cc
Unfinished-no lost h = cc

or_throw-undefined :
    {A B : Type 0} (o : Option A) (e : Error) (next : A → Result B)
    → (or_throw o e >>= next) ≡ undefined
    → (a : A) × (o ≡ some a) × (next a ≡ undefined)
or_throw-undefined none e next h = cc
or_throw-undefined (some a) e next h = (a, refl, h)

guard-undefined :
    {B : Type 0} (b : Bool) (e : Error) (r : Result B)
    → (guard b e >> r) ≡ undefined
    → (b ≡ true) × (r ≡ undefined)
guard-undefined true e r h = (refl, h)
guard-undefined false e r h = cc

module _ (evp : Evp) {B : Type 0} (next : SslHasher evp → ℕ → Result B) where
  -- A hasher is made and its digest size asked for.
  abbrev sized : Option evp.Digest → Option evp.Context → Result B
  sized digest context =
      ssl_call digest
      >>= (λ md. ssl_call context >>= (λ ctx. ok (record { ctx = ctx; md = none })))
      >>= (λ h. digest_size evp h >>= next h)

  -- The digest that the constructor looks up does not get into the member that digest_size reads.
  sized-Unfinished :
      (digest : Option evp.Digest) (context : Option evp.Context)
      → Unfinished (sized digest context)
  unfolding digest_size
  sized-Unfinished none context = raised
  sized-Unfinished (some md) none = raised
  sized-Unfinished (some md) (some ctx) = lost

  sized-undefined :
      (digest : Option evp.Digest) (context : Option evp.Context)
      → sized digest context ≡ undefined
      → (md : evp.Digest) × (ctx : evp.Context) × (digest ≡ some md) × (context ≡ some ctx)
  unfolding digest_size
  sized-undefined none context h = cc
  sized-undefined (some md) none h = cc
  sized-undefined (some md) (some ctx) h = (md, ctx, refl, refl)

module _ (evp : Evp) {B : Type 0} (next : Bytes × ℕ → Result B) where
  id-Unfinished :
      (info : Option Bytes) (algo out_buf : Bytes)
      → Unfinished (peer_id_from_pubkey evp info algo out_buf >>= next)
  unfolding peer_id_from_pubkey peer_id_from_hash make_hasher
  id-Unfinished none algo out_buf = raised
  id-Unfinished (some info) algo out_buf =
      Unfinished-bind next (sized-Unfinished evp _ (evp.get_digestbyname algo) evp.ctx_new)

  id-undefined :
      (info : Option Bytes) (algo out_buf : Bytes)
      → (peer_id_from_pubkey evp info algo out_buf >>= next) ≡ undefined
      → (bytes : Bytes) × (md : evp.Digest) × (ctx : evp.Context) × (info ≡ some bytes)
        × (evp.get_digestbyname algo ≡ some md)
        × (evp.ctx_new ≡ some ctx)
  unfolding peer_id_from_pubkey peer_id_from_hash make_hasher
  id-undefined none algo out_buf h = cc
  id-undefined (some info) algo out_buf h =
      let (md, ctx, d, x) = sized-undefined evp _ (evp.get_digestbyname algo) evp.ctx_new (
        Unfinished-undefined next (sized-Unfinished evp _ (evp.get_digestbyname algo) evp.ctx_new)
          h) in
      (info, md, ctx, refl, d, x)

module _ (c : Crypto) where
  check_cert-Unfinished :
      (store : AuthStore c) (cert : Bytes) → Unfinished (check_cert c store cert)
  unfolding check_cert
  check_cert-Unfinished store cert = Unfinished-or_throw (c.string_to_x509 cert) _ (λ x509.
      Unfinished-or_throw (c.get_pubkey x509) _ (λ key.
        Unfinished-or_throw (c.authority_key_id x509) _ (λ aid.
          Unfinished-guard (not (is_empty aid)) _ (
            Unfinished-or_throw (lookup Bytes-discrete aid store.root_authorities) _ (λ authority.
              Unfinished-or_throw authority.pubkey _ (λ akey.
                Unfinished-guard (c.x509_verify x509 akey) _
                  (id-Unfinished c.evp _ (c.i2d_pubkey key) _ _)))))))

  check_cert-IsVouched :
      (store : AuthStore c) (cert : Bytes)
      → check_cert c store cert ≡ undefined
      → IsVouched c store cert
  unfolding check_cert
  check_cert-IsVouched store cert h =
      let (x509, h1, r1) = or_throw-undefined (c.string_to_x509 cert) _ _ h in
      let (key, h2, r2) = or_throw-undefined (c.get_pubkey x509) _ _ r1 in
      let (aid, h3, r3) = or_throw-undefined (c.authority_key_id x509) _ _ r2 in
      let (filled, r4) = guard-undefined (not (is_empty aid)) _ _ r3 in
      let (authority, h5, r5) =
        or_throw-undefined (lookup Bytes-discrete aid store.root_authorities) _ _ r4 in
      let (akey, h6, r6) = or_throw-undefined authority.pubkey _ _ r5 in
      let (signed, r7) = guard-undefined (c.x509_verify x509 akey) _ _ r6 in
      let (info, md, ctx, h8, h9, h10) = id-undefined c.evp _ (c.i2d_pubkey key) _ _ r7 in
      record {
        x509 = x509;
        key = key;
        authority_id = aid;
        authority = authority;
        authority_key = akey;
        info = info;
        md = md;
        ctx = ctx;
        parsed = h1;
        keyed = h2;
        named = h3;
        nonempty = ground (arith, filled);
        known = h5;
        with_key = h6;
        signed = signed;
        encoded = h8;
        digest = h9;
        context = h10;
      }

  check_cert-reached :
      (store : AuthStore c) (cert : Bytes)
      → IsVouched c store cert
      → check_cert c store cert ≡ undefined
  unfolding check_cert peer_id_from_pubkey peer_id_from_hash make_hasher digest_size
  check_cert-reached store cert v = rw (
    v.parsed, v.keyed, v.named, v.nonempty, v.known, v.with_key, v.signed, v.encoded, v.digest,
    v.context,
  )

  -- `push` never stores a peer. It throws for every certificate, but for one that names a root
  -- authority of the store, by an id that is not empty, whose key has signed it, of a key that can be
  -- encoded, when OpenSSL has the digest and makes a context: exactly then its behaviour is undefined.
  pub push-IsVouched :
      (store : AuthStore c) (cert : Bytes)
      → ((push c store cert ≡ undefined) ↔ IsVouched c store cert)
        × ((store' : AuthStore c) → ¬ (push c store cert ≡ ok store'))
  unfolding push
  push-IsVouched store cert = (
    (
      (λ h.
          check_cert-IsVouched store cert
            (Unfinished-undefined _ (check_cert-Unfinished store cert) h)),
      reached,
    ),
    λ store' h. Unfinished-no (Unfinished-bind _ (check_cert-Unfinished store cert)) h,
  )
    where
      reached : IsVouched c store cert → push c store cert ≡ undefined
      reached v = rw (check_cert-reached store cert v)
