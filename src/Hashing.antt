-- ===== src/Hashing.antt =====
-- SSLHasher (common/crypto/sgn.cc), and the peer ids made with it (common/crypto/auth.cc). `Evp` stands
-- for OpenSSL. The constructor puts the digest that it looks up into a local variable `md`, which hides
-- the member, so that the member is never set; digest_size and start read the member.
use dist_storage.Prelude.{
  ℕ, zero, suc, Option, none, some, ◌∷◌, [], ◌++◌, length, take, drop, Result, ok, throws,
  runtime_error, invalid_argument, Bytes, codes, ◌>>=◌, ◌>>◌, guard, or_undefined, leb,
}

-- The calls of OpenSSL that the class makes; `none` is a failure.
pub record Evp : Type 1 where
  pub Digest : Type 0
  pub Context : Type 0
  pub get_digestbyname : Bytes → Option Digest
  pub md_size : Digest → ℕ
  pub ctx_new : Option Context
  pub digest_init : Context → Digest → Option Context
  pub digest_update : Context → Bytes → Option Context
  pub digest_final : Context → Option (Context × Bytes)

-- ssl_call on a result
abbrev pub ssl_call {ℓ} : {A : Type ℓ} → Option A → Result A
ssl_call none = throws runtime_error
ssl_call (some a) = ok a

-- SSLHasher; `md` is `none` as long as nothing has been assigned to the member.
pub record SslHasher (evp : Evp) : Type 0 where
  pub ctx : evp.Context
  pub md : Option evp.Digest

-- A C string with its final 0, as `sizeof` counts it.
abbrev c_array : Bytes → Bytes
c_array text = text ++ 0 ∷ []

abbrev pub peer_id_seed_1 : Bytes
peer_id_seed_1 = c_array (codes "834h804n82y387ynx2307ny8x70236n4786yn38923")

abbrev pub peer_id_seed_2 : Bytes
peer_id_seed_2 = c_array (codes "83n1-9348yc5n780345mn83485mt483mtg7tm58c48")

abbrev pub peer_id_seed_3 : Bytes
peer_id_seed_3 = c_array (codes "c45e654wv653w6537v6brftrxwqt56bf79n8t7f6f6")

abbrev pub peer_id_seed_4 : Bytes
peer_id_seed_4 = c_array (codes "7b5es75nm698g098ym76e534xcw76v8r67bt9tbt6t")

unfoldable pub peer_id_hash_rounds : ℕ
peer_id_hash_rounds = 16384

-- A buffer whose front is overwritten.
abbrev pub overwrite_front : Bytes → Bytes → Bytes
overwrite_front front buf = front ++ drop (length front) buf

module _ (evp : Evp) where
  -- SSLHasher::SSLHasher; the `md` here is the local variable.
  unfoldable pub make_hasher : Bytes → Result (SslHasher evp)
  make_hasher hash_name = do
    md ← ssl_call (evp.get_digestbyname hash_name)
    ctx ← ssl_call evp.ctx_new
    ok (record { ctx = ctx; md = none })

  -- SSLHasher::digest_size
  unfoldable pub digest_size : SslHasher evp → Result ℕ
  digest_size h = do md ← or_undefined h.md; ok (evp.md_size md)

  -- SSLHasher::start
  unfoldable pub start_hasher : SslHasher evp → Result (SslHasher evp)
  start_hasher h = do
    md ← or_undefined h.md
    ctx ← ssl_call (evp.digest_init h.ctx md)
    ok (record h { ctx = ctx })

  -- SSLHasher::put
  unfoldable pub put_data : SslHasher evp → Bytes → Result (SslHasher evp)
  put_data h bytes = do ctx ← ssl_call (evp.digest_update h.ctx bytes); ok (record h { ctx = ctx })

  -- SSLHasher::finish, with the digest that it writes to `out_data`.
  unfoldable pub finish_hash : SslHasher evp → Result (SslHasher evp × Bytes)
  finish_hash h = do
    (ctx, digest) ← ssl_call (evp.digest_final h.ctx)
    ok (record h { ctx = ctx }, digest)

  -- One round of the loop of peer_id_from_hash, on the buffer `out_buf`.
  unfoldable pub hash_round : ℕ → SslHasher evp → Bytes → Result (SslHasher evp × Bytes)
  hash_round hash_size h out_buf = do
    h1 ← start_hasher h
    h2 ← put_data h1 (take hash_size out_buf)
    h3 ← put_data h2 peer_id_seed_3
    h4 ← put_data h3 (take hash_size out_buf)
    h5 ← put_data h4 peer_id_seed_4
    (h6, digest) ← finish_hash h5
    ok (h6, overwrite_front digest out_buf)

  -- The loop of peer_id_from_hash.
  unfoldable pub hash_rounds : ℕ → ℕ → SslHasher evp → Bytes → Result Bytes
  hash_rounds zero hash_size h out_buf = ok out_buf
  hash_rounds (suc rounds) hash_size h out_buf = do
    (h', out_buf') ← hash_round hash_size h out_buf
    hash_rounds rounds hash_size h' out_buf'

  -- peer_id_from_hash: what stands in `out_buf`, and the size of the hash.
  unfoldable pub peer_id_from_hash : Bytes → Bytes → Bytes → Result (Bytes × ℕ)
  peer_id_from_hash bytes hash_algo out_buf = do
    h ← make_hasher hash_algo
    hash_size ← digest_size h
    guard (leb hash_size (length out_buf)) invalid_argument
    h1 ← start_hasher h
    h2 ← put_data h1 peer_id_seed_1
    h3 ← put_data h2 bytes
    h4 ← put_data h3 peer_id_seed_2
    (h5, digest) ← finish_hash h4
    out_buf' ← hash_rounds peer_id_hash_rounds hash_size h5 (overwrite_front digest out_buf)
    ok (out_buf', hash_size)

  -- peer_id_from_pubkey on the key's encoding, which is `none` where i2d_PUBKEY fails.
  unfoldable pub peer_id_from_pubkey : Option Bytes → Bytes → Bytes → Result (Bytes × ℕ)
  peer_id_from_pubkey pubkey_subject_info hash_algo out_buf = do
    info ← ssl_call pubkey_subject_info
    peer_id_from_hash info hash_algo out_buf
