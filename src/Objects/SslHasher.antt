-- ===== src/Objects/SslHasher.antt =====
-- The object store's Hash request with SSLHasher, the hasher of the program.
use dist_storage.Prelude.{Bool, true, false, Option, none, some, ℕ, Result, ok, undefined, ◌>>=◌}
use dist_storage.Objects.{
  Os, Hasher, HashRequest, hash_digest_name, ContentResult, failure, handle_hash, with_file,
  after_open, after_seek, seek_ok, obj_path, read_only, hash_data, hash_result, started,
}
use dist_storage.Hashing.{
  Evp, SslHasher, ssl_call, make_hasher, start_hasher, put_data, finish_hash,
}

module _ (evp : Evp) where
  -- The constructor with start, put and finish
  abbrev pub ssl_hasher : Hasher
  ssl_hasher = record {
    State = SslHasher evp;
    start = λ hash_name. make_hasher evp hash_name >>= start_hasher evp;
    put = put_data evp;
    finish = λ h. finish_hash evp h >>= λ done. ok done.1;
  }

  -- The request fails, or its behaviour is undefined.
  pub data NoDigest : Result ContentResult → Type 0 where
    fails : NoDigest (ok failure)
    undefined_result : NoDigest undefined

  module _ (os : Os) (fuel : ℕ) (request : HashRequest) where
    after_make :
        (fd : ℕ) (files : os.Files) (digest : Option evp.Digest) (context : Option evp.Context)
        → NoDigest (
            hash_result os ssl_hasher
              (started os ssl_hasher fuel request.data_len fd files (
                ssl_call digest
                >>= (λ md. ssl_call context >>= (λ ctx. ok (record { ctx = ctx; md = none })))
                >>= start_hasher evp)).1)
    unfolding start_hasher
    after_make fd files none context = fails
    after_make fd files (some md) none = fails
    after_make fd files (some md) (some ctx) = undefined_result

    after_seek-NoDigest :
        (fd : ℕ) (p : os.Files × Bool)
        → NoDigest
            (after_seek os p
              (hash_data os ssl_hasher fuel request.hash_type request.data_len fd)
              (ok failure)).1
    unfolding hash_data make_hasher
    after_seek-NoDigest fd (files, true) =
        after_make fd files (evp.get_digestbyname (hash_digest_name request.hash_type)) evp.ctx_new
    after_seek-NoDigest fd (files, false) = fails

    after_open-NoDigest :
        (p : os.Files × Option ℕ)
        → NoDigest
            (after_open os p request.offset
              (hash_data os ssl_hasher fuel request.hash_type request.data_len)
              (ok failure)).1
    after_open-NoDigest (files, none) = fails
    after_open-NoDigest (files, some fd) =
        after_seek-NoDigest fd (seek_ok os files fd request.offset)

    -- With SSLHasher as its hasher, no Hash request gives a digest, whatever the system calls and OpenSSL
    -- do: it answers FAILED, or its behaviour is undefined.
    pub handle_hash-NoDigest :
        (files : os.Files) → NoDigest (handle_hash os ssl_hasher fuel files request).1
    unfolding handle_hash with_file
    handle_hash-NoDigest files =
        after_open-NoDigest (os.open_file files (obj_path request.id) read_only)
