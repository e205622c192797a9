-- ===== src/Objects/Descriptors.antt =====
-- No request of the object store leaks a file descriptor.
use dist_storage.Prelude.{
  ◌≡◌, refl, ◌∙◌, ℕ, zero, suc, Bool, true, false, Option, none, some, List, [], ◌∷◌, ◌-◌, length,
  Result, ok, throws, undefined, Bytes,
}
use dist_storage.Parse.Literal.{ℤ, pos, negsuc}
use dist_storage.Objects.{
  Os, Hasher, OpenMode, Whence, obj_path, WriteRequest, ReadRequest, HashRequest, seek_ok,
  after_seek, after_open, with_file, write_bytes, handle_write, read_bytes, handle_read,
  handle_delete, HashType, hash_digest_name, after_read, put_then, want, chunk_size, hash_length,
  hash_to_end, hash_chunks, hash_data, handle_hash,
}

-- The open descriptors of the process, and how the system calls change them: open adds the descriptor
-- that it gives, close takes it away, and the other calls keep them.
pub record Descriptors (os : Os) : Type 0 where
  pub held : os.Files → List ℕ
  pub open_some :
      (files files' : os.Files) (path : Bytes) (mode : OpenMode) (fd : ℕ)
      → os.open_file files path mode ≡ (files', some fd)
      → held files' ≡ fd ∷ held files
  pub open_none :
      (files files' : os.Files) (path : Bytes) (mode : OpenMode)
      → os.open_file files path mode ≡ (files', none)
      → held files' ≡ held files
  pub close_held :
      (files : os.Files) (fd : ℕ) (fds : List ℕ)
      → held files ≡ fd ∷ fds
      → held (os.close files fd) ≡ fds
  pub lseek_held :
      (files : os.Files) (fd : ℕ) (offset : ℤ) (whence : Whence)
      → held (os.lseek files fd offset whence).0 ≡ held files
  pub write_held :
      (files : os.Files) (fd : ℕ) (bytes : Bytes) → held (os.write files fd bytes).0 ≡ held files
  pub read_held : (files : os.Files) (fd n : ℕ) → held (os.read files fd n).0 ≡ held files
  pub unlink_held : (files : os.Files) (path : Bytes) → held (os.unlink files path).0 ≡ held files

module _ (os : Os) (d : Descriptors os) where
  seek_ok-held :
      (files : os.Files) (fd : ℕ) (offset : ℤ)
      → d.held (seek_ok os files fd offset).0 ≡ d.held files
  unfolding seek_ok
  seek_ok-held files fd (pos zero) = refl
  seek_ok-held files fd (pos (suc n)) = d.lseek_held files fd _ _
  seek_ok-held files fd (negsuc zero) = d.lseek_held files fd _ _
  seek_ok-held files fd (negsuc (suc n)) = d.lseek_held files fd _ _

  module _ {R : Type 0} where
    after_seek-held :
        (p : os.Files × Bool) (body : os.Files → os.Files × R) (fail : R)
        → ((files : os.Files) → d.held (body files).0 ≡ d.held files)
        → d.held (after_seek os p body fail).0 ≡ d.held p.0
    after_seek-held (files, true) body fail keeps = keeps files
    after_seek-held (files, false) body fail keeps = refl

    after_open-held :
        (files : os.Files) (path : Bytes) (mode : OpenMode) (p : os.Files × Option ℕ) (offset : ℤ)
        (body : ℕ → os.Files → os.Files × R) (fail : R)
        → os.open_file files path mode ≡ p
        → ((fd : ℕ) (files : os.Files) → d.held (body fd files).0 ≡ d.held files)
        → d.held (after_open os p offset body fail).0 ≡ d.held files
    after_open-held files path mode (files', none) offset body fail e keeps =
        d.open_none files files' path mode e
    after_open-held files path mode (files', some fd) offset body fail e keeps =
        d.close_held _ fd (d.held files) (
          after_seek-held (seek_ok os files' fd offset) (body fd) fail (keeps fd)
          ∙ seek_ok-held files' fd offset
          ∙ d.open_some files files' path mode fd e)

    with_file-held :
        (files : os.Files) (id : Bytes) (mode : OpenMode) (offset : ℤ)
        (body : ℕ → os.Files → os.Files × R) (fail : R)
        → ((fd : ℕ) (files : os.Files) → d.held (body fd files).0 ≡ d.held files)
        → d.held (with_file os files id mode offset body fail).0 ≡ d.held files
    unfolding with_file
    with_file-held files id mode offset body fail keeps =
        after_open-held files (obj_path id) mode (os.open_file files (obj_path id) mode) offset body
          fail refl keeps

  write_bytes-held :
      (bytes : Bytes) (fd : ℕ) (files : os.Files)
      → d.held (write_bytes os bytes fd files).0 ≡ d.held files
  unfolding write_bytes
  write_bytes-held bytes fd files = d.write_held files fd bytes

  read_bytes-held :
      (data_len : ℤ) (fd : ℕ) (files : os.Files)
      → d.held (read_bytes os data_len fd files).0 ≡ d.held files
  unfolding read_bytes
  read_bytes-held (pos zero) fd files = refl
  read_bytes-held (pos (suc n)) fd files = d.read_held files fd (suc n)
  read_bytes-held (negsuc n) fd files = refl

  module _ (hasher : Hasher) where
    -- A chunk is put into the hash, or the loop ends.
    put_then-held :
        (files files' : os.Files) (r : Result hasher.State)
        (next : hasher.State → os.Files × Result (Option hasher.State))
        → d.held files' ≡ d.held files
        → ((h : hasher.State) → d.held (next h).0 ≡ d.held files')
        → d.held (put_then os hasher files' r next).0 ≡ d.held files
    put_then-held files files' (ok h) next e keeps = keeps h ∙ e
    put_then-held files files' (throws x) next e keeps = e
    put_then-held files files' undefined next e keeps = e

    after_read-held :
        (files : os.Files) (p : os.Files × Option Bytes) (at_end : Result (Option hasher.State))
        (more : os.Files → Bytes → os.Files × Result (Option hasher.State))
        → d.held p.0 ≡ d.held files
        → ((files' : os.Files) (chunk : Bytes) → d.held (more files' chunk).0 ≡ d.held files')
        → d.held (after_read os hasher p at_end more).0 ≡ d.held files
    after_read-held files (files', none) at_end more e keeps = e
    after_read-held files (files', some []) at_end more e keeps = e
    after_read-held files (files', some (b ∷ bytes)) at_end more e keeps =
        keeps files' (b ∷ bytes) ∙ e

    hash_length-held :
        (rounds remaining fd : ℕ) (h : hasher.State) (files : os.Files)
        → d.held (hash_length os hasher rounds remaining fd h files).0 ≡ d.held files
    unfolding hash_length
    hash_length-held zero zero fd h files = refl
    hash_length-held (suc rounds) zero fd h files = refl
    hash_length-held zero (suc remaining) fd h files = refl
    hash_length-held (suc rounds) (suc remaining) fd h files =
        let left : Bytes → ℕ = λ chunk. suc remaining - length chunk in
        let loop : os.Files → Bytes → hasher.State → os.Files × Result (Option hasher.State) =
          λ files' chunk h'. hash_length os hasher rounds (left chunk) fd h' files' in
        after_read-held files (os.read files fd (want os hasher (suc remaining))) (ok none)
          (λ files' chunk. put_then os hasher files' (hasher.put h chunk) (loop files' chunk))
          (d.read_held files fd _)
          (λ files' chunk.
            put_then-held files' files' (hasher.put h chunk) (loop files' chunk) refl
              (λ h'. hash_length-held rounds (left chunk) fd h' files'))

    hash_to_end-held :
        (fuel fd : ℕ) (h : hasher.State) (files : os.Files)
        → d.held (hash_to_end os hasher fuel fd h files).0 ≡ d.held files
    unfolding hash_to_end
    hash_to_end-held zero fd h files = refl
    hash_to_end-held (suc fuel) fd h files =
        let loop : os.Files → hasher.State → os.Files × Result (Option hasher.State) =
          λ files' h'. hash_to_end os hasher fuel fd h' files' in
        after_read-held files (os.read files fd chunk_size) (ok (some h))
          (λ files' chunk. put_then os hasher files' (hasher.put h chunk) (loop files'))
          (d.read_held files fd _)
          (λ files' chunk.
            put_then-held files' files' (hasher.put h chunk) (loop files') refl
              (λ h'. hash_to_end-held fuel fd h' files'))

    hash_chunks-held :
        (fuel : ℕ) (data_len : ℤ) (fd : ℕ) (h : hasher.State) (files : os.Files)
        → d.held (hash_chunks os hasher fuel data_len fd h files).0 ≡ d.held files
    unfolding hash_chunks
    hash_chunks-held fuel (pos zero) fd h files = hash_to_end-held fuel fd h files
    hash_chunks-held fuel (pos (suc n)) fd h files = hash_length-held (suc n) (suc n) fd h files
    hash_chunks-held fuel (negsuc n) fd h files = hash_to_end-held fuel fd h files

    hash_data-held :
        (fuel : ℕ) (type : HashType) (data_len : ℤ) (fd : ℕ) (files : os.Files)
        → d.held (hash_data os hasher fuel type data_len fd files).0 ≡ d.held files
    unfolding hash_data
    hash_data-held fuel type data_len fd files =
        put_then-held files files (hasher.start (hash_digest_name type)) _ refl
          (λ h. hash_chunks-held fuel data_len fd h files)

  -- What the four requests have in common: if the system calls keep their account of the open
  -- descriptors, then Write, Read, Hash and Delete all leave the same descriptors open that were open
  -- before, however they end: with a result, a failed call, or an exception of the hasher.
  pub handle_requests-held :
      (hasher : Hasher) (fuel : ℕ) (files : os.Files) (w : WriteRequest) (r : ReadRequest)
      (h : HashRequest) (id : Bytes)
      → (d.held (handle_write os files w).0 ≡ d.held files)
        × (d.held (handle_read os files r).0 ≡ d.held files)
        × (d.held (handle_hash os hasher fuel files h).0 ≡ d.held files)
        × (d.held (handle_delete os files id).0 ≡ d.held files)
  unfolding handle_write handle_read handle_hash handle_delete
  handle_requests-held hasher fuel files w r h id = (
    with_file-held files w.id _ w.offset _ _ (λ fd. write_bytes-held w.data_ fd),
    with_file-held files r.id _ r.offset _ _ (λ fd. read_bytes-held r.data_len fd),
    with_file-held files h.id _ h.offset _ _
        (λ fd. hash_data-held hasher fuel h.hash_type h.data_len fd),
    d.unlink_held files _,
  )
