-- ===== src/Objects.antt =====
-- The request handlers of the object store (minion/obj_store/obj_store.cc): handle_request of Write,
-- Read, Delete and Hash. `Os` stands for the system calls and `Hasher` is the hasher's interface. A request
-- that asks for more memory than there is ends the program and is left out.
pub mod Descriptors
pub mod SslHasher
mod Tests
use dist_storage.Prelude.{
  ◌≡◌, ℕ, zero, suc, ◌+◌, ◌-◌, Bool, true, false, Option, none, some, List, [], ◌∷◌, ◌++◌, length,
  Result, ok, throws, undefined, ◌>>=◌, Bytes, codes, if◌then◌else◌, leb, ◌==◌,
}
use dist_storage.Parse.Literal.{ℤ, pos, negsuc}
use dist_storage.Guard.Limit.{OperationResult, ok_result, failed}

pub data OpenMode : Type 0 where
  write_create read_only : OpenMode

pub data Whence : Type 0 where
  seek_set seek_end : Whence

-- The system calls. A call that fails gives `none` or `false`, and `read` gives no bytes at the end.
pub record Os : Type 1 where
  pub Files : Type 0
  pub open_file : Files → Bytes → OpenMode → Files × Option ℕ
  pub lseek : Files → ℕ → ℤ → Whence → Files × Bool
  pub write : Files → ℕ → Bytes → Files × Option ℕ
  pub read : Files → ℕ → ℕ → Files × Option Bytes
  pub close : Files → ℕ → Files
  pub unlink : Files → Bytes → Files × Bool

-- What HashHandler uses of a hasher: its constructor with start, put and finish.
pub record Hasher : Type 1 where
  pub State : Type 0
  pub start : Bytes → Result State
  pub put : State → Bytes → Result State
  pub finish : State → Result Bytes

-- HashType; a message can hold a number that is none of them.
pub data HashType : Type 0 where
  sha256 sha512 sha3_256 sha3_512 : HashType
  unrecognized : ℕ → HashType

-- obj_path
unfoldable pub obj_path : Bytes → Bytes
obj_path id = codes "data/" ++ id

-- hash_digest_name
unfoldable pub hash_digest_name : HashType → Bytes
hash_digest_name sha256 = codes "sha256"
hash_digest_name sha512 = codes "sha512"
hash_digest_name sha3_256 = codes "sha3-256"
hash_digest_name sha3_512 = codes "sha3-512"
hash_digest_name (unrecognized n) = codes "sha256"

pub record WriteRequest : Type 0 where
  pub id : Bytes
  pub offset : ℤ
  pub data_ : Bytes

pub record ReadRequest : Type 0 where
  pub id : Bytes
  pub offset : ℤ
  pub data_len : ℤ

pub record HashRequest : Type 0 where
  pub id : Bytes
  pub hash_type : HashType
  pub offset : ℤ
  pub data_len : ℤ

pub record ContentResult : Type 0 where
  pub result : OperationResult
  pub content : Bytes

abbrev pub failure : ContentResult
failure = record { result = failed; content = [] }

-- The buffer of HashHandler.
abbrev pub chunk_size : ℕ
chunk_size = 65536

module _ (os : Os) where
  -- seek_ok
  unfoldable pub seek_ok : os.Files → ℕ → ℤ → os.Files × Bool
  seek_ok files fd (pos zero) = (files, true)
  seek_ok files fd (pos (suc n)) = os.lseek files fd (pos (suc n)) seek_set
  seek_ok files fd (negsuc zero) = os.lseek files fd (pos 0) seek_end
  seek_ok files fd (negsuc (suc n)) = os.lseek files fd (negsuc n) seek_end

  module _ {R : Type 0} where
    -- The end of a request: the destructor of unique_fd closes the file.
    abbrev closing : ℕ → os.Files × R → os.Files × R
    closing fd (files, r) = (os.close files fd, r)

    -- After a seek.
    abbrev pub after_seek : os.Files × Bool → (os.Files → os.Files × R) → R → os.Files × R
    after_seek (files, true) body fail = body files
    after_seek (files, false) body fail = (files, fail)

    -- After an open.
    abbrev pub after_open :
        os.Files × Option ℕ → ℤ → (ℕ → os.Files → os.Files × R) → R → os.Files × R
    after_open (files, none) offset body fail = (files, fail)
    after_open (files, some fd) offset body fail =
        closing fd (after_seek (seek_ok files fd offset) (body fd) fail)

    -- What Write, Read and Hash begin with.
    unfoldable pub with_file :
        os.Files → Bytes → OpenMode → ℤ → (ℕ → os.Files → os.Files × R) → R → os.Files × R
    with_file files id mode offset body fail =
        after_open (os.open_file files (obj_path id) mode) offset body fail

  abbrev is_whole : Option ℕ → ℕ → OperationResult
  is_whole none n = failed
  is_whole (some m) n = if m == n then ok_result else failed

  unfoldable pub write_bytes : Bytes → ℕ → os.Files → os.Files × OperationResult
  write_bytes bytes fd files =
      let (files', count) = os.write files fd bytes in (files', is_whole count (length bytes))

  -- WriteHandler::handle_request
  unfoldable pub handle_write : os.Files → WriteRequest → os.Files × OperationResult
  handle_write files request =
      with_file files request.id write_create request.offset (write_bytes request.data_) failed

  abbrev content_of : Option Bytes → ContentResult
  content_of none = failure
  content_of (some []) = failure
  content_of (some (b ∷ bytes)) = record { result = ok_result; content = b ∷ bytes }

  unfoldable pub read_bytes : ℤ → ℕ → os.Files → os.Files × ContentResult
  read_bytes (pos (suc n)) fd files =
      let (files', bytes) = os.read files fd (suc n) in (files', content_of bytes)
  read_bytes _ fd files = (files, record { result = ok_result; content = [] })

  -- ReadHandler::handle_request
  unfoldable pub handle_read : os.Files → ReadRequest → os.Files × ContentResult
  handle_read files request =
      with_file files request.id read_only request.offset (read_bytes request.data_len) failure

  -- DeleteHandler::handle_request
  unfoldable pub handle_delete : os.Files → Bytes → os.Files × OperationResult
  handle_delete files id =
      let (files', done) = os.unlink files (obj_path id) in
      (files', if done then ok_result else failed)

  module _ (hasher : Hasher) where
    -- A loop over chunks ends with the files, and the hash or nothing if a read fails.
    abbrev pub Hashed : Type 0
    Hashed = os.Files × Result (Option hasher.State)

    -- The rest of a loop, when a chunk is put into the hash.
    abbrev pub put_then : os.Files → Result hasher.State → (hasher.State → Hashed) → Hashed
    put_then files (ok h) next = next h
    put_then files (throws e) next = (files, throws e)
    put_then files undefined next = (files, undefined)

    -- What comes after a read: nothing more if it failed, `at_end` if there are no bytes left.
    abbrev pub after_read :
        os.Files × Option Bytes
        → Result (Option hasher.State)
        → (os.Files → Bytes → Hashed)
        → Hashed
    after_read (files, none) at_end more = (files, ok none)
    after_read (files, some []) at_end more = (files, at_end)
    after_read (files, some (b ∷ bytes)) at_end more = more files (b ∷ bytes)

    -- std::min(remaining, kChunk)
    abbrev pub want : ℕ → ℕ
    want remaining = if leb remaining chunk_size then remaining else chunk_size

    -- The loop for a length: each round of it reads at least one byte, so that `remaining` rounds are
    -- enough; `none` is the early return.
    unfoldable pub hash_length : ℕ → ℕ → ℕ → hasher.State → os.Files → Hashed
    hash_length rounds zero fd h files = (files, ok (some h))
    hash_length zero (suc remaining) fd h files = (files, undefined)
    hash_length (suc rounds) (suc remaining) fd h files =
        after_read (os.read files fd (want (suc remaining))) (ok none) (λ files' chunk.
          put_then files' (hasher.put h chunk)
            (λ h'. hash_length rounds (suc remaining - length chunk) fd h' files'))

    -- The loop to the end of the file, on fuel.
    unfoldable pub hash_to_end : ℕ → ℕ → hasher.State → os.Files → Hashed
    hash_to_end zero fd h files = (files, undefined)
    hash_to_end (suc fuel) fd h files =
        after_read (os.read files fd chunk_size) (ok (some h)) (λ files' chunk.
          put_then files' (hasher.put h chunk) (λ h'. hash_to_end fuel fd h' files'))

    -- The digest, with `catch (...)` around it.
    abbrev digest_result : Result Bytes → Result ContentResult
    digest_result (ok out) = ok (record { result = ok_result; content = out })
    digest_result (throws e) = ok failure
    digest_result undefined = undefined

    abbrev pub hash_result : Result (Option hasher.State) → Result ContentResult
    hash_result (ok none) = ok failure
    hash_result (ok (some h)) = digest_result (hasher.finish h)
    hash_result (throws e) = ok failure
    hash_result undefined = undefined

    unfoldable pub hash_chunks : ℕ → ℤ → ℕ → hasher.State → os.Files → Hashed
    hash_chunks fuel (pos (suc n)) fd h files = hash_length (suc n) (suc n) fd h files
    hash_chunks fuel _ fd h files = hash_to_end fuel fd h files

    abbrev pub started : ℕ → ℤ → ℕ → os.Files → Result hasher.State → Hashed
    started fuel data_len fd files h =
        put_then files h (λ h'. hash_chunks fuel data_len fd h' files)

    unfoldable pub hash_data : ℕ → HashType → ℤ → ℕ → os.Files → os.Files × Result ContentResult
    hash_data fuel type data_len fd files =
        let (files', r) = started fuel data_len fd files (hasher.start (hash_digest_name type)) in
        (files', hash_result r)

    -- HashHandler::handle_request
    unfoldable pub handle_hash : ℕ → os.Files → HashRequest → os.Files × Result ContentResult
    handle_hash fuel files request =
        with_file files request.id read_only request.offset
          (hash_data fuel request.hash_type request.data_len) (ok failure)
