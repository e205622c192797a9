-- ===== src/Objects/Tests.antt =====
-- The object store on a disk with one file, whose reads give one byte each, and a hasher that keeps its
-- input as the digest.
use dist_storage.Prelude.{
  undefined, ◌≡◌, refl, sym, ap, ◌∙◌, ℕ, zero, suc, true, Option, some, List, [], ◌∷◌, ◌++◌, length,
  ok, Bytes, codes, arith,
}
use mathlib.Core.Option.{some-injective}
use dist_storage.Parse.Literal.{pos}
use dist_storage.Guard.Limit.{ok_result}
use dist_storage.Objects.{
  Os, Hasher, sha256, HashRequest, ReadRequest, WriteRequest, handle_write, handle_read,
  handle_hash, handle_delete, with_file, seek_ok, hash_data, hash_chunks, hash_length,
}
use dist_storage.Objects.Descriptors.{Descriptors, handle_requests-held}
use dist_storage.Objects.SslHasher.{ssl_hasher, NoDigest, handle_hash-NoDigest}
use dist_storage.Hashing.{Evp, make_hasher, start_hasher}

-- The bytes after the position, and the open descriptors.
abbrev Disk : Type 0
Disk = Bytes × List ℕ

abbrev read_disk : Disk → ℕ → ℕ → Disk × Option Bytes
read_disk ([], fds) fd n = (([], fds), some [])
read_disk (b ∷ bs, fds) fd zero = ((b ∷ bs, fds), some [])
read_disk (b ∷ bs, fds) fd (suc n) = ((bs, fds), some (b ∷ []))

abbrev tail : List ℕ → List ℕ
tail [] = []
tail (n ∷ ns) = ns

abbrev disk_os : Os
disk_os = record {
  Files = Disk;
  open_file = λ disk path mode. ((disk.0, 3 ∷ disk.1), some 3);
  lseek = λ disk fd offset whence. (disk, true);
  write = λ disk fd bytes. (disk, some (length bytes));
  read = read_disk;
  close = λ disk fd. (disk.0, tail disk.1);
  unlink = λ disk path. (disk, true);
}

read_disk-held : (disk : Disk) (fd n : ℕ) → (read_disk disk fd n).0.1 ≡ disk.1
read_disk-held ([], fds) fd n = refl
read_disk-held (b ∷ bs, fds) fd zero = refl
read_disk-held (b ∷ bs, fds) fd (suc n) = refl

abbrev disk_descriptors : Descriptors disk_os
disk_descriptors = record {
  held = λ disk. disk.1;
  open_some = λ disk disk' path mode fd e.
      sym (ap (λ p. p.0.1) e) ∙ ap (λ n. n ∷ disk.1) (some-injective _ _ (ap (λ p. p.1) e));
  open_none = λ disk disk' path mode e. absurd (ground (arith, ap (λ p. p.1) e));
  close_held = λ disk fd fds e. ap tail e;
  lseek_held = λ disk fd offset whence. refl;
  write_held = λ disk fd bytes. refl;
  read_held = read_disk-held;
  unlink_held = λ disk path. refl;
}

abbrev keeper : Hasher
keeper = record {
  State = Bytes;
  start = λ name. ok [];
  put = λ h bytes. ok (h ++ bytes);
  finish = ok;
}

abbrev disk : Disk
disk = (1 ∷ 2 ∷ 3 ∷ 4 ∷ [], [])

abbrev hash_request : HashRequest
hash_request = record { id = codes "x"; hash_type = sha256; offset = pos 0; data_len = pos 3 }

hashes_three :
    (handle_hash disk_os keeper 9 disk hash_request).1
    ≡ ok (record { result = ok_result; content = 1 ∷ 2 ∷ 3 ∷ [] })
unfolding handle_hash with_file seek_ok hash_data hash_chunks hash_length
hashes_three = refl

abbrev write_request : WriteRequest
write_request = record { id = codes "x"; offset = pos 2; data_ = 7 ∷ [] }

abbrev read_request : ReadRequest
read_request = record { id = codes "x"; offset = pos 0; data_len = pos 2 }

handle_requests-held_example :
    ((handle_write disk_os disk write_request).0.1 ≡ [])
    × ((handle_read disk_os disk read_request).0.1 ≡ [])
    × ((handle_hash disk_os keeper 9 disk hash_request).0.1 ≡ [])
    × ((handle_delete disk_os disk (codes "x")).0.1 ≡ [])
handle_requests-held_example =
    handle_requests-held disk_os disk_descriptors keeper 9 disk write_request read_request
      hash_request (codes "x")

-- An OpenSSL whose calls all succeed; a digest keeps what it is given.
abbrev plain_evp : Evp
plain_evp = record {
  Digest = Unit;
  Context = Bytes;
  get_digestbyname = λ name. some tt;
  md_size = λ md. 64;
  ctx_new = some [];
  digest_init = λ ctx md. some [];
  digest_update = λ ctx bytes. some (ctx ++ bytes);
  digest_final = λ ctx. some (ctx, ctx);
}

ssl_hash_undefined : (handle_hash disk_os (ssl_hasher plain_evp) 9 disk hash_request).1 ≡ undefined
unfolding handle_hash with_file seek_ok hash_data make_hasher start_hasher
ssl_hash_undefined = refl

handle_hash-NoDigest_example :
    NoDigest plain_evp (handle_hash disk_os (ssl_hasher plain_evp) 9 disk hash_request).1
handle_hash-NoDigest_example = handle_hash-NoDigest plain_evp disk_os 9 hash_request disk
