-- ===== src/Storage/Metadata.antt =====
-- backend/src/storage/rocksdb_metadata_store.cpp and records.hpp: the rows of the metadata store and
-- the calls it makes of the database. Keyspace has the bytes of the keys; here a key is the names it
-- is made of.
pub mod Store
pub mod Memory
pub mod Listing
use mono_bucket.Base.{
  ℕ, ◌==◌, String, ◌≡◌, ◌≢◌, Bool, true, false, ◌&&◌, ◌||◌, Option, none, some, List, [], ◌∷◌,
  if◌then◌else◌, Bytes, bytes_eq, str_eq, All,
}
use mono_bucket.Storage.Records.{ContentHeaders, BucketRecord}

-- storage/checksum.hpp
pub data ChecksumAlgorithm : Type 0 where
  crc32 crc32c crc64_nvme sha1 sha256 : ChecksumAlgorithm

pub record Checksum : Type 0 where
  pub algorithm : Option ChecksumAlgorithm
  pub value : Bytes
  pub parts : ℕ

pub record ObjectRecord : Type 0 where
  pub key : Bytes
  pub blob_id : String
  pub size : ℕ
  pub etag : Bytes
  pub sha256 : Bytes
  pub content_type : Bytes
  pub last_modified : ℕ
  pub user_metadata : List (Bytes × Bytes)
  pub content : ContentHeaders
  pub checksum : Checksum

pub record PartRecord : Type 0 where
  pub part_number : ℕ
  pub blob_id : String
  pub size : ℕ
  pub etag : Bytes
  pub uploaded_at : ℕ
  pub checksum : Checksum

pub record UploadRecord : Type 0 where
  pub upload_id : String
  pub bucket : String
  pub key : Bytes
  pub content_type : Bytes
  pub created_at : ℕ
  pub user_metadata : List (Bytes × Bytes)
  pub content : ContentHeaders
  pub checksum_algorithm : Option ChecksumAlgorithm

-- One Put or Delete of a WriteBatch, by the kind of its key. An orphan row holds its queue time.
pub data Change : Type 0 where
  put_bucket : BucketRecord → Change
  delete_bucket : String → Change
  put_object : String → Bytes → ObjectRecord → Change
  delete_object : String → Bytes → Change
  put_upload : UploadRecord → Change
  delete_upload : String → Change
  put_upload_by_key : String → Bytes → String → Change
  delete_upload_by_key : String → Bytes → String → Change
  put_part : String → PartRecord → Change
  delete_part : String → ℕ → Change
  put_orphan : String → ℕ → Change
  delete_orphan : String → Change

abbrev pub WriteBatch : Type 0
WriteBatch = List Change

-- What one change makes of the row at a key.

unfoldable pub bucket_after : Change → String → Option BucketRecord → Option BucketRecord
bucket_after (put_bucket r) name old = if str_eq r.name name then some r else old
bucket_after (delete_bucket n) name old = if str_eq n name then none else old
bucket_after _ name old = old

unfoldable pub object_after : Change → String → Bytes → Option ObjectRecord → Option ObjectRecord
object_after (put_object b k r) bucket key old =
    if str_eq b bucket && bytes_eq k key then some r else old
object_after (delete_object b k) bucket key old =
    if str_eq b bucket && bytes_eq k key then none else old
object_after _ bucket key old = old

unfoldable pub upload_after : Change → String → Option UploadRecord → Option UploadRecord
upload_after (put_upload r) id old = if str_eq r.upload_id id then some r else old
upload_after (delete_upload i) id old = if str_eq i id then none else old
upload_after _ id old = old

unfoldable pub mark_after : Change → String → Bytes → String → Bool → Bool
mark_after (put_upload_by_key b k i) bucket key id old =
    if str_eq b bucket && (bytes_eq k key && str_eq i id) then true else old
mark_after (delete_upload_by_key b k i) bucket key id old =
    if str_eq b bucket && (bytes_eq k key && str_eq i id) then false else old
mark_after _ bucket key id old = old

unfoldable pub part_after : Change → String → ℕ → Option PartRecord → Option PartRecord
part_after (put_part i r) id number old =
    if str_eq i id && (r.part_number == number) then some r else old
part_after (delete_part i n) id number old = if str_eq i id && (n == number) then none else old
part_after _ id number old = old

unfoldable pub orphan_after : Change → String → Option ℕ → Option ℕ
orphan_after (put_orphan j t) blob old = if str_eq j blob then some t else old
orphan_after (delete_orphan j) blob old = if str_eq j blob then none else old
orphan_after _ blob old = old

-- RocksDB as the store uses it: reads by key, an atomic batch, and iterators over the rows of one
-- prefix.
pub record Database : Type 1 where
  pub State : Type 0
  pub find_bucket : State → String → Option BucketRecord
  pub find_object : State → String → Bytes → Option ObjectRecord
  pub find_upload : State → String → Option UploadRecord
  pub find_mark : State → String → Bytes → String → Bool
  pub find_part : State → String → ℕ → Option PartRecord
  pub find_orphan : State → String → Option ℕ
  pub scan_objects : State → String → List (Bytes × ObjectRecord)
  pub scan_marks : State → String → List (Bytes × String)
  pub scan_parts : State → String → List PartRecord
  pub scan_orphans : State → List (String × ℕ)
  pub write : WriteBatch → State → State

-- What a batch makes of one row: its changes in order.
unfoldable pub replay {ℓ} : {A : Type ℓ} → (Change → A → A) → WriteBatch → A → A
replay step [] old = old
replay step (c ∷ batch) old = replay step batch (step c old)

-- The documented behaviour of RocksDB: after a batch each key reads as the batch leaves it, and an
-- iterator over a prefix yields the rows that are there and no other.
pub record IsLawful (D : Database) : Type 0 where
  pub bucket-write :
      (batch : WriteBatch) (s : D.State) (n : String)
      → D.find_bucket (D.write batch s) n ≡ replay (λ c. bucket_after c n) batch (D.find_bucket s n)
  pub object-write :
      (batch : WriteBatch) (s : D.State) (b : String) (k : Bytes)
      → D.find_object (D.write batch s) b k
        ≡ replay (λ c. object_after c b k) batch (D.find_object s b k)
  pub upload-write :
      (batch : WriteBatch) (s : D.State) (i : String)
      → D.find_upload (D.write batch s) i ≡ replay (λ c. upload_after c i) batch (D.find_upload s i)
  pub mark-write :
      (batch : WriteBatch) (s : D.State) (b : String) (k : Bytes) (i : String)
      → D.find_mark (D.write batch s) b k i
        ≡ replay (λ c. mark_after c b k i) batch (D.find_mark s b k i)
  pub part-write :
      (batch : WriteBatch) (s : D.State) (i : String) (n : ℕ)
      → D.find_part (D.write batch s) i n ≡ replay (λ c. part_after c i n) batch (D.find_part s i n)
  pub orphan-write :
      (batch : WriteBatch) (s : D.State) (j : String)
      → D.find_orphan (D.write batch s) j ≡ replay (λ c. orphan_after c j) batch (D.find_orphan s j)
  pub object_listed :
      (s : D.State) (b : String) (k : Bytes) (r : ObjectRecord)
      → D.find_object s b k ≡ some r
      → D.scan_objects s b ≢ []
  pub mark_listed :
      (s : D.State) (b : String) (k : Bytes) (i : String)
      → D.find_mark s b k i ≡ true
      → D.scan_marks s b ≢ []
  pub parts_found :
      (s : D.State) (i : String)
      → All (λ r. D.find_part s i r.part_number ≡ some r) (D.scan_parts s i)
  pub orphans_found :
      (s : D.State) → All (λ r. D.find_orphan s (r.0) ≡ some (r.1)) (D.scan_orphans s)
