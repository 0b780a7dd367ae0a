-- ===== src/Storage/Engine/Tests.antt =====
-- The engine over the database that is a list of changes, and toy digests.
use mono_bucket.Base.{
  ◌↔◌, ℕ, String, ◌≡◌, refl, true, false, ◌⊎◌, none, some, [], ◌∷◌, ◌++◌, Bytes, ok, err, arith,
  length, codes, lookup, insert, erase, bytes_eq, any, str_eq,
}
use mono_bucket.Storage.Quota.{
  empty_reservation, admit_allocation, extend, entry_for, track, write_entry,
}
use mono_bucket.Storage.Records.{no_headers, are_storable_header_values}
use mono_bucket.Storage.Metadata.{
  ObjectRecord, PartRecord, replay, object_after, part_after, bucket_after, orphan_after,
}
use mono_bucket.Storage.Metadata.Store.{
  get_object, create_bucket, track_blob, store_object, list_orphans, aged, forget_orphans,
  forget_batch,
}
use mono_bucket.Storage.Metadata.Memory.{
  memory, memory-IsLawful, row_of_object, read_part, read_orphan, listed_orphans, add_orphan,
}
use mono_bucket.Storage.Errors.{no_such_key}
use mono_bucket.Storage.Engine.{
  Engine, Digests, PutRequest, Thrown, begin_write, write_bytes, finish_write, commit,
  publish_write, publish_committed, settle_write, reclaim_older_than, reclaim_now, reclaim_released,
  unlink_all, remove_files, object_of, with_payload, read_object as read_key,
}
use mono_bucket.Storage.Engine.Whole.Refines.{IsPutOrRefused, finish_write-refines}
use mono_bucket.Storage.Engine.Whole.Race.{reclaim_race}
use mono_bucket.Storage.Engine.Whole.Writers.{summary}
use mono_bucket.Storage.Engine.Uploads.{
  no_checksum, RequestedPart, order_parts, stored_part, unquote,
}
use mono_bucket.Storage.Engine.Uploads.Manifest.{Answers, order_parts_iff}
use mono_bucket.Storage.Keyspace.{object_prefix, prefix_of, upper_bound, bound_of, after_prefix}
use mono_bucket.Storage.Keyspace.Ranges.{lex, starts_with}
use mono_bucket.Storage.Metadata.Listing.{
  ListObjectsRequest, list_objects, walk, resume_point, resume_after, common_prefix, cut_at,
  truncated_at, ends_with, no_result, list_objects-skips,
}
use mono_bucket.Storage.Engine.Buckets.{open_bucket, new_bucket}
use mono_bucket.Storage.Engine.Whole.{Holder, object_at, part_at, IsWhole, IsUnheld, Sits}
use mono_bucket.Storage.Engine.Whole.Rows.{held_by, view, object_claim, part_claim}
use mono_bucket.Storage.Engine.Whole.Keeps.{engine_view}
use mono_bucket.Storage.Engine.Whole.Run.{
  Run, stop, step, opens, begins, writes, finishes, IsWhole-Run, read_object-Run,
}

abbrev digests : Digests
digests = record {
  md5 = λ text. text;
  sha256 = λ text. text;
  multipart_etag = λ texts. [];
  composite_checksum = λ a texts. no_checksum;
}

abbrev empty : Engine memory digests
unfolding memory
empty = record {
  store = record {
    rows = [];
    usage = record { buckets = 0; objects = 0; bytes = 0; uploads = 0; orphan_blobs = 0 };
  };
  files = [];
  writers = [];
  quotas = record { allocatable_bytes = 0; buckets = [] };
  checkpointing = false;
  max_upload_bytes = 1000;
}

abbrev request : PutRequest
request = record {
  bucket = "b";
  key = codes "k";
  content_type = [];
  user_metadata = [];
  content = no_headers;
  checksum = no_checksum;
}

abbrev opened : Engine memory digests
opened = (open_bucket memory digests "b" 0 1 empty).1

abbrev begun : Engine memory digests
begun = (begin_write memory digests "w" 2 opened).1

abbrev filled : Engine memory digests
filled = (write_bytes memory digests "w" (codes "hello") begun).1

abbrev stored : Engine memory digests
stored = (finish_write memory digests request "w" empty_reservation 3 filled).1

abbrev stored_result : Thrown memory digests ObjectRecord
stored_result = finish_write memory digests request "w" empty_reservation 3 filled

-- The payload is committed, and not published.
abbrev linked : Engine memory digests
linked = (commit memory digests "w" filled).1

-- A reclamation pass runs, and the payload is published after it.
abbrev lost : Engine memory digests
lost =
    (publish_write memory digests request
      (summary memory memory-IsLawful digests "w" (codes "hello")) empty_reservation 3
      (reclaim_older_than memory digests 10 2 linked).1).1

empty_whole : IsWhole (engine_view memory digests empty)
unfolding IsWhole engine_view view held_by object_claim part_claim memory replay row_of_object
    read_part
empty_whole = (sits, apart)
  where
    sits :
        (h : Holder) (j : String) (n : ℕ)
        → held_by memory [] h ≡ some (j, n)
        → Sits (engine_view memory digests empty) j n
    sits (object_at b k) j n e = grind arith
    sits (part_at i m) j n e = grind arith

    apart :
        (h k : Holder) (j : String) (m n : ℕ)
        → held_by memory [] h ≡ some (j, m)
        → held_by memory [] k ≡ some (j, n)
        → h ≡ k
    apart (object_at b k) g j m n e f = grind arith
    apart (part_at i l) g j m n e f = grind arith

fresh : IsUnheld (engine_view memory digests opened) "w"
unfolding IsUnheld engine_view view held_by object_claim part_claim memory replay row_of_object
    read_part open_bucket new_bucket create_bucket admit_allocation object_after part_after
    bucket_after
fresh (object_at b k) n e = grind arith
fresh (part_at i m) n e = grind arith

a_write : Run memory digests empty stored
a_write = step empty opened stored (opens "b" 0 1 empty) (
    step opened begun stored (begins "w" 2 opened fresh) (
      step begun filled stored (writes "w" (codes "hello") begun) (
        step filled stored stored (finishes request "w" empty_reservation 3 filled) (stop stored))))

IsWhole-Run_example : IsWhole (engine_view memory digests stored)
IsWhole-Run_example = IsWhole-Run memory memory-IsLawful digests empty stored a_write empty_whole

read_object-Run_example :
    (read_key memory digests "b" (codes "k") stored ≡ ok none)
    ⊎ ((r : ObjectRecord) × ((content : Bytes) × ((read_key memory digests "b" (codes "k") stored
              ≡ ok (some (r, content)))
            × (length content ≡ r.size))))
read_object-Run_example =
    read_object-Run memory memory-IsLawful digests empty stored "b" (codes "k") a_write empty_whole

-- The object that was written is read back.
hello_read :
    read_key memory digests "b" (codes "k") stored
    ≡ ok (
        some (
          object_of request (summary memory memory-IsLawful digests "w" (codes "hello")) 3,
          codes "hello",
        ))
unfolding read_key with_payload get_object finish_write publish_committed publish_write settle_write
    commit memory replay row_of_object object_after bucket_after orphan_after open_bucket
    begin_write write_bytes summary object_of are_storable_header_values lookup admit_allocation
    create_bucket insert erase extend entry_for track write_entry store_object track_blob bytes_eq
    list_orphans reclaim_older_than unlink_all listed_orphans add_orphan read_orphan aged
    remove_files forget_orphans forget_batch reclaim_now reclaim_released
hello_read = refl

filled_whole : IsWhole (engine_view memory digests filled)
filled_whole =
    IsWhole-Run memory memory-IsLawful digests empty filled
      (step empty opened filled (opens "b" 0 1 empty) (
        step opened begun filled (begins "w" 2 opened fresh)
          (step begun filled filled (writes "w" (codes "hello") begun) (stop filled))))
      empty_whole

hello_written : lookup "w" filled.writers ≡ some (codes "hello")
unfolding read_key with_payload get_object finish_write publish_committed publish_write settle_write
    commit memory replay row_of_object object_after bucket_after orphan_after open_bucket
    begin_write write_bytes summary object_of are_storable_header_values lookup admit_allocation
    create_bucket insert erase extend entry_for track write_entry store_object track_blob bytes_eq
    list_orphans reclaim_older_than unlink_all listed_orphans add_orphan read_orphan aged
    remove_files forget_orphans forget_batch reclaim_now reclaim_released
hello_written = refl

running : linked.checkpointing ≡ false
unfolding read_key with_payload get_object finish_write publish_committed publish_write settle_write
    commit memory replay row_of_object object_after bucket_after orphan_after open_bucket
    begin_write write_bytes summary object_of are_storable_header_values lookup admit_allocation
    create_bucket insert erase extend entry_for track write_entry store_object track_blob bytes_eq
    list_orphans reclaim_older_than unlink_all listed_orphans add_orphan read_orphan aged
    remove_files forget_orphans forget_batch reclaim_now reclaim_released
running = refl

marker_listed : any (str_eq "w") (list_orphans memory 10 2 linked.store) ≡ true
unfolding read_key with_payload get_object finish_write publish_committed publish_write settle_write
    commit memory replay row_of_object object_after bucket_after orphan_after open_bucket
    begin_write write_bytes summary object_of are_storable_header_values lookup admit_allocation
    create_bucket insert erase extend entry_for track write_entry store_object track_blob bytes_eq
    list_orphans reclaim_older_than unlink_all listed_orphans add_orphan read_orphan aged
    remove_files forget_orphans forget_batch reclaim_now reclaim_released
marker_listed = refl

publishes :
    (publish_write memory digests request
      (summary memory memory-IsLawful digests "w" (codes "hello"))
      empty_reservation
      3
      (reclaim_older_than memory digests 10 2 linked).1).0
    ≡ ok (object_of request (summary memory memory-IsLawful digests "w" (codes "hello")) 3)
unfolding read_key with_payload get_object finish_write publish_committed publish_write settle_write
    commit memory replay row_of_object object_after bucket_after orphan_after open_bucket
    begin_write write_bytes summary object_of are_storable_header_values lookup admit_allocation
    create_bucket insert erase extend entry_for track write_entry store_object track_blob bytes_eq
    list_orphans reclaim_older_than unlink_all listed_orphans add_orphan read_orphan aged
    remove_files forget_orphans forget_batch reclaim_now reclaim_released
publishes = refl

finish_write-refines_example :
    IsPutOrRefused memory memory-IsLawful digests request (codes "hello") filled stored_result
finish_write-refines_example =
    finish_write-refines memory memory-IsLawful digests request "w" empty_reservation 3 filled
      (codes "hello") filled_whole hello_written

-- The marker is as old as the cutoff.
reclaim_race_example : read_key memory digests "b" (codes "k") lost ≡ err no_such_key
unfolding summary
reclaim_race_example =
    reclaim_race memory memory-IsLawful digests request
      (summary memory memory-IsLawful digests "w" (codes "hello")) empty_reservation 3 10 2 linked
      (object_of request (summary memory memory-IsLawful digests "w" (codes "hello")) 3) running
      marker_listed publishes

abbrev sample_part : ℕ → String → PartRecord
sample_part number etag = record {
  part_number = number;
  blob_id = "p";
  size = 1;
  etag = codes etag;
  uploaded_at = 0;
  checksum = no_checksum;
}

abbrev want : ℕ → String → RequestedPart
want number etag = record { part_number = number; etag = codes etag }

ordered :
    order_parts 0
      (want 1 "x" ∷ want 3 "z" ∷ [])
      (sample_part 1 "x" ∷ sample_part 2 "y" ∷ sample_part 3 "z" ∷ [])
    ≡ ok (sample_part 1 "x" ∷ sample_part 3 "z" ∷ [])
unfolding order_parts stored_part unquote bytes_eq
ordered = refl

order_parts_iff_example :
    (order_parts 0
        (want 1 "x" ∷ want 3 "z" ∷ [])
        (sample_part 1 "x" ∷ sample_part 2 "y" ∷ sample_part 3 "z" ∷ [])
      ≡ ok (sample_part 1 "x" ∷ sample_part 3 "z" ∷ []))
    ↔ Answers 0
        (want 1 "x" ∷ want 3 "z" ∷ [])
        (sample_part 1 "x" ∷ sample_part 2 "y" ∷ sample_part 3 "z" ∷ [])
        (sample_part 1 "x" ∷ sample_part 3 "z" ∷ [])
order_parts_iff_example =
    order_parts_iff 0 (want 1 "x" ∷ want 3 "z" ∷ [])
      (sample_part 1 "x" ∷ sample_part 2 "y" ∷ sample_part 3 "z" ∷ [])
      (sample_part 1 "x" ∷ sample_part 3 "z" ∷ [])

-- A directory marker and an object under it.
abbrev row : String → Bytes × ObjectRecord
row key = (
  codes key,
  record {
    key = codes key;
    blob_id = key;
    size = 0;
    etag = [];
    sha256 = [];
    content_type = [];
    last_modified = 0;
    user_metadata = [];
    content = no_headers;
    checksum = no_checksum;
  },
)

abbrev page_from : String → ListObjectsRequest
page_from marker = record {
  prefix = codes "a/";
  delimiter = codes "/";
  start_after = codes marker;
  max_keys = 1;
}

-- The first page has the marker, and says where the next page starts.
first_page :
    list_objects (object_prefix (codes "b")) (page_from "") (row "a/" ∷ row "a/b" ∷ []) ≡ record {
      objects = (row "a/").1 ∷ [];
      common_prefixes = [];
      truncated = true;
      next_start_after = codes "a/";
    }
unfolding list_objects walk resume_point resume_after lex starts_with after_prefix common_prefix
    cut_at truncated_at ends_with upper_bound bound_of object_prefix prefix_of
first_page = refl

-- The next page is empty, and "a/b" is never listed.
list_objects-skips_example :
    list_objects (object_prefix (codes "b")) (page_from "a/") (row "a/" ∷ row "a/b" ∷ [])
    ≡ no_result
unfolding lex starts_with after_prefix ends_with upper_bound bound_of object_prefix prefix_of
list_objects-skips_example =
    list_objects-skips (object_prefix (codes "b")) (codes "ob" ++ (0 ∷ codes "a0")) (page_from "a/")
      (row "a/" ∷ row "a/b" ∷ []) refl refl refl refl
      (
        ((omega arith, (omega arith, (omega arith, (omega arith, (omega arith, tt))))), refl),
        (
          (
            (
              omega arith,
              (omega arith, (omega arith, (omega arith, (omega arith, (omega arith, tt))))),
            ),
            refl,
          ),
          tt,
        ),
      )
