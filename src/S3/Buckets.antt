-- ===== src/S3/Buckets.antt =====
-- backend/src/s3/handlers.cpp: requireBucket, invalidateBucket and the cache keys. The store and the
-- cache are maps of bytes, the store of the rows of the buckets; an entry that the cache dropped or let
-- expire is one that is absent.
pub mod Warm
use mono_bucket.Base.{
  ℕ, ◌+◌, String, Bool, true, false, Option, none, some, List, [], ◌∷◌, ◌++◌, if◌then◌else◌, not,
  Dict, lookup, insert, erase, Bytes, codes, Result, ok, err,
}
use Prim.Native.String
use mono_bucket.Storage.Codec.{
  Reader, DecodeError, ◌>>=◌, pure, put_varint, get_varint, put_boolean, get_boolean, put_string,
  get_string,
}
use mono_bucket.Storage.Records.{BucketRecord, encode_cors_rules, decode_cors_rules}
use mono_bucket.Storage.Errors.{corruption}
use mono_bucket.Storage.Records.Rows.{RowError, corrupt_row, unreadable_row, decode_row}
use mono_bucket.S3.Errors.{
  S3ErrorCode, invalid_bucket_name, no_such_bucket, internal_error, from_storage,
}
use mono_bucket.S3.Names.{is_valid_bucket_name}

-- An `authz.denied` entry of the audit log; its time and its text are left out.
pub data Refusal : Type 0 where
  role_refused bucket_refused : Refusal

pub record AuditEntry : Type 0 where
  pub actor : String
  pub target : String
  pub refusal : Refusal

-- S3Context, as far as these functions use it.
pub record Context : Type 0 where
  pub buckets : Dict Bytes
  pub cache : Dict Bytes
  pub audit : List AuditEntry
  pub anonymous : ℕ

-- What `requireBucket` throws: an S3Exception, or what reading the row throws.
pub data Thrown : Type 0 where
  s3_exception : S3ErrorCode → Thrown
  row_error : RowError → Thrown

-- The `catch` clauses of `serve`: what the response to a request says of what was thrown.
unfoldable pub answered : Thrown → S3ErrorCode
unfolding from_storage
answered (s3_exception code) = code
answered (row_error corrupt_row) = from_storage corruption
answered (row_error (unreadable_row e)) = internal_error

unfoldable pub bucket_cache_key : String → String
bucket_cache_key name = String.◌++◌ "b:" name

-- What `requireBucket` writes for a record, and what it reads back: the fields that are not
-- written are left at their defaults.
unfoldable pub encode_bucket : BucketRecord → Bytes
encode_bucket r =
    put_varint r.created_at
    ++ (put_boolean r.public_read ++ (put_string r.policy ++ encode_cors_rules r.cors))

unfoldable pub decode_bucket : String → Reader BucketRecord
decode_bucket name = do
  created_at ← get_varint
  public_read ← get_boolean
  policy ← get_string
  cors ← decode_cors_rules
  pure (record {
    name = name;
    created_at = created_at;
    public_read = public_read;
    public_list = false;
    policy = policy;
    cors = cors;
    quota_bytes = 0;
    durability = none;
  })

abbrev pub loaded :
    String → Result RowError BucketRecord → Context → Result Thrown BucketRecord × Context
loaded name (err e) c = (err (row_error e), c)
loaded name (ok r) c =
    (ok r, record c { cache = insert (bucket_cache_key name) (encode_bucket r) c.cache })

-- getBucket, and what follows it.
unfoldable pub load_bucket : String → Option Bytes → Context → Result Thrown BucketRecord × Context
unfolding encode_bucket bucket_cache_key decode_row
load_bucket name none c = (err (s3_exception no_such_bucket), c)
load_bucket name (some row) c = loaded name (decode_row name row) c

abbrev pub fall_through :
    Result DecodeError (BucketRecord × Bytes)
    → Result Thrown BucketRecord × Context
    → Context
    → Result Thrown BucketRecord × Context
fall_through (ok (r, rest)) stored c = (ok r, c)
fall_through (err e) stored c = stored

abbrev pub from_cache :
    String
    → Option Bytes
    → Result Thrown BucketRecord × Context
    → Context
    → Result Thrown BucketRecord × Context
from_cache name none stored c = stored
from_cache name (some cached) stored c = fall_through (decode_bucket name cached) stored c

unfoldable pub require_bucket : String → Context → Result Thrown BucketRecord × Context
require_bucket name c =
    if not (is_valid_bucket_name (codes name))
    then (err (s3_exception invalid_bucket_name), c)
    else from_cache name (lookup (bucket_cache_key name) c.cache)
        (load_bucket name (lookup name c.buckets) c) c

unfoldable pub invalidate_bucket : String → Context → Context
invalidate_bucket name c = record c { cache = erase (bucket_cache_key name) c.cache }
