-- ===== src/Tests/Storage.antt =====
-- The store of recordings at a concrete bucket.
use livekit_agent.Base.{◌≡◌, refl, String, false, some, List, [], ◌∷◌, keep, not, str_eq, arith}
use livekit_agent.Storage.{S3Client, MinioStore, address, key_of, put, delete}
use livekit_agent.Storage.Address.{NoSlash, delete-put}

-- A client that keeps the keys.
abbrev toy_client : S3Client
toy_client = record {
  State = List String;
  put_object = λ bucket key content s. some (key ∷ s);
  remove_object = λ bucket key s. some (keep (λ k. not (str_eq k key)) s);
}

abbrev store : MinioStore
store = record { bucket = "rec"; endpoint = "minio:9000"; secure = false }

stored : put toy_client store "a/b" "audio" [] ≡ some ("http://minio:9000/rec/a/b", "a/b" ∷ [])
unfolding put address
stored = refl

-- Where the endpoint is the bucket, the key is not found again.
misread : key_of (record store { endpoint = "rec" }) "http://rec/rec/a" ≡ "rec/a"
unfolding key_of
misread = refl

bucket-NoSlash : NoSlash "rec"
bucket-NoSlash = (omega arith, (omega arith, (omega arith, tt)))

endpoint-NoSlash : NoSlash "minio:9000"
endpoint-NoSlash = (
  omega arith,
  (
    omega arith,
    (
      omega arith,
      (
        omega arith,
        (
          omega arith,
          (omega arith, (omega arith, (omega arith, (omega arith, (omega arith, tt))))),
        ),
      ),
    ),
  ),
)

delete-put_example :
    delete toy_client store "http://minio:9000/rec/a/b" ("c" ∷ "a/b" ∷ [])
    ≡ some (keep (λ k. not (str_eq k "a/b")) ("c" ∷ "a/b" ∷ []))
delete-put_example =
    delete-put toy_client store "a/b" "audio" "http://minio:9000/rec/a/b" [] ("a/b" ∷ [])
      ("c" ∷ "a/b" ∷ []) bucket-NoSlash endpoint-NoSlash (λ e. cc e) (λ e. cc e) stored
