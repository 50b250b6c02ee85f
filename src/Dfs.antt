-- ===== src/Dfs.antt =====
-- The package dfs: objects in the buckets of three storage services. The clients of the services are other
-- packages' work and stand as parameters; `W` is what the services hold.
pub mod Buckets
pub mod Objects
mod Examples
use golang_tools.Base.{
  ℕ, ◌+◌, if◌then◌else◌, ◌==◌, Bool, true, false, List, [], ◌∷◌, ◌++◌, last_of, Option, none, some,
}
use golang_tools.Base.Int.{ℤ, pos, ltb_ℤ}
use golang_tools.Base.Run.{Run, done, panic, index_out_of_range}
use golang_tools.Base.Texts.{Text, text_eq}

-- `minio`, `s3` and `cloudStorage`
abbrev pub minio_type : Text
minio_type = 109 ∷ 105 ∷ 110 ∷ 105 ∷ 111 ∷ []

abbrev pub s3_type : Text
s3_type = 115 ∷ 51 ∷ []

abbrev pub cloud_type : Text
cloud_type = 99 ∷ 108 ∷ 111 ∷ 117 ∷ 100 ∷ 83 ∷ 116 ∷ 111 ∷ 114 ∷ 97 ∷ 103 ∷ 101 ∷ []

pub record Config : Type 0 where
  pub type_name : Text
  pub enable : Bool
  pub bucket : Text
  pub expire_days : ℤ
  pub url : Text
  pub key_id : Text
  pub key : Text
  pub base64_json : Text

-- The three implementations of DFSHandler.
pub data Service : Type 0 where
  minio s3 cloud : Service

-- `once` says whether the function of TryMakeBucket has run.
pub record Handler : Type 0 where
  pub service : Service
  pub bucket : Text
  pub expire_days : ℤ
  pub once : Bool

-- The calls of the client packages. An error is a number.
pub record Clients (W R : Type 0) : Type 0 where
  -- `minio.New` and `session.NewSession`, base64 and `storage.NewClient`
  pub new_minio : Text → Text → Text → Option ℕ
  pub new_session : Text → Text → Text → Option ℕ
  pub decode_base64 : Text → Text × Option ℕ
  pub new_storage : Text → Option ℕ
  -- MakeBucket, BucketExists and SetBucketLifecycle of minio
  pub make_bucket : Text → W → W × Option ℕ
  pub bucket_exists : Text → W → Bool × Option ℕ
  pub set_bucket_lifecycle : Text → ℤ → W → W × Option ℕ
  -- CreateBucketWithContext, WaitUntilBucketExists and PutBucketLifecycle of s3
  pub create_bucket : Text → W → W × Option ℕ
  pub wait_until_bucket_exists : Text → W → W × Option ℕ
  pub put_bucket_lifecycle : Text → ℤ → W → W × Option ℕ
  -- Update of a bucket of cloud storage
  pub update_bucket : Text → ℤ → W → W × Option ℕ
  -- PutObject, PutObjectWithContext, and Write of a new writer
  pub put : Service → Text → Text → List ℕ → W → W × Option ℕ
  -- Close of the writer of cloud storage
  pub close_writer : Text → Text → W → W × Option ℕ
  -- GetObject, GetObjectWithContext and NewReader, and ioutil.ReadAll of what they return
  pub get : Service → Text → Text → W → R × Option ℕ
  pub read_all : R → List ℕ × Option ℕ

-- The results of NewDFSHandler.
pub data Made : Type 0 where
  handler : Handler → Made
  disabled invalid_type : Made
  not_made : ℕ → Made

abbrev pub made : Service → Config → Option ℕ → Made
made service c none =
    handler
      (record { service = service; bucket = c.bucket; expire_days = c.expire_days; once = false })
made service c (some e) = not_made e

-- `path[len(path)-1]` panics if there is none.
abbrev pub with_slash : Text → Option Text
with_slash [] = none
with_slash (c ∷ cs) = some (if last_of c cs == 47 then c ∷ cs else (c ∷ cs) ++ (47 ∷ []))

module _ {W R : Type 0} (clients : Clients W R) where
  open clients use {
    new_minio, new_session, decode_base64, new_storage, make_bucket, bucket_exists,
    set_bucket_lifecycle, create_bucket, wait_until_bucket_exists, put_bucket_lifecycle,
    update_bucket, put, close_writer, get, read_all,
  }

  unfoldable pub new_minio_handler : Config → Made
  new_minio_handler c = made minio c (new_minio c.url c.key_id c.key)

  unfoldable pub new_s3_handler : Config → Made
  new_s3_handler c = made s3 c (new_session c.url c.key_id c.key)

  abbrev pub made_cloud : Config → Text × Option ℕ → Made
  made_cloud c (str, none) = made cloud c (new_storage str)
  made_cloud c (str, some e) = not_made e

  unfoldable pub new_cloud_storage_handler : Config → Made
  new_cloud_storage_handler c = made_cloud c (decode_base64 c.base64_json)

  unfoldable pub new_dfs_handler : Config → Made
  new_dfs_handler c =
      if c.enable
      then (if text_eq c.type_name minio_type
          then new_minio_handler c
          else if text_eq c.type_name s3_type
          then new_s3_handler c
          else if text_eq c.type_name cloud_type
          then new_cloud_storage_handler c
          else invalid_type)
      else disabled

  abbrev pub exists_or : Option ℕ → Bool × Option ℕ → Option ℕ
  exists_or err (true, none) = none
  exists_or err (false, none) = err
  exists_or err (exists, some e) = err

  -- makeFun of minioHandler, by the result of MakeBucket.
  abbrev pub bucket_made : Handler → W × Option ℕ → W × Option ℕ
  bucket_made h (w, some e) = (w, exists_or (some e) (bucket_exists h.bucket w))
  bucket_made h (w, none) =
      if ltb_ℤ (pos 0) h.expire_days
      then set_bucket_lifecycle h.bucket h.expire_days w
      else (w, none)

  -- makeFun of s3Handler, by the result of CreateBucketWithContext. Its errors go into a variable of its
  -- own.
  abbrev pub bucket_created : Handler → W × Option ℕ → W
  bucket_created h (w, some e) = (wait_until_bucket_exists h.bucket w).0
  bucket_created h (w, none) =
      if ltb_ℤ (pos 0) h.expire_days then (put_bucket_lifecycle h.bucket h.expire_days w).0 else w

  -- `h.once.Do(makeFun)` and the return of the variable err.
  abbrev pub once_do : Handler → W → W × Option ℕ → Handler × (W × Option ℕ)
  once_do h w result = if h.once then (h, (w, none)) else (record h { once = true }, result)

  abbrev pub try_minio : Handler → W → Handler × (W × Option ℕ)
  try_minio h w = once_do h w (bucket_made h (make_bucket h.bucket w))

  abbrev pub try_s3 : Handler → W → Handler × (W × Option ℕ)
  try_s3 h w = once_do h w (bucket_created h (create_bucket h.bucket w), none)

  abbrev pub try_cloud : Handler → W → Handler × (W × Option ℕ)
  try_cloud h w =
      if ltb_ℤ (pos 0) h.expire_days
      then once_do h w (update_bucket h.bucket h.expire_days w)
      else (h, (w, none))

  abbrev pub try_by : Service → Handler → W → Handler × (W × Option ℕ)
  try_by minio h w = try_minio h w
  try_by s3 h w = try_s3 h w
  try_by cloud h w = try_cloud h w

  -- TryMakeBucket of the interface
  unfoldable pub try_make_bucket : Handler → W → Handler × (W × Option ℕ)
  try_make_bucket h w = try_by h.service h w

  -- What the methods do with the path first.
  abbrev pub at_path : {A : Type 0} → Option Text → W → (Text → Run W A) → Run W A
  at_path none w f = panic index_out_of_range w
  at_path (some dir) w f = f dir

  abbrev pub finished : W × Option ℕ → Run W (Option ℕ)
  finished (w, err) = done w err

  abbrev pub put_minio : Text → Text → Text → List ℕ → W → Run W (Option ℕ)
  put_minio bucket path file_name payload w =
      at_path (with_slash path) w (λ dir. finished (put minio bucket (dir ++ file_name) payload w))

  abbrev pub put_s3 : Text → Text → Text → List ℕ → W → Run W (Option ℕ)
  put_s3 bucket path file_name payload w =
      at_path (with_slash path) w (λ dir. finished (put s3 bucket (dir ++ file_name) payload w))

  -- The writer is closed by a deferred call, whose error is dropped.
  abbrev pub closed : Text → Text → W × Option ℕ → W × Option ℕ
  closed bucket key (w, err) = ((close_writer bucket key w).0, err)

  abbrev pub put_cloud : Text → Text → Text → List ℕ → W → Run W (Option ℕ)
  put_cloud bucket path file_name payload w = at_path (with_slash path) w (λ dir.
      finished (closed bucket (dir ++ file_name) (put cloud bucket (dir ++ file_name) payload w)))

  abbrev pub put_by : Service → Text → Text → Text → List ℕ → W → Run W (Option ℕ)
  put_by minio = put_minio
  put_by s3 = put_s3
  put_by cloud = put_cloud

  -- PutObject of the interface
  unfoldable pub put_object : Handler → Text → Text → List ℕ → W → Run W (Option ℕ)
  put_object h path file_name payload w = put_by h.service h.bucket path file_name payload w

  -- The payload that was read comes with the error of reading it.
  abbrev pub read_whole : R × Option ℕ → List ℕ × Option ℕ
  read_whole (r, some e) = ([], some e)
  read_whole (r, none) = read_all r

  -- No payload comes with an error.
  abbrev pub unless_error : List ℕ × Option ℕ → List ℕ × Option ℕ
  unless_error (payload, none) = (payload, none)
  unless_error (payload, some e) = ([], some e)

  abbrev pub get_minio : Text → Text → Text → W → Run W (List ℕ × Option ℕ)
  get_minio bucket path file_name w =
      at_path (with_slash path) w
        (λ dir. done w (unless_error (read_whole (get minio bucket (dir ++ file_name) w))))

  abbrev pub get_s3 : Text → Text → Text → W → Run W (List ℕ × Option ℕ)
  get_s3 bucket path file_name w =
      at_path (with_slash path) w (λ dir. done w (read_whole (get s3 bucket (dir ++ file_name) w)))

  abbrev pub get_cloud : Text → Text → Text → W → Run W (List ℕ × Option ℕ)
  get_cloud bucket path file_name w =
      at_path (with_slash path) w
        (λ dir. done w (read_whole (get cloud bucket (dir ++ file_name) w)))

  abbrev pub get_by : Service → Text → Text → Text → W → Run W (List ℕ × Option ℕ)
  get_by minio = get_minio
  get_by s3 = get_s3
  get_by cloud = get_cloud

  -- GetObject of the interface
  unfoldable pub get_object : Handler → Text → Text → W → Run W (List ℕ × Option ℕ)
  get_object h path file_name w = get_by h.service h.bucket path file_name w
