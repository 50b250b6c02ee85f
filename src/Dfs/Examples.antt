-- ===== src/Dfs/Examples.antt =====
-- The theorems about storage services at concrete inputs.
use golang_tools.Base.{
  ℕ, ◌≡◌, refl, ap, if◌then◌else◌, true, false, List, [], ◌∷◌, ◌++◌, Option, none, some,
}
use golang_tools.Base.Int.{pos}
use golang_tools.Base.Run.{done}
use golang_tools.Base.Texts.{Text, text_eq, text_eq_refl}
use golang_tools.Dfs.{
  Config, minio_type, s3_type, Service, minio, s3, cloud, Handler, Clients, Made, handler, disabled,
  put_object, get_object, try_make_bucket, new_dfs_handler,
}
use golang_tools.Dfs.Buckets.{try_make_bucket_again}
use golang_tools.Dfs.Objects.{KeepsObjects, get_object-put_object}

-- A service whose objects have a bucket and a key, and whose buckets cannot be made.
abbrev Objects : Type 0
Objects = Text → Option (List ℕ)

abbrev place : Text → Text → Text
place bucket key = bucket ++ (0 ∷ key)

abbrev store : Text → List ℕ → Objects → Objects
store p x w q = if text_eq p q then some x else w q

abbrev read_out : Option (List ℕ) → List ℕ × Option ℕ
read_out none = ([], some 404)
read_out (some x) = (x, none)

abbrev clients : Clients Objects (List ℕ)
clients = record {
  new_minio = λ url id key. none;
  new_session = λ url id key. none;
  decode_base64 = λ t. (t, none);
  new_storage = λ t. none;
  make_bucket = λ b w. (w, some 403);
  bucket_exists = λ b w. (false, none);
  set_bucket_lifecycle = λ b d w. (w, none);
  create_bucket = λ b w. (w, some 403);
  wait_until_bucket_exists = λ b w. (w, some 404);
  put_bucket_lifecycle = λ b d w. (w, none);
  update_bucket = λ b d w. (w, none);
  put = λ s b k x w. (store (place b k) x w, none);
  close_writer = λ b k w. (w, none);
  get = λ s b k w. read_out (w (place b k));
  read_all = λ r. (r, none);
}

keeps-clients : KeepsObjects clients
keeps-clients minio b k x w fine =
    (x, ap (λ t. read_out (if t then some x else w (place b k))) (text_eq_refl (place b k)), refl)
keeps-clients s3 b k x w fine =
    (x, ap (λ t. read_out (if t then some x else w (place b k))) (text_eq_refl (place b k)), refl)
keeps-clients cloud b k x w fine =
    (x, ap (λ t. read_out (if t then some x else w (place b k))) (text_eq_refl (place b k)), refl)

abbrev bucket_of : Service → Handler
bucket_of s = record { service = s; bucket = 98 ∷ []; expire_days = pos 1; once = false }

abbrev empty : Objects
empty p = none

-- Stored under `/t` and read under `/t/`.
get_object-put_object_example :
    (w' : Objects) × (put_object clients
        (bucket_of cloud)
        (47 ∷ 116 ∷ [])
        (49 ∷ [])
        (1 ∷ 2 ∷ [])
        empty
      ≡ done w' none)
    × (get_object clients (bucket_of cloud) (47 ∷ 116 ∷ 47 ∷ []) (49 ∷ []) w'
        ≡ done w' (1 ∷ 2 ∷ [], none))
get_object-put_object_example =
    get_object-put_object clients keeps-clients (bucket_of cloud) 47 (116 ∷ []) (49 ∷ []) false true
      (1 ∷ 2 ∷ []) empty refl (refl, refl)

try_make_bucket_again_example :
    try_make_bucket clients (try_make_bucket clients (bucket_of minio) empty).0 empty
    ≡ ((try_make_bucket clients (bucket_of minio) empty).0, (empty, none))
try_make_bucket_again_example = try_make_bucket_again clients (bucket_of minio) empty empty

-- The first call reports the error that the second does not.
first_call : (try_make_bucket clients (bucket_of minio) empty).1.1 ≡ some 403
unfolding try_make_bucket
first_call = refl

abbrev config : Config
config = record {
  type_name = s3_type;
  enable = true;
  bucket = 98 ∷ [];
  expire_days = pos 1;
  url = [];
  key_id = [];
  key = [];
  base64_json = [];
}

made_run : new_dfs_handler clients config ≡ handler (bucket_of s3)
unfolding new_dfs_handler golang_tools.Dfs.new_s3_handler
made_run = refl

disabled_run : new_dfs_handler clients (record config { enable = false }) ≡ disabled
unfolding new_dfs_handler
disabled_run = refl
