-- ===== src/Dfs/Objects.antt =====
-- What PutObject stores, GetObject finds.
use golang_tools.Base.{
  ℕ, Bool, true, false, ◌==◌, last_of, ◌≡◌, refl, ap, ◌∙◌, List, [], ◌∷◌, ◌++◌, Option, none, some,
}
use golang_tools.Base.Run.{done}
use golang_tools.Base.Texts.{Text}
use golang_tools.Dfs.{
  Service, minio, s3, cloud, Handler, Clients, with_slash, at_path, finished, closed, put_by,
  put_object, get_by, get_object, read_whole, unless_error,
}

-- A directory with or without a slash at its end.
abbrev pub slashed : Bool → Text → Text
slashed true dir = dir ++ (47 ∷ [])
slashed false dir = dir

last_of-append : (c d : ℕ) (cs : Text) → last_of c (cs ++ (d ∷ [])) ≡ d
last_of-append c d [] = refl
last_of-append c d (b ∷ cs) = last_of-append b d cs

with_slash-slashed :
    (b : Bool) (c : ℕ) (cs : Text)
    → (last_of c cs == 47) ≡ false
    → with_slash (slashed b (c ∷ cs)) ≡ some ((c ∷ cs) ++ (47 ∷ []))
with_slash-slashed true c cs bare = rw (last_of-append c 47 cs) refl
with_slash-slashed false c cs bare = rw bare refl

module _ {W R : Type 0} (clients : Clients W R) where
  -- What the service holds after the call that stores, and for cloud storage after the close of the
  -- writer; and their errors.
  abbrev pub stored : Service → Text → Text → List ℕ → W → W
  stored minio bucket key x w = (clients.put minio bucket key x w).0
  stored s3 bucket key x w = (clients.put s3 bucket key x w).0
  stored cloud bucket key x w =
      (clients.close_writer bucket key (clients.put cloud bucket key x w).0).0

  abbrev pub IsStored : Service → Text → Text → List ℕ → W → Type 0
  IsStored minio bucket key x w = (clients.put minio bucket key x w).1 ≡ none
  IsStored s3 bucket key x w = (clients.put s3 bucket key x w).1 ≡ none
  IsStored cloud bucket key x w =
      ((clients.put cloud bucket key x w).1 ≡ none)
      × ((clients.close_writer bucket key (clients.put cloud bucket key x w).0).1 ≡ none)

  -- The service finds what it has stored under a key, and its reader reads it whole.
  abbrev pub KeepsObjects : Type 0
  KeepsObjects =
      (service : Service) (bucket key : Text) (x : List ℕ) (w : W)
      → IsStored service bucket key x w
      → (r : R) × (clients.get service bucket key (stored service bucket key x w) ≡ (r, none))
        × (clients.read_all r ≡ (x, none))

  put_by-stored :
      (service : Service) (bucket path dir file_name : Text) (x : List ℕ) (w : W)
      → with_slash path ≡ some dir
      → IsStored service bucket (dir ++ file_name) x w
      → put_by clients service bucket path file_name x w
        ≡ done (stored service bucket (dir ++ file_name) x w) none
  put_by-stored minio bucket path dir file_name x w e fine =
      ap
        (λ o.
          at_path clients o w
            (λ d. finished clients (clients.put minio bucket (d ++ file_name) x w)))
        e
      ∙ ap (done (clients.put minio bucket (dir ++ file_name) x w).0) fine
  put_by-stored s3 bucket path dir file_name x w e fine =
      ap
        (λ o.
          at_path clients o w (λ d. finished clients (clients.put s3 bucket (d ++ file_name) x w)))
        e
      ∙ ap (done (clients.put s3 bucket (dir ++ file_name) x w).0) fine
  put_by-stored cloud bucket path dir file_name x w e (fine, shut) =
      ap
        (λ o. at_path clients o w (λ d.
          finished clients (
            closed clients bucket (d ++ file_name)
              (clients.put cloud bucket (d ++ file_name) x w))))
        e
      ∙ ap (done (stored cloud bucket (dir ++ file_name) x w)) fine

  read_whole-got :
      (got : R × Option ℕ) (r : R) (x : List ℕ)
      → got ≡ (r, none)
      → clients.read_all r ≡ (x, none)
      → read_whole clients got ≡ (x, none)
  read_whole-got got r x e f = ap (read_whole clients) e ∙ f

  get_by-got :
      (service : Service) (bucket path dir file_name : Text) (x : List ℕ) (r : R) (w : W)
      → with_slash path ≡ some dir
      → clients.get service bucket (dir ++ file_name) w ≡ (r, none)
      → clients.read_all r ≡ (x, none)
      → get_by clients service bucket path file_name w ≡ done w (x, none)
  get_by-got minio bucket path dir file_name x r w e got whole =
      ap
        (λ o. at_path clients o w (λ d. done w (
          unless_error clients (read_whole clients (clients.get minio bucket (d ++ file_name) w)))))
        e
      ∙ ap (λ p. done w (unless_error clients p)) (read_whole-got _ r x got whole)
  get_by-got s3 bucket path dir file_name x r w e got whole =
      ap
        (λ o.
          at_path clients o w
            (λ d. done w (read_whole clients (clients.get s3 bucket (d ++ file_name) w))))
        e
      ∙ ap (done w) (read_whole-got _ r x got whole)
  get_by-got cloud bucket path dir file_name x r w e got whole =
      ap
        (λ o.
          at_path clients o w
            (λ d. done w (read_whole clients (clients.get cloud bucket (d ++ file_name) w))))
        e
      ∙ ap (done w) (read_whole-got _ r x got whole)

  -- With a service that keeps its objects, GetObject returns what PutObject stored without an error under
  -- the same directory, not empty and not ending in a slash, and the same name: each of the two may add
  -- a slash to the directory or not. The key is the directory, one slash and the name. Of cloud storage
  -- the writer must have been closed without an error too, which PutObject does not tell.
  pub get_object-put_object :
      KeepsObjects
      → (h : Handler) (c : ℕ) (cs file_name : Text) (b b' : Bool) (x : List ℕ) (w : W)
      → (last_of c cs == 47) ≡ false
      → IsStored h.service h.bucket (((c ∷ cs) ++ (47 ∷ [])) ++ file_name) x w
      → (w' : W) × (put_object clients h (slashed b (c ∷ cs)) file_name x w ≡ done w' none)
        × (get_object clients h (slashed b' (c ∷ cs)) file_name w' ≡ done w' (x, none))
  unfolding put_object get_object
  get_object-put_object keeps h c cs file_name b b' x w bare fine =
      let dir = (c ∷ cs) ++ (47 ∷ []) in
      let (r, got, whole) = keeps h.service h.bucket (dir ++ file_name) x w fine in
      let w' = stored h.service h.bucket (dir ++ file_name) x w in
      (
        w',
        put_by-stored h.service h.bucket (slashed b (c ∷ cs)) dir file_name x w
            (with_slash-slashed b c cs bare) fine,
        get_by-got h.service h.bucket (slashed b' (c ∷ cs)) dir file_name x r w'
            (with_slash-slashed b' c cs bare) got whole,
      )
