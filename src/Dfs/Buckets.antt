-- ===== src/Dfs/Buckets.antt =====
-- What TryMakeBucket reports.
use golang_tools.Base.{
  ℕ, ◌≡◌, refl, ap, ◌∙◌, sym, subst, true, if◌then◌else◌, Option, none, Bool-cases, inl, inr,
}
use golang_tools.Base.Int.{pos, ltb_ℤ}
use golang_tools.Dfs.{
  Service, minio, s3, cloud, Handler, Clients, once_do, bucket_created, try_minio, try_s3, try_by,
  try_make_bucket,
}

module _ {W R : Type 0} (clients : Clients W R) where
  once_do-none : (h : Handler) (w v : W) → (once_do clients h w (v, none)).1.1 ≡ none
  once_do-none h w v = elim (Bool-cases h.once) [
    | inl already ↦ rw already refl
    | inr fresh ↦ rw fresh refl
  ]

  -- TryMakeBucket of s3 never reports an error, whatever CreateBucket and the others answer.
  pub try_make_bucket-s3 :
      (h : Handler) (w : W) → h.service ≡ s3 → (try_make_bucket clients h w).1.1 ≡ none
  unfolding try_make_bucket
  try_make_bucket-s3 h w e =
      ap (λ s. (try_by clients s h w).1.1) e
      ∙ once_do-none h w (bucket_created clients h (clients.create_bucket h.bucket w))

  -- A handler for which TryMakeBucket does nothing.
  abbrev IsDone : Service → Handler → Type 0
  IsDone service h = (w : W) → try_by clients service h w ≡ (h, (w, none))

  once_do-done :
      (h : Handler) (w : W) (result : W × Option ℕ)
      → h.once ≡ true
      → once_do clients h w result ≡ (h, (w, none))
  once_do-done h w result e =
      ap (λ b. (if b then (h, (w, none)) else (record h { once = true }, result))) e

  IsDone-once : (service : Service) (h : Handler) → h.once ≡ true → IsDone service h
  IsDone-once minio h e w = once_do-done h w _ e
  IsDone-once s3 h e w = once_do-done h w _ e
  IsDone-once cloud h e w = elim (Bool-cases (ltb_ℤ (pos 0) h.expire_days)) [
    | inl days ↦ rw days (once_do-done h w _ e)
    | inr never ↦ rw never refl
  ]

  once-once_do :
      (h : Handler) (w : W) (result : W × Option ℕ) → (once_do clients h w result).0.once ≡ true
  once-once_do h w result = elim (Bool-cases h.once) [
    | inl already ↦ subst (λ r. r.0.once ≡ true) (sym (once_do-done h w result already)) already
    | inr fresh ↦ simp fresh
  ]

  service-once_do :
      (h : Handler) (w : W) (result : W × Option ℕ)
      → (once_do clients h w result).0.service ≡ h.service
  service-once_do h w result = elim (Bool-cases h.once) [
    | inl already ↦
        subst (λ r. r.0.service ≡ h.service) (sym (once_do-done h w result already)) refl
    | inr fresh ↦ simp fresh
  ]

  IsDone-try_by :
      (service : Service) (h : Handler) (w : W) → IsDone service (try_by clients service h w).0
  IsDone-try_by minio h w = IsDone-once minio (try_minio clients h w).0 (once-once_do h w _)
  IsDone-try_by s3 h w = IsDone-once s3 (try_s3 clients h w).0 (once-once_do h w _)
  IsDone-try_by cloud h w = elim (Bool-cases (ltb_ℤ (pos 0) h.expire_days)) [
    | inl days ↦
        (let result = clients.update_bucket h.bucket h.expire_days w in
          rw days (IsDone-once cloud (once_do clients h w result).0 (once-once_do h w result)))
    | inr never ↦ rw never (λ v. simp never)
  ]

  service-try_by :
      (service : Service) (h : Handler) (w : W) → (try_by clients service h w).0.service ≡ h.service
  service-try_by minio h w = service-once_do h w _
  service-try_by s3 h w = service-once_do h w _
  service-try_by cloud h w = elim (Bool-cases (ltb_ℤ (pos 0) h.expire_days)) [
    | inl days ↦ rw days (service-once_do h w _)
    | inr never ↦ rw never refl
  ]

  -- After a call of TryMakeBucket, even one that returned an error, every later call does nothing and
  -- returns no error.
  pub try_make_bucket_again :
      (h : Handler) (v w : W)
      → try_make_bucket clients (try_make_bucket clients h v).0 w
        ≡ ((try_make_bucket clients h v).0, (w, none))
  unfolding try_make_bucket
  try_make_bucket_again h v w =
      let g = (try_by clients h.service h v).0 in
      ap (λ s. try_by clients s g w) (service-try_by h.service h v) ∙ IsDone-try_by h.service h v w
