-- ===== src/Zlog/Compress/Safe.antt =====
-- No log is lost by compression.
use golang_tools.Base.{
  ℕ, ◌≡◌, refl, ◌∙◌, sym, subst, inl, inr, if◌then◌else◌, Bool, true, false, List, [], Option, none,
  some, Bool-cases,
}
use golang_tools.Base.Texts.{text_eq_refl, text_eq_sym}
use golang_tools.Zlog.Names.{Text, text_eq}
use golang_tools.Zlog.Compress.{
  Files, put_file, Answers, CompressError, undo, compress_opened, chown_opened, compress_log_file,
  not_opened, not_stated,
}

module _ (gzip : List ℕ → List ℕ) (src dst : Text) (content : List ℕ) where
  -- Without an error the log is in the new file, compressed and whole, and the old one is gone; with one
  -- the old file is as it was.
  abbrev pub Outcome : Files × Option CompressError → Type 0
  Outcome (fs, none) = (fs dst ≡ some (gzip content)) × (fs src ≡ none)
  Outcome (fs, some e) = fs src ≡ some content

  put_other :
      (o : Option (List ℕ)) (fs : Files) → text_eq dst src ≡ false → put_file dst o fs src ≡ fs src
  put_other o fs differs = rw differs refl

  Outcome-undo :
      (a : Answers) (fs : Files)
      → text_eq dst src ≡ false
      → fs src ≡ some content
      → Outcome (undo gzip a dst fs)
  Outcome-undo a fs differs there = elim (Bool-cases a.remove_new_ok) [
    | inl gone ↦ rw (gone, differs) there
    | inr stays ↦ rw stays there
  ]

  Outcome-removed :
      (fs : Files)
      → text_eq dst src ≡ false
      → Outcome (put_file src none (put_file dst (some (gzip content)) fs), none)
  Outcome-removed fs differs =
      (rw (text_eq_sym src dst, differs, text_eq_refl dst) refl, rw (text_eq_refl src) refl)

  Outcome-if :
      (b : Bool) (r s : Files × Option CompressError)
      → Outcome r
      → Outcome s
      → Outcome (if b then r else s)
  Outcome-if true r s hr hs = hr
  Outcome-if false r s hr hs = hs

  Outcome-compress_opened :
      (a : Answers) (fs : Files)
      → text_eq dst src ≡ false
      → fs src ≡ some content
      → Outcome (compress_opened gzip a src dst content fs)
  Outcome-compress_opened a fs differs there =
      let begun : Files = put_file dst (some a.partial) fs in
      let whole : Files = put_file dst (some (gzip content)) fs in
      let undone = Outcome-undo a begun differs (put_other (some a.partial) fs differs ∙ there) in
      let kept =
        Outcome-undo a whole differs (put_other (some (gzip content)) fs differs ∙ there) in
      Outcome-if a.copy_ok _ _
        (Outcome-if a.finish_ok _ _
          (Outcome-if a.close_new_ok _ _
            (Outcome-if a.close_old_ok _ _
              (Outcome-if a.remove_ok _ _ (Outcome-removed fs differs) kept) kept)
            undone)
          undone)
        undone

  Outcome-chown_opened :
      (a : Answers) (fs : Files)
      → text_eq dst src ≡ false
      → fs src ≡ some content
      → Outcome (chown_opened gzip a src dst content fs)
  Outcome-chown_opened a fs differs there =
      let emptied : Files = put_file dst (some []) fs in
      let still : emptied src ≡ some content = put_other (some []) fs differs ∙ there in
      Outcome-if a.truncate_ok _ _
        (Outcome-if a.chown_ok _ _
          (Outcome-if a.create_ok _ _ (Outcome-compress_opened a emptied differs still) still)
          still)
        there

  -- Whatever the calls of the file system answer, compressLogFile of a file into another one does not lose
  -- the log: without an error the new file holds the compressed log, whole, and the old file is gone; with an
  -- error the old file is there as it was. Of the new file nothing is said then: one that was there before may
  -- be empty or removed.
  pub Outcome-compress_log_file :
      (a : Answers) (fs : Files)
      → text_eq dst src ≡ false
      → fs src ≡ some content
      → Outcome (compress_log_file gzip a src dst fs)
  unfolding compress_log_file
  Outcome-compress_log_file a fs differs there =
      subst
        (λ o. Outcome (elim o [
          | none ↦ (fs, some not_opened)
          | some x ↦
              if a.open_ok
              then (if a.stat_ok then chown_opened gzip a src dst x fs else (fs, some not_stated))
              else (fs, some not_opened)
        ]))
        (sym there)
        (Outcome-if a.open_ok _ _
          (Outcome-if a.stat_ok _ _ (Outcome-chown_opened a fs differs there) there) there)
