-- ===== src/Zlog/Compress.antt =====
-- compressLogFile of zlog/lumberjack.go, over the answers of the file system, and filename.
pub mod Safe
use golang_tools.Base.{
  ℕ, ◌≡◌, if◌then◌else◌, Bool, true, false, List, [], ◌∷◌, ◌++◌, Option, none, some,
}
use golang_tools.Zlog.Names.{Text, text_eq, backup_name}

-- The content of each file that there is.
abbrev pub Files : Type 0
Files = Text → Option (List ℕ)

abbrev pub put_file : Text → Option (List ℕ) → Files → Files
put_file name content fs n = if text_eq name n then content else fs n

-- Which calls succeed; `partial` is what is in the new file when io.Copy, or Close of the compressor,
-- has failed.
pub record Answers : Type 0 where
  pub open_ok : Bool
  pub stat_ok : Bool
  pub truncate_ok : Bool
  pub chown_ok : Bool
  pub create_ok : Bool
  pub copy_ok : Bool
  pub finish_ok : Bool
  pub close_new_ok : Bool
  pub close_old_ok : Bool
  pub remove_ok : Bool
  pub remove_new_ok : Bool
  pub partial : List ℕ

pub data CompressError : Type 0 where
  not_opened not_stated not_chowned not_created not_compressed : CompressError

module _ (gzip : List ℕ → List ℕ) where
  -- The deferred function, for an error behind the creation of the new file.
  abbrev pub undo : Answers → Text → Files → Files × Option CompressError
  undo a dst fs = ((if a.remove_new_ok then put_file dst none fs else fs), some not_compressed)

  -- From io.Copy on; `content` is that of the old file. The new file is flushed when it is closed.
  abbrev pub compress_opened : Answers → Text → Text → List ℕ → Files → Files × Option CompressError
  compress_opened a src dst content fs =
      let begun = put_file dst (some a.partial) fs in
      let whole = put_file dst (some (gzip content)) fs in
      if a.copy_ok
      then (if a.finish_ok
          then (if a.close_new_ok
              then (if a.close_old_ok
                  then (if a.remove_ok then (put_file src none whole, none) else undo a dst whole)
                  else undo a dst whole)
              else undo a dst begun)
          else undo a dst begun)
      else undo a dst begun

  -- chown, and the second OpenFile: both open the new file, which is empty then. `src` and `dst` are taken to
  -- be different files.
  abbrev pub chown_opened : Answers → Text → Text → List ℕ → Files → Files × Option CompressError
  chown_opened a src dst content fs =
      let emptied = put_file dst (some []) fs in
      if a.truncate_ok
      then (if a.chown_ok
          then (if a.create_ok
              then compress_opened a src dst content emptied
              else (emptied, some not_created))
          else (emptied, some not_chowned))
      else (fs, some not_chowned)

  -- Where the source is not there os.Open fails.
  unfoldable pub compress_log_file : Answers → Text → Text → Files → Files × Option CompressError
  compress_log_file a src dst fs = elim (fs src) [
    | none ↦ (fs, some not_opened)
    | some content ↦
        if a.open_ok
        then (if a.stat_ok then chown_opened a src dst content fs else (fs, some not_stated))
        else (fs, some not_opened)
  ]

-- filename: `timestamp` is the current time in the logger's format, `default` the name in the directory
-- for temporary files.
unfoldable pub filename : Text → Text → Text → Text
filename [] timestamp default = default
filename (c ∷ cs) timestamp default = backup_name (c ∷ cs) timestamp
