-- ===== src/Zlog/Sorting.antt =====
-- Sorting by insertion, for the theorems about old files at concrete inputs.
use mathlib.Core.List.{Perm}
use mathlib.Core.List.Perm
use golang_tools.Base.{
  ◌≤◌, ◌≡◌, arith, leb, leb→le, false, inl, inr, List, [], ◌∷◌, All, Bool-cases, if◌then◌else◌,
}
use golang_tools.Zlog.Retention.{LogInfo}
use golang_tools.Zlog.Retention.Newest.{IsNoNewer, IsNewestFirst, IsSort}

abbrev insert_file : LogInfo → List LogInfo → List LogInfo
insert_file f [] = f ∷ []
insert_file f (g ∷ gs) =
    let rest = insert_file f gs in if leb g.timestamp f.timestamp then f ∷ g ∷ gs else g ∷ rest

abbrev pub sort_files : List LogInfo → List LogInfo
sort_files [] = []
sort_files (f ∷ fs) = insert_file f (sort_files fs)

insert_file-perm : (f : LogInfo) (gs : List LogInfo) → Perm (insert_file f gs) (f ∷ gs)
insert_file-perm f [] = Perm.rfl
insert_file-perm f (g ∷ gs) = elim (Bool-cases (leb g.timestamp f.timestamp)) [
  | inl here ↦ rw here Perm.rfl
  | inr behind ↦ rw behind (Perm.trans (Perm.cons g (insert_file-perm f gs)) (Perm.swap f g gs))
]

sort_files-perm : (fs : List LogInfo) → Perm (sort_files fs) fs
sort_files-perm [] = Perm.rfl
sort_files-perm (f ∷ fs) =
    Perm.trans (insert_file-perm f (sort_files fs)) (Perm.cons f (sort_files-perm fs))

All-insert_file :
    (k f : LogInfo) (gs : List LogInfo)
    → f.timestamp ≤ k.timestamp
    → All (IsNoNewer k) gs
    → All (IsNoNewer k) (insert_file f gs)
All-insert_file k f [] h hs = (h, tt)
All-insert_file k f (g ∷ gs) h (p, hs) = elim (Bool-cases (leb g.timestamp f.timestamp)) [
  | inl here ↦ rw here (h, (p, hs))
  | inr behind ↦ rw behind (p, All-insert_file k f gs h hs)
]

All-older :
    (f g : LogInfo) (gs : List LogInfo)
    → g.timestamp ≤ f.timestamp
    → All (IsNoNewer g) gs
    → All (IsNoNewer f) gs
All-older f g [] h hs = tt
All-older f g (k ∷ gs) h (p, hs) = (omega (arith, p, h), All-older f g gs h hs)

newer : (f g : LogInfo) → leb g.timestamp f.timestamp ≡ false → f.timestamp ≤ g.timestamp
newer f g h = ground arith

insert_file-IsNewestFirst :
    (f : LogInfo) (gs : List LogInfo) → IsNewestFirst gs → IsNewestFirst (insert_file f gs)
insert_file-IsNewestFirst f [] h = (tt, tt)
insert_file-IsNewestFirst f (g ∷ gs) (p, h) = elim (Bool-cases (leb g.timestamp f.timestamp)) [
  | inl here ↦
      (let le = leb→le g.timestamp f.timestamp here in
        rw here ((le, All-older f g gs le p), (p, h)))
  | inr behind ↦
      rw behind (All-insert_file g f gs (newer f g behind) p, insert_file-IsNewestFirst f gs h)
]

sort_files-IsNewestFirst : (fs : List LogInfo) → IsNewestFirst (sort_files fs)
sort_files-IsNewestFirst [] = tt
sort_files-IsNewestFirst (f ∷ fs) =
    insert_file-IsNewestFirst f (sort_files fs) (sort_files-IsNewestFirst fs)

pub sort_files-IsSort : IsSort sort_files
sort_files-IsSort = record { permutes = sort_files-perm; sorts = sort_files-IsNewestFirst }
