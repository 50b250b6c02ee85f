-- ===== src/Zlog/Names/Dated.antt =====
-- Which file names timeFromName takes for those of the logger.
use golang_tools.Base.{
  ℕ, ◌+◌, ◌-◌, ◌≤◌, ◌≡◌, refl, sym, ap, ◌∙◌, arith, ◌==◌, Bool, true, false, ◌&&◌, [], ◌∷◌, ◌++◌,
  length, take, drop, take_front, drop_front, length-append, append_assoc, Option, le→leb, le→ltb,
}
use golang_tools.Base.Texts.{text_eq_refl}
use golang_tools.Zlog.Names.{
  Text, text_eq, has_prefix, has_suffix, dash, dot, has_dot, ext_of, prefix_and_ext,
  mismatched_prefix, parsed, time_from_name,
}

-- Texts of one length that end in different bytes differ.
text_eq_ends :
    (cs ds : Text) (c d : ℕ)
    → length cs ≡ length ds
    → (c == d) ≡ false
    → text_eq (cs ++ (c ∷ [])) (ds ++ (d ∷ [])) ≡ false
text_eq_ends [] [] c d e h = rw h
text_eq_ends [] (y ∷ ds) c d e h = absurd (omega arith)
text_eq_ends (x ∷ cs) [] c d e h = absurd (omega arith)
text_eq_ends (x ∷ cs) (y ∷ ds) c d e h = ground (arith, text_eq_ends cs ds c d (omega arith) h)

has_prefix-append : (prefix s : Text) → has_prefix (prefix ++ s) prefix ≡ true
has_prefix-append prefix s =
    rw
      (
        le→leb (length prefix) (length (prefix ++ s)) (omega (arith, length-append prefix s)),
        take_front (length prefix) prefix s refl,
      )
      (text_eq_refl prefix)

has_suffix-append : (s suffix : Text) → has_suffix (s ++ suffix) suffix ≡ true
has_suffix-append s suffix =
    let size = length-append s suffix in
    rw
      (
        le→leb (length suffix) (length (s ++ suffix)) (omega (arith, size)),
        drop_front (length (s ++ suffix) - length suffix) s suffix (omega (arith, size)),
      )
      (text_eq_refl suffix)

-- From a name made of the prefix, a text and the extension timeFromName parses just that text.
pub time_from_name-parsed :
    (parse : Text → Option ℕ) (prefix ts ext : Text)
    → time_from_name parse (prefix ++ (ts ++ ext)) prefix ext ≡ parsed (parse ts)
unfolding time_from_name
time_from_name-parsed parse prefix ts ext =
    rw (has_prefix-append prefix (ts ++ ext), suffixed, le→ltb _ (length prefix) room, middle)
  where
    whole : Text
    whole = prefix ++ (ts ++ ext)

    suffixed : has_suffix (prefix ++ (ts ++ ext)) ext ≡ true
    suffixed = rw (← append_assoc prefix ts ext) (has_suffix-append (prefix ++ ts) ext)

    size : length (prefix ++ (ts ++ ext)) ≡ length prefix + (length ts + length ext)
    size = omega (arith, length-append prefix (ts ++ ext), length-append ts ext)

    room : length prefix ≤ length (prefix ++ (ts ++ ext)) - length ext
    room = omega (arith, size)

    middle :
        drop
          (length prefix)
          (take (length (prefix ++ (ts ++ ext)) - length ext) (prefix ++ (ts ++ ext)))
        ≡ ts
    middle =
        ap (drop (length prefix)) (
          ap (take (length (prefix ++ (ts ++ ext)) - length ext)) (sym (append_assoc prefix ts ext))
          ∙ take_front (length (prefix ++ (ts ++ ext)) - length ext) (prefix ++ ts) ext
              (omega (arith, size, length-append prefix ts)))
        ∙ drop_front (length prefix) prefix ts refl

has_dot_end : (cs rest : Text) → has_dot (cs ++ (dot ∷ rest)) ≡ true
has_dot_end [] rest = refl
has_dot_end (c ∷ cs) rest = ground (arith, has_dot_end cs rest)

pub ext_of-append :
    (cs rest : Text) → has_dot rest ≡ false → ext_of (cs ++ (dot ∷ rest)) ≡ dot ∷ rest
ext_of-append [] rest h = rw h
ext_of-append (c ∷ cs) rest h = ground (arith, has_dot_end cs rest, ext_of-append cs rest h)

-- A log file's name in the directory.
abbrev pub dated : Text → Text → Text → Text
dated stem ts end = (stem ++ (dash ∷ ts)) ++ (dot ∷ end)

pub prefix_and_ext-dated :
    (stem ts end : Text)
    → has_dot end ≡ false
    → prefix_and_ext (dated stem ts end) ≡ ((stem ++ (dash ∷ ts)) ++ (dash ∷ []), dot ∷ end)
unfolding prefix_and_ext
prefix_and_ext-dated stem ts end h =
    let size = length-append (stem ++ (dash ∷ ts)) (dot ∷ end) in
    rw (
      ext_of-append (stem ++ (dash ∷ ts)) end h,
      take_front (length (dated stem ts end) - length (dot ∷ end)) (stem ++ (dash ∷ ts)) (dot ∷ end)
          (omega (arith, size)),
    )

-- A name of the same form with a time of the same length does not have the prefix.
pub time_from_name-dated :
    (parse : Text → Option ℕ) (stem ts us end ext : Text)
    → length us ≡ length ts
    → time_from_name parse (dated stem us end) ((stem ++ (dash ∷ ts)) ++ (dash ∷ [])) ext
      ≡ mismatched_prefix
unfolding time_from_name
time_from_name-dated parse stem ts us end ext h = rw (no_prefix)
  where
    same : length (stem ++ (dash ∷ us)) ≡ length (stem ++ (dash ∷ ts))
    same = omega (arith, h, length-append stem (dash ∷ us), length-append stem (dash ∷ ts))

    cut :
        take (length ((stem ++ (dash ∷ ts)) ++ (dash ∷ []))) (dated stem us end)
        ≡ (stem ++ (dash ∷ us)) ++ (dot ∷ [])
    cut =
        ap (take (length ((stem ++ (dash ∷ ts)) ++ (dash ∷ []))))
          (sym (append_assoc (stem ++ (dash ∷ us)) (dot ∷ []) end))
        ∙ take_front _ ((stem ++ (dash ∷ us)) ++ (dot ∷ [])) end (
            omega (
              arith,
              same,
              length-append (stem ++ (dash ∷ us)) (dot ∷ []),
              length-append (stem ++ (dash ∷ ts)) (dash ∷ []),
            ))

    differs :
        text_eq ((stem ++ (dash ∷ us)) ++ (dot ∷ [])) ((stem ++ (dash ∷ ts)) ++ (dash ∷ [])) ≡ false
    differs = text_eq_ends (stem ++ (dash ∷ us)) (stem ++ (dash ∷ ts)) dot dash same refl

    and_false : (b : Bool) → (b && false) ≡ false
    and_false true = refl
    and_false false = refl

    no_prefix : has_prefix (dated stem us end) ((stem ++ (dash ∷ ts)) ++ (dash ∷ [])) ≡ false
    no_prefix = rw (cut, differs) (and_false _)
