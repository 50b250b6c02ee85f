-- ===== src/Zlog/Caller/Trimmed.antt =====
-- Which part of a path trimmedPath keeps.
use golang_tools.Base.{
  ◌+◌, ◌≡◌, refl, sym, ap, ◌∙◌, arith, ◌==◌, ne→==, if◌then◌else◌, true, [], ◌∷◌, ◌++◌,
  append_assoc, length, length-append, take, drop, take_front, drop_front, All, none, some,
}
use golang_tools.Zlog.Names.{Text}
use golang_tools.Zlog.Caller.{
  Caller, slash, colon, index_on, last_index, at_last, at_second, at_third, trimmed_path,
  undefined_text,
}

-- A part of a path between two slashes.
abbrev pub IsPart : Text → Type 0
IsPart cs = All (λ c. ¬ (c ≡ slash)) cs

last_index-none : (cs : Text) → IsPart cs → last_index slash cs ≡ none
unfolding last_index
last_index-none [] h = refl
last_index-none (c ∷ cs) (other, h) =
    ap (index_on (c == slash)) (last_index-none cs h)
    ∙ ap (λ b. index_on b none) (ne→== c slash other)

last_index-append :
    (xs cs : Text) → IsPart cs → last_index slash (xs ++ (slash ∷ cs)) ≡ some (length xs)
unfolding last_index
last_index-append [] cs h = ap (index_on true) (last_index-none cs h)
last_index-append (x ∷ xs) cs h = ap (index_on (x == slash)) (last_index-append xs cs h)

-- Of a path with at least three slashes trimmedPath keeps what follows the third slash from the end,
-- then a colon and the line; the parts are any texts without a slash, the front is any text.
pub trimmed_path_parts :
    (front a b c : Text) (ec : Caller)
    → ec.defined ≡ true
    → ec.file ≡ ((front ++ (slash ∷ a)) ++ (slash ∷ b)) ++ (slash ∷ c)
    → IsPart a
    → IsPart b
    → IsPart c
    → trimmed_path ec ≡ ((a ++ (slash ∷ b)) ++ (slash ∷ c)) ++ (colon ∷ ec.line)
unfolding trimmed_path
trimmed_path_parts front a b c ec known path ha hb hc =
    ap (λ d. if d then at_last ec (last_index slash ec.file) else undefined_text) known
    ∙ ap (at_last ec) (ap (last_index slash) path ∙ last_index-append (one ++ (slash ∷ b)) c hc)
    ∙ ap (at_second ec) (ap (last_index slash) to_two ∙ last_index-append one b hb)
    ∙ ap (at_third ec) (ap (last_index slash) to_one ∙ last_index-append front a ha)
    ∙ ap (λ t. t ++ (colon ∷ ec.line)) kept
  where
    one : Text
    one = front ++ (slash ∷ a)

    to_two : take (length (one ++ (slash ∷ b))) ec.file ≡ one ++ (slash ∷ b)
    to_two =
        ap (take (length (one ++ (slash ∷ b)))) path
        ∙ take_front (length (one ++ (slash ∷ b))) (one ++ (slash ∷ b)) (slash ∷ c) refl

    to_one : take (length one) ec.file ≡ one
    to_one =
        ap (take (length one)) (path ∙ append_assoc one (slash ∷ b) (slash ∷ c))
        ∙ take_front (length one) one ((slash ∷ b) ++ (slash ∷ c)) refl

    kept : drop (length front + 1) ec.file ≡ (a ++ (slash ∷ b)) ++ (slash ∷ c)
    kept =
        ap (drop (length front + 1)) (
          path
          ∙ ap (λ t. t ++ (slash ∷ c)) (append_assoc front (slash ∷ a) (slash ∷ b))
          ∙ append_assoc front ((slash ∷ a) ++ (slash ∷ b)) (slash ∷ c)
          ∙ sym (append_assoc front (slash ∷ []) ((a ++ (slash ∷ b)) ++ (slash ∷ c))))
        ∙ drop_front (length front + 1) (front ++ (slash ∷ [])) ((a ++ (slash ∷ b)) ++ (slash ∷ c))
            (omega (arith, length-append front (slash ∷ [])))
