-- ===== src/App/Flags/Described.antt =====
-- What the flags of a structure are: their names, descriptions and defaults.
use golang_tools.Base.{
  ◌≡◌, ◌≢◌, refl, sym, subst, All, true, false, List, [], ◌∷◌, ◌++◌, Option, none, some, Bool-cases,
  inl, inr,
}
use golang_tools.Base.Run.{done}
use golang_tools.Base.Texts.{Text, text_eq, text_eq→eq, text_eq_refl}
use golang_tools.App.Flags.{
  Kind, string_kind, int_kind, int64_kind, bool_kind, other_kind, Field, points_to, Value,
  text_value, int_value, int64_value, bool_value, true_text, Flag, Setting, or_default,
  default_value, value_of, parse_struct,
}
use golang_tools.App.Flags.Registered.{
  AreFresh, HasFlags, IsUsable, UsableAs, made, field_flags, flags_of, parse_struct-flags_of,
}

module _ (st : Setting) where
  -- Where the text of a default comes from: the environment, else the tag, else it tells that there is none.
  pub data IsText (f : Field) (key : Text) : Text → Type 0 where
    from_env : {v : Text} → st.env key ≡ some v → IsText f key v
    from_tag : {v : Text} → st.env key ≡ none → f.default_tag ≡ some v → IsText f key v
    from_none :
        st.env key ≡ none
        → f.default_tag ≡ none
        → IsText f key (
            110 ∷ 111 ∷ 116 ∷ 95 ∷ 102 ∷ 111 ∷ 117 ∷ 110 ∷ 100 ∷ 95 ∷ 102 ∷ 108 ∷ 97 ∷ 103 ∷ 95
            ∷ key)

  -- What a field of a kind reads from its text. Of a bool it is true at `true` only.
  pub data IsValue (v : Text) : Kind → Value → Type 0 where
    is_text : IsValue v string_kind (text_value v)
    is_int : IsValue v int_kind (int_value (st.atoi v))
    is_int64 : IsValue v int64_kind (int64_value (st.parse_int v))
    is_true : v ≡ 116 ∷ 114 ∷ 117 ∷ 101 ∷ [] → IsValue v bool_kind (bool_value true)
    is_false : v ≢ 116 ∷ 114 ∷ 117 ∷ 101 ∷ [] → IsValue v bool_kind (bool_value false)

  -- A flag with the name and the description of the field's tags, and that default.
  abbrev pub Describes : Field → Text → Flag → Type 0
  Describes f key g =
      (g.key ≡ key)
      × (g.desc ≡ f.desc_tag)
      × (v : Text) × IsText f key v
      × IsValue v f.kind g.default

  -- One flag for each field that has a flag's tag, in their order.
  pub data Registers : List Field → List Flag → Type 0 where
    no_more : Registers [] []
    untagged :
        {f : Field} {fields : List Field} {gs : List Flag}
        → f.flag_tag ≡ none
        → Registers fields gs
        → Registers (f ∷ fields) gs
    tagged :
        {f : Field} {fields : List Field} {key : Text} {g : Flag} {gs : List Flag}
        → f.flag_tag ≡ some key
        → Describes f key g
        → Registers fields gs
        → Registers (f ∷ fields) (g ∷ gs)

  or_default-IsText :
      (f : Field) (key : Text) (set tag : Option Text)
      → st.env key ≡ set
      → f.default_tag ≡ tag
      → IsText f key (or_default key set tag)
  or_default-IsText f key (some v) tag e h = from_env e
  or_default-IsText f key none (some v) e h = from_tag e h
  or_default-IsText f key none none e h = from_none e h

  default_value-IsText : (f : Field) (key : Text) → IsText f key (default_value st key f)
  unfolding default_value
  default_value-IsText f key = or_default-IsText f key (st.env key) f.default_tag refl refl

  bool-IsValue : (v : Text) → IsValue v bool_kind (bool_value (text_eq v true_text))
  bool-IsValue v = elim (Bool-cases (text_eq v true_text)) [
    | inl same ↦ rw same (is_true (text_eq→eq v true_text same))
    | inr other ↦ rw other (
        is_false (λ e.
          cc (other, subst (λ u. text_eq u true_text ≡ true) (sym e) (text_eq_refl true_text))))
  ]

  -- The flag of a field, at the head of others.
  made-Registers :
      (f : Field) (key v : Text) (k : Kind) (fields : List Field) (gs : List Flag)
      → f.flag_tag ≡ some key
      → f.kind ≡ k
      → HasFlags k
      → IsText f key v
      → Registers fields gs
      → Registers (f ∷ fields) (made st key f.desc_tag (value_of st k v) ++ gs)
  made-Registers f key v string_kind fields gs tag e h from more =
      tagged tag (refl, refl, v, from, rw e is_text) more
  made-Registers f key v int_kind fields gs tag e h from more =
      tagged tag (refl, refl, v, from, rw e is_int) more
  made-Registers f key v int64_kind fields gs tag e h from more =
      tagged tag (refl, refl, v, from, rw e is_int64) more
  made-Registers f key v bool_kind fields gs tag e h from more =
      tagged tag (refl, refl, v, from, rw e (bool-IsValue v)) more
  made-Registers f key v other_kind fields gs tag e h from more = absurd h

  field_flags-Registers :
      (f : Field) (tag : Option Text) (fields : List Field) (gs : List Flag)
      → f.flag_tag ≡ tag
      → UsableAs tag f.kind
      → Registers fields gs
      → Registers (f ∷ fields) (field_flags st f tag ++ gs)
  field_flags-Registers f none fields gs e h more = untagged e more
  field_flags-Registers f (some key) fields gs e h more =
      made-Registers f key (default_value st key f) f.kind fields gs e refl h
        (default_value-IsText f key) more

  flags_of-Registers :
      (fields : List Field) → All IsUsable fields → Registers fields (flags_of st fields)
  flags_of-Registers [] h = no_more
  flags_of-Registers (f ∷ more) (h, usable) =
      field_flags-Registers f f.flag_tag more (flags_of st more) refl h
        (flags_of-Registers more usable)

  -- From a pointer to a structure whose tagged fields have a kind that flags have, and names that the flag
  -- package takes, new ones that differ, flagParseStruct2Flags registers one flag for each tagged field, in
  -- their order, and nothing else. A flag has the name and the description of the tags. The text of its default
  -- is that of the environment, if the name is set there, else that of the tag, else one that tells the name; it
  -- is read by the field's kind: as it is, as an int, as an int64, or as true for `true` and false for all else.
  pub parse_struct-Registers :
      (fields : List Field) (fs : List Flag)
      → All IsUsable fields
      → AreFresh fs (flags_of st fields)
      → (gs : List Flag) × (parse_struct st (points_to fields) fs ≡ done (fs ++ gs) tt)
        × Registers fields gs
  parse_struct-Registers fields fs usable new = (
    flags_of st fields,
    parse_struct-flags_of st fields fs usable new,
    flags_of-Registers fields usable,
  )
