-- ===== src/App/Flags/Registered.antt =====
-- Which flags a structure registers.
use golang_tools.Base.{
  ◌≡◌, refl, ap, ◌∙◌, sym, subst, All, ◌⊎◌, Bool, true, false, List, [], ◌∷◌, ◌++◌, append_assoc,
  append-nil, Option, none, some, Bool-cases, inl, inr,
}
use golang_tools.Base.Run.{done, after, Panics, Ends, Ensures-after}
use golang_tools.Base.Texts.{Text}
use golang_tools.App.Flags.{
  Kind, string_kind, int_kind, int64_kind, bool_kind, other_kind, Field, Pointer, nothing,
  no_pointer, nil_to, points_to, Value, Flag, Setting, is_refused, define_flag, default_value,
  value_of, define_value, parse_field, parse_fields, parse_struct, parse_structs,
}

-- The package takes the name of each of these flags: it is a name, and new to those that stand before it.
abbrev pub AreFresh : List Flag → List Flag → Type 0
AreFresh fs [] = Unit
AreFresh fs (g ∷ gs) = (is_refused g.key fs ≡ false) × AreFresh (fs ++ (g ∷ [])) gs

AreFresh-append :
    (fs xs ys : List Flag) → AreFresh fs (xs ++ ys) → AreFresh fs xs × AreFresh (fs ++ xs) ys
AreFresh-append fs [] ys h = (tt, subst (λ zs. AreFresh zs ys) (sym (append-nil fs)) h)
AreFresh-append fs (x ∷ xs) ys (new, h) =
    let (hx, hy) = AreFresh-append (fs ++ (x ∷ [])) xs ys h in
    ((new, hx), subst (λ zs. AreFresh zs ys) (append_assoc fs (x ∷ []) xs) hy)

-- A field without a flag's tag, or of a kind that flags have.
abbrev pub HasFlags : Kind → Type 0
HasFlags string_kind = Unit
HasFlags int_kind = Unit
HasFlags int64_kind = Unit
HasFlags bool_kind = Unit
HasFlags other_kind = ⊥

abbrev pub UsableAs : Option Text → Kind → Type 0
UsableAs none k = Unit
UsableAs (some key) k = HasFlags k

abbrev pub IsUsable : Field → Type 0
IsUsable f = UsableAs f.flag_tag f.kind

abbrev HasTag : Option Text → Type 0
HasTag none = ⊥
HasTag (some key) = Unit

abbrev pub AnyTag : List Field → Type 0
AnyTag [] = ⊥
AnyTag (f ∷ fs) = HasTag f.flag_tag ⊎ AnyTag fs

module _ (st : Setting) where
  abbrev pub made : Text → Text → Option Value → List Flag
  made key desc none = []
  made key desc (some v) = record { key = key; default = v; desc = desc } ∷ []

  abbrev pub field_flags : Field → Option Text → List Flag
  field_flags f none = []
  field_flags f (some key) = made key f.desc_tag (value_of st f.kind (default_value st key f))

  -- The flags of the fields that have a flag's tag, in their order.
  abbrev pub flags_of : List Field → List Flag
  flags_of [] = []
  flags_of (f ∷ more) = field_flags f f.flag_tag ++ flags_of more

  define_flag_fresh :
      (g : Flag) (fs : List Flag)
      → AreFresh fs (g ∷ [])
      → define_flag g fs ≡ done (fs ++ (g ∷ [])) tt
  unfolding define_flag
  define_flag_fresh g fs (new, h) = rw new refl

  define_value_fresh :
      (key desc v : Text) (k : Kind) (fs : List Flag)
      → HasFlags k
      → AreFresh fs (made key desc (value_of st k v))
      → define_value st key desc (value_of st k v) fs
        ≡ done (fs ++ made key desc (value_of st k v)) tt
  define_value_fresh key desc v string_kind fs h new = define_flag_fresh _ fs new
  define_value_fresh key desc v int_kind fs h new = define_flag_fresh _ fs new
  define_value_fresh key desc v int64_kind fs h new = define_flag_fresh _ fs new
  define_value_fresh key desc v bool_kind fs h new = define_flag_fresh _ fs new
  define_value_fresh key desc v other_kind fs h new = absurd h

  parse_field_fresh :
      (f : Field) (tag : Option Text) (fs : List Flag)
      → UsableAs tag f.kind
      → AreFresh fs (field_flags f tag)
      → parse_field st true f tag fs ≡ done (fs ++ field_flags f tag) tt
  parse_field_fresh f none fs h new = ap (λ gs. done gs tt) (sym (append-nil fs))
  parse_field_fresh f (some key) fs h new =
      define_value_fresh key f.desc_tag (default_value st key f) f.kind fs h new

  pub parse_struct-flags_of :
      (fields : List Field) (fs : List Flag)
      → All IsUsable fields
      → AreFresh fs (flags_of fields)
      → parse_struct st (points_to fields) fs ≡ done (fs ++ flags_of fields) tt
  unfolding parse_struct parse_fields
  parse_struct-flags_of [] fs usable new = ap (λ gs. done gs tt) (sym (append-nil fs))
  parse_struct-flags_of (f ∷ more) fs (h, usable) new =
      let (first, rest) = AreFresh-append fs (field_flags f f.flag_tag) (flags_of more) new in
      ap (λ r. after r (λ fs' _. parse_fields st true more fs'))
        (parse_field_fresh f f.flag_tag fs h first)
      ∙ parse_struct-flags_of more (fs ++ field_flags f f.flag_tag) usable rest
      ∙ ap (λ gs. done gs tt) (append_assoc fs (field_flags f f.flag_tag) (flags_of more))

  parse_fields_nil :
      (f : Field) (tag : Option Text) (more : List Field) (fs : List Flag)
      → HasTag tag ⊎ Panics (parse_fields st false more fs)
      → Panics (after (parse_field st false f tag fs) (λ fs' _. parse_fields st false more fs'))
  parse_fields_nil f none more fs (inl h) = absurd h
  parse_fields_nil f none more fs (inr h) = h
  parse_fields_nil f (some key) more fs h = tt

  -- From a nil pointer to a structure with any tagged field it panics.
  pub parse_struct-Panics :
      (fields : List Field) (fs : List Flag)
      → AnyTag fields
      → Panics (parse_struct st (nil_to fields) fs)
  unfolding parse_struct parse_fields
  parse_struct-Panics [] fs h = absurd h
  parse_struct-Panics (f ∷ more) fs (inl h) = parse_fields_nil f f.flag_tag more fs (inl h)
  parse_struct-Panics (f ∷ more) fs (inr h) =
      parse_fields_nil f f.flag_tag more fs (inr (parse_struct-Panics more fs h))

  Ends-define_flag : (g : Flag) (fs : List Flag) → Ends (define_flag g fs)
  unfolding define_flag
  Ends-define_flag g fs = elim (Bool-cases (is_refused g.key fs)) [
    | inl old ↦ rw old tt
    | inr new ↦ rw new tt
  ]

  Ends-define_value :
      (key desc : Text) (v : Option Value) (fs : List Flag) → Ends (define_value st key desc v fs)
  Ends-define_value key desc none fs = tt
  Ends-define_value key desc (some v) fs =
      Ends-define_flag (record { key = key; default = v; desc = desc }) fs

  Ends-parse_field :
      (present : Bool) (f : Field) (tag : Option Text) (fs : List Flag)
      → Ends (parse_field st present f tag fs)
  Ends-parse_field present f none fs = tt
  Ends-parse_field true f (some key) fs =
      Ends-define_value key f.desc_tag (value_of st f.kind (default_value st key f)) fs
  Ends-parse_field false f (some key) fs = tt

  Ends-parse_fields :
      (present : Bool) (fields : List Field) (fs : List Flag)
      → Ends (parse_fields st present fields fs)
  unfolding parse_fields
  Ends-parse_fields present [] fs = tt
  Ends-parse_fields present (f ∷ more) fs =
      Ensures-after (λ _ _. Unit {0}) (λ _ _. Unit {0}) (parse_field st present f f.flag_tag fs) _
        (Ends-parse_field present f f.flag_tag fs) (λ fs' x h. Ends-parse_fields present more fs')

  Ends-parse_struct : (p : Pointer) (fs : List Flag) → Ends (parse_struct st p fs)
  unfolding parse_struct
  Ends-parse_struct nothing fs = tt
  Ends-parse_struct (nil_to fields) fs = Ends-parse_fields false fields fs
  Ends-parse_struct (points_to fields) fs = Ends-parse_fields true fields fs
  Ends-parse_struct no_pointer fs = tt

  pub Ends-parse_structs : (ps : List Pointer) (fs : List Flag) → Ends (parse_structs st ps fs)
  unfolding parse_structs
  Ends-parse_structs [] fs = tt
  Ends-parse_structs (p ∷ ps) fs =
      Ensures-after (λ _ _. Unit {0}) (λ _ _. Unit {0}) (parse_struct st p fs) _
        (Ends-parse_struct p fs) (λ fs' x h. Ends-parse_structs ps fs')
