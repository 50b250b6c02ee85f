-- ===== src/App/Flags.antt =====
-- app/flags/parse_flags.go: the fields of structures become command-line flags. Reflection is modelled by
-- what it shows of a field.
pub mod Registered
pub mod Described
use golang_tools.Base.{
  ℕ, if◌then◌else◌, Bool, true, false, ◌||◌, ◌==◌, List, [], ◌∷◌, ◌++◌, Option, none, some,
}
use golang_tools.Base.Int.{ℤ}
use golang_tools.Base.Run.{Run, done, panic, after, nil_pointer, raised}
use golang_tools.Base.Texts.{Text, text_eq}

-- reflect.Kind, as far as the code tells kinds apart
pub data Kind : Type 0 where
  string_kind int_kind int64_kind bool_kind other_kind : Kind

-- A field with its tags.
pub record Field : Type 0 where
  pub flag_tag : Option Text
  pub desc_tag : Text
  pub default_tag : Option Text
  pub kind : Kind

-- What the interface value holds: nothing, a nil pointer to a structure, a pointer to one, or no pointer.
pub data Pointer : Type 0 where
  nothing : Pointer
  nil_to points_to : List Field → Pointer
  no_pointer : Pointer

pub data Value : Type 0 where
  text_value : Text → Value
  int_value int64_value : ℤ → Value
  bool_value : Bool → Value

-- A flag that is registered, with its default.
pub record Flag : Type 0 where
  pub key : Text
  pub default : Value
  pub desc : Text

-- The environment, and the numbers that strconv.Atoi and strconv.ParseInt return for any text, their
-- errors left aside.
pub record Setting : Type 0 where
  pub env : Text → Option Text
  pub atoi : Text → ℤ
  pub parse_int : Text → ℤ

-- `not_found_flag_`
abbrev pub not_found_prefix : Text
not_found_prefix =
    110 ∷ 111 ∷ 116 ∷ 95 ∷ 102 ∷ 111 ∷ 117 ∷ 110 ∷ 100 ∷ 95 ∷ 102 ∷ 108 ∷ 97 ∷ 103 ∷ 95 ∷ []

-- `true`
abbrev pub true_text : Text
true_text = 116 ∷ 114 ∷ 117 ∷ 101 ∷ []

abbrev pub has_flag : Text → List Flag → Bool
has_flag key [] = false
has_flag key (f ∷ fs) = text_eq key f.key || has_flag key fs

-- A name with `-` in front or `=` anywhere.
abbrev has_equals : Text → Bool
has_equals [] = false
has_equals (c ∷ cs) = c == 61 || has_equals cs

abbrev begins_with_dash : Text → Bool
begins_with_dash [] = false
begins_with_dash (c ∷ cs) = c == 45

-- What the package panics at: such a name, or one that is there.
abbrev pub is_refused : Text → List Flag → Bool
is_refused key fs = begins_with_dash key || has_equals key || has_flag key fs

-- `flag.StringVar` and its like.
unfoldable pub define_flag : Flag → List Flag → Run (List Flag) (Unit {0})
define_flag f fs = if is_refused f.key fs then panic raised fs else done (fs ++ (f ∷ [])) tt

abbrev pub or_default : Text → Option Text → Option Text → Text
or_default key (some v) d = v
or_default key none (some v) = v
or_default key none none = not_found_prefix ++ key

module _ (st : Setting) where
  -- defaultValue
  unfoldable pub default_value : Text → Field → Text
  default_value key f = or_default key (st.env key) f.default_tag

  -- The default of a kind that has flags.
  abbrev pub value_of : Kind → Text → Option Value
  value_of string_kind v = some (text_value v)
  value_of int_kind v = some (int_value (st.atoi v))
  value_of int64_kind v = some (int64_value (st.parse_int v))
  value_of bool_kind v = some (bool_value (text_eq v true_text))
  value_of other_kind v = none

  abbrev pub define_value : Text → Text → Option Value → List Flag → Run (List Flag) (Unit {0})
  define_value key desc none fs = panic raised fs
  define_value key desc (some v) fs =
      define_flag (record { key = key; default = v; desc = desc }) fs

  -- One field; the structure is there, or the pointer to it is nil.
  abbrev pub parse_field : Bool → Field → Option Text → List Flag → Run (List Flag) (Unit {0})
  parse_field present f none fs = done fs tt
  parse_field present f (some key) fs =
      if present
      then define_value key f.desc_tag (value_of f.kind (default_value key f)) fs
      else panic nil_pointer fs

  -- The loop of flagParseStruct2Flags.
  unfoldable pub parse_fields : Bool → List Field → List Flag → Run (List Flag) (Unit {0})
  parse_fields present [] fs = done fs tt
  parse_fields present (f ∷ more) fs =
      after (parse_field present f f.flag_tag fs) (λ fs' _. parse_fields present more fs')

  -- flagParseStruct2Flags
  unfoldable pub parse_struct : Pointer → List Flag → Run (List Flag) (Unit {0})
  parse_struct nothing fs = done fs tt
  parse_struct (nil_to fields) fs = parse_fields false fields fs
  parse_struct (points_to fields) fs = parse_fields true fields fs
  parse_struct no_pointer fs = panic raised fs

  -- ParseWithStructPointers, up to flag.Parse.
  unfoldable pub parse_structs : List Pointer → List Flag → Run (List Flag) (Unit {0})
  parse_structs [] fs = done fs tt
  parse_structs (p ∷ ps) fs = after (parse_struct p fs) (λ fs' _. parse_structs ps fs')

-- The errors of ParseWithConfigFileContent.
pub data ConfigError : Type 0 where
  not_loaded not_parsed : ConfigError

abbrev pub unmarshalled : {C : Type 0} → C × Bool → C × Option ConfigError
unmarshalled (new, false) = (new, some not_parsed)
unmarshalled (new, true) = (new, none)

-- ParseWithConfigFileContent: `read_file` is ioutil.ReadFile, `unmarshal` yaml.Unmarshal over a structure,
-- with its success; an error may leave a part of the file in the structure.
unfoldable pub parse_config_file :
    {C : Type 0} → (Text → Option Text) → (Text → C → C × Bool) → Text → C → C × Option ConfigError
parse_config_file read_file unmarshal path config = elim (read_file path) [
  | none ↦ (config, some not_loaded)
  | some content ↦ unmarshalled (unmarshal content config)
]
