-- ===== src/App/Registry/Starts.antt =====
-- A registry without its flags.
use golang_tools.Base.{◌≡◌, sym, subst, if◌then◌else◌, false, List, ◌∷◌, ◌++◌, inl}
use golang_tools.Base.Run.{Run, done, panic, stuck, Panics, Panics-after}
use golang_tools.App.Flags.{
  Pointer, Flag, Setting, parse_structs, parse_struct, parse_fields, parse_field, define_value,
  define_flag, value_of, default_value, Field, Value, has_flag, nil_to, points_to, nothing,
  no_pointer, parse_config_file, ConfigError,
}
use golang_tools.App.Flags.Registered.{parse_struct-Panics}
use golang_tools.App.Registry.{
  global_cmd_flag, Process, Outside, Event, new_apps, initialize, lift_flags, run, cmd_pointer,
  boot_configs,
}

module _ {W C : Type 0} (out : Outside W C) where
  Panics-lift_flags :
      (p : Process W C) (r : Run (List Flag) (Unit {0})) → Panics r → Panics (lift_flags p r)
  Panics-lift_flags p (done fs x) h = absurd h
  Panics-lift_flags p (panic e fs) h = tt
  Panics-lift_flags p stuck h = absurd h

  -- A registry that was made without AddRegistryGlobalCmdFlag cannot be run: Run panics.
  pub run_unset-Panics :
      (event : Event) (p : Process W C) → p.registry.has_cmd_flag ≡ false → Panics (run out event p)
  unfolding run initialize golang_tools.App.Flags.parse_structs
  run_unset-Panics event p unset =
      let made = new_apps p.registry.out_sides in
      let r = record (p.registry) { apps = p.registry.apps ++ made } in
      let q : Process W C = record p { registry = r } in
      let unread : Panics (
          parse_structs out.setting (cmd_pointer r ∷ p.registry.custom_cmd_flag ∷ boot_configs made)
            p.flags) =
        subst
          (λ b. Panics (
            parse_structs out.setting
              ((if b then points_to global_cmd_flag else nil_to global_cmd_flag)
                ∷ p.registry.custom_cmd_flag
                ∷ boot_configs made)
              p.flags))
          (sym unset)
          (Panics-after (parse_struct out.setting (nil_to global_cmd_flag) p.flags) _
            (parse_struct-Panics out.setting global_cmd_flag p.flags (inl tt))) in
      Panics-after (initialize out p) _
        (Panics-after (lift_flags q _) _ (Panics-lift_flags q _ unread))
