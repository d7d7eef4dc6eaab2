-- ===== src/CommandLine/Words.antt =====
-- The words that parse_cli of vault-rust/src/main.rs takes for the subcommand and its arguments.
use fupi.Common.{
  ◌≡◌, refl, String, true, false, inl, inr, none, List, [], ◌∷◌, ◌++◌, All, str_eq, eq_iff,
  Bool-cases,
}
use fupi.Common.Text.{codes, parse_u64}
use fupi.CommandLine.{
  Config, Setting, unknown, next, value_flags, try_flags, set_value, set_switch, is_flag,
  add_positional, plain_of, plain_argument, bad_number, parse_args, parse_cli, initial,
}

-- Neither a flag nor a call for help
pub record IsWord (word : String) : Type 0 where
  pub no_flag : is_flag word ≡ false
  pub no_help : str_eq word "help" ≡ false
  pub no_short_help : str_eq word "-h" ≡ false

differs :
    (word flag : String) → is_flag word ≡ false → is_flag flag ≡ true → str_eq word flag ≡ false
differs word flag plain dashed = elim (Bool-cases (str_eq word flag)) [
  | inr e ↦ e
  | inl e ↦ cc (plain, dashed, (eq_iff word flag).0 e)
]

try_flags-unknown :
    (flags : List (String × (String → Config → Setting))) (word value : String) (k : Config)
    → is_flag word ≡ false
    → All (λ f. is_flag f.0 ≡ true) flags
    → try_flags flags word value k ≡ unknown
unfolding try_flags
try_flags-unknown [] word value k plain all = refl
try_flags-unknown ((flag, set) ∷ flags) word value k plain all =
    rw (differs word flag plain all.0, try_flags) (try_flags-unknown flags word value k plain all.1)

module _ (word : String) (h : IsWord word) where
  set_value-unknown : (value : String) (k : Config) → set_value word value k ≡ unknown
  unfolding set_value value_flags is_flag
  set_value-unknown value k =
      try_flags-unknown value_flags word value k h.no_flag
        (refl, (refl, (refl, (refl, (refl, (refl, (refl, (refl, (refl, (refl, (refl, tt)))))))))))

  plain_argument-next : (k : Config) → plain_argument word k ≡ next (add_positional word k)
  unfolding plain_argument plain_of set_switch is_flag
  plain_argument-next k =
      let other =
        λ (flag : String) (dashed : is_flag flag ≡ true). differs word flag h.no_flag dashed in
      rw
        (
          other "--abandon" refl,
          other "--force" refl,
          other "--insecure" refl,
          other "--strict-tls" refl,
          other "--help" refl,
          h.no_short_help,
          h.no_flag,
          plain_of,
        )
        refl

module _ (value : String) (rest : List String) (bad : parse_u64 (codes value) ≡ none) where
  parse_args-bad_number :
      (words : List String) (k : Config)
      → All IsWord words
      → parse_args (words ++ ("--expect" ∷ value ∷ rest)) k ≡ bad_number
  unfolding parse_args set_value value_flags try_flags
  parse_args-bad_number [] k all = rw (bad, parse_args) refl
  parse_args-bad_number (w ∷ []) k all =
      rw (set_value-unknown w all.0 "--expect" k, plain_argument-next w all.0 k, parse_args)
        (parse_args-bad_number [] (add_positional w k) tt)
  parse_args-bad_number (w ∷ v ∷ words) k all =
      rw (set_value-unknown w all.0 v k, plain_argument-next w all.0 k, parse_args)
        (parse_args-bad_number (v ∷ words) (add_positional w k) all.1)

  pub parse_cli-bad_number :
      (words : List String)
      → All IsWord words
      → parse_cli (words ++ ("--expect" ∷ value ∷ rest)) ≡ bad_number
  unfolding parse_cli
  parse_cli-bad_number [] all = parse_args-bad_number [] initial tt
  parse_cli-bad_number (w ∷ words) all =
      rw (all.0.no_short_help, differs w "--help" all.0.no_flag refl, all.0.no_help, parse_cli)
        (parse_args-bad_number (w ∷ words) initial all)
