-- ===== src/CommandLine/Settings.antt =====
-- What one argument may change: only `--insecure` drops the checks of a certificate.
use fupi.Common.{
  arith, ℕ, ◌≡◌, refl, ◌⊎◌, inl, inr, String, true, false, ◌||◌, Option, none, some, List, [], ◌∷◌,
  str_eq, All, Bool-cases, if◌then◌else◌,
}
use fupi.Common.Text.{codes, parse_u64, is_empty_text}
use fupi.CommandLine.{
  Config, Setting, set_to, bad_value, unknown, value_flags, try_flags, set_value, set_switch,
  is_flag, add_positional, Plain, plain_of, next, wants_help, refused, plain_argument,
}

-- A setting that leaves the checks of certificates as they are.
abbrev pub Keeps : Config → Setting → Type 0
Keeps k (set_to k') = k'.insecure ≡ k.insecure
Keeps k bad_value = Unit
Keeps k unknown = Unit

pub expect-Keeps :
    (k : Config) (n : Option ℕ)
    → Keeps k (elim n [ some n ↦ set_to (record k { expect = some n }) | none ↦ bad_value ])
expect-Keeps k none = tt
expect-Keeps k (some n) = refl

abbrev pub AllKeep : List (String × (String → Config → Setting)) → Type 0
AllKeep = All (λ e. (value : String) (k : Config) → Keeps k (e.1 value k))

pub value_flags-AllKeep : AllKeep value_flags
unfolding value_flags
value_flags-AllKeep = (
  λ value k. refl,
  (
    λ value k. refl,
    (
      λ value k. refl,
      (
        λ value k. refl,
        (
          λ value k. refl,
          (
            λ value k. refl,
            (
              λ value k. refl,
              (
                λ value k. refl,
                (
                  λ value k. refl,
                  (λ value k. refl, (λ value k. expect-Keeps k (parse_u64 (codes value)), tt)),
                ),
              ),
            ),
          ),
        ),
      ),
    ),
  ),
)

pub try_flags-Keeps :
    (flags : List (String × (String → Config → Setting)))
    → AllKeep flags
    → (arg value : String) (k : Config) → Keeps k (try_flags flags arg value k)
unfolding try_flags
try_flags-Keeps [] all arg value k = tt
try_flags-Keeps ((flag, set) ∷ flags) all arg value k = elim (Bool-cases (str_eq arg flag)) [
  | inl e ↦ rw (e, try_flags) (all.0 value k)
  | inr e ↦ rw (e, try_flags) (try_flags-Keeps flags all.1 arg value k)
]

pub set_value-Keeps : (arg value : String) (k : Config) → Keeps k (set_value arg value k)
unfolding set_value
set_value-Keeps = try_flags-Keeps value_flags value_flags-AllKeep

-- A switch that drops the checks is called `--insecure`.
abbrev pub Relaxes : String → Config → Setting → Type 0
Relaxes arg k (set_to k') =
    (k'.insecure ≡ k.insecure) ⊎ (k'.insecure ≡ false) ⊎ (str_eq arg "--insecure" ≡ true)
Relaxes arg k bad_value = Unit
Relaxes arg k unknown = Unit

pub set_switch-Relaxes : (arg : String) (k : Config) → Relaxes arg k (set_switch arg k)
unfolding set_switch
set_switch-Relaxes arg k = ground arith

abbrev pub PlainRelaxes : String → Config → Plain → Type 0
PlainRelaxes arg k (next k') =
    (k'.insecure ≡ k.insecure) ⊎ (k'.insecure ≡ false) ⊎ (str_eq arg "--insecure" ≡ true)
PlainRelaxes arg k wants_help = Unit
PlainRelaxes arg k refused = Unit

pub positional_keeps : (arg : String) (k : Config) → (add_positional arg k).insecure ≡ k.insecure
unfolding add_positional
positional_keeps arg k = elim (Bool-cases (is_empty_text k.subcommand)) [
  | inl e ↦ rw e refl
  | inr e ↦ rw e refl
]

pub other_argument :
    (arg : String) (k : Config)
    → PlainRelaxes arg k (
        if str_eq arg "--help" || str_eq arg "-h"
        then wants_help
        else if is_flag arg
        then refused
        else next (add_positional arg k))
other_argument arg k = elim (Bool-cases (str_eq arg "--help" || str_eq arg "-h")) [
  | inl e ↦ rw e tt
  | inr e ↦ elim (Bool-cases (is_flag arg)) [
    | inl e2 ↦ rw (e, e2) tt
    | inr e2 ↦ rw (e, e2) (inl (positional_keeps arg k))
  ]
]

pub plain_of-Relaxes :
    (arg : String) (k : Config) (s : Setting)
    → Relaxes arg k s
    → PlainRelaxes arg k (plain_of arg k s)
unfolding plain_of
plain_of-Relaxes arg k (set_to k') r = r
plain_of-Relaxes arg k bad_value r = other_argument arg k
plain_of-Relaxes arg k unknown r = other_argument arg k

pub plain_argument-Relaxes : (arg : String) (k : Config) → PlainRelaxes arg k (plain_argument arg k)
unfolding plain_argument
plain_argument-Relaxes arg k = plain_of-Relaxes arg k (set_switch arg k) (set_switch-Relaxes arg k)
