-- ===== src/CommandLine.antt =====
-- The command line of vault-rust/src/main.rs: `parse_cli`, and the client that `main` makes.
pub mod Words
pub mod Output
pub mod Usage
pub mod Shell
pub mod Show
pub mod Settings
pub mod Flags
pub mod Amount
pub mod Subcommands
pub mod Operator
pub mod Repl
pub mod Outcomes
pub mod Main
pub mod Tests
use fupi.Common.{
  ℕ, String, ◌<>◌, Bool, true, false, ◌||◌, Option, none, some, List, [], ◌∷◌, str_eq,
  if◌then◌else◌, push, unwrap_or,
}
use fupi.Common.Result.{ok, err}
use fupi.CommandLine.Output.{Line, complaint}
use fupi.CommandLine.Usage.{print_usage}
use fupi.Common.Text.{codes, parse_u64, is_empty_text}
use fupi.Client.Tls.{TlsMode, strict, pinned, insecure as insecure_mode, AtmClient, with_tls}

pub record Config : Type 0 where
  pub subcommand : String
  pub args : List String
  pub atm_url : String
  pub flash_path : String
  pub p2pk : Option String
  pub lock : Option String
  pub claim_key : Option String
  pub pin_tls : Option String
  pub reference : Option String
  pub force : Bool
  pub abandon : Bool
  pub invoice : Option String
  pub merchant : Option String
  pub since : ℕ
  pub expect : Option ℕ
  pub insecure : Bool

-- The values that the parser starts from.
abbrev pub initial : Config
initial = record {
  subcommand = "";
  args = [];
  atm_url = "https://127.0.0.1:8890";
  flash_path = "vault_flash.json";
  p2pk = none;
  lock = none;
  claim_key = none;
  pin_tls = none;
  reference = none;
  force = false;
  abandon = false;
  invoice = none;
  merchant = none;
  since = 0;
  expect = none;
  insecure = false;
}

-- `Some(config)`; `None`, with what was printed; or the end of the process behind the help text.
pub data Parsed : Type 0 where
  run : Config → Parsed
  stop : List Line → Parsed
  help : Parsed

-- What a flag makes of the configuration; `unknown` where it is no flag of this kind.
pub data Setting : Type 0 where
  set_to : Config → Setting
  bad_value : Setting
  unknown : Setting

-- The flags that take the next argument as their value, in the order in which they are tried.
unfoldable pub value_flags : List (String × (String → Config → Setting))
unfolding parse_u64
value_flags =
    ("--atm", λ value k. set_to (record k { atm_url = value }))
    ∷ ("--flash", λ value k. set_to (record k { flash_path = value }))
    ∷ ("--p2pk", λ value k. set_to (record k { p2pk = some value }))
    ∷ ("--lock", λ value k. set_to (record k { lock = some value }))
    ∷ ("--claim-key", λ value k. set_to (record k { claim_key = some value }))
    ∷ ("--pin-tls", λ value k. set_to (record k { pin_tls = some value }))
    ∷ ("--ref", λ value k. set_to (record k { reference = some value }))
    ∷ ("--invoice", λ value k. set_to (record k { invoice = some value }))
    ∷ ("--merchant", λ value k. set_to (record k { merchant = some value }))
    ∷ ("--since", λ value k. set_to (record k { since = unwrap_or (parse_u64 (codes value)) 0 }))
    ∷ (
      "--expect",
      λ value k. elim (parse_u64 (codes value)) [
        | some n ↦ set_to (record k { expect = some n })
        | none ↦ bad_value
      ],
    )
    ∷ []

unfoldable pub try_flags :
    List (String × (String → Config → Setting)) → String → String → Config → Setting
try_flags [] arg value k = unknown
try_flags ((flag, set) ∷ flags) arg value k =
    if str_eq arg flag then set value k else try_flags flags arg value k

unfoldable pub set_value : String → String → Config → Setting
unfolding value_flags try_flags
set_value = try_flags value_flags

unfoldable pub set_switch : String → Config → Setting
set_switch arg k =
    if str_eq arg "--abandon"
    then set_to (record k { abandon = true })
    else if str_eq arg "--force"
    then set_to (record k { force = true })
    else if str_eq arg "--insecure"
    then set_to (record k { insecure = true })
    else if str_eq arg "--strict-tls"
    then set_to (record k { insecure = false })
    else unknown

-- `arg.starts_with("--")`
unfoldable pub is_flag : String → Bool
is_flag String.[] = false
is_flag (String.◌∷◌ c String.[]) = false
is_flag (String.◌∷◌ c (String.◌∷◌ d s)) = str_eq (String.◌∷◌ c (String.◌∷◌ d "")) "--"

unfoldable pub add_positional : String → Config → Config
add_positional arg k =
    if is_empty_text k.subcommand
    then record k { subcommand = arg }
    else record k { args = push k.args arg }

-- What an argument is that takes no value: a switch, a call for help, a flag that is refused, or the
-- subcommand and its arguments.
pub data Plain : Type 0 where
  next : Config → Plain
  wants_help refused : Plain

unfoldable pub plain_of : String → Config → Setting → Plain
unfolding is_flag add_positional
plain_of arg k (set_to k') = next k'
plain_of arg k _ =
    if str_eq arg "--help" || str_eq arg "-h"
    then wants_help
    else if is_flag arg
    then refused
    else next (add_positional arg k)

unfoldable pub plain_argument : String → Config → Plain
unfolding set_switch plain_of
plain_argument arg k = plain_of arg k (set_switch arg k)

abbrev pub unknown_flag : String → Parsed
unknown_flag arg = stop (complaint ("Unknown flag: " <> arg) ∷ [])

abbrev pub bad_number : Parsed
bad_number = stop (complaint "--expect needs a whole number" ∷ [])

-- The loop over the arguments. A flag with a value needs an argument behind it.
unfoldable pub parse_args : List String → Config → Parsed
unfolding set_value plain_argument
parse_args [] k = run k
parse_args (arg ∷ []) k = elim (plain_argument arg k) [
  | next k' ↦ run k'
  | wants_help ↦ help
  | refused ↦ unknown_flag arg
]
parse_args (arg ∷ value ∷ rest) k = elim (set_value arg value k) [
  | set_to k' ↦ parse_args rest k'
  | bad_value ↦ bad_number
  | unknown ↦ elim (plain_argument arg k) [
    | next k' ↦ parse_args (value ∷ rest) k'
    | wants_help ↦ help
    | refused ↦ unknown_flag arg
  ]
]

unfoldable pub parse_cli : List String → Parsed
unfolding parse_args print_usage
parse_cli [] = stop print_usage
parse_cli (first ∷ rest) =
    if str_eq first "-h" || str_eq first "--help" || str_eq first "help"
    then stop print_usage
    else parse_args (first ∷ rest) initial

-- `main`: how the client of the vault is made. Without one, the vault works offline.
unfoldable pub tls_of : Config → TlsMode
tls_of cfg = elim cfg.pin_tls [
  | some fp ↦ pinned fp
  | none ↦ if cfg.insecure then insecure_mode else strict
]

unfoldable pub client_of : Config → Option AtmClient
unfolding tls_of with_tls
client_of cfg = elim (with_tls cfg.atm_url (tls_of cfg)) [ ok client ↦ some client | err e ↦ none ]
