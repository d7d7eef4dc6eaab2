-- ===== src/CommandLine/Main/Tests.antt =====
-- The program at concrete inputs: a vault with two coins and an unfinished swap.
use fupi.Common.{◌≡◌, refl, String, Bool, true, false, none, some, List, [], ◌∷◌, map, str_eq}
use fupi.Common.Result.{Result, ok}
use fupi.Common.Text.{codes, parse_u64, is_whitespace}
use fupi.Types.{FlashState}
use fupi.Storage.{StorageError}
use fupi.Crypto.Tests.{toy_crates}
use fupi.Vault.Session.{Session}
use fupi.Vault.Keysets.{find_keyset}
use fupi.Vault.Tests.{toy_codec, toy_env, fives, state, session, swapping}
use fupi.Client.Tests.{toy_agent, toy_json, toy_hmac, toy_device}
use fupi.CommandLine.{Config, initial, is_flag}
use fupi.CommandLine.Outcomes.{Ends}
use fupi.CommandLine.Shell.{Shell}
use fupi.CommandLine.Subcommands.{run_pin}
use fupi.CommandLine.Repl.{nothing, leave, asked, pay, wipe, unheard, hear, split_whitespace}
use fupi.CommandLine.Words.{IsWord}
use fupi.CommandLine.Main.{main, subcommand_of, pay as pay_sub, unknown}
use fupi.CommandLine.Main.Pinning.{Remembers, run_pin-Remembers}
use fupi.CommandLine.Main.Program.{main-bad_number}

abbrev toy_shell : Shell toy_json Bool
toy_shell = record {
  credit_secret = some "key";
  nanos = λ w. (1, w);
  parse_f64 = λ text. parse_u64 (codes text);
  show_2 = λ n. "0.00";
  debug_path = λ path. path;
  to_uppercase = λ text. text;
  field = λ v name. name;
  as_array = λ v. none;
  as_str = λ v. some v;
  display = λ v. v;
}

abbrev toy_load : Bool → Result StorageError FlashState × Bool
toy_load w = (ok swapping, w)

abbrev paying : Config
paying = record initial { subcommand = "pay"; args = "5" ∷ [] }

known : subcommand_of "pay" ≡ pay_sub
unfolding subcommand_of
known = refl

unknown_name : subcommand_of "Pay" ≡ unknown
unfolding subcommand_of
unknown_name = refl

word :
    (text : String)
    → is_flag text ≡ false
    → str_eq text "help" ≡ false
    → str_eq text "-h" ≡ false
    → IsWord text
word text e f g = record { no_flag = e; no_help = f; no_short_help = g }

main-bad_number_example :
    let ended =
      main toy_crates toy_codec toy_agent toy_json toy_hmac toy_shell toy_device toy_load []
        ("accept" ∷ "9" ∷ "--expect" ∷ "5O" ∷ [])
        true in
    (ended.report.code ≡ 0) × (ended.vault ≡ none) × (ended.world ≡ true)
unfolding parse_u64 is_flag
main-bad_number_example =
    main-bad_number toy_crates toy_codec toy_agent toy_json toy_hmac toy_shell toy_device toy_load
      [] ("accept" ∷ "9" ∷ []) "5O" [] true
      (word "accept" refl refl refl, (word "9" refl refl refl, tt)) refl

words : split_whitespace " PAY  5 " ≡ "PAY" ∷ "5" ∷ []
unfolding split_whitespace is_whitespace
words = refl

abbrev lines : List String
lines = "PAY 5\n" ∷ "\n" ∷ "WHAT\n" ∷ "WIPE\n" ∷ "QUIT\n" ∷ "PAY 5\n" ∷ []

heard :
    map (hear (λ text. text)) lines
    ≡ asked pay ("5" ∷ [])
      ∷ nothing
      ∷ unheard "WHAT"
      ∷ asked wipe []
      ∷ leave
      ∷ asked pay ("5" ∷ [])
      ∷ []
unfolding hear is_whitespace
heard = refl

abbrev online_session : Session Bool
online_session = record { state = swapping; has_client = true; merchant = none; world = true }

run_pin-Remembers_example :
    Ends
      (Remembers toy_crates toy_codec toy_env initial (session state) "go-mvp-d5" fives)
      (run_pin toy_crates toy_codec toy_env initial (session state))
unfolding find_keyset
run_pin-Remembers_example =
    run_pin-Remembers toy_crates toy_codec toy_env initial (session state) "go-mvp-d5" fives refl
      refl
