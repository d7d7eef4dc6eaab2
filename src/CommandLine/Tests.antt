-- ===== src/CommandLine/Tests.antt =====
-- The command line at concrete inputs.
use fupi.Common.{◌≡◌, refl, String, Bool, true, some, none, List, [], ◌∷◌}
use fupi.Client.Tls.{AtmClient, accept_all}
use fupi.CommandLine.{Config, initial, run, parse_cli, is_flag, client_of}
use fupi.CommandLine.Flags.{IsGiven, client_of-IsGiven}
use fupi.Vault.Environment.{Environment}
use fupi.Vault.Session.{Session}
use fupi.Client.Connected.{connected}
use fupi.Client.Tests.{toy_agent, toy_json, toy_device}
use fupi.Vault.Tests.{swapping}

abbrev arguments : List String
arguments = "--insecure" ∷ "pay" ∷ "70" ∷ "--since" ∷ "x" ∷ []

abbrev parsed : Config
parsed = record initial { subcommand = "pay"; args = "70" ∷ []; insecure = true }

parsed_run : parse_cli arguments ≡ run parsed
unfolding parse_cli is_flag
parsed_run = refl

abbrev relaxed : AtmClient
relaxed = record { base_url = "https://127.0.0.1:8890"; verifier = some accept_all }

made : client_of parsed ≡ some relaxed
unfolding client_of
made = refl

client_of-IsGiven_example : IsGiven "--insecure" arguments
client_of-IsGiven_example = client_of-IsGiven arguments parsed relaxed parsed_run made refl

-- The vault over the client, whose ATM accepts one request and refuses the next.
abbrev over_http : Environment
over_http = connected toy_agent toy_json "https://atm" toy_device

abbrev online : Session Bool
online = record { state = swapping; has_client = true; merchant = none; world = true }
