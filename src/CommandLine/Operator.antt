-- ===== src/CommandLine/Operator.antt =====
-- The subcommands of `main` in vault-rust/src/main.rs that only call the ATM: those of the operator, and
-- `info`.
use fupi.Common.{String, ◌<>◌, Option, none, some, List, [], ◌∷◌, ◌++◌, map, unwrap_or}
use fupi.Common.Result.{Result, err, map_err}
use fupi.Common.Text.{codes, show, parse_u64}
use fupi.Types.Wire.{AtmInfo}
use fupi.Vault.Errors.{ClientError, client_error_text}
use fupi.Client.Agent.{Agent, Json, Hmac}
use fupi.Client.Calls.{get_info}
use fupi.Client.Operator.{credit_reserve, allocate, settlements, payout}
use fupi.CommandLine.{Config}
use fupi.CommandLine.Output.{
  Line, outs, Report, done, printed, failed_with, Action, exit, ask, given, provided,
}
use fupi.CommandLine.Shell.{Shell, show_int, show_bool}
use fupi.CommandLine.Subcommands.{first_of}

-- `cfg.args[0]` and `cfg.args[1]`, where there are two
abbrev pub two_of : List String → Option (String × String)
two_of [] = none
two_of (arg ∷ []) = none
two_of (arg ∷ second ∷ args) = some (arg, second)

abbrev pub no_secret : String
no_secret = "set FUPI_CREDIT_SECRET (same value the kiosk was started with)"

abbrev pub no_client : Report
no_client = failed_with "No ATM client configured"

abbrev pub client_failed : String → ClientError → Report
client_failed text e = failed_with (text <> (": " <> client_error_text e))

module _ (json : Json) where
  abbrev fingerprint_line : Option String → List String
  fingerprint_line none = []
  fingerprint_line (some fp) = ("  TLS SHA-256 Fingerprint: " <> fp) ∷ []

  module _ {W : Type 0} (shell : Shell json W) where
    -- `v[name].as_str().unwrap_or("")`, and `v[name]` as it is printed
    abbrev text_field : json.Value → String → String
    text_field v name = unwrap_or (shell.as_str (shell.field v name)) ""

    abbrev json_field : json.Value → String → String
    json_field v name = shell.display (shell.field v name)

    -- `v[name].as_array().into_iter().flatten()`
    abbrev rows : json.Value → String → List json.Value
    rows v name = unwrap_or (shell.as_array (shell.field v name)) []

    unfoldable pub entry_line : json.Value → String
    entry_line e =
        "#"
        <> (json_field e "seq"
            <> (" "
                <> (text_field e "at"
                    <> (" merchant="
                        <> (text_field e "merchant"
                            <> (" amount="
                                <> (json_field e "amount"
                                    <> (" keyset="
                                        <> (text_field e "keyset_id"
                                            <> (" proof=" <> text_field e "proof"))))))))))

    unfoldable pub merchant_line : json.Value → String
    merchant_line m =
        text_field m "merchant"
        <> (": settled="
            <> (json_field m "settled"
                <> (" paid="
                    <> (json_field m "paid"
                        <> (" OWED="
                            <> (json_field m "owed"
                                <> (" (" <> (json_field m "count" <> " proofs)"))))))))

    unfoldable pub reconcile_line : json.Value → String
    reconcile_line rc =
        "-- reconcile: reserve="
        <> (json_field rc "reserve"
            <> (" issued="
                <> (json_field rc "issued_outstanding"
                    <> (" owed_total="
                        <> (json_field rc "owed_total"
                            <> (" fully_backed="
                                <> (json_field rc "fully_backed"
                                    <> (" ledger_consistent="
                                        <> json_field rc "ledger_consistent"))))))))

    unfoldable pub settlement_lines : json.Value → List Line
    unfolding entry_line merchant_line reconcile_line
    settlement_lines v = outs (
        map entry_line (rows v "entries")
        ++ ("-- merchant balances --"
            ∷ (map merchant_line (rows v "merchants")
                ++ (reconcile_line (shell.field v "reconcile") ∷ []))))

    unfoldable pub payout_line : json.Value → String
    payout_line v =
        "PAYOUT RECORDED merchant="
        <> (text_field v "merchant"
            <> (" paid=" <> (json_field v "paid" <> (" owed=" <> json_field v "owed"))))

    unfoldable pub info_lines : AtmInfo json.F → List Line
    info_lines info = outs (
        "ATM Information:"
        ∷ ("  Name: " <> info.name)
        ∷ ("  Version: " <> info.version)
        ∷ ("  Keyset ID: " <> info.keyset_id)
        ∷ ("  1:1 Reserve: " <> shell.show_2 info.reserve)
        ∷ ("  Issued Tokens: " <> show_int info.issued)
        ∷ ("  Settled Proofs: " <> show info.spent_count)
        ∷ ("  TLS Active: " <> show_bool info.tls_enabled)
        ∷ fingerprint_line info.tls_fingerprint_sha256)

    -- `reference.unwrap_or_else(…)`: the clock is read only where no reference was given.
    unfoldable pub reference_or : String → Option String → W → String × W
    reference_or prefix (some reference) w = (reference, w)
    reference_or prefix none w = let (ns, w') = shell.nanos w in (prefix <> show ns, w')

module _ (agent : Agent) (json : Json) (hmac : Hmac) (base_url : String)
    (shell : Shell json agent.World) where
  -- Behind the secret of `do_credit`
  unfoldable pub credit_with :
      json.F → Option String → Option String → agent.World → Result String json.F × agent.World
  unfolding reference_or credit_reserve
  credit_with amount reference none w = (err no_secret, w)
  credit_with amount reference (some secret) w =
      let (ref, w1) = reference_or json shell "cli-" reference w in
      let (r, w2) = credit_reserve agent json hmac base_url amount ref secret w1 in
      (map_err client_error_text r, w2)

  unfoldable pub do_credit :
      json.F → Option String → agent.World → Result String json.F × agent.World
  unfolding credit_with
  do_credit amount reference = credit_with amount reference shell.credit_secret

  unfoldable pub run_bank : Config → Action agent.World
  unfolding do_credit
  run_bank cfg = given (first_of cfg.args) (failed_with "Usage: fupi-vault bank <amount>") λ arg.
      given (shell.parse_f64 arg) (failed_with ("Invalid bank amount: " <> arg)) λ amount s.
        provided s.has_client no_client
          (ask (do_credit amount cfg.reference) (λ e. failed_with ("Bank credit failed: " <> e))
            λ reserve. exit (printed ("ATM Reserve credited: " <> shell.show_2 reserve)))
          s

  unfoldable pub run_allocate : Config → Action agent.World
  unfolding reference_or allocate
  run_allocate cfg =
      given (two_of cfg.args)
        (failed_with "Usage: fupi-vault allocate <device-pubkey-hex> <amount> [--ref <id>]")
        λ args.
          given (shell.parse_f64 args.1) (failed_with ("Invalid amount: " <> args.1)) λ amount.
            given shell.credit_secret (failed_with no_secret) λ secret s.
              let (reference, w) = reference_or json shell "alloc-" cfg.reference s.world in
              provided s.has_client no_client
                (ask (allocate agent json hmac base_url args.0 amount reference secret)
                  (client_failed "Allocate failed")
                  λ total. exit (printed ("Device allocation is now " <> shell.show_2 total)))
                (record s { world = w })

  unfoldable pub run_report : Config → Action agent.World
  unfolding settlements settlement_lines
  run_report cfg = given shell.credit_secret (failed_with no_secret) λ secret s.
      provided s.has_client no_client
        (ask (settlements agent json hmac base_url cfg.since cfg.merchant secret)
          (client_failed "Report failed") λ v. exit (done (settlement_lines json shell v)))
        s

  unfoldable pub run_payout : Config → Action agent.World
  unfolding payout payout_line
  run_payout cfg =
      given (two_of cfg.args)
        (failed_with "Usage: fupi-vault payout <merchant> <amount> --ref <bank UTR>")
        λ args.
          given (parse_u64 (codes args.1)) (failed_with ("Invalid amount: " <> args.1)) λ amount.
            given cfg.reference
              (failed_with "--ref <bank UTR> is required: it makes the payout replay-safe")
              λ reference. given shell.credit_secret (failed_with no_secret) λ secret s.
                provided s.has_client no_client
                  (ask (payout agent json hmac base_url args.0 amount reference secret)
                    (client_failed "Payout failed") λ v. exit (printed (payout_line json shell v)))
                  s

  unfoldable pub run_info : Action agent.World
  unfolding get_info info_lines
  run_info s =
      provided s.has_client no_client
        (ask (get_info agent json base_url) (client_failed "Failed to query ATM")
          λ info. exit (done (info_lines json shell info)))
        s
