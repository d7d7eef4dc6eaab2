-- ===== src/CommandLine/Show.antt =====
-- What vault-rust/src/main.rs prints of the vault's state.
use fupi.Common.{
  ℕ, String, ◌<>◌, Bool, true, false, none, some, List, [], ◌∷◌, ◌++◌, map, reverse, take,
  enumerate, length, if◌then◌else◌, unwrap_or, sub64,
}
use fupi.Common.Result.{ok, err}
use fupi.Common.Text.{show}
use fupi.Types.{Proof, Receipt, FlashState}
use fupi.Crypto.{lock_of, hex_encode}
use fupi.Vault.Coins.{balance}
use fupi.Vault.State.{breakdown, has_pending_swap}
use fupi.CommandLine.Output.{Line, outs, Report}
use fupi.CommandLine.Shell.{show_bool}

-- `iter().rev().take(5)`
abbrev pub last_five : List String → List String
last_five journal = take 5 (reverse journal)

-- The subcommand `status`; `path` is the printed flash path.
unfoldable pub status_lines : String → FlashState → List Line
unfolding breakdown has_pending_swap
status_lines path state = outs (
    "FUPI Vault Status"
    ∷ ("  Flash path: " <> path)
    ∷ ("  Bearer Balance: " <> show (balance state))
    ∷ (map (λ b. "    " <> (show b.1 <> (" x " <> show b.0))) (breakdown state)
        ++ ((if has_pending_swap state then "  PENDING SWAP: run `recover`" ∷ [] else [])
            ++ ("  Journal (last 5 entries):"
                ∷ map (λ j. "    - " <> j) (last_five state.journal)))))

-- `STATUS` of the REPL
unfoldable pub repl_status_lines : String → FlashState → List Line
repl_status_lines path state = outs (
    "VAULT STATUS:"
    ∷ ("  Flash Path: " <> path)
    ∷ ("  Bearer Balance: " <> show (balance state))
    ∷ ("  Journal Entries: " <> show (length state.journal))
    ∷ map (λ e. "    [" <> (show e.0 <> ("] " <> e.1))) (enumerate 1 (last_five state.journal)))

unfoldable pub lock_info : Proof → String
unfolding lock_of
lock_info p = elim (lock_of p.secret) [
  | err e ↦ ""
  | ok none ↦ ""
  | ok (some pk) ↦ " [P2PK locked to: " <> (hex_encode pk <> "]")
]

-- Behind a successful `verify`
unfoldable pub verified_lines : List Proof → List Line
unfolding lock_info
verified_lines proofs = outs (
    ("VERIFIED: " <> (show (length proofs) <> " valid proof(s)"))
    ∷ map
        (λ (e : ℕ × Proof).
          "  Proof #" <> (show e.0 <> (": secret=" <> (e.1.secret <> lock_info e.1))))
        (enumerate 1 proofs))

-- `r.amount - r.settled - r.rejected` is a `u64`, and wraps.
unfoldable pub receipt_line : Receipt → String
receipt_line r =
    "#"
    <> (show r.id
        <> (" ts="
            <> (show r.ts
                <> (" invoice="
                    <> (unwrap_or r.invoice "-"
                        <> (" amount="
                            <> (show r.amount
                                <> (" settled="
                                    <> (show r.settled
                                        <> (" rejected="
                                            <> (show r.rejected
                                                <> (" pending="
                                                    <> show (
                                                        sub64 (sub64 r.amount r.settled)
                                                          r.rejected)))))))))))))

unfoldable pub receipts_lines : FlashState → List Line
unfolding receipt_line
receipts_lines state = outs (
    (elim state.receipts [ [] ↦ "(no receipts)" ∷ [] | r ∷ rs ↦ [] ])
    ++ map receipt_line state.receipts)

unfoldable pub outbox_lines : FlashState → List Line
outbox_lines state = outs (
    (elim state.outbox [ [] ↦ "(outbox empty)" ∷ [] | t ∷ ts ↦ [] ])
    ++ map (λ e. "[" <> (show e.0 <> ("] " <> e.1))) (enumerate 1 state.outbox))

-- One answer of `settle`: its secret, whether it was settled, and the message.
abbrev verdict_line : String × Bool × String → String
verdict_line (sec, done, msg) =
    (if done then "SETTLED OK: secret=" else "SETTLE REJECTED: secret=")
    <> (sec <> (" (" <> (msg <> ")")))

unfoldable pub any_failed : List (String × Bool × String) → Bool
any_failed [] = false
any_failed ((sec, done, msg) ∷ results) = if done then any_failed results else true

unfoldable pub settled_report : List (String × Bool × String) → Report
unfolding any_failed
settled_report results = record {
  lines = outs (map verdict_line results);
  code = if any_failed results then 2 else 0;
}

-- `SETTLE` of the REPL
unfoldable pub repl_settled_lines : List (String × Bool × String) → List Line
repl_settled_lines results = outs (
    map
      (λ (e : String × Bool × String).
        "[SETTLE] secret=" <> (e.0 <> (" success=" <> (show_bool e.1 <> (" msg=" <> e.2)))))
      results)
