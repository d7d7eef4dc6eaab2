-- ===== src/CommandLine/Usage.antt =====
-- The help text of vault-rust/src/main.rs. It stands in a raw string, in which a backslash stays one.
use fupi.Common.{String, List, [], ◌∷◌}
use fupi.CommandLine.Output.{Line, outs}

abbrev pub usage_text : List String
usage_text =
    "" ∷ "FUPI Lightweight Rust Vault (for Raspberry Pi & Desktop)"
    ∷ "Zero-middleman offline digital cash. The token itself IS the money." ∷ "" ∷ "Usage:"
    ∷ "  fupi-vault <subcommand> [options]" ∷ "" ∷ "Subcommands:"
    ∷ "  pin [--force]        Pin the ATM's denomination keysets (prints fingerprints to verify out-of-band)"
    ∷ "  device               Print this vault's device public key (the operator allocates quota to it)"
    ∷ "  allocate <pubkey> <amount>"
    ∷ "                       OPERATOR: give a device an issuance quota (needs FUPI_CREDIT_SECRET; --ref <unique id>)"
    ∷ "  topup <amount>       Withdraw <amount> of value as denominated proofs (--lock <pubkey> to lock them)"
    ∷ "  pay <amount>         Pay exactly <amount>, making change via the ATM if needed; --p2pk <pubkey> spends proofs locked to that key"
    ∷ "  accept <token>       MERCHANT: verify offline, store, write a receipt (--invoice <id>, --expect <amount>)"
    ∷ "  receipts             MERCHANT: list accepted payments and their settlement status"
    ∷ "  settle-all           MERCHANT: settle every held proof at the ATM when online (--claim-key for locked proofs)"
    ∷ "  report               OPERATOR: settlement log + what each merchant is owed (--since <seq>, --merchant <label>)"
    ∷ "  payout <merchant> <amount>"
    ∷ "                       OPERATOR: record a bank payout to a merchant (--ref <bank UTR>, unique)"
    ∷ "  recover [--abandon]  Finish an interrupted change-making swap (--abandon restores its inputs if the ATM refused it)"
    ∷ "  outbox               List emitted tokens not yet acknowledged (never lose a token you generated)"
    ∷ "  ack <n>              Drop token #n from the outbox once the receiver has it"
    ∷ "  receive <token>      Receive/import verified bearer tokens into vault (OFFLINE)"
    ∷ "  balance              Show spendable value (sum of denominations)"
    ∷ "  verify <token>       Verify a received token locally (OFFLINE, zero network)"
    ∷ "  settle <token>       Settle/redeem a bearer token at the ATM (--claim-key <hex> for locked proofs)"
    ∷ "  keygen               Generate an ed25519 claim keypair for P2PK-locked proofs"
    ∷ "  bank <amount>        OPERATOR: credit the ATM reserve (needs FUPI_CREDIT_SECRET; --ref <unique id>)"
    ∷ "  info                 Query ATM status and TLS certificate fingerprint"
    ∷ "  status               Display detailed vault balance, journal, and flash path"
    ∷ "  wipe                 Wipe all proofs and journal from flash memory"
    ∷ "  repl                 Enter interactive terminal REPL" ∷ "" ∷ "Flags:"
    ∷ "  --atm <url>          ATM endpoint (default: https://127.0.0.1:8890)"
    ∷ "  --flash <file>       Flash storage path (default: vault_flash.json)"
    ∷ "  --pin-tls <sha256>   Trust ONLY the ATM TLS certificate with this SHA-256 fingerprint (self-signed kiosk)"
    ∷ "  --insecure           DANGEROUS: accept any TLS certificate (local development only)"
    ∷ "  --p2pk <pubkey>      (pay) spend proofs locked to this ed25519 public key (hex)"
    ∷ "  --lock <pubkey>      (topup) lock new proofs to this ed25519 public key (hex)"
    ∷ "  --claim-key <hex>    (settle) ed25519 secret key that signs claims for locked proofs"
    ∷ "  --merchant <label>   (settle, settle-all) payee label recorded on the kiosk settlement log\\n  --since <seq>        (report) only entries after this sequence number\\n  --invoice <id>       (accept) invoice / order id to record on the receipt\\n  --expect <amount>    (accept) refuse the token unless it is worth exactly this\\n  --ref <id>           (bank) unique payment reference; replays are rejected"
    ∷ "  --force              (pin) replace an already pinned keyset" ∷ "" ∷ []

-- `print_usage`
unfoldable pub print_usage : List Line
print_usage = outs usage_text
