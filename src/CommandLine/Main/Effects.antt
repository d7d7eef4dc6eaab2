-- ===== src/CommandLine/Main/Effects.antt =====
-- What a subcommand does to the money of the vault, beside its exit code.
use fupi.Common.{
  ℕ, ◌+◌, ◌≤◌, ◌≡◌, ◌⊎◌, false, some, ltb, if◌then◌else◌, push, String, Bool, not, any, none,
}
use fupi.Common.Result.{ok, err}
use fupi.Types.{Receipt, FlashState, default_state}
use fupi.Crypto.{Crates}
use fupi.Storage.{StorageError}
use fupi.Vault.Errors.{VaultError}
use fupi.Vault.Environment.{Environment, TokenCodec}
use fupi.Vault.Tokens.{verify_token}
use fupi.Vault.Receive.{receive_token, settle_token}
use fupi.Vault.State.{device_public_key, ack_outbox}
use fupi.Vault.Swap.{abandon_pending, recover as recover_swap}
use fupi.CommandLine.Subcommands.{first_of, pin_first_use}
use fupi.Vault.Coins.{balance}
use fupi.Vault.Merchant.{mismatch}
use fupi.Vault.Swap.Balance.{IsBalanced, holdings}
use fupi.CommandLine.{Config}
use fupi.Vault.Session.{Session, Method}
use fupi.CommandLine.Output.{Report}
use fupi.CommandLine.Amount.{amount_of}
use fupi.CommandLine.Main.{
  Subcommand, balance_sub, status, topup, pay, receive, verify, settle, bank, keygen, pin, device,
  allocate, accept, receipts, settle_all, report, payout, recover, outbox, ack, info, wipe, repl,
  unknown,
}

-- The program ends as it should, or with the exit code 1.
abbrev pub IsPlain : ℕ → Type 0
IsPlain code = (code ≡ 0) ⊎ (code ≡ 1)

-- A report with an effect, on a state that stays balanced.
abbrev pub Leaves : {W : Type 0} → (ℕ → Session W → Type 0) → Report → Session W → Type 0
Leaves E r s = IsBalanced s.state.pending_swap × E r.code s

-- What leaves the money alone leaves the account alone.
abbrev pub Kept : {W : Type 0} → FlashState → ℕ → Session W → Type 0
Kept before code s' = IsPlain code × (holdings s'.state ≡ holdings before)

-- A method was called: where it has returned, the exit code is as the answer has it, and where it has
-- failed it is 1.
abbrev pub Ran : {W A : Type 0} → Method W A → (A → ℕ) → Session W → ℕ → Session W → Type 0
Ran {A = A} m exit_code s code s' =
    ((a : A) × (m s ≡ (ok a, s')) × (code ≡ exit_code a))
    ⊎ ((e : VaultError) × (m s ≡ (err e, s')) × (code ≡ 1))

-- So, with what the vault held.
abbrev pub RanKept : {W A : Type 0} → Method W A → (A → ℕ) → Session W → ℕ → Session W → Type 0
RanKept m exit_code s code s' = Ran m exit_code s code s' × (holdings s'.state ≡ holdings s.state)

abbrev pub success : {A : Type 0} → A → ℕ
success a = 0

module _ (cfg : Config) (before : FlashState) where
  -- The amount was added, or the exit code is 1; a part of it may have been added then.
  abbrev pub ToppedUp : {W : Type 0} → ℕ → Session W → Type 0
  ToppedUp code s' =
      ((n : ℕ) × (amount_of cfg.args ≡ some n)
        × (code ≡ 0)
        × (holdings s'.state ≡ holdings before + n))
      ⊎ ((code ≡ 1) × (holdings before ≤ holdings s'.state))

  -- The amount was paid, or the exit code is 1 and nothing was.
  abbrev pub PaidOut : {W : Type 0} → ℕ → Session W → Type 0
  PaidOut code s' =
      ((n : ℕ) × (amount_of cfg.args ≡ some n)
        × (code ≡ 0)
        × (holdings before ≡ n + holdings s'.state))
      ⊎ ((code ≡ 1) × (holdings s'.state ≡ holdings before))

  -- A sale with its receipt: of the invoice that was given, of the amount that was expected if one was,
  -- and that amount is added. Or else the exit code is 1 or 2, and the state is as it was.
  abbrev pub Sold : {W : Type 0} → ℕ → Session W → Type 0
  Sold code s' =
      ((receipt : Receipt) × (code ≡ 0)
        × (s'.state.receipts ≡ push before.receipts receipt)
        × (receipt.invoice ≡ cfg.invoice)
        × (mismatch cfg.expect receipt.amount ≡ false)
        × (holdings s'.state ≡ holdings before + receipt.amount))
      ⊎ (((code ≡ 1) ⊎ (code ≡ 2)) × (s'.state ≡ before))

  -- All that was held has a verdict and has left the vault, with the exit code 2 where value was
  -- rejected. Or else the exit code is 1, and nothing was added.
  abbrev pub Cleared : {W : Type 0} → ℕ → Session W → Type 0
  Cleared code s' =
      ((settled : ℕ) × (rejected : ℕ) × (code ≡ (if ltb 0 rejected then 2 else 0))
        × (balance s'.state ≡ 0)
        × (holdings before ≡ settled + rejected + holdings s'.state))
      ⊎ ((code ≡ 1) × (holdings s'.state ≤ holdings before))

module _ (c : Crates) (t : TokenCodec) (env : Environment) (cfg : Config)
    (s : Session env.World) where
  -- Without a token nothing is done. A token is verified behind a first use of the ATM's keysets.
  abbrev pub Received : ℕ → Session env.World → Type 0
  Received code s' =
      ((first_of cfg.args ≡ none) × (code ≡ 1) × (s' ≡ s))
      ⊎ ((token : String) × (first_of cfg.args ≡ some token)
          × Ran (receive_token c t env token none) success (pin_first_use c t env s) code s'
          × (holdings s.state ≤ holdings s'.state))

  abbrev pub Verified : ℕ → Session env.World → Type 0
  Verified code s' =
      ((first_of cfg.args ≡ none) × (code ≡ 1) × (s' ≡ s))
      ⊎ ((token : String) × (first_of cfg.args ≡ some token)
          × (s' ≡ pin_first_use c t env s)
          × (code ≡ (elim (verify_token c t s'.state token) [ ok proofs ↦ 0 | err e ↦ 1 ]))
          × (holdings s'.state ≡ holdings s.state))

  -- The exit code is 2 where a proof was not settled.
  abbrev pub Settled : ℕ → Session env.World → Type 0
  Settled code s' =
      (s'.state ≡ s.state)
      × (((first_of cfg.args ≡ none) × (code ≡ 1) × (s' ≡ s))
          ⊎ ((token : String) × (first_of cfg.args ≡ some token)
              × Ran (settle_token c t env token cfg.claim_key)
                  (λ results.
                    if any (λ (r : String × Bool × String). not r.1) results then 2 else 0)
                  s code s'))

  abbrev pub Recovered : ℕ → Session env.World → Type 0
  Recovered code s' =
      RanKept (if cfg.abandon then abandon_pending c env else recover_swap c env) success s code s'

  -- The exit code is 1 where there is no such entry.
  abbrev pub Acknowledged : ℕ → Session env.World → Type 0
  Acknowledged code s' =
      (holdings s'.state ≡ holdings s.state)
      × (((amount_of cfg.args ≡ none) × (code ≡ 1) × (s' ≡ s))
          ⊎ ((n : ℕ) × (amount_of cfg.args ≡ some n)
              × Ran (ack_outbox env n) (λ found. if found then 0 else 1) s code s'))

  -- The exit code is 0 just where the storage was wiped, and then nothing is left in memory either.
  abbrev pub Wiped : ℕ → Session env.World → Type 0
  Wiped code s' =
      ((code ≡ 0) × ((env.wipe s.world).0 ≡ ok tt) × (s'.state ≡ default_state))
      ⊎ ((code ≡ 1) × ((d : StorageError) × ((env.wipe s.world).0 ≡ err d)))

  -- What each subcommand does: those that are not about the vault's money leave it as it is, and most of
  -- them leave the whole state.
  abbrev pub Effect : Subcommand → ℕ → Session env.World → Type 0
  Effect topup code s' = ToppedUp cfg s.state code s'
  Effect pay code s' = PaidOut cfg s.state code s'
  Effect receive code s' = Received code s'
  Effect accept code s' = Sold cfg s.state code s'
  Effect settle_all code s' = Cleared cfg s.state code s'
  Effect wipe code s' = Wiped code s'
  Effect recover code s' = Recovered code s'
  Effect verify code s' = Verified code s'
  Effect pin code s' = Kept s.state code s'
  Effect device code s' = RanKept (device_public_key c env) success s code s'
  Effect ack code s' = Acknowledged code s'
  Effect repl code s' = code ≡ 0
  Effect settle code s' = Settled code s'
  Effect balance_sub code s' = (code ≡ 0) × (s' ≡ s)
  Effect status code s' = (code ≡ 0) × (s' ≡ s)
  Effect receipts code s' = (code ≡ 0) × (s' ≡ s)
  Effect outbox code s' = (code ≡ 0) × (s' ≡ s)
  Effect keygen code s' = (code ≡ 0) × (s'.state ≡ s.state)
  Effect bank code s' = IsPlain code × (s'.state ≡ s.state)
  Effect allocate code s' = IsPlain code × (s'.state ≡ s.state)
  Effect report code s' = IsPlain code × (s'.state ≡ s.state)
  Effect payout code s' = IsPlain code × (s'.state ≡ s.state)
  Effect info code s' = IsPlain code × (s'.state ≡ s.state)
  Effect unknown code s' = (code ≡ 1) × (s' ≡ s)

  -- A subcommand's effect, on a state that stays balanced.
  abbrev pub Effects : Subcommand → Report → Session env.World → Type 0
  Effects sub r s' = IsBalanced s'.state.pending_swap × Effect sub r.code s'
