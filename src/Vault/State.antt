-- ===== src/Vault/State.antt =====
-- The remaining methods on the state: the device key, the outbox, the wipe, and
-- what is shown of the coins.
pub mod Breakdown
use fupi.Common.{
  ℕ, ◌+◌, ◌-◌, String, Bool, true, false, ◌||◌, Option, some, List, [], ◌∷◌, length, is_some, ltb,
  ◌==◌, if◌then◌else◌, remove_at, is_none, unwrap_or,
}
use fupi.Common.Result.{ok, map_err}
use fupi.Types.{Proof, FlashState, default_state}
use fupi.Denom.{proof_value}
use fupi.Crypto.{Crates, hex_encode, public_key_of}
use fupi.Vault.Errors.{crypto, storage}
use fupi.Vault.Environment.{Environment}
use fupi.Vault.Session.{
  Method, ◌>>=◌, ◌>>◌, pure, lift, get_state, set_state, call, call_or, save_state,
}

module _ (c : Crates) (env : Environment) where
  -- The generated key is put into the state before it is saved.
  unfoldable pub generate_device_key : Method env.World (Unit {0})
  generate_device_key = do
    sk ← call env.key_bytes
    state ← get_state
    let next : FlashState = record state { device_key = some (hex_encode sk) }
    set_state next
    save_state env next

  unfoldable pub device_public_key : Method env.World String
  unfolding generate_device_key
  device_public_key = do
    state ← get_state
    if is_none state.device_key then generate_device_key else pure tt
    later ← get_state
    lift (map_err crypto (public_key_of c (unwrap_or later.device_key "")))

module _ (env : Environment) where
  -- The token is removed in memory before the state is saved.
  unfoldable pub drop_token : ℕ → Method env.World Bool
  drop_token index_1based = do
    state ← get_state
    let next : FlashState = record state { outbox = remove_at (index_1based - 1) state.outbox }
    set_state next
    save_state env next
    pure true

  unfoldable pub ack_outbox : ℕ → Method env.World Bool
  unfolding drop_token
  ack_outbox index_1based = do
    state ← get_state
    if index_1based == 0 || ltb (length state.outbox) index_1based
        then pure false
        else drop_token index_1based

  unfoldable pub wipe : Method env.World (Unit {0})
  wipe = do set_state default_state; call_or storage env.wipe

module _ {W : Type 0} where
  unfoldable pub set_merchant : Option String → Method W (Unit {0})
  set_merchant label s = (ok tt, record s { merchant = label })

  unfoldable pub set_client : Method W (Unit {0})
  set_client s = (ok tt, record s { has_client = true })

unfoldable pub proof_count : FlashState → ℕ
proof_count state = length state.proofs

unfoldable pub has_pending_swap : FlashState → Bool
has_pending_swap state = is_some state.pending_swap

-- `*m.entry(…).or_default() += 1`, on pairs in falling order.
unfoldable pub count_one : ℕ → List (ℕ × ℕ) → List (ℕ × ℕ)
count_one d [] = (d, 1) ∷ []
count_one d (e ∷ m) =
    let rest = count_one d m in
    if d == e.0 then (d, e.1 + 1) ∷ m else (if ltb e.0 d then (d, 1) ∷ e ∷ m else e ∷ rest)

unfoldable pub tally : List Proof → List (ℕ × ℕ) → List (ℕ × ℕ)
unfolding count_one
tally [] m = m
tally (p ∷ proofs) m = tally proofs (count_one (proof_value p) m)

-- Pairs of a face value and its count, largest first.
unfoldable pub breakdown : FlashState → List (ℕ × ℕ)
unfolding tally
breakdown state = tally state.proofs []
