-- ===== src/Client/Connected.antt =====
-- The vault over the client of vault-rust/src/client.rs: the answers of the ATM that the vault's
-- environment leaves open, as the client makes them from replies.
use fupi.Common.{ℕ, String, List}
use fupi.Common.Result.{Result}
use fupi.Types.{FlashState}
use fupi.Storage.{StorageError}
use fupi.Vault.Environment.{Environment}
use fupi.Client.Agent.{Agent, Json}
use fupi.Client.Calls.{get_keyset, get_keysets, blind_sign_device, swap, settle_as}

-- What an environment has besides the ATM: the storage, randomness and the clock.
pub record Device (W : Type 0) : Type 0 where
  pub save : FlashState → W → Result StorageError (Unit {0}) × W
  pub wipe : W → Result StorageError (Unit {0}) × W
  pub secret_bytes : W → List ℕ × W
  pub random_blinder : ℕ → W → ℕ × W
  pub key_bytes : W → List ℕ × W
  pub now : W → ℕ × W

-- The environment of a vault whose client has this base URL.
abbrev pub connected : (agent : Agent) → Json → String → Device agent.World → Environment
connected agent json base_url device = record {
  World = agent.World;
  save = device.save;
  wipe = device.wipe;
  get_keysets = get_keysets agent json base_url;
  get_keyset = get_keyset agent json base_url;
  blind_sign_device = blind_sign_device agent json base_url;
  swap = swap agent json base_url;
  settle_as = settle_as agent json base_url;
  secret_bytes = device.secret_bytes;
  random_blinder = device.random_blinder;
  key_bytes = device.key_bytes;
  now = device.now;
}
