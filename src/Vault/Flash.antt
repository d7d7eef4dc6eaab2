-- ===== src/Vault/Flash.antt =====
-- The vault over the flash storage of vault-rust/src/storage.rs, on a device whose power may be lost
-- within any file operation: from then on nothing is written.
pub mod Steps
pub mod Swap
pub mod Change
pub mod Payment
pub mod Sale
pub mod Tests
use fupi.Common.{String, Bool, List, ◌∷◌}
use fupi.Common.Result.{Result, ok, err}
use fupi.Types.{FlashState}
use fupi.Storage.{
  Codec, Device, StorageError, io_error, save as save_file, wipe as wipe_files, Outcome, returned,
  failed, power_lost,
}
use fupi.Vault.Environment.{Environment}

-- The device, and whether it still has power.
pub data Power : Type 0 where
  on off : Device → Power

abbrev pub device_of : Power → Device
device_of (on d) = d
device_of (off d) = d

abbrev pub no_power : StorageError
no_power = io_error "power lost"

-- What a method hears of a file operation, and the power behind it. Behind a loss of power the program
-- does not go on; what a method does then changes nothing on the device.
abbrev pub heard : Outcome (Unit {0}) × Device → Result StorageError (Unit {0}) × Power
heard (returned a, d) = (ok tt, on d)
heard (failed e, d) = (err e, on d)
heard (power_lost, d) = (err no_power, off d)

module _ (codec : Codec) (has_parent : Bool) where
  abbrev pub save_powered : FlashState → Power → Result StorageError (Unit {0}) × Power
  save_powered state (on d) = heard (save_file codec has_parent state d)
  save_powered state (off d) = (err no_power, off d)

abbrev pub wipe_powered : Power → Result StorageError (Unit {0}) × Power
wipe_powered (on d) = heard (wipe_files d)
wipe_powered (off d) = (err no_power, off d)

-- The environment with `FlashStorage` for its storage.
abbrev pub on_flash : Codec → Bool → Environment → Environment
on_flash codec has_parent env = record {
  World = env.World × Power;
  save = λ state w. let (r, p) = save_powered codec has_parent state w.1 in (r, (w.0, p));
  wipe = λ w. let (r, p) = wipe_powered w.1 in (r, (w.0, p));
  get_keysets = λ w. let (r, w') = env.get_keysets w.0 in (r, (w', w.1));
  get_keyset = λ w. let (r, w') = env.get_keyset w.0 in (r, (w', w.1));
  blind_sign_device = λ blinded d device seq dsig w.
      let (r, w') = env.blind_sign_device blinded d device seq dsig w.0 in (r, (w', w.1));
  swap = λ inputs outputs w. let (r, w') = env.swap inputs outputs w.0 in (r, (w', w.1));
  settle_as = λ p merchant w. let (r, w') = env.settle_as p merchant w.0 in (r, (w', w.1));
  secret_bytes = λ w. let (r, w') = env.secret_bytes w.0 in (r, (w', w.1));
  random_blinder = λ n w. let (r, w') = env.random_blinder n w.0 in (r, (w', w.1));
  key_bytes = λ w. let (r, w') = env.key_bytes w.0 in (r, (w', w.1));
  now = λ w. let (r, w') = env.now w.0 in (r, (w', w.1));
}
