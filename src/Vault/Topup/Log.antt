-- ===== src/Vault/Topup/Log.antt =====
-- A log of what is done with the sequence numbers of a device.
use fupi.Common.{ℕ, ◌≤◌, ◌<◌, ◌≡◌, ◌⊎◌, List, [], ◌∷◌, arith}
use fupi.Common.Result.{ok, err}
use fupi.Vault.Environment.{Environment}

-- What has been done with a sequence number: a state with it was saved, or a request was sent with it.
pub data Event : Type 0 where
  saved : ℕ → Event
  sent : ℕ → Event

-- An environment that keeps a log of its successful saves and of its requests, the last one first.
abbrev pub logged : Environment → Environment
logged env = record {
  World = env.World × List Event;
  save = λ state w.
      let (r, w') = env.save state w.0 in
      (r, (w', elim r [ ok _ ↦ saved state.device_seq ∷ w.1 | err _ ↦ w.1 ]));
  wipe = λ w. let (r, w') = env.wipe w.0 in (r, (w', w.1));
  get_keysets = λ w. let (r, w') = env.get_keysets w.0 in (r, (w', w.1));
  get_keyset = λ w. let (r, w') = env.get_keyset w.0 in (r, (w', w.1));
  blind_sign_device = λ blinded d device seq dsig w.
      let (r, w') = env.blind_sign_device blinded d device seq dsig w.0 in
      (r, (w', sent seq ∷ w.1));
  swap = λ inputs outputs w. let (r, w') = env.swap inputs outputs w.0 in (r, (w', w.1));
  settle_as = λ p merchant w. let (r, w') = env.settle_as p merchant w.0 in (r, (w', w.1));
  secret_bytes = λ w. let (r, w') = env.secret_bytes w.0 in (r, (w', w.1));
  random_blinder = λ n w. let (r, w') = env.random_blinder n w.0 in (r, (w', w.1));
  key_bytes = λ w. let (r, w') = env.key_bytes w.0 in (r, (w', w.1));
  now = λ w. let (r, w') = env.now w.0 in (r, (w', w.1));
}

abbrev pub WasSaved : ℕ → List Event → Type 0
WasSaved n [] = ⊥
WasSaved n (saved m ∷ log) = (n ≡ m) ⊎ WasSaved n log
WasSaved n (sent m ∷ log) = WasSaved n log

-- Every request so far had a number below this one.
abbrev pub IsFresh : ℕ → List Event → Type 0
IsFresh n [] = Unit
IsFresh n (saved m ∷ log) = IsFresh n log
IsFresh n (sent m ∷ log) = (m < n) × IsFresh n log

-- Every request went out with a number that had been saved, and that is above all before it.
abbrev pub IsOrdered : List Event → Type 0
IsOrdered [] = Unit
IsOrdered (saved m ∷ log) = IsOrdered log
IsOrdered (sent n ∷ log) = WasSaved n log × IsFresh n log × IsOrdered log

pub IsFresh-mono : (n m : ℕ) (log : List Event) → n ≤ m → IsFresh n log → IsFresh m log
IsFresh-mono n m [] le h = tt
IsFresh-mono n m (saved k ∷ log) le h = IsFresh-mono n m log le h
IsFresh-mono n m (sent k ∷ log) le h = (omega (arith, h.0, le), IsFresh-mono n m log le h.1)
