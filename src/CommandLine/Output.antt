-- ===== src/CommandLine/Output.antt =====
-- What the program of vault-rust/src/main.rs leaves behind: printed lines and an exit code; and the
-- ways in which a subcommand goes on or exits early.
use fupi.Common.{ℕ, String, Bool, true, false, Option, none, some, List, [], ◌∷◌, map}
use fupi.Common.Result.{Result, ok, err}
use fupi.Types.{FlashState}
use fupi.Vault.Errors.{VaultError}
use fupi.Vault.Session.{Session, Method}

-- `println!` and `eprintln!`
pub data Line : Type 0 where
  out : String → Line
  complaint : String → Line

pub record Report : Type 0 where
  pub lines : List Line
  pub code : ℕ

-- The end of `main`
abbrev pub done : List Line → Report
done lines = record { lines = lines; code = 0 }

abbrev pub printed : String → Report
printed text = done (out text ∷ [])

-- `eprintln!(…); std::process::exit(1)`
abbrev pub failed_with : String → Report
failed_with text = record { lines = complaint text ∷ []; code = 1 }

abbrev pub outs : List String → List Line
outs = map out

-- An action on the vault, and a subcommand: one that comes to a report.
abbrev pub Act : Type 0 → Type 0 → Type 0
Act W R = Session W → R × Session W

abbrev pub Action : Type 0 → Type 0
Action W = Act W Report

module _ {W R : Type 0} where
  -- Ends, with what is to be said of the state.
  abbrev pub say : (FlashState → R) → Act W R
  say f s = (f s.state, s)

  abbrev pub exit : R → Act W R
  exit r s = (r, s)

  abbrev pub proceed : {E A : Type 0} → (E → R) → (A → Act W R) → Result E A → Act W R
  proceed f k (ok a) s = k a s
  proceed f k (err e) s = (f e, s)

  -- `match vault.method(…)`, whose error ends the action.
  abbrev pub attempt : {A : Type 0} → Method W A → (VaultError → R) → (A → Act W R) → Act W R
  attempt m f k s = let (r, s') = m s in proceed f k r s'

  -- A call that leaves the vault alone.
  abbrev pub ask : {E A : Type 0} → (W → Result E A × W) → (E → R) → (A → Act W R) → Act W R
  ask call f k s = let (r, w) = call s.world in proceed f k r (record s { world = w })

  -- `unwrap_or_else(|| { …; exit(1) })`
  abbrev pub given : {A : Type 0} → Option A → R → (A → Act W R) → Act W R
  given none r k = exit r
  given (some a) r k = k a

  -- Goes on if the test holds.
  abbrev pub provided : Bool → R → Act W R → Act W R
  provided false r k = exit r
  provided true r k = k
