-- ===== src/CommandLine/Shell.antt =====
-- What the program of vault-rust/src/main.rs takes from the machine and from Rust's standard library:
-- the environment variable, the clock, floating-point texts, and JSON values that it only prints.
use fupi.Common.{ℕ, suc, Bool, true, false, String, ◌<>◌, Option, List}
use fupi.Common.Text.{show}
use fupi.Crypto.{ℤ, pos, negsuc}
use fupi.Client.Agent.{Json}

pub record Shell (json : Json) (W : Type 0) : Type 0 where
  -- `env::var("FUPI_CREDIT_SECRET").ok()`
  pub credit_secret : Option String
  -- Nanoseconds of the clock, 0 before the epoch
  pub nanos : W → ℕ × W
  -- `parse::<f64>().ok()`, `{:.2}`, and `{:?}` of a path
  pub parse_f64 : String → Option json.F
  pub show_2 : json.F → String
  pub debug_path : String → String
  pub to_uppercase : String → String
  -- `serde_json::Value`: `v["name"]`, `as_array`, `as_str` and its display
  pub field : json.Value → String → json.Value
  pub as_array : json.Value → Option (List json.Value)
  pub as_str : json.Value → Option String
  pub display : json.Value → String

-- `{}` of an `i64`
abbrev pub show_int : ℤ → String
show_int (pos n) = show n
show_int (negsuc n) = "-" <> show (suc n)

abbrev pub show_bool : Bool → String
show_bool true = "true"
show_bool false = "false"
