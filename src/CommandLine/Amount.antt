-- ===== src/CommandLine/Amount.antt =====
-- The amount that `main` and `run_repl` of vault-rust/src/main.rs read from their first argument.
use fupi.Common.{ℕ, String, Option, none, List, [], ◌∷◌}
use fupi.Common.Text.{codes, parse_u64}

-- `cfg.args[0].parse()`; without a number the program exits before it calls the vault.
unfoldable pub amount_of : List String → Option ℕ
unfolding parse_u64
amount_of [] = none
amount_of (arg ∷ args) = parse_u64 (codes arg)
