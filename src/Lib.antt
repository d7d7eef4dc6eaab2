-- ===== src/Lib.antt =====
-- The wallet of an offline cash system: vault-rust keeps bearer proofs (blind RSA signatures of an
-- ATM) in flash memory, spends them as tokens, checks received tokens offline, and exchanges and
-- settles proofs at the ATM.
--
-- Types      vault-rust/src/types.rs: the records of the flash state, and in Types.Wire those of the
--            requests and responses of the ATM.
-- Denom      vault-rust/src/denom.rs: keyset_id_for, denomination_of, proof_value, split_amount and
--            exact_subset. Its table `reach` is an association list, whose order stands for the
--            unspecified one in which the source walks the keys of its hash map.
-- Crypto     vault-rust/src/crypto.rs. Base64, modpow, extended_gcd, SHA-256 and ed25519 come from
--            crates: they are the fields of `Crates`, and `Crypto.IsLawful` states what is used of them.
-- Storage    vault-rust/src/storage.rs: load, save and wipe on a primary, a temporary and a backup
--            file. A device carries a script of faults, so that every file operation may succeed, fail,
--            or lose power before it, in the midst of its bytes, or behind it. Beside each file it
--            carries what a loss of power may leave of it: of bytes that `sync_all` has not written out
--            any first part, and of creations, removals and renames any, since no directory is synced.
--            serde_json is `Codec`.
-- Vault      vault-rust/src/vault.rs. A `Session` is the source's `Vault`; a method is an action on it
--            that returns a result, and what was changed before an error stays changed. `Environment`
--            holds the calls that leave the program: the storage as the vault sees it, the client of
--            vault-rust/src/client.rs, randomness and the clock, over an unknown world.
--   Keysets  check_keyset_set, cache_keysets, fetch_keysets      Tokens   verify_offline_set
--   Coins    values, candidates and removal of coins             Payment  make_payment
--   Issue    the check of a signature before a proof is stored   Swap     make_change, recover, pay
--   Topup    topup_locked     Receive  receive_token, settle_token
--   Merchant accept_payment   Settle   settle_all                State    the device key, outbox, wipe
--   Flash    the vault over the modelled files of Storage, whose power may be lost in any operation
-- Client     vault-rust/src/client.rs: Tls chooses the check of the ATM's certificate by its Fingerprint;
--            Calls and Operator hold the requests and what is made of the replies. `Agent` stands for
--            ureq, whose reply may be anything, and `Json` for serde_json. Connected makes the client
--            the environment of a vault.
-- CommandLine vault-rust/src/main.rs: parse_cli, and main with every subcommand. An `Action` is what a
--            subcommand does to the vault, what it prints and its exit code.
--   Usage, Output, Show  what is printed     Subcommands  those that call the vault
--   Operator             those that call the client only      Repl   the interactive session
--   Main                 the dispatch of main     Shell  the variable FUPI_CREDIT_SECRET, the clock, and
--                        the display of floating-point numbers, paths and JSON values, as parameters
--            Main.Effects and Repl.Effects say what a subcommand and a line of the session do.
-- Common     results, sums, stable sorts, texts, modular arithmetic, and tests on numbers.
--
-- Loops run over lists. Two have fuel: `walk` goes back through the table with one more step than the
-- target, since every step lowers the sum by at least one, and `take_coins` has one more step than the
-- amount, of which each coin takes at least one.
--
-- Sums of face values are unbounded numbers where the source adds u64: a coin is worth at most 500.
-- The counters of receipts and requests wrap at 2 ^ 64.
--
-- random_blinder takes the list of buffers that the generator fills; the loop of the source ends only
-- with a suitable one, and nothing comes of a list without one. The interactive session takes the list
-- of its lines and ends with it.
--
-- Not modelled: the prompt of the interactive session, getters of vault-rust/src/vault.rs that return a
-- field as it is, the generators of random bytes, the network and TLS under the client, the kiosk
-- (kiosk-go), the prototypes (mvp, pico_w) and the scripts. In a release build the counters of the
-- source wrap; in a debug build an overflow panics instead.
pub mod Common
pub mod Types
pub mod Denom
pub mod Crypto
pub mod Storage
pub mod Vault
pub mod Client
pub mod CommandLine
