-- ===== src/CommandLine/Flags.antt =====
-- What the configuration says of the arguments: the checks of a certificate are dropped only on demand.
use fupi.Common.{
  ◌≡◌, refl, sym, ap, length, ◌==◌, ◌∙◌, ◌⊎◌, inl, inr, String, true, ◌||◌, some, List, [], ◌∷◌,
  str_eq, any, Bool-cases, Option-cases,
}
use fupi.Common.Result.{ok}
use fupi.Vault.Session.Steps.{Result-cases}
use fupi.Client.Fingerprint.{normalize_fingerprint}
use fupi.Client.Tls.{
  TlsMode, strict, pinned, insecure as insecure_mode, trim_slashes, accept_all, AtmClient, with_tls,
  verifier_of,
}
use fupi.CommandLine.{
  Config, initial, Parsed, run, stop, help, unknown_flag, bad_number, Setting, set_to, bad_value,
  unknown, set_value, Plain, next, wants_help, refused, plain_argument, parse_args, parse_cli,
  tls_of, client_of,
}
use fupi.CommandLine.Settings.{Keeps, set_value-Keeps, PlainRelaxes, plain_argument-Relaxes}

-- The argument occurs.
abbrev pub IsGiven : String → List String → Type 0
IsGiven flag args = any (λ a. str_eq a flag) args ≡ true

-- What the parser may have made of the arguments.
abbrev IsRelaxed : List String → Config → Parsed → Type 0
IsRelaxed args k (run k') = k'.insecure ≡ true → (k.insecure ≡ true) ⊎ IsGiven "--insecure" args
IsRelaxed args k (stop lines) = Unit
IsRelaxed args k help = Unit

IsGiven-here :
    (arg flag : String) (args : List String) → str_eq arg flag ≡ true → IsGiven flag (arg ∷ args)
IsGiven-here arg flag args e = rw e refl

IsGiven-later :
    (arg flag : String) (args : List String) → IsGiven flag args → IsGiven flag (arg ∷ args)
IsGiven-later arg flag args e = elim (Bool-cases (str_eq arg flag)) [
  | inl h ↦ rw h refl
  | inr h ↦ rw (h, e) refl
]

IsRelaxed-step :
    (args args' : List String) (k k' : Config) (r : Parsed)
    → (IsGiven "--insecure" args' → IsGiven "--insecure" args)
    → (k'.insecure ≡ true → (k.insecure ≡ true) ⊎ IsGiven "--insecure" args)
    → IsRelaxed args' k' r
    → IsRelaxed args k r
IsRelaxed-step args args' k k' (run c) longer before h =
    λ e. elim (h e) [ inl b ↦ before b | inr g ↦ inr (longer g) ]
IsRelaxed-step args args' k k' (stop lines) longer before h = tt
IsRelaxed-step args args' k k' help longer before h = tt

relaxed_by :
    (arg : String) (rest : List String) (k k' : Config)
    → PlainRelaxes arg k (next k')
    → k'.insecure ≡ true
    → (k.insecure ≡ true) ⊎ IsGiven "--insecure" (arg ∷ rest)
relaxed_by arg rest k k' r on = elim r [
  | inl same ↦ inl (sym same ∙ on)
  | inr (inl off) ↦ cc
  | inr (inr flag) ↦ inr (IsGiven-here arg "--insecure" rest flag)
]

after_plain :
    (arg : String) (rest : List String) (k : Config)
    → ((k' : Config) → IsRelaxed rest k' (parse_args rest k'))
    → (p : Plain) → PlainRelaxes arg k p
    → IsRelaxed
        (arg ∷ rest)
        k
        (elim p [ next k' ↦ parse_args rest k' | wants_help ↦ help | refused ↦ unknown_flag arg ])
after_plain arg rest k ih (next k') r =
    IsRelaxed-step (arg ∷ rest) rest k k' (parse_args rest k') (IsGiven-later arg "--insecure" rest)
      (relaxed_by arg rest k k' r) (ih k')
after_plain arg rest k ih wants_help r = tt
after_plain arg rest k ih refused r = tt

after_value :
    (arg value : String) (rest : List String) (k : Config)
    → ((k' : Config) → IsRelaxed rest k' (parse_args rest k'))
    → ((k' : Config) → IsRelaxed (value ∷ rest) k' (parse_args (value ∷ rest) k'))
    → (s : Setting) → Keeps k s
    → IsRelaxed (arg ∷ value ∷ rest) k (elim s [
      | set_to k' ↦ parse_args rest k'
      | bad_value ↦ bad_number
      | unknown ↦ elim (plain_argument arg k) [
        | next k' ↦ parse_args (value ∷ rest) k'
        | wants_help ↦ help
        | refused ↦ unknown_flag arg
      ]
    ])
after_value arg value rest k ih ih' (set_to k') same =
    IsRelaxed-step (arg ∷ value ∷ rest) rest k k' (parse_args rest k')
      (λ g. IsGiven-later arg "--insecure" (value ∷ rest) (IsGiven-later value "--insecure" rest g))
      (λ on. inl (sym same ∙ on)) (ih k')
after_value arg value rest k ih ih' bad_value same = tt
after_value arg value rest k ih ih' unknown same =
    after_plain arg (value ∷ rest) k ih' (plain_argument arg k) (plain_argument-Relaxes arg k)

parse_args-IsRelaxed : (args : List String) (k : Config) → IsRelaxed args k (parse_args args k)
unfolding parse_args
parse_args-IsRelaxed [] k = λ h. inl h
parse_args-IsRelaxed (arg ∷ []) k =
    after_plain arg [] k (parse_args-IsRelaxed []) (plain_argument arg k)
      (plain_argument-Relaxes arg k)
parse_args-IsRelaxed (arg ∷ value ∷ rest) k =
    after_value arg value rest k (parse_args-IsRelaxed rest) (parse_args-IsRelaxed (value ∷ rest))
      (set_value arg value k) (set_value-Keeps arg value k)

with_tls-verifier_of :
    (base_url : String) (tls : TlsMode) (client : AtmClient)
    → with_tls base_url tls ≡ ok client
    → verifier_of tls ≡ ok client.verifier
unfolding with_tls
with_tls-verifier_of base_url tls client h = elim (Result-cases (verifier_of tls)) [
  | inr (e, failed) ↦ cc (rw (failed, with_tls) at h)
  | inl (v, made) ↦
      let same : record { base_url = trim_slashes base_url; verifier = v } ≡ client =
        cc (rw (made, with_tls) at h) in
      rw (← same) made
]

accept_all-insecure : (tls : TlsMode) → verifier_of tls ≡ ok (some accept_all) → tls ≡ insecure_mode
unfolding verifier_of
accept_all-insecure strict h = cc
accept_all-insecure insecure_mode h = refl
accept_all-insecure (pinned fp) h = elim (Bool-cases (length (normalize_fingerprint fp) == 64)) [
  | inl e ↦ cc (rw (e, verifier_of) at h)
  | inr e ↦ cc (rw (e, verifier_of) at h)
]

tls_of-insecure : (k : Config) → tls_of k ≡ insecure_mode → k.insecure ≡ true
unfolding tls_of
tls_of-insecure k h = elim (Option-cases k.pin_tls) [
  | inr (fp, e) ↦ cc (rw (e, tls_of) at h)
  | inl e ↦ elim (Bool-cases k.insecure) [ inl on ↦ on | inr off ↦ cc (rw (e, off, tls_of) at h) ]
]

client_of-insecure :
    (k : Config) (client : AtmClient)
    → client_of k ≡ some client
    → client.verifier ≡ some accept_all
    → k.insecure ≡ true
unfolding client_of
client_of-insecure k client made all = elim (Result-cases (with_tls k.atm_url (tls_of k))) [
  | inr (e, failed) ↦ cc (rw (failed, client_of) at made)
  | inl (built, e) ↦
      let same : built ≡ client = cc (rw (e, client_of) at made) in
      let chosen = with_tls-verifier_of k.atm_url (tls_of k) built e in
      tls_of-insecure k (
        accept_all-insecure (tls_of k)
          (chosen ∙ ap (λ (c : AtmClient). ok c.verifier) same ∙ ap ok all))
]

parsed_relaxed :
    (args : List String) (k : Config)
    → parse_args args initial ≡ run k
    → k.insecure ≡ true
    → IsGiven "--insecure" args
parsed_relaxed args k e on =
    let relaxed : IsRelaxed args initial (run k) = rw e at (parse_args-IsRelaxed args initial) in
    elim (relaxed on) [ inl off ↦ cc | inr given ↦ given ]

-- The client that the command line makes accepts every certificate only if `--insecure` was given.
pub client_of-IsGiven :
    (args : List String) (k : Config) (client : AtmClient)
    → parse_cli args ≡ run k
    → client_of k ≡ some client
    → client.verifier ≡ some accept_all
    → IsGiven "--insecure" args
unfolding parse_cli
client_of-IsGiven [] k client parsed made all = cc
client_of-IsGiven (first ∷ rest) k client parsed made all =
    elim (Bool-cases (str_eq first "-h" || str_eq first "--help" || str_eq first "help")) [
      | inl e ↦ cc (rw (e, parse_cli) at parsed)
      | inr e ↦
          parsed_relaxed (first ∷ rest) k (rw (e, parse_cli) at parsed)
            (client_of-insecure k client made all)
    ]
