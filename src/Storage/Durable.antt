-- ===== src/Storage/Durable.antt =====
-- A save on a device that may lose power: what the program reads, and what a loss of power may bring
-- back.
use fupi.Common.{
  ◌≡◌, refl, ◌⊎◌, inl, inr, Bool, Option, none, some, List, ℕ, take, ltb, ltb→lt, ltb→le,
  Bool-cases, length,
}
use fupi.Types.{FlashState, default_state}
use fupi.Storage.{Codec, Device, disk, MayLeave, save}
use fupi.Storage.Rules.{Ends, Ends-imp}
use fupi.Storage.Load.{
  parse, IsLawful, Loads, Holds, Holds-parse, load_primary, load_written, load_absent, recover_bak,
  recover-none,
}
use fupi.Storage.Save.{take_all}
use fupi.Storage.Remnants.{Fits, Allows, save-Fits}

-- The files that a loss of power may leave.
pub record IsImage (d : Device) (p t b : Option (List ℕ)) : Type 0 where
  pub of_primary : MayLeave d.primary_left p
  pub of_tmp : MayLeave d.tmp_left t
  pub of_bak : MayLeave d.bak_left b

module _ (codec : Codec) (P : FlashState → Type 0) where
  -- The file holds a state of which `P` holds.
  abbrev pub Held : Option (List ℕ) → Type 0
  Held f = (st : FlashState) × Holds codec f st × P st

  abbrev pub Unwritten : Option (List ℕ) → Type 0
  Unwritten f = (f ≡ none) ⊎ Held f

  -- The file does not parse, or is a state of which `P` holds.
  abbrev pub Harmless : Option (List ℕ) → Type 0
  Harmless f = (parse codec f ≡ none) ⊎ ((st : FlashState) × (parse codec f ≡ some st) × P st)

  abbrev pub Any : Option (List ℕ) → Type 0
  Any f = Unit

  -- All that a loss of power may leave are states of which `P` holds: the primary file is one of them,
  -- or it was never written, and then the other files are harmless and `P` holds of the default state.
  pub data Durable (d : Device) : Type 0 where
    kept : Fits Held Any Any d → Durable d
    fresh : P default_state → Fits Unwritten Harmless Harmless d → Durable d

  -- Whatever a loss of power leaves, the next load returns a state of which `P` holds.
  abbrev pub Survives : Device → Type 0
  Survives d =
      (p t b : Option (List ℕ))
      → IsImage d p t b
      → (st : FlashState) × Loads codec (disk p t b) st × P st

  module _ (initial : P default_state) where
    absent_Survives :
        (t b : Option (List ℕ))
        → Harmless t
        → Harmless b
        → (st : FlashState) × Loads codec (disk none t b) st × P st
    absent_Survives t b (inr (st, parsed, p)) other =
        (st, load_written codec (disk none t b) st refl parsed, p)
    absent_Survives t b (inl bad) (inr (st, parsed, p)) =
        (st, load_absent codec t b (some st) (recover_bak codec none t b st bad parsed), p)
    absent_Survives t b (inl bad) (inl worse) =
        (default_state, load_absent codec t b none (recover-none codec none t b bad worse), initial)

    Unwritten-Survives :
        (p t b : Option (List ℕ))
        → Unwritten p
        → Harmless t
        → Harmless b
        → (st : FlashState) × Loads codec (disk p t b) st × P st
    Unwritten-Survives p t b (inr (st, holds, q)) ht hb = (st, load_primary codec p t b st holds, q)
    Unwritten-Survives p t b (inl e) ht hb = rw e (absent_Survives t b ht hb)

  pub Durable-Survives : (d : Device) → Durable d → Survives d
  Durable-Survives d (kept h) p t b image =
      let (st, holds, q) = h.of_primary p image.of_primary in
      (st, load_primary codec p t b st holds, q)
  Durable-Survives d (fresh i h) p t b image =
      Unwritten-Survives i p t b (h.of_primary p image.of_primary) (h.of_tmp t image.of_tmp)
        (h.of_bak b image.of_bak)

module _ (codec : Codec) (lawful : IsLawful codec) (P : FlashState → Type 0) (new : FlashState)
    (q : P new) where
  encoded-Held : (b : List ℕ) → codec.encode new ≡ some b → Held codec P (some b)
  encoded-Held b encoded =
      let (text, decoded, not_blank, parsed) = lawful.readable new b encoded in
      (
        new,
        record {
          bytes = b;
          text = text;
          there = refl;
          decoded = decoded;
          not_blank = not_blank;
          parsed = parsed;
        },
        q,
      )

  encoded-Harmless : (b : List ℕ) → codec.encode new ≡ some b → Harmless codec P (some b)
  encoded-Harmless b encoded =
      let (st, holds, p) = encoded-Held b encoded in
      inr (st, Holds-parse codec (some b) st holds, p)

  part-Harmless :
      (b : List ℕ) (k : ℕ) → codec.encode new ≡ some b → Harmless codec P (some (take k b))
  part-Harmless b k encoded = elim (Bool-cases (ltb k (length b))) [
    | inl short ↦ inl (lawful.truncated new b k encoded (ltb→lt k (length b) short))
    | inr full ↦ rw (take_all k b (ltb→le k (length b) full)) (encoded-Harmless b encoded)
  ]

  pub Allows-kept : Allows (Held codec P) (Any codec P) (Any codec P) codec new
  Allows-kept = record {
    whole = encoded-Held;
    no_tmp = tt;
    empty_tmp = tt;
    whole_tmp = λ b e. tt;
    part_tmp = λ b k e. tt;
    part_bak = λ b k e. tt;
  }

  Allows-fresh : Allows (Unwritten codec P) (Harmless codec P) (Harmless codec P) codec new
  Allows-fresh = record {
    whole = λ b e. inr (encoded-Held b e);
    no_tmp = inl refl;
    empty_tmp = inl lawful.empty;
    whole_tmp = encoded-Harmless;
    part_tmp = part-Harmless;
    part_bak = part-Harmless;
  }

  pub save-Durable :
      (has_parent : Bool) (d : Device)
      → Durable codec P d
      → Ends (save codec has_parent new d) (λ _ d'. Durable codec P d') (Durable codec P)
  save-Durable has_parent d (kept h) =
      Ends-imp (λ _ d'. Fits (Held codec P) (Any codec P) (Any codec P) d')
        (λ _ d'. Durable codec P d') (Fits (Held codec P) (Any codec P) (Any codec P))
        (Durable codec P) (save codec has_parent new d) (λ _ d' k. kept k) (λ d' k. kept k)
        (save-Fits (Held codec P) (Any codec P) (Any codec P) codec new Allows-kept has_parent d h)
  save-Durable has_parent d (fresh i h) =
      let F = Fits (Unwritten codec P) (Harmless codec P) (Harmless codec P) in
      Ends-imp (λ _ d'. F d') (λ _ d'. Durable codec P d') F (Durable codec P)
        (save codec has_parent new d) (λ _ d' k. fresh i k) (λ d' k. fresh i k)
        (save-Fits (Unwritten codec P) (Harmless codec P) (Harmless codec P) codec new Allows-fresh
          has_parent d h)

  module _ (old : FlashState) where
    -- What the program reads next where a save returned, and where it stopped.
    abbrev pub Saved : Device → Type 0
    Saved d = Loads codec d new × Durable codec P d × Survives codec P d

    abbrev pub Unsaved : Device → Type 0
    Unsaved d = (Loads codec d old ⊎ Loads codec d new) × Durable codec P d × Survives codec P d
