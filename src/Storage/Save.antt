-- ===== src/Storage/Save.antt =====
-- What a save leaves for the program to read, wherever it stops.
use fupi.Common.{
  ℕ, zero, suc, ◌≡◌, ◌≤◌, refl, Bool, true, false, ◌⊎◌, inl, inr, Option, none, some, List, [], ◌∷◌,
  arith, length, take, ltb, ltb→lt, ltb→le, Bool-cases,
}
use fupi.Types.{FlashState}
use fupi.Storage.{
  Codec, primary, tmp, bak, Device, Fault, Io, create_dir_all, create, write_all, sync_all, copy,
  rename, attempt, put, leave, left, newest, write_out, next, later, advance, or_raise, json_error,
  save, ◌>>=◌, ◌>>◌,
}
use fupi.Storage.Rules.{
  Ends, Ends-bind, Ends-attempt, Ends-imp, whole-Ends, partial-Ends, copy-partial, rename-whole,
  sync_all-whole,
}
use fupi.Storage.Load.{
  parse, IsLawful, Loads, Holds, Holds-parse, Settled, by_primary, by_bak, by_default,
  Settled-Loads, load_written, load_primary,
}

pub take_all : (k : ℕ) (b : List ℕ) → length b ≤ k → take k b ≡ b
take_all zero [] h = refl
take_all zero (x ∷ b) h = absurd (omega arith)
take_all (suc k) [] h = refl
take_all (suc k) (x ∷ b) h = rw (take_all k b (omega arith)) refl

module _ (codec : Codec) (lawful : IsLawful codec) (old new : FlashState) where
  -- The new state is complete in the temporary file, and the primary file is still the old one.
  pub record Written (d : Device) : Type 0 where
    pub complete : Holds codec d.tmp_file new
    pub before : (d.primary_file ≡ none) ⊎ Holds codec d.primary_file old

  -- Where a save can stop.
  pub data Stopped (d : Device) : Type 0 where
    early : Settled codec d old → Stopped d
    late : Written d → Stopped d
    over : Holds codec d.primary_file new → Stopped d

  pub Stopped-Loads : (d : Device) → Stopped d → Loads codec d old ⊎ Loads codec d new
  Stopped-Loads d (early s) = inl (Settled-Loads codec d old s)
  Stopped-Loads d (late w) = elim w.before [
    | inl absent ↦
        inr (load_written codec d new absent (Holds-parse codec d.tmp_file new w.complete))
    | inr present ↦ inl (load_primary codec d.primary_file d.tmp_file d.bak_file old present)
  ]
  Stopped-Loads d (over h) = inr (load_primary codec d.primary_file d.tmp_file d.bak_file new h)

  -- A temporary file that does not parse leaves the device settled.
  Settled-tmp :
      (d : Device) (f : Option (List ℕ))
      → parse codec f ≡ none
      → Settled codec d old
      → Settled codec (put tmp f (advance d)) old
  Settled-tmp d f h (by_primary p) = by_primary p
  Settled-tmp d f h (by_bak p t b) = by_bak p h b
  Settled-tmp d f h (by_default p t b e) = by_default p h b e

  Settled-script :
      (d : Device) (script : List Fault)
      → Settled codec d old
      → Settled codec (record d { script = script }) old
  Settled-script d script (by_primary p) = by_primary p
  Settled-script d script (by_bak p t b) = by_bak p t b
  Settled-script d script (by_default p t b e) = by_default p t b e

  Settled-before :
      (d : Device) → Settled codec d old → (d.primary_file ≡ none) ⊎ Holds codec d.primary_file old
  Settled-before d (by_primary p) = inr p
  Settled-before d (by_bak p t b) = inl p
  Settled-before d (by_default p t b e) = inl p

  abbrev Kept : Unit {0} → Device → Type 0
  Kept _ d = Settled codec d old

  abbrev Begun : Unit {0} → Device → Type 0
  Begun _ d = Settled codec d old × (d.tmp_file ≡ some [])

  abbrev Complete : Unit {0} → Device → Type 0
  Complete _ d = Written d

  create_dir_all-Ends : (d : Device) → Settled codec d old → Ends (create_dir_all d) Kept Stopped
  unfolding create_dir_all
  create_dir_all-Ends d s =
      let kept = Settled-script d (later d.script) s in
      whole-Ends Kept Stopped (next d.script) tt (advance d) (advance d) kept (early kept)
        (early kept)

  create-Ends : (d : Device) → Settled codec d old → Ends (create tmp d) Begun Stopped
  unfolding create
  create-Ends d s =
      let after = Settled-tmp d (some []) lawful.empty s in
      whole-Ends Begun Stopped (next d.script) tt (advance d) (put tmp (some []) (advance d))
        (after, refl) (early (Settled-script d (later d.script) s)) (early after)

  -- The encoding of the new state, in full or in part.
  module _ (data_ : List ℕ) (encoded : codec.encode new ≡ some data_) where
    complete_file : Holds codec (some data_) new
    complete_file =
        let (text, decoded, not_blank, parsed) = lawful.readable new data_ encoded in
        record {
          bytes = data_;
          text = text;
          there = refl;
          decoded = decoded;
          not_blank = not_blank;
          parsed = parsed;
        }

    write_to : Device → List ℕ → Device
    write_to d b = put tmp (some b) (advance d)

    write_to-Written : (d : Device) → Settled codec d old → Written (write_to d data_)
    unfolding write_to
    write_to-Written d s = record { complete = complete_file; before = Settled-before d s }

    write_to-Stopped :
        (d : Device) (k : ℕ) → Settled codec d old → Stopped (write_to d (take k data_))
    unfolding write_to
    write_to-Stopped d k s = elim (Bool-cases (ltb k (length data_))) [
      | inl part ↦ early (
          Settled-tmp d (some (take k data_))
            (lawful.truncated new data_ k encoded (ltb→lt k (length data_) part)) s)
      | inr all ↦ late (
          rw (take_all k data_ (ltb→le k (length data_) all))
            (unfold write_to in write_to-Written d s))
    ]

    write_all-Ends :
        (d : Device) → Settled codec d old → Ends (write_all tmp data_ d) Complete Stopped
    unfolding write_all write_to
    write_all-Ends d s =
        partial-Ends Complete Stopped (next d.script) (advance d) (write_to d) data_
          (write_to-Written d s) (early (Settled-script d (later d.script) s))
          (λ k. write_to-Stopped d k s)

  sync_all-Ends : (d : Device) → Written d → Ends (sync_all tmp d) Complete Stopped
  sync_all-Ends d w =
      let w' : Written (advance d) = record { complete = w.complete; before = w.before } in
      let bytes = w.complete.bytes in
      let out : Written (write_out tmp bytes (advance d)) = record {
        complete = w.complete;
        before = w.before;
      } in
      rw (sync_all-whole tmp d bytes w.complete.there) (
        whole-Ends Complete Stopped (next d.script) tt (advance d) (write_out tmp bytes (advance d))
          out (late w') (late out))

  copy-Ends : (d : Device) → Written d → Ends (copy tmp bak d) Complete Written
  copy-Ends d w =
      let w' : Written (advance d) = record { complete = w.complete; before = w.before } in
      rw (copy-partial tmp bak d w.complete.bytes w.complete.there) (
        partial-Ends Complete Written (next d.script) (advance d)
          (λ b. put bak (some b) (advance d)) w.complete.bytes
          (record { complete = w.complete; before = w.before }) w'
          (λ k. record { complete = w.complete; before = w.before }))

  abbrev pub Renamed : Unit {0} → Device → Type 0
  Renamed _ d = Holds codec d.primary_file new

  rename-Ends : (d : Device) → Written d → Ends (rename tmp primary d) Renamed Stopped
  rename-Ends d w =
      let w' : Written (advance d) = record { complete = w.complete; before = w.before } in
      let moved : Holds codec (some w.complete.bytes) new = record {
        bytes = w.complete.bytes;
        text = w.complete.text;
        there = refl;
        decoded = w.complete.decoded;
        not_blank = w.complete.not_blank;
        parsed = w.complete.parsed;
      } in
      rw (rename-whole tmp primary d w.complete.bytes w.complete.there) (
        whole-Ends Renamed Stopped (next d.script) tt (advance d)
          (put tmp none (
            leave primary (some w.complete.bytes) (newest w.complete.bytes (left tmp d))
              (advance d)))
          moved (late w') (over moved))

  -- From the complete temporary file on.
  finish-Ends :
      (d : Device)
      → Written d
      → Ends ((do sync_all tmp; attempt (copy tmp bak); rename tmp primary) d) Renamed Stopped
  finish-Ends d w =
      Ends-bind Complete Renamed Stopped (sync_all tmp)
        (λ _. do attempt (copy tmp bak); rename tmp primary) d (sync_all-Ends d w)
        (λ _ d' w'.
          Ends-bind (λ _ d''. Written d'') Renamed Stopped (attempt (copy tmp bak))
            (λ _. rename tmp primary) d'
            (Ends-imp (λ _ d''. Written d'') (λ _ d''. Written d'') Written Stopped
              (attempt (copy tmp bak) d') (λ _ d'' v. v) (λ d'' v. late v)
              (Ends-attempt Written (copy tmp bak) d' (copy-Ends d' w')))
            (λ _ d'' w''. rename-Ends d'' w''))

  -- What follows the creation of the temporary file.
  abbrev written_out : Option (List ℕ) → Io (Unit {0})
  written_out encoded = do
    data_ ← or_raise encoded (json_error (codec.encode_error new))
    write_all tmp data_
    sync_all tmp
    attempt (copy tmp bak)
    rename tmp primary

  write_out-Ends :
      (encoded : Option (List ℕ)) (d : Device)
      → codec.encode new ≡ encoded
      → Settled codec d old
      → Ends (written_out encoded d) Renamed Stopped
  write_out-Ends none d e s = early s
  write_out-Ends (some data_) d e s =
      Ends-bind Complete Renamed Stopped (write_all tmp data_)
        (λ _. do sync_all tmp; attempt (copy tmp bak); rename tmp primary) d
        (write_all-Ends data_ e d s) (λ _ d' w. finish-Ends d' w)

  create_out-Ends :
      (d : Device)
      → Settled codec d old
      → Ends ((create tmp >> written_out (codec.encode new)) d) Renamed Stopped
  create_out-Ends d s =
      Ends-bind Begun Renamed Stopped (create tmp) (λ _. written_out (codec.encode new)) d
        (create-Ends d s) (λ _ d' b. write_out-Ends (codec.encode new) d' refl b.0)

  pub save-Ends :
      (has_parent : Bool) (d : Device)
      → Settled codec d old
      → Ends (save codec has_parent new d) Renamed Stopped
  unfolding save
  save-Ends true d s =
      Ends-bind Kept Renamed Stopped create_dir_all
        (λ _. create tmp >> written_out (codec.encode new)) d (create_dir_all-Ends d s)
        (λ _ d' s'. create_out-Ends d' s')
  save-Ends false d s = create_out-Ends d s
