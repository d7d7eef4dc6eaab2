-- ===== src/Storage/Present.antt =====
-- A save over a primary file that holds a state: it is never away.
use fupi.Common.{
  Option-cases, [], ◌≡◌, refl, ◌⊎◌, inl, inr, Bool, true, false, Option, none, some, List, ℕ,
}
use fupi.Types.{FlashState}
use fupi.Storage.{
  Codec, primary, tmp, bak, Device, Io, create_dir_all, create, write_all, sync_all, copy, rename,
  attempt, put, leave, left, newest, write_out, next, advance, or_raise, json_error, save, ◌>>=◌,
  ◌>>◌, Outcome, returned, failed, power_lost,
}
use fupi.Storage.Rules.{
  Ends, Ends-bind, Ends-attempt, Ends-imp, whole-Ends, partial-Ends, copy-partial, rename-whole,
  sync_all-whole,
}
use fupi.Storage.Load.{IsLawful, Holds, by_primary, by_bak, by_default}
use fupi.Storage.Save.{Stopped, early, late, over, Renamed, save-Ends}

-- There is a primary file.
abbrev IsPresent : Device → Type 0
IsPresent d = (bytes : List ℕ) × (d.primary_file ≡ some bytes)

abbrev Present : {A : Type 0} → Outcome A × Device → Type 0
Present r = Ends r (λ _ d. IsPresent d) IsPresent

create_dir_all-Present : (d : Device) → IsPresent d → Present (create_dir_all d)
unfolding create_dir_all
create_dir_all-Present d h =
    whole-Ends (λ _ d'. IsPresent d') IsPresent (next d.script) tt (advance d) (advance d) h h h

create-Present : (d : Device) → IsPresent d → Present (create tmp d)
unfolding create
create-Present d h =
    whole-Ends (λ _ d'. IsPresent d') IsPresent (next d.script) tt (advance d)
      (put tmp (some []) (advance d)) h h h

write_all-Present : (bytes : List ℕ) (d : Device) → IsPresent d → Present (write_all tmp bytes d)
unfolding write_all
write_all-Present bytes d h =
    partial-Ends (λ _ d'. IsPresent d') IsPresent (next d.script) (advance d)
      (λ b. put tmp (some b) (advance d)) bytes h h (λ k. h)

sync_all-Present : (d : Device) → IsPresent d → Present (sync_all tmp d)
sync_all-Present d h = elim (Option-cases d.tmp_file) [
  | inl e ↦ unfold sync_all in rw (e, sync_all) h
  | inr (bytes, e) ↦ rw (sync_all-whole tmp d bytes e) (
      whole-Ends (λ _ d'. IsPresent d') IsPresent (next d.script) tt (advance d)
        (write_out tmp bytes (advance d)) h h h)
]

copy-Present : (d : Device) → IsPresent d → Present (copy tmp bak d)
copy-Present d h = elim (Option-cases d.tmp_file) [
  | inl e ↦ unfold copy in rw (e, copy) h
  | inr (bytes, e) ↦ rw (copy-partial tmp bak d bytes e) (
      partial-Ends (λ _ d'. IsPresent d') IsPresent (next d.script) (advance d)
        (λ b. put bak (some b) (advance d)) bytes h h (λ k. h))
]

rename-Present : (d : Device) → IsPresent d → Present (rename tmp primary d)
rename-Present d h = elim (Option-cases d.tmp_file) [
  | inl e ↦ unfold rename in rw (e, rename) h
  | inr (bytes, e) ↦ rw (rename-whole tmp primary d bytes e) (
      whole-Ends (λ _ d'. IsPresent d') IsPresent (next d.script) tt (advance d)
        (put tmp none (leave primary (some bytes) (newest bytes (left tmp d)) (advance d)))
        (bytes, refl) h (bytes, refl))
]

module _ {A B : Type 0} where
  then_Present :
      (m : Io A) (f : A → Io B) (d : Device)
      → Present (m d)
      → ((a : A) (d' : Device) → IsPresent d' → Present (f a d'))
      → Present ((m >>= f) d)
  then_Present m f d h k =
      Ends-bind (λ _ d'. IsPresent d') (λ _ d'. IsPresent d') IsPresent m f d h k

module _ (codec : Codec) (new : FlashState) where
  encoded_Present :
      (encoded : Option (List ℕ)) (d : Device)
      → IsPresent d
      → Present (
          (do
            bytes ← or_raise encoded (json_error (codec.encode_error new))
            write_all tmp bytes
            sync_all tmp
            attempt (copy tmp bak)
            rename tmp primary)
            d)
  encoded_Present none d h = h
  encoded_Present (some bytes) d h =
      then_Present (write_all tmp bytes) _ d (write_all-Present bytes d h) λ _ d1 h1.
        then_Present (sync_all tmp) _ d1 (sync_all-Present d1 h1) λ _ d2 h2.
          then_Present (attempt (copy tmp bak)) _ d2
            (Ends-attempt IsPresent (copy tmp bak) d2 (copy-Present d2 h2))
            λ _ d3 h3. rename-Present d3 h3

  created_Present :
      (d : Device)
      → IsPresent d
      → Present (
          (do
            create tmp
            bytes ← or_raise (codec.encode new) (json_error (codec.encode_error new))
            write_all tmp bytes
            sync_all tmp
            attempt (copy tmp bak)
            rename tmp primary)
            d)
  created_Present d h =
      then_Present (create tmp) _ d (create-Present d h)
        λ _ d1 h1. encoded_Present (codec.encode new) d1 h1

  save-Present :
      (has_parent : Bool) (d : Device) → IsPresent d → Present (save codec has_parent new d)
  unfolding save
  save-Present true d h =
      then_Present create_dir_all _ d (create_dir_all-Present d h) λ _ d1 h1. created_Present d1 h1
  save-Present false d h = created_Present d h

pub Ends-both :
    {A : Type 0} (P P' : A → Device → Type 0) (Q Q' : Device → Type 0) (r : Outcome A × Device)
    → Ends r P Q
    → Ends r P' Q'
    → Ends r (λ a d. P a d × P' a d) (λ d. Q d × Q' d)
Ends-both P P' Q Q' (returned a, d) h k = (h, k)
Ends-both P P' Q Q' (failed e, d) h k = (h, k)
Ends-both P P' Q Q' (power_lost, d) h k = (h, k)

module _ (codec : Codec) (lawful : IsLawful codec) (old new : FlashState) where
  Stopped-present :
      (d : Device)
      → Stopped codec lawful old new d
      → IsPresent d
      → Holds codec d.primary_file old ⊎ Holds codec d.primary_file new
  Stopped-present d (over h) p = inr h
  Stopped-present d (late w) p = elim w.before [
    | inl absent ↦ cc (absent, p.1)
    | inr present ↦ inl present
  ]
  Stopped-present d (early (by_primary h)) p = inl h
  Stopped-present d (early (by_bak absent t b)) p = cc (absent, p.1)
  Stopped-present d (early (by_default absent t b e)) p = cc (absent, p.1)

  -- Over a primary file with the old state: a save that returns leaves the new state in it, and one that
  -- stops, by an error or by a loss of power, leaves the old state or the new one in it.
  pub save-Holds :
      (has_parent : Bool) (d : Device)
      → Holds codec d.primary_file old
      → Ends
          (save codec has_parent new d)
          (λ _ d'. Holds codec d'.primary_file new)
          (λ d'. Holds codec d'.primary_file old ⊎ Holds codec d'.primary_file new)
  save-Holds has_parent d h =
      let saved = save codec has_parent new d in
      Ends-imp (λ a d'. Renamed codec lawful old new a d' × IsPresent d')
        (λ _ d'. Holds codec d'.primary_file new)
        (λ d'. Stopped codec lawful old new d' × IsPresent d')
        (λ d'. Holds codec d'.primary_file old ⊎ Holds codec d'.primary_file new) saved
        (λ a d' k. k.0) (λ d' k. Stopped-present d' k.0 k.1)
        (Ends-both (Renamed codec lawful old new) (λ _ d'. IsPresent d')
          (Stopped codec lawful old new) IsPresent saved
          (save-Ends codec lawful old new has_parent d (by_primary h))
          (save-Present codec new has_parent d (h.bytes, h.there)))
