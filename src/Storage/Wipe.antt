-- ===== src/Storage/Wipe.antt =====
-- What a wipe leaves behind, when all goes well and when it is interrupted.
use fupi.Common.{ℕ, ◌≡◌, refl, String, Option, none, some, List, [], ◌∷◌}
use fupi.Types.{FlashState, default_state}
use fupi.Storage.{Codec, Device, disk, fine, fails, cut, returned, wipe, exists, remove_file}
use fupi.Storage.Load.{parse, Loads, load_absent, recover_bak, recover-none}

-- No file can be read.
pub record IsWiped (d : Device) : Type 0 where
  pub no_primary : d.primary_file ≡ none
  pub no_tmp : d.tmp_file ≡ none
  pub no_bak : d.bak_file ≡ none

empty : {d : Device} → d.primary_file ≡ none → d.tmp_file ≡ none → d.bak_file ≡ none → IsWiped d
empty p t b = record { no_primary = p; no_tmp = t; no_bak = b }

wipe_disk :
    (p t b : Option (List ℕ))
    → ((wipe (disk p t b)).0 ≡ returned tt) × IsWiped (wipe (disk p t b)).1
unfolding wipe exists remove_file
wipe_disk none none none = (refl, empty refl refl refl)
wipe_disk none none (some z) = (refl, empty refl refl refl)
wipe_disk none (some y) none = (refl, empty refl refl refl)
wipe_disk none (some y) (some z) = (refl, empty refl refl refl)
wipe_disk (some x) none none = (refl, empty refl refl refl)
wipe_disk (some x) none (some z) = (refl, empty refl refl refl)
wipe_disk (some x) (some y) none = (refl, empty refl refl refl)
wipe_disk (some x) (some y) (some z) = (refl, empty refl refl refl)

-- When all goes well a wipe returns with no file left, and the next load returns the default state.
pub wipe_empties :
    (codec : Codec) (p t b : Option (List ℕ))
    → let (o, d) = wipe (disk p t b) in (o ≡ returned tt) × IsWiped d × Loads codec d default_state
wipe_empties codec p t b =
    let (done, wiped) = wipe_disk p t b in
    (
      done,
      wiped,
      rw (wiped.no_primary, wiped.no_tmp, wiped.no_bak)
          (load_absent codec none none none (recover-none codec none none none refl refl)),
    )

-- If the temporary file does not parse and the backup holds a state, that state comes back when power
-- is lost behind the removal of the primary file and that removal is on the disk: the next load restores the backup.
pub wipe_interrupted :
    (codec : Codec) (p : List ℕ) (t b : Option (List ℕ)) (s : FlashState)
    → parse codec t ≡ none
    → parse codec b ≡ some s
    → Loads codec (wipe (record (disk (some p) t b) { script = fine ∷ cut 1 ∷ [] })).1 s
unfolding wipe exists remove_file
wipe_interrupted codec p t b s ht hb =
    load_absent codec t b (some s) (recover_bak codec none t b s ht hb)

-- Without a temporary file, the state in the backup also comes back if the backup cannot be removed,
-- although the wipe returns without an error.
pub wipe_ignores_error :
    (codec : Codec) (p b : List ℕ) (k : ℕ) (message : String) (s : FlashState)
    → parse codec (some b) ≡ some s
    → let (o, d') = wipe (record (disk (some p) none (some b)) {
      script = fine ∷ fine ∷ fine ∷ fine ∷ fails k message ∷ [];
    }) in
      (o ≡ returned tt) × Loads codec d' s
unfolding wipe exists remove_file
wipe_ignores_error codec p b k message s hb = (
  refl,
  load_absent codec none (some b) (some s) (recover_bak codec none none (some b) s refl hb),
)
