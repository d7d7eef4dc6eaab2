-- ===== src/Storage/Recovery.antt =====
-- What an undisturbed save leaves: the backup makes up for any damage to the primary file, but a loss of
-- power may undo the save.
use fupi.Common.{ℕ, ◌≡◌, refl, Bool, true, false, ◌⊎◌, Option, none, some, List, [], ◌∷◌}
use fupi.Types.{FlashState}
use fupi.Storage.{
  Codec, Device, disk, on_disk, all, part, gone, drop_parts, returned, is_blank, save,
  create_dir_all, create, write_all, sync_all, copy, rename,
}
use fupi.Storage.Load.{parse, IsLawful, Loads, load_damaged, recover_bak}

-- The device behind an undisturbed save: the encoding is in the primary and the backup file, and only
-- the bytes under the name of the temporary file were written out.
abbrev saved_disk : (p t b : Option (List ℕ)) → List ℕ → Device
saved_disk p t b data_ = record (disk (some data_) none (some data_)) {
  primary_left = all data_ ∷ on_disk p ∷ [];
  tmp_left = gone ∷ all data_ ∷ drop_parts (on_disk t ∷ []);
  bak_left = part data_ ∷ on_disk b ∷ [];
}

-- An undisturbed save returns.
save_disk :
    (codec : Codec) (has_parent : Bool) (s : FlashState) (p t b : Option (List ℕ)) (data_ : List ℕ)
    → codec.encode s ≡ some data_
    → save codec has_parent s (disk p t b) ≡ (returned tt, saved_disk p t b data_)
unfolding save create_dir_all create write_all sync_all copy rename
save_disk codec true s p t b data_ e = rw e refl
save_disk codec false s p t b data_ e = rw e refl

-- After an undisturbed save, whatever readable text replaces the primary file, if it is blank or
-- does not parse, the next load returns the saved state.
pub load-save_damaged :
    (codec : Codec) (has_parent : Bool) (s : FlashState) (p t b : Option (List ℕ))
    (x text data_ : List ℕ)
    → IsLawful codec
    → codec.encode s ≡ some data_
    → codec.from_utf8 x ≡ some text
    → (is_blank text ≡ true) ⊎ (codec.decode text ≡ none)
    → Loads codec (record (save codec has_parent s (disk p t b)).1 { primary_file = some x }) s
load-save_damaged codec has_parent s p t b x text data_ lawful e decoded damage =
    let (u, from, not_blank, parsed) = lawful.readable s data_ e in
    let backup : parse codec (some data_) ≡ some s = rw (from, parse) parsed in
    rw (save_disk codec has_parent s p t b data_ e) (
      load_damaged codec x text none (some data_) s decoded damage
        (recover_bak codec (some x) none (some data_) s refl backup))
