-- ===== src/Storage.antt =====
-- vault-rust/src/storage.rs: the flash file, its temporary and its backup copy, as three files on a
-- device whose every operation may fail or lose power half way, and which may lose what was not synced.
mod Tests
mod Files
pub mod Rules
pub mod Load
pub mod Save
pub mod Present
pub mod Remnants
pub mod Durable
pub mod Wipe
pub mod Recovery
unfoldable pub use Files.*
use fupi.Common.{ℕ, String, Bool, true, false, Option, none, some, List, [], ◌∷◌, if◌then◌else◌}
use fupi.Common.Text.{trim}
use fupi.Types.{FlashState, default_state}

-- serde_json's printer and parser of the flash state, and `from_utf8`. A text is its code points.
pub record Codec : Type 0 where
  pub encode : FlashState → Option (List ℕ)
  pub encode_error : FlashState → String
  pub decode : List ℕ → Option FlashState
  pub decode_error : List ℕ → String
  pub from_utf8 : List ℕ → Option (List ℕ)

-- `content.trim().is_empty()`
unfoldable pub is_blank : List ℕ → Bool
is_blank text = elim (trim text) [ [] ↦ true | _ ∷ _ ↦ false ]

module _ (codec : Codec) where
  -- `fs::read_to_string`
  unfoldable pub read_to_string : Slot → Io (List ℕ)
  read_to_string slot = do
    bytes ← read slot
    or_fail (codec.from_utf8 bytes) "stream did not contain valid UTF-8"

  unfoldable pub parse_file : Slot → Io (Option FlashState)
  unfolding read_to_string
  parse_file slot = do
    content ← attempt (read_to_string slot)
    elim content [ none ↦ pure none | some text ↦ pure (codec.decode text) ]

  -- One recovery attempt: the file exists, can be read, and parses.
  unfoldable pub recover_from : Slot → Io (Option FlashState)
  unfolding parse_file
  recover_from slot = do there ← exists slot; if there then parse_file slot else pure none

  -- The block that `load` holds three times: first the temporary file, then the backup. What
  -- becomes of the repair of the primary file is ignored.
  unfoldable pub recover : Io (Option FlashState)
  unfolding recover_from
  recover = do
    from_tmp ← recover_from tmp
    elim from_tmp [
      | some state ↦ (do attempt (rename tmp primary); pure (some state))
      | none ↦ (do
        from_bak ← recover_from bak
        elim from_bak [
          | some state ↦ (do attempt (copy bak primary); pure (some state))
          | none ↦ pure none
        ])
    ]

  abbrev pub or_default : Option FlashState → Io FlashState
  or_default none = pure default_state
  or_default (some state) = pure state

  abbrev pub or_json_error : String → Option FlashState → Io FlashState
  or_json_error e none = raise (json_error e)
  or_json_error e (some state) = pure state

  unfoldable pub load_content : List ℕ → Io FlashState
  unfolding recover is_blank
  load_content content =
      if is_blank content then (recover >>= or_default) else (elim (codec.decode content) [
        | some state ↦ pure state
        | none ↦ recover >>= or_json_error (codec.decode_error content)
      ])

  unfoldable pub load : Io FlashState
  unfolding load_content recover read_to_string
  load = do
    there ← exists primary
    if there then (read_to_string primary >>= load_content) else (recover >>= or_default)

  -- `has_parent`: the path has a directory part, which is created first.
  unfoldable pub save : Bool → FlashState → Io Unit
  save has_parent state = do
    if has_parent then create_dir_all else pure tt
    create tmp
    data_ ← or_raise (codec.encode state) (json_error (codec.encode_error state))
    write_all tmp data_
    sync_all tmp
    attempt (copy tmp bak)
    rename tmp primary

unfoldable pub wipe : Io Unit
wipe = do
  there ← exists primary
  if there then remove_file primary else pure tt
  tmp_there ← exists tmp
  if tmp_there then (do attempt (remove_file tmp); pure tt) else pure tt
  bak_there ← exists bak
  if bak_there then (do attempt (remove_file bak); pure tt) else pure tt
