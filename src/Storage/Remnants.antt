-- ===== src/Storage/Remnants.antt =====
-- What a loss of power may leave behind a save: only states that were saved, and never a part of one.
use fupi.Common.{
  ℕ, zero, suc, ◌≡◌, refl, inl, inr, Bool, true, false, Option, none, some, List, [], ◌∷◌, take,
}
use fupi.Types.{FlashState}
use fupi.Storage.{
  Codec, primary, tmp, bak, Remnant, gone, all, part, Device, MayLeave, IsLeft, drop_parts,
  create_dir_all, create, write_all, sync_all, copy, rename, attempt, put, leave, left, newest,
  write_out, next, advance, or_raise, json_error, save, ◌>>=◌, ◌>>◌,
}
use fupi.Storage.Rules.{
  Ends, Ends-bind, Ends-attempt, Ends-imp, whole-Ends, partial-Ends, copy-partial, rename-whole,
  sync_all-whole,
}

-- `A` holds of all that a loss of power may leave of a file.
abbrev pub AllLeft : (Option (List ℕ) → Type 0) → List Remnant → Type 0
AllLeft A rs = (f : Option (List ℕ)) → MayLeave rs f → A f

pub AllLeft-push :
    (A : Option (List ℕ) → Type 0) (r : Remnant) (rs : List Remnant)
    → ((f : Option (List ℕ)) → IsLeft r f → A f)
    → AllLeft A rs
    → AllLeft A (r ∷ rs)
AllLeft-push A r rs new old f (inl h) = new f h
AllLeft-push A r rs new old f (inr h) = old f h

MayLeave-drop_parts :
    (rs : List Remnant) (f : Option (List ℕ)) → MayLeave (drop_parts rs) f → MayLeave rs f
MayLeave-drop_parts [] f h = h
MayLeave-drop_parts (part bytes ∷ rs) f h = inr (MayLeave-drop_parts rs f h)
MayLeave-drop_parts (gone ∷ rs) f h = h
MayLeave-drop_parts (all bytes ∷ rs) f h = h

take_empty : (k : ℕ) → take {A = ℕ} k [] ≡ []
take_empty zero = refl
take_empty (suc k) = refl

take-take : (j k : ℕ) (b : List ℕ) → (m : ℕ) × (take j (take k b) ≡ take m b)
take-take zero k b = (0, refl)
take-take (suc j) zero b = (0, refl)
take-take (suc j) (suc k) [] = (0, refl)
take-take (suc j) (suc k) (x ∷ b) = let (m, e) = take-take j k b in (suc m, rw e refl)

-- What may be left of the primary, the temporary and the backup file has these properties, which the
-- encoding of a new state fits.
module _ (A B C : Option (List ℕ) → Type 0) where
  pub record Fits (d : Device) : Type 0 where
    pub of_primary : AllLeft A d.primary_left
    pub of_tmp : AllLeft B d.tmp_left
    pub of_bak : AllLeft C d.bak_left

  pub record Allows (codec : Codec) (new : FlashState) : Type 0 where
    pub whole : (b : List ℕ) → codec.encode new ≡ some b → A (some b)
    pub no_tmp : B none
    pub empty_tmp : B (some [])
    pub whole_tmp : (b : List ℕ) → codec.encode new ≡ some b → B (some b)
    pub part_tmp : (b : List ℕ) (k : ℕ) → codec.encode new ≡ some b → B (some (take k b))
    pub part_bak : (b : List ℕ) (k : ℕ) → codec.encode new ≡ some b → C (some (take k b))

  module _ (codec : Codec) (new : FlashState) (allows : Allows codec new) where
    abbrev Fit : {X : Type 0} → X → Device → Type 0
    Fit x d = Fits d

    create_dir_all-Fits : (d : Device) → Fits d → Ends (create_dir_all d) Fit Fits
    unfolding create_dir_all
    create_dir_all-Fits d h =
        let h' : Fits (advance d) = record {
          of_primary = h.of_primary;
          of_tmp = h.of_tmp;
          of_bak = h.of_bak;
        } in
        whole-Ends Fit Fits (next d.script) tt (advance d) (advance d) h' h' h'

    advance-Fits : (d : Device) → Fits d → Fits (advance d)
    advance-Fits d h = record { of_primary = h.of_primary; of_tmp = h.of_tmp; of_bak = h.of_bak }

    create-Fits : (d : Device) → Fits d → Ends (create tmp d) Fit Fits
    unfolding create
    create-Fits d h =
        let after : Fits (put tmp (some []) (advance d)) = record {
          of_primary = h.of_primary;
          of_tmp =
              AllLeft-push B (part []) d.tmp_left
                (λ f (k, e). rw (e, take_empty k) allows.empty_tmp) h.of_tmp;
          of_bak = h.of_bak;
        } in
        whole-Ends Fit Fits (next d.script) tt (advance d) (put tmp (some []) (advance d)) after
          (advance-Fits d h) after

    module _ (b : List ℕ) (encoded : codec.encode new ≡ some b) where
      -- The encoding is in the temporary file, and then it is written out too.
      pub record FitsWritten (d : Device) : Type 0 where
        pub fits : Fits d
        pub there : d.tmp_file ≡ some b

      pub record FitsSynced (d : Device) : Type 0 where
        pub fits : Fits d
        pub there : d.tmp_file ≡ some b
        pub earlier : List Remnant
        pub synced : d.tmp_left ≡ all b ∷ earlier

      put_part-Fits : (d : Device) (k : ℕ) → Fits d → Fits (put tmp (some (take k b)) (advance d))
      put_part-Fits d k h = record {
        of_primary = h.of_primary;
        of_tmp =
            AllLeft-push B (part (take k b)) d.tmp_left
              (λ f (j, e).
                let (m, same) = take-take j k b in rw (e, same) (allows.part_tmp b m encoded))
              h.of_tmp;
        of_bak = h.of_bak;
      }

      write_all-Fits :
          (d : Device) → Fits d → Ends (write_all tmp b d) (λ _ d'. FitsWritten d') Fits
      unfolding write_all
      write_all-Fits d h =
          partial-Ends (λ _ d'. FitsWritten d') Fits (next d.script) (advance d)
            (λ x. put tmp (some x) (advance d)) b
            (record {
              fits = record {
                of_primary = h.of_primary;
                of_tmp =
                    AllLeft-push B (part b) d.tmp_left
                      (λ f (j, e). rw e (allows.part_tmp b j encoded)) h.of_tmp;
                of_bak = h.of_bak;
              };
              there = refl;
            })
            (advance-Fits d h) (λ k. put_part-Fits d k h)

      sync_all-Fits :
          (d : Device) → FitsWritten d → Ends (sync_all tmp d) (λ _ d'. FitsSynced d') Fits
      sync_all-Fits d h =
          let fits : Fits (write_out tmp b (advance d)) = record {
            of_primary = h.fits.of_primary;
            of_tmp =
                AllLeft-push B (all b) (drop_parts d.tmp_left)
                  (λ f e. rw e (allows.whole_tmp b encoded))
                  (λ f m. h.fits.of_tmp f (MayLeave-drop_parts d.tmp_left f m));
            of_bak = h.fits.of_bak;
          } in
          rw (sync_all-whole tmp d b h.there) (
            whole-Ends (λ _ d'. FitsSynced d') Fits (next d.script) tt (advance d)
              (write_out tmp b (advance d))
              (record {
                fits = fits;
                there = h.there;
                earlier = drop_parts d.tmp_left;
                synced = refl;
              })
              (advance-Fits d h.fits) fits)

      copied_Fits :
          (d : Device) (k : ℕ) → FitsSynced d → FitsSynced (put bak (some (take k b)) (advance d))
      copied_Fits d k h = record {
        fits = record {
          of_primary = h.fits.of_primary;
          of_tmp = h.fits.of_tmp;
          of_bak =
              AllLeft-push C (part (take k b)) d.bak_left
                (λ f (j, e).
                  let (m, same) = take-take j k b in rw (e, same) (allows.part_bak b m encoded))
                h.fits.of_bak;
        };
        there = h.there;
        earlier = h.earlier;
        synced = h.synced;
      }

      copy-Fits :
          (d : Device) → FitsSynced d → Ends (copy tmp bak d) (λ _ d'. FitsSynced d') FitsSynced
      copy-Fits d h =
          let whole_copy : FitsSynced (put bak (some b) (advance d)) = record {
            fits = record {
              of_primary = h.fits.of_primary;
              of_tmp = h.fits.of_tmp;
              of_bak =
                  AllLeft-push C (part b) d.bak_left
                    (λ f (j, e). rw e (allows.part_bak b j encoded)) h.fits.of_bak;
            };
            there = h.there;
            earlier = h.earlier;
            synced = h.synced;
          } in
          rw (copy-partial tmp bak d b h.there) (
            partial-Ends (λ _ d'. FitsSynced d') FitsSynced (next d.script) (advance d)
              (λ x. put bak (some x) (advance d)) b whole_copy
              (record {
                fits = advance-Fits d h.fits;
                there = h.there;
                earlier = h.earlier;
                synced = h.synced;
              })
              (λ k. copied_Fits d k h))

      rename-Fits : (d : Device) → FitsSynced d → Ends (rename tmp primary d) Fit Fits
      rename-Fits d h =
          let moved = put tmp none (leave primary (some b) (newest b (left tmp d)) (advance d)) in
          let after : Fits moved = record {
            of_primary =
                AllLeft-push A (newest b d.tmp_left) d.primary_left
                  (rw h.synced (λ f e. rw e (allows.whole b encoded))) h.fits.of_primary;
            of_tmp = AllLeft-push B gone d.tmp_left (λ f e. rw e allows.no_tmp) h.fits.of_tmp;
            of_bak = h.fits.of_bak;
          } in
          rw (rename-whole tmp primary d b h.there) (
            whole-Ends Fit Fits (next d.script) tt (advance d) moved after (advance-Fits d h.fits)
              after)

      finish-Fits :
          (d : Device)
          → Fits d
          → Ends
              ((do write_all tmp b; sync_all tmp; attempt (copy tmp bak); rename tmp primary) d)
              Fit
              Fits
      finish-Fits d h =
          Ends-bind (λ _ d'. FitsWritten d') Fit Fits (write_all tmp b) _ d (write_all-Fits d h)
            λ _ d1 h1.
              Ends-bind (λ _ d'. FitsSynced d') Fit Fits (sync_all tmp) _ d1 (sync_all-Fits d1 h1)
                λ _ d2 h2.
                  Ends-bind (λ _ d'. FitsSynced d') Fit Fits (attempt (copy tmp bak)) _ d2
                    (Ends-imp (λ _ d'. FitsSynced d') (λ _ d'. FitsSynced d') FitsSynced Fits
                      (attempt (copy tmp bak) d2) (λ _ d' v. v) (λ d' v. v.fits)
                      (Ends-attempt FitsSynced (copy tmp bak) d2 (copy-Fits d2 h2)))
                    λ _ d3 h3. rename-Fits d3 h3

    encoded_Fits :
        (encoded : Option (List ℕ)) (d : Device)
        → codec.encode new ≡ encoded
        → Fits d
        → Ends
            ((do
              b ← or_raise encoded (json_error (codec.encode_error new))
              write_all tmp b
              sync_all tmp
              attempt (copy tmp bak)
              rename tmp primary)
              d)
            Fit
            Fits
    encoded_Fits none d e h = h
    encoded_Fits (some b) d e h = finish-Fits b e d h

    created_Fits :
        (d : Device)
        → Fits d
        → Ends
            ((do
              create tmp
              b ← or_raise (codec.encode new) (json_error (codec.encode_error new))
              write_all tmp b
              sync_all tmp
              attempt (copy tmp bak)
              rename tmp primary)
              d)
            Fit
            Fits
    created_Fits d h =
        Ends-bind Fit Fit Fits (create tmp) _ d (create-Fits d h)
          λ _ d1 h1. encoded_Fits (codec.encode new) d1 refl h1

    pub save-Fits :
        (has_parent : Bool) (d : Device) → Fits d → Ends (save codec has_parent new d) Fit Fits
    unfolding save
    save-Fits true d h =
        Ends-bind Fit Fit Fits create_dir_all _ d (create_dir_all-Fits d h)
          λ _ d1 h1. created_Fits d1 h1
    save-Fits false d h = created_Fits d h
