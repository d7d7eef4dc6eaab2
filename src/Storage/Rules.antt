-- ===== src/Storage/Rules.antt =====
-- Rules for sequences of file operations: what holds where an operation returns, and what holds of
-- the device where it stops, by an error or by a loss of power.
use mathlib.Core.Path.{◌≡◌, refl}
use mathlib.Core.Option.{none, some}
use Prim.Native.Nat.{ℕ, zero, suc}
use mathlib.Core.List.{List}
use fupi.Common.{take}
use fupi.Storage.Files.{
  Device, Fault, fine, fails, cut, Outcome, returned, failed, power_lost, Io, ◌>>=◌, attempt, whole,
  partial, Slot, file, copy, rename, put, next, advance, sync_all, write_out, leave, left, newest,
}

continue-returned :
    {A B : Type 0} (r : Outcome A × Device) (f : A → Io B) (a : A) (m : Io A) (d : Device)
    → m d ≡ r
    → r.0 ≡ returned a
    → (m >>= f) d ≡ f a r.1
continue-returned (returned x, d') f a m d e h = rw e (cc h)
continue-returned (failed x, d') f a m d e h = cc
continue-returned (power_lost, d') f a m d e h = cc

pub >>=-returned :
    {A B : Type 0} (m : Io A) (f : A → Io B) (d : Device) (a : A)
    → (m d).0 ≡ returned a
    → (m >>= f) d ≡ f a (m d).1
>>=-returned m f d a h = continue-returned (m d) f a m d refl h

-- `P` holds where the run returned, and `Q` of the device where it stopped.
abbrev pub Ends :
    {A : Type 0} → Outcome A × Device → (A → Device → Type 0) → (Device → Type 0) → Type 0
Ends (returned a, d) P Q = P a d
Ends (failed e, d) P Q = Q d
Ends (power_lost, d) P Q = Q d

module _ {A B : Type 0} (P : A → Device → Type 0) (R : B → Device → Type 0)
    (Q : Device → Type 0) where
  continue-Ends :
      (r : Outcome A × Device) (m : Io A) (f : A → Io B) (d : Device)
      → m d ≡ r
      → Ends r P Q
      → ((a : A) (d' : Device) → P a d' → Ends (f a d') R Q)
      → Ends ((m >>= f) d) R Q
  continue-Ends (returned a, d') m f d e h k = rw e (k a d' h)
  continue-Ends (failed x, d') m f d e h k = rw e h
  continue-Ends (power_lost, d') m f d e h k = rw e h

  pub Ends-bind :
      (m : Io A) (f : A → Io B) (d : Device)
      → Ends (m d) P Q
      → ((a : A) (d' : Device) → P a d' → Ends (f a d') R Q)
      → Ends ((m >>= f) d) R Q
  Ends-bind m f d h k = continue-Ends (m d) m f d refl h k

-- Where an error is dropped, what holds after it must be enough to go on.
module _ {A : Type 0} (P : Device → Type 0) where
  caught-Ends :
      (r : Outcome A × Device) (m : Io A) (d : Device)
      → m d ≡ r
      → Ends r (λ _ d'. P d') P
      → Ends (attempt m d) (λ _ d'. P d') P
  caught-Ends (returned a, d') m d e h = rw e h
  caught-Ends (failed x, d') m d e h = rw e h
  caught-Ends (power_lost, d') m d e h = rw e h

  pub Ends-attempt :
      (m : Io A) (d : Device) → Ends (m d) (λ _ d'. P d') P → Ends (attempt m d) (λ _ d'. P d') P
  Ends-attempt m d h = caught-Ends (m d) m d refl h

pub whole-Ends :
    {A : Type 0} (P : A → Device → Type 0) (Q : Device → Type 0) (f : Fault) (a : A)
    (before after : Device)
    → P a after
    → Q before
    → Q after
    → Ends (whole f a before after) P Q
whole-Ends P Q fine a before after p q r = p
whole-Ends P Q (fails k message) a before after p q r = q
whole-Ends P Q (cut zero) a before after p q r = q
whole-Ends P Q (cut (suc k)) a before after p q r = r

pub partial-Ends :
    (P : Unit {0} → Device → Type 0) (Q : Device → Type 0) (f : Fault) (before : Device)
    (write : List ℕ → Device) (bytes : List ℕ)
    → P tt (write bytes)
    → Q before
    → ((k : ℕ) → Q (write (take k bytes)))
    → Ends (partial f before write bytes) P Q
partial-Ends P Q fine before write bytes p q r = p
partial-Ends P Q (fails zero message) before write bytes p q r = q
partial-Ends P Q (fails (suc k) message) before write bytes p q r = r k
partial-Ends P Q (cut zero) before write bytes p q r = q
partial-Ends P Q (cut (suc k)) before write bytes p q r = r k

-- A copy and a rename of a file that is there.
pub copy-partial :
    (from to : Slot) (d : Device) (bytes : List ℕ)
    → file from d ≡ some bytes
    → copy from to d ≡ partial (next d.script) (advance d) (λ b. put to (some b) (advance d)) bytes
unfolding copy
copy-partial from to d bytes e = rw (e, copy) refl

pub rename-whole :
    (from to : Slot) (d : Device) (bytes : List ℕ)
    → file from d ≡ some bytes
    → rename from to d
      ≡ whole
          (next d.script)
          tt
          (advance d)
          (put from none (leave to (some bytes) (newest bytes (left from d)) (advance d)))
unfolding rename
rename-whole from to d bytes e = rw (e, rename) refl

pub sync_all-whole :
    (slot : Slot) (d : Device) (bytes : List ℕ)
    → file slot d ≡ some bytes
    → sync_all slot d ≡ whole (next d.script) tt (advance d) (write_out slot bytes (advance d))
unfolding sync_all
sync_all-whole slot d bytes e = rw (e, sync_all) refl

pub Ends-imp :
    {A : Type 0} (P P' : A → Device → Type 0) (Q Q' : Device → Type 0) (r : Outcome A × Device)
    → ((a : A) (d : Device) → P a d → P' a d)
    → ((d : Device) → Q d → Q' d)
    → Ends r P Q
    → Ends r P' Q'
Ends-imp P P' Q Q' (returned a, d) p q h = p a d h
Ends-imp P P' Q Q' (failed e, d) p q h = q d h
Ends-imp P P' Q Q' (power_lost, d) p q h = q d h
