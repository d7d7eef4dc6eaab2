-- ===== src/Storage/Files.antt =====
-- Three files on a device, and the file operations of the standard library on them. A script says
-- how each operation goes: well, with an error, or with a loss of power; a write or copy that stops
-- leaves a part of its bytes. Behind the end of the script all operations go well.
-- What a program reads back may not have reached the disk: beside each file stands what a loss of
-- power may leave of it. A creation, a removal or a rename may be undone by it at any later time, also
-- when later ones are not, since nothing writes out the directory; of written bytes it may leave any
-- first part, until `sync_all` has written them out.
use fupi.Common.{
  ℕ, zero, suc, String, Bool, false, Option, none, some, List, [], ◌∷◌, take, is_some, ◌≡◌, ◌⊎◌,
}

pub data Slot : Type 0 where
  primary tmp bak : Slot

pub data Fault : Type 0 where
  fine : Fault
  fails : ℕ → String → Fault
  cut : ℕ → Fault

-- What may be left under the name of a file: nothing, all of these bytes, or a first part of them.
pub data Remnant : Type 0 where
  gone : Remnant
  all part : List ℕ → Remnant

pub record Device : Type 0 where
  pub primary_file : Option (List ℕ)
  pub tmp_file : Option (List ℕ)
  pub bak_file : Option (List ℕ)
  -- What a loss of power may leave of each, the newest first
  pub primary_left : List Remnant
  pub tmp_left : List Remnant
  pub bak_left : List Remnant
  pub script : List Fault

pub data StorageError : Type 0 where
  io_error json_error : String → StorageError

pub data Outcome (A : Type 0) : Type 0 where
  returned : A → Outcome A
  failed : StorageError → Outcome A
  power_lost : Outcome A

abbrev pub Io : Type 0 → Type 0
Io A = Device → Outcome A × Device

abbrev pub pure : {A : Type 0} → A → Io A
pure a d = (returned a, d)

abbrev pub raise : {A : Type 0} → StorageError → Io A
raise e d = (failed e, d)

abbrev pub or_raise : {A : Type 0} → Option A → StorageError → Io A
or_raise none e = raise e
or_raise (some a) e = pure a

abbrev pub or_fail : {A : Type 0} → Option A → String → Io A
or_fail o message = or_raise o (io_error message)

abbrev continue : {A B : Type 0} → Outcome A × Device → (A → Io B) → Outcome B × Device
continue (returned a, d) f = f a d
continue (failed e, d) f = (failed e, d)
continue (power_lost, d) f = (power_lost, d)

infixl 5 ◌>>=◌ ◌>>◌
abbrev pub ◌>>=◌ : {A B : Type 0} → Io A → (A → Io B) → Io B
◌>>=◌ m f d = continue (m d) f

abbrev pub ◌>>◌ : {A B : Type 0} → Io A → Io B → Io B
m >> k = m >>= λ _. k

abbrev caught : {A : Type 0} → Outcome A × Device → Outcome (Option A) × Device
caught (returned a, d) = (returned (some a), d)
caught (failed e, d) = (returned none, d)
caught (power_lost, d) = (power_lost, d)

-- `let _ = …` and `if let Ok(…) = …`: an error is dropped. A loss of power is not.
abbrev pub attempt : {A : Type 0} → Io A → Io (Option A)
attempt m d = caught (m d)

abbrev pub file : Slot → Device → Option (List ℕ)
file primary d = d.primary_file
file tmp d = d.tmp_file
file bak d = d.bak_file

abbrev pub left : Slot → Device → List Remnant
left primary d = d.primary_left
left tmp d = d.tmp_left
left bak d = d.bak_left

-- A file with these bytes, or none, of which a loss of power may leave `r`, or what it could before.
abbrev pub leave : Slot → Option (List ℕ) → Remnant → Device → Device
leave primary f r d = record d { primary_file = f; primary_left = r ∷ d.primary_left }
leave tmp f r d = record d { tmp_file = f; tmp_left = r ∷ d.tmp_left }
leave bak f r d = record d { bak_file = f; bak_left = r ∷ d.bak_left }

-- What is left of bytes that were not written out.
abbrev pub unsynced : Option (List ℕ) → Remnant
unsynced none = gone
unsynced (some bytes) = part bytes

abbrev pub put : Slot → Option (List ℕ) → Device → Device
put slot f d = leave slot f (unsynced f) d

-- What is left of the bytes that stand under a name now.
abbrev pub newest : List ℕ → List Remnant → Remnant
newest bytes [] = part bytes
newest bytes (r ∷ rs) = r

-- The parts of the file that stands under the name now are no longer possible.
abbrev pub drop_parts : List Remnant → List Remnant
drop_parts [] = []
drop_parts (part bytes ∷ rs) = drop_parts rs
drop_parts (gone ∷ rs) = gone ∷ rs
drop_parts (all bytes ∷ rs) = all bytes ∷ rs

abbrev pub write_out : Slot → List ℕ → Device → Device
write_out primary bytes d = record d { primary_left = all bytes ∷ drop_parts d.primary_left }
write_out tmp bytes d = record d { tmp_left = all bytes ∷ drop_parts d.tmp_left }
write_out bak bytes d = record d { bak_left = all bytes ∷ drop_parts d.bak_left }

-- How the next operation goes, and the device with the script behind it.
abbrev pub next : List Fault → Fault
next [] = fine
next (f ∷ fs) = f

abbrev pub later : List Fault → List Fault
later [] = []
later (f ∷ fs) = fs

abbrev pub advance : Device → Device
advance d = record d { script = later d.script }

-- An operation that writes nothing half way: done, or not done, or power is lost before or after.
abbrev pub whole : {A : Type 0} → Fault → A → Device → Device → Outcome A × Device
whole fine a before after = (returned a, after)
whole (fails k message) a before after = (failed (io_error message), before)
whole (cut zero) a before after = (power_lost, before)
whole (cut (suc k)) a before after = (power_lost, after)

-- An operation that stops before it begins, or leaves the first `k` bytes in a file.
abbrev pub partial : Fault → Device → (List ℕ → Device) → List ℕ → Outcome Unit × Device
partial fine before write bytes = (returned tt, write bytes)
partial (fails zero message) before write bytes = (failed (io_error message), before)
partial (fails (suc k) message) before write bytes =
    (failed (io_error message), write (take k bytes))
partial (cut zero) before write bytes = (power_lost, before)
partial (cut (suc k)) before write bytes = (power_lost, write (take k bytes))

-- `Path::exists` takes an error for an absence.
abbrev there : Fault → Bool → Device → Outcome Bool × Device
there fine b d = (returned b, d)
there (fails k message) b d = (returned false, d)
there (cut k) b d = (power_lost, d)

unfoldable pub exists : Slot → Io Bool
exists slot d = there (next d.script) (is_some (file slot d)) (advance d)

unfoldable pub read : Slot → Io (List ℕ)
read slot d = elim (file slot d) [
  | none ↦ (failed (io_error "No such file or directory"), advance d)
  | some bytes ↦ whole (next d.script) bytes (advance d) (advance d)
]

unfoldable pub create_dir_all : Io Unit
create_dir_all d = whole (next d.script) tt (advance d) (advance d)

-- `File::create` leaves the file empty.
unfoldable pub create : Slot → Io Unit
create slot d = whole (next d.script) tt (advance d) (put slot (some []) (advance d))

-- `write_all` on the file that was just created.
unfoldable pub write_all : Slot → List ℕ → Io Unit
write_all slot bytes d =
    partial (next d.script) (advance d) (λ b. put slot (some b) (advance d)) bytes

-- `File::sync_all`: the bytes of the file are on the disk, its name need not be.
unfoldable pub sync_all : Slot → Io Unit
sync_all slot d = elim (file slot d) [
  | none ↦ (failed (io_error "No such file or directory"), advance d)
  | some bytes ↦ whole (next d.script) tt (advance d) (write_out slot bytes (advance d))
]

-- `fs::copy` truncates the target first.
unfoldable pub copy : Slot → Slot → Io Unit
copy from to d = elim (file from d) [
  | none ↦ (failed (io_error "No such file or directory"), advance d)
  | some bytes ↦ partial (next d.script) (advance d) (λ b. put to (some b) (advance d)) bytes
]

-- `fs::rename` is atomic; a loss of power may undo it.
unfoldable pub rename : Slot → Slot → Io Unit
rename from to d = elim (file from d) [
  | none ↦ (failed (io_error "No such file or directory"), advance d)
  | some bytes ↦
      whole (next d.script) tt (advance d)
        (put from none (leave to (some bytes) (newest bytes (left from d)) (advance d)))
]

unfoldable pub remove_file : Slot → Io Unit
remove_file slot d = whole (next d.script) tt (advance d) (put slot none (advance d))

abbrev pub on_disk : Option (List ℕ) → Remnant
on_disk none = gone
on_disk (some bytes) = all bytes

-- A device on which all goes well, with these files on the disk.
abbrev pub disk : Option (List ℕ) → Option (List ℕ) → Option (List ℕ) → Device
disk p t b = record {
  primary_file = p;
  tmp_file = t;
  bak_file = b;
  primary_left = on_disk p ∷ [];
  tmp_left = on_disk t ∷ [];
  bak_left = on_disk b ∷ [];
  script = [];
}

-- What a loss of power may leave of a file.
abbrev pub IsLeft : Remnant → Option (List ℕ) → Type 0
IsLeft gone f = f ≡ none
IsLeft (all bytes) f = f ≡ some bytes
IsLeft (part bytes) f = (k : ℕ) × (f ≡ some (take k bytes))

abbrev pub MayLeave : List Remnant → Option (List ℕ) → Type 0
MayLeave [] f = ⊥
MayLeave (r ∷ rs) f = IsLeft r f ⊎ MayLeave rs f
