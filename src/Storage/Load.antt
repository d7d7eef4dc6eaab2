-- ===== src/Storage/Load.antt =====
-- What a load without faults finds: the primary file, else the temporary file, else the backup.
use fupi.Common.{
  ℕ, ◌≡◌, ◌<◌, refl, true, false, ◌⊎◌, inl, inr, Option, none, some, List, [], arith, length, take,
  Bool-cases,
}
use fupi.Types.{FlashState, default_state}
use fupi.Storage.Rules.{>>=-returned}
use fupi.Storage.{
  Codec, disk, tmp, bak, Device, returned, is_blank, recover_from, recover, load_content, load,
  exists, read, rename, copy, or_default, or_json_error, Io,
}

-- What the bytes of a file stand for.
abbrev pub parse : Codec → Option (List ℕ) → Option FlashState
parse codec none = none
parse codec (some bytes) = elim (codec.from_utf8 bytes) [
  | none ↦ none
  | some text ↦ codec.decode text
]

-- Documented behaviour of serde_json and of UTF-8: what was printed is read back and is not blank,
-- and an empty or cut off object is refused.
pub record IsLawful (codec : Codec) : Type 0 where
  pub readable :
      (s : FlashState) (b : List ℕ)
      → codec.encode s ≡ some b
      → (t : List ℕ) × (codec.from_utf8 b ≡ some t)
        × (is_blank t ≡ false)
        × (codec.decode t ≡ some s)
  pub truncated :
      (s : FlashState) (b : List ℕ) (k : ℕ)
      → codec.encode s ≡ some b
      → k < length b
      → parse codec (some (take k b)) ≡ none
  pub empty : parse codec (some []) ≡ none

abbrev pub restart : Device → Device
restart d = disk d.primary_file d.tmp_file d.bak_file

-- A load after a restart of the program, in which all operations go well, returns `s`.
abbrev pub Loads : Codec → Device → FlashState → Type 0
Loads codec d s = (load codec (restart d)).0 ≡ returned s

module _ (codec : Codec) where
  -- A file that holds the state `s`.
  pub record Holds (f : Option (List ℕ)) (s : FlashState) : Type 0 where
    pub bytes : List ℕ
    pub text : List ℕ
    pub there : f ≡ some bytes
    pub decoded : codec.from_utf8 bytes ≡ some text
    pub not_blank : is_blank text ≡ false
    pub parsed : codec.decode text ≡ some s

  pub Holds-parse : (f : Option (List ℕ)) (s : FlashState) → Holds f s → parse codec f ≡ some s
  Holds-parse f s h = rw (h.there, h.decoded, parse) h.parsed

  recover_from-tmp :
      (p t b : Option (List ℕ))
      → recover_from codec tmp (disk p t b) ≡ (returned (parse codec t), disk p t b)
  unfolding recover_from exists read
  recover_from-tmp p none b = refl
  recover_from-tmp p (some x) b = ground arith

  recover_from-bak :
      (p t b : Option (List ℕ))
      → recover_from codec bak (disk p t b) ≡ (returned (parse codec b), disk p t b)
  unfolding recover_from exists read
  recover_from-bak p t none = refl
  recover_from-bak p t (some x) = ground arith

  pub recover_tmp :
      (p t b : Option (List ℕ)) (s : FlashState)
      → parse codec t ≡ some s
      → (recover codec (disk p t b)).0 ≡ returned (some s)
  unfolding recover rename
  recover_tmp p none b s h = cc
  recover_tmp p (some x) b s h = rw (recover_from-tmp p (some x) b, h) refl

  pub recover_bak :
      (p t b : Option (List ℕ)) (s : FlashState)
      → parse codec t ≡ none
      → parse codec b ≡ some s
      → (recover codec (disk p t b)).0 ≡ returned (some s)
  unfolding recover copy
  recover_bak p t none s h k = cc
  recover_bak p t (some x) s h k =
      rw (recover_from-tmp p t (some x), h, recover_from-bak p t (some x), k) refl

  pub recover-none :
      (p t b : Option (List ℕ))
      → parse codec t ≡ none
      → parse codec b ≡ none
      → (recover codec (disk p t b)).0 ≡ returned none
  unfolding recover
  recover-none p t b h k = rw (recover_from-tmp p t b, h, recover_from-bak p t b, k) refl

  pub load_primary :
      (p t b : Option (List ℕ)) (s : FlashState)
      → Holds p s
      → (load codec (disk p t b)).0 ≡ returned s
  unfolding load exists read
  load_primary none t b s h = cc (h.there)
  load_primary (some x) t b s h =
      let same : h.bytes ≡ x = cc (h.there) in
      let decoded : codec.from_utf8 x ≡ some h.text = rw same at h.decoded in
      rw (decoded, h.not_blank, h.parsed) refl

  abbrev pub or_else_default : Option FlashState → FlashState
  or_else_default none = default_state
  or_else_default (some s) = s

  pub load_absent :
      (t b : Option (List ℕ)) (r : Option FlashState)
      → (recover codec (disk none t b)).0 ≡ returned r
      → (load codec (disk none t b)).0 ≡ returned (or_else_default r)
  unfolding load exists
  load_absent t b none h = rw (>>=-returned (recover codec) _ (disk none t b) none h) refl
  load_absent t b (some s) h = rw (>>=-returned (recover codec) _ (disk none t b) (some s) h) refl

  load_content_damaged :
      (text : List ℕ) (d : Device) (s : FlashState)
      → (is_blank text ≡ true) ⊎ (codec.decode text ≡ none)
      → (recover codec d).0 ≡ returned (some s)
      → (load_content codec text d).0 ≡ returned s
  unfolding load_content
  load_content_damaged text d s damage h =
      let found =
        λ (f : Option FlashState → Io FlashState). >>=-returned (recover codec) f d (some s) h in
      elim (Bool-cases (is_blank text)) [
        | inl blank ↦ rw (blank, found (or_default codec)) refl
        | inr full ↦ elim damage [
          | inl blank ↦ cc (blank, full)
          | inr bad ↦ rw (full, bad, found (or_json_error codec (codec.decode_error text))) refl
        ]
      ]

  -- The primary file is blank, or does not parse; the temporary or the backup file replaces it.
  pub load_damaged :
      (x text : List ℕ) (t b : Option (List ℕ)) (s : FlashState)
      → codec.from_utf8 x ≡ some text
      → (is_blank text ≡ true) ⊎ (codec.decode text ≡ none)
      → (recover codec (disk (some x) t b)).0 ≡ returned (some s)
      → (load codec (disk (some x) t b)).0 ≡ returned s
  unfolding load exists read
  load_damaged x text t b s decoded damage h =
      rw decoded (load_content_damaged text (disk (some x) t b) s damage h)

  -- A device that has settled on a state: its primary file holds it, or that file was never
  -- written and the backup decides; an unfinished temporary file does not parse.
  pub data Settled (d : Device) (s : FlashState) : Type 0 where
    by_primary : Holds d.primary_file s → Settled d s
    by_bak :
        d.primary_file ≡ none
        → parse codec d.tmp_file ≡ none
        → parse codec d.bak_file ≡ some s
        → Settled d s
    by_default :
        d.primary_file ≡ none
        → parse codec d.tmp_file ≡ none
        → parse codec d.bak_file ≡ none
        → default_state ≡ s
        → Settled d s

  pub Settled-Loads : (d : Device) (s : FlashState) → Settled d s → Loads codec d s
  Settled-Loads d s (by_primary h) = load_primary d.primary_file d.tmp_file d.bak_file s h
  Settled-Loads d s (by_bak p t b) =
      rw p
        (load_absent d.tmp_file d.bak_file (some s) (recover_bak none d.tmp_file d.bak_file s t b))
  Settled-Loads d s (by_default p t b e) =
      rw (p, ← e)
        (load_absent d.tmp_file d.bak_file none (recover-none none d.tmp_file d.bak_file t b))

  -- A complete temporary file wins where there is no primary file.
  pub load_written :
      (d : Device) (s : FlashState)
      → d.primary_file ≡ none
      → parse codec d.tmp_file ≡ some s
      → Loads codec d s
  load_written d s p t =
      rw p (load_absent d.tmp_file d.bak_file (some s) (recover_tmp none d.tmp_file d.bak_file s t))
