-- ===== src/Storage/Tests.antt =====
-- A small codec, and the theorems of the storage at concrete devices.
use fupi.Common.{
  ℕ, zero, suc, ◌<◌, ◌≡◌, refl, String, false, ◌⊎◌, inr, Option, none, some, List, [], ◌∷◌, arith,
  take,
}
use fupi.Common.Text.{trim}
use fupi.Types.{Keyset, Proof, Receipt, PendingSwap, FlashState, default_state}
use fupi.Storage.{Codec, Device, disk, fine, fails, cut, returned, is_blank, save, wipe}
use fupi.Storage.Load.{parse, IsLawful, Loads}
use fupi.Storage.Durable.{Durable}
use fupi.Storage.Recovery.{load-save_damaged}
use fupi.Storage.Wipe.{IsWiped, wipe_empties, wipe_interrupted, wipe_ignores_error}

abbrev pub plain : ℕ → FlashState
plain n = record default_state { device_seq = n }

abbrev plain_bytes : ℕ → List ℕ
plain_bytes n = b'{' ∷ n ∷ b'}' ∷ []

-- A state that has nothing but a sequence number.
encode_fields :
    List Proof
    → List String
    → Option Keyset
    → List String
    → List Keyset
    → Option String
    → ℕ
    → Option PendingSwap
    → List Receipt
    → Option (List ℕ)
encode_fields [] [] none [] [] none n none [] = some (plain_bytes n)
encode_fields _ _ _ _ _ _ _ _ _ = none

decode_plain : List ℕ → Option FlashState
decode_plain (a ∷ n ∷ b ∷ []) = some (plain n)
decode_plain _ = none

abbrev toy_codec : Codec
toy_codec = record {
  encode = λ s.
      encode_fields s.proofs s.journal s.trusted_keyset s.outbox s.keysets s.device_key s.device_seq
        s.pending_swap s.receipts;
  encode_error = λ _. "not plain";
  decode = decode_plain;
  decode_error = λ _. "not plain";
  from_utf8 = some;
}

encode_fields-plain :
    (p : List Proof) (j : List String) (t : Option Keyset) (o : List String) (k : List Keyset)
    (d : Option String) (n : ℕ) (w : Option PendingSwap) (r : List Receipt) (b : List ℕ)
    → encode_fields p j t o k d n w r ≡ some b
    → (b ≡ plain_bytes n)
      × (plain n ≡ record {
        proofs = p;
        journal = j;
        trusted_keyset = t;
        outbox = o;
        keysets = k;
        device_key = d;
        device_seq = n;
        pending_swap = w;
        receipts = r;
      })
unfolding encode_fields
encode_fields-plain [] [] none [] [] none n none [] b h = (cc, refl)
encode_fields-plain [] [] none [] [] none n none (x ∷ r) b h = cc
encode_fields-plain [] [] none [] [] none n (some w) r b h = cc
encode_fields-plain [] [] none [] [] (some d) n w r b h = cc
encode_fields-plain [] [] none [] (x ∷ k) d n w r b h = cc
encode_fields-plain [] [] none (x ∷ o) k d n w r b h = cc
encode_fields-plain [] [] (some t) o k d n w r b h = cc
encode_fields-plain [] (x ∷ j) t o k d n w r b h = cc
encode_fields-plain (x ∷ p) j t o k d n w r b h = cc

plain-encode :
    (s : FlashState) (b : List ℕ)
    → toy_codec.encode s ≡ some b
    → (b ≡ plain_bytes s.device_seq) × (plain s.device_seq ≡ s)
plain-encode s b h = encode_fields-plain _ _ _ _ _ _ _ _ _ b h

not_blank : (n : ℕ) → is_blank (plain_bytes n) ≡ false
unfolding is_blank trim
not_blank n = refl

cut_off : (n k : ℕ) → k < 3 → parse toy_codec (some (take k (plain_bytes n))) ≡ none
unfolding decode_plain
cut_off n zero h = refl
cut_off n (suc zero) h = refl
cut_off n (suc (suc zero)) h = refl
cut_off n (suc (suc (suc k))) h = absurd (omega arith)

toy_codec-IsLawful : IsLawful toy_codec
unfolding decode_plain
toy_codec-IsLawful = record {
  readable = λ s b h.
      let (bytes, same) = plain-encode s b h in
      (b, refl, rw bytes (not_blank s.device_seq), rw (bytes, same) refl);
  truncated = λ s b k h short.
      let (bytes, same) = plain-encode s b h in
      rw bytes (cut_off s.device_seq k (rw bytes at short));
  empty = refl;
}

abbrev old_disk : Device
old_disk = record (disk (some (plain_bytes 1)) none none) { script = fine ∷ cut 2 ∷ [] }

abbrev One : FlashState → Type 0
One st = (st ≡ plain 1) ⊎ (st ≡ plain 2)

load-save_damaged_example :
    Loads toy_codec
      (record (save toy_codec false (plain 2) (disk none none none)).1 {
        primary_file = some (b'{' ∷ []);
      })
      (plain 2)
unfolding encode_fields decode_plain
load-save_damaged_example =
    load-save_damaged toy_codec false (plain 2) none none none (b'{' ∷ []) (b'{' ∷ [])
      (plain_bytes 2) toy_codec-IsLawful refl refl (inr refl)

wipe_empties_example :
    let (o, d) = wipe (disk (some (plain_bytes 1)) none (some (plain_bytes 1))) in
    (o ≡ returned tt) × IsWiped d × Loads toy_codec d default_state
wipe_empties_example = wipe_empties toy_codec (some (plain_bytes 1)) none (some (plain_bytes 1))

wipe_interrupted_example :
    Loads toy_codec
      (wipe (record (disk (some (plain_bytes 1)) none (some (plain_bytes 1))) {
        script = fine ∷ cut 1 ∷ [];
      })).1
      (plain 1)
unfolding decode_plain
wipe_interrupted_example =
    wipe_interrupted toy_codec (plain_bytes 1) none (some (plain_bytes 1)) (plain 1) refl refl

wipe_ignores_error_example :
    let (o, d') = wipe (record (disk (some (plain_bytes 1)) none (some (plain_bytes 1))) {
      script = fine ∷ fine ∷ fine ∷ fine ∷ fails 0 "busy" ∷ [];
    }) in
    (o ≡ returned tt) × Loads toy_codec d' (plain 1)
unfolding decode_plain
wipe_ignores_error_example =
    wipe_ignores_error toy_codec (plain_bytes 1) (plain_bytes 1) 0 "busy" (plain 1) refl
