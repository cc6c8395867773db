-- ===== src/Pairing/Pins.antt =====
-- crates/core/src/tls/pin.rs: the file that keeps the hash of the peer's certificate.
use kmwarp.Base.{
  ℕ, ◌≡◌, refl, ap, ◌∙◌, Bool, List, [], ◌∷◌, ◌++◌, Option, none, some, Result, ok, err, ◌==◌,
  if◌then◌else◌, length, take, All, arith,
}
use kmwarp.Pairing.{TlsError, io, pin_file_corrupt}
use kmwarp.Pairing.Text.{trim, IsVisible, trim_visible}

abbrev pub pin_hash_len : ℕ
pin_hash_len = 32

-- A file as `read_to_string` finds it: not there, not readable (also when it is not UTF-8), or a text.
pub data File : Type 0 where
  absent unreadable : File
  text : List ℕ → File

-- How a write of the temporary file ends: `cut_short n` leaves the first `n` characters.
pub data WriteOutcome : Type 0 where
  done not_opened : WriteOutcome
  cut_short : ℕ → WriteOutcome

-- The files of the store, and how the calls of the operating system will end. `can_create_dir` is also
-- true for a path without a parent, where the call is not made.
pub record Disk : Type 0 where
  pub pin_file : File
  pub tmp_file : File
  pub can_create_dir : Bool
  pub tmp_write : WriteOutcome
  pub can_rename : Bool
  pub can_remove : Bool

-- The library `hex`, with what it documents: decoding undoes encoding, and the encoding is made of
-- the sixteen digits, none of which is white space.
pub record Hex : Type 0 where
  pub encode : List ℕ → List ℕ
  pub decode : List ℕ → Option (List ℕ)
  pub decode-encode : (bs : List ℕ) → decode (encode bs) ≡ some bs
  pub encode_visible : (bs : List ℕ) → All IsVisible (encode bs)

abbrev pub as_pin : Option (List ℕ) → Result (Option (List ℕ)) TlsError
as_pin none = err pin_file_corrupt
as_pin (some bs) = if length bs == pin_hash_len then ok (some bs) else err pin_file_corrupt

module _ (hex : Hex) where
  abbrev pub load_file : File → Result (Option (List ℕ)) TlsError
  load_file absent = ok none
  load_file unreadable = err io
  load_file (text s) = as_pin (hex.decode (trim s))

  unfoldable pub load : Disk → Result (Option (List ℕ)) TlsError
  load self = load_file self.pin_file

  abbrev pub contents : List ℕ → List ℕ
  contents pin = hex.encode pin ++ (b'\n' ∷ [])

  abbrev pub rename_tmp : Disk → Result (Unit {0}) TlsError × Disk
  rename_tmp d =
      if d.can_rename
      then (ok tt, record d { pin_file = d.tmp_file; tmp_file = absent })
      else (err io, d)

  -- `write_locked_down` of the temporary file, then what follows its `?`.
  abbrev pub write_tmp : WriteOutcome → List ℕ → Disk → Result (Unit {0}) TlsError × Disk
  write_tmp done s d = rename_tmp (record d { tmp_file = text s })
  write_tmp not_opened s d = (err io, d)
  write_tmp (cut_short n) s d = (err io, record d { tmp_file = text (take n s) })

  unfoldable pub store : List ℕ → Disk → Result (Unit {0}) TlsError × Disk
  store pin d = if d.can_create_dir then write_tmp d.tmp_write (contents pin) d else (err io, d)

abbrev pub forget_file : File → Disk → Result (Unit {0}) TlsError × Disk
forget_file absent d = (ok tt, d)
forget_file file d = if d.can_remove then (ok tt, record d { pin_file = absent }) else (err io, d)

unfoldable pub forget : Disk → Result (Unit {0}) TlsError × Disk
forget d = forget_file d.pin_file d

read-contents :
    (hex : Hex) (pin : List ℕ)
    → length pin ≡ pin_hash_len
    → load_file hex (text (contents hex pin)) ≡ ok (some pin)
read-contents hex pin h =
    ap (λ s. as_pin (hex.decode s))
      (trim_visible [] (hex.encode pin) (b'\n' ∷ []) tt (hex.encode_visible pin) (refl, tt))
    ∙ ap as_pin (hex.decode-encode pin)
    ∙ rw h

module _ (hex : Hex) where
  -- A store that succeeds makes the 32-byte pin what is loaded; one that fails, at whatever step, leaves
  -- what is loaded as it was.
  pub load-store :
      (pin : List ℕ) (d : Disk)
      → length pin ≡ pin_hash_len
      → load hex (store hex pin d).1
        ≡ elim (store hex pin d).0 [ ok _ ↦ ok (some pin) | err _ ↦ load hex d ]
  unfolding load store
  load-store pin d h = let back = read-contents hex pin h in ground (arith, back)
