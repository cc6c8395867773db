-- ===== src/Session/Identity.antt =====
-- crates/core/src/tls/cert.rs, and the start of `run_server` and `run_client`, which load the certificate
-- and key of this machine or make and save new ones, and forget the pin when asked to.
use kmwarp.Base.{
  ℕ, ◌≡◌, refl, ap, ◌∙◌, arith, Bool, true, false, ◌&&◌, List, [], ◌∷◌, Option, none, some, Result,
  ok, err, if◌then◌else◌, take,
}
use kmwarp.Pairing.Pins.{Disk, WriteOutcome, done, not_opened, cut_short, forget}

-- `TlsError`, as far as it arises here.
pub data CertError : Type 0 where
  io rcgen bad_cert_format : CertError

pub record CertBundle : Type 0 where
  pub cert_der : List ℕ
  pub private_key_der : List ℕ

pub data DerFile : Type 0 where
  absent unreadable : DerFile
  der : List ℕ → DerFile

-- The two files, and how the calls of the operating system will end: the making of the directory, and
-- the two writes, where a write that opens its file truncates it.
pub record CertDisk : Type 0 where
  pub cert_file : DerFile
  pub key_file : DerFile
  pub can_create_dir : Bool
  pub cert_write : WriteOutcome
  pub key_write : WriteOutcome

abbrev pub exists : DerFile → Bool
exists absent = false
exists unreadable = true
exists (der _) = true

-- `std::fs::read`
abbrev pub read_file : DerFile → Result (List ℕ) CertError
read_file (der bs) = ok bs
read_file absent = err io
read_file unreadable = err io

abbrev pub is_empty : List ℕ → Bool
is_empty [] = true
is_empty (b ∷ bs) = false

abbrev pub nonempty_bundle :
    Result (List ℕ) CertError → Result (List ℕ) CertError → Result CertBundle CertError
nonempty_bundle (ok cert) (ok key) =
    if is_empty cert
    then err bad_cert_format
    else if is_empty key
    then err bad_cert_format
    else ok (record { cert_der = cert; private_key_der = key })
nonempty_bundle (ok cert) (err e) = err e
nonempty_bundle (err e) key = err e

unfoldable pub load_from_disk : CertDisk → Result CertBundle CertError
load_from_disk d = nonempty_bundle (read_file d.cert_file) (read_file d.key_file)

-- What a write leaves of its file, and whether it succeeds.
abbrev pub written : WriteOutcome → List ℕ → DerFile → DerFile
written done bs before = der bs
written not_opened bs before = before
written (cut_short n) bs before = der (take n bs)

abbrev pub is_done : WriteOutcome → Bool
is_done done = true
is_done _ = false

abbrev pub write_key : CertBundle → CertDisk → Result (Unit {0}) CertError × CertDisk
write_key bundle d = (
  if is_done d.key_write then ok tt else err io,
  record d { key_file = written d.key_write bundle.private_key_der d.key_file },
)

abbrev pub write_cert : CertBundle → CertDisk → Result (Unit {0}) CertError × CertDisk
write_cert bundle d =
    let wrote = record d { cert_file = written d.cert_write bundle.cert_der d.cert_file } in
    if is_done d.cert_write then write_key bundle wrote else (err io, wrote)

unfoldable pub save_to_disk : CertBundle → CertDisk → Result (Unit {0}) CertError × CertDisk
save_to_disk bundle d = if d.can_create_dir then write_cert bundle d else (err io, d)

abbrev pub saved :
    CertBundle → Result (Unit {0}) CertError × CertDisk → Result CertBundle CertError × CertDisk
saved bundle (ok _, d) = (ok bundle, d)
saved bundle (err e, d) = (err e, d)

abbrev pub generated : Option CertBundle → CertDisk → Result CertBundle CertError × CertDisk
generated none d = (err rcgen, d)
generated (some bundle) d = saved bundle (save_to_disk bundle d)

-- The start of both machines, given what `generate_self_signed` would return.
unfoldable pub load_or_generate :
    Option CertBundle → CertDisk → Result CertBundle CertError × CertDisk
unfolding load_from_disk save_to_disk
load_or_generate fresh d =
    if exists d.cert_file && exists d.key_file then (load_from_disk d, d) else generated fresh d

-- `KMWARP_REPAIR=1`; a pin that cannot be removed is only logged.
unfoldable pub repair_if : Bool → Disk → Disk
unfolding forget
repair_if true d = (forget d).1
repair_if false d = d

-- A certificate and a key that are not empty, as the library makes them.
abbrev pub IsFull : CertBundle → Type 0
IsFull bundle = (is_empty bundle.cert_der ≡ false) × (is_empty bundle.private_key_der ≡ false)

load_full :
    (bundle : CertBundle) (d : CertDisk)
    → IsFull bundle
    → load_from_disk
        (record d { cert_file = der bundle.cert_der; key_file = der bundle.private_key_der })
      ≡ ok bundle
unfolding load_from_disk
load_full bundle d (c, k) = rw (c, k) refl

-- The files are those that an earlier start left.
abbrev pub SameFiles : CertDisk → CertDisk → Type 0
SameFiles d next = (next.cert_file ≡ d.cert_file) × (next.key_file ≡ d.key_file)

-- Where both files hold something, what is made afresh plays no part.
both_exist :
    (fresh : Option CertBundle) (cert key : List ℕ) (next : CertDisk)
    → next.cert_file ≡ der cert
    → next.key_file ≡ der key
    → load_or_generate fresh next ≡ (nonempty_bundle (ok cert) (ok key), next)
unfolding load_or_generate
both_exist fresh cert key next c k = ground arith

-- What a start that succeeds leaves in the two files.
files_left :
    (fresh : Option CertBundle) (d : CertDisk) (bundle : CertBundle)
    → ((made : CertBundle) → fresh ≡ some made → IsFull made)
    → (load_or_generate fresh d).0 ≡ ok bundle
    → let after = (load_or_generate fresh d).1 in
      (after.cert_file ≡ der bundle.cert_der)
      × (after.key_file ≡ der bundle.private_key_der)
      × IsFull bundle
unfolding load_or_generate load_from_disk save_to_disk
files_left none d bundle full h = ground arith
files_left (some made) d bundle full h = ground (arith, full made refl)

-- A start that succeeds makes every later start succeed with the same certificate and key, whatever
-- would be made afresh then, as long as the two files are left as they are: the library makes no empty
-- certificate or key.
pub load_or_generate_again :
    (fresh fresh' : Option CertBundle) (d next : CertDisk) (bundle : CertBundle)
    → ((made : CertBundle) → fresh ≡ some made → IsFull made)
    → (load_or_generate fresh d).0 ≡ ok bundle
    → SameFiles (load_or_generate fresh d).1 next
    → load_or_generate fresh' next ≡ (ok bundle, next)
unfolding load_or_generate
load_or_generate_again fresh fresh' d next bundle full h same =
    let (c, k, filled) = files_left fresh d bundle full h in
    both_exist fresh' bundle.cert_der bundle.private_key_der next (same.0 ∙ c) (same.1 ∙ k)
    ∙ rw (filled.0, filled.1) refl

starts_cut :
    (bundle : CertBundle) (d : CertDisk) (n : ℕ)
    → (exists d.cert_file && exists d.key_file) ≡ false
    → d.can_create_dir ≡ true
    → d.cert_write ≡ done
    → d.key_write ≡ cut_short n
    → load_or_generate (some bundle) d ≡ (
      err io,
      record d { cert_file = der bundle.cert_der; key_file = der (take n bundle.private_key_der) },
    )
unfolding load_or_generate save_to_disk
starts_cut bundle d n missing can c k = ground arith

-- A first start whose write of the key is cut short fails, and leaves files that every later start takes
-- for a certificate and a key: where nothing of the key was written the start fails again, else it goes
-- on with the piece.
pub load_or_generate_cut_key :
    (bundle : CertBundle) (fresh' : Option CertBundle) (d next : CertDisk) (n : ℕ)
    → IsFull bundle
    → (exists d.cert_file && exists d.key_file) ≡ false
    → d.can_create_dir ≡ true
    → d.cert_write ≡ done
    → d.key_write ≡ cut_short n
    → SameFiles (load_or_generate (some bundle) d).1 next
    → let piece = take n bundle.private_key_der in
      ((load_or_generate (some bundle) d).0 ≡ err io)
      × (load_or_generate fresh' next ≡ (
        if is_empty piece
            then err bad_cert_format
            else ok (record bundle { private_key_der = piece }),
        next,
      ))
unfolding load_or_generate save_to_disk
load_or_generate_cut_key bundle fresh' d next n full missing can c k same =
    let start = starts_cut bundle d n missing can c k in
    (
      ap (λ r. r.0) start,
      both_exist fresh' bundle.cert_der (take n bundle.private_key_der) next
            (same.0 ∙ ap (λ r. r.1.cert_file) start) (same.1 ∙ ap (λ r. r.1.key_file) start)
          ∙ rw (full.0) refl,
    )
