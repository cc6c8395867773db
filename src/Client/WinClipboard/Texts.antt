-- ===== src/Client/WinClipboard/Texts.antt =====
-- What a write leaves on the clipboard of Windows, and a read takes from it.
use kmwarp.Base.{
  ℕ, zero, suc, ◌≤◌, ◌<◌, ◌≡◌, refl, ap, ◌∙◌, true, false, List, [], ◌∷◌, ◌++◌, append_assoc, none,
  some, arith,
}
use kmwarp.Client.WinClipboard.{
  Utf16, Win32, Clip, open_clipboard_with_retry, until_nul, read_clipboard_text_locked,
  read_clipboard_text, write_clipboard_text_locked, write_clipboard_text,
}

-- No unit is zero.
abbrev pub NulFree : List ℕ → Type 0
NulFree [] = 0 ≤ 0
NulFree (u ∷ units) = (0 < u) × NulFree units

until_nul-NulFree : (units rest : List ℕ) → NulFree units → until_nul (units ++ 0 ∷ rest) ≡ units
until_nul-NulFree [] rest free = refl
until_nul-NulFree (zero ∷ units) rest free = absurd (omega arith)
until_nul-NulFree (suc u ∷ units) rest free =
    ap (λ us. suc u ∷ us) (until_nul-NulFree units rest free.1)

written :
    (utf : Utf16) (o : Win32) (text : List ℕ) (c : Clip)
    → (write_clipboard_text utf o text c).0 ≡ none
    → ((write_clipboard_text utf o text c).1.block
        ≡ some ((utf.encode_utf16 text ++ 0 ∷ []) ++ o.padding))
      × ((write_clipboard_text utf o text c).1.is_open ≡ false)
      × ((write_clipboard_text utf o text c).1.owned ≡ c.owned)
unfolding write_clipboard_text write_clipboard_text_locked
written utf o text c h = ground arith

read :
    (utf : Utf16) (o : Win32) (c : Clip) (units : List ℕ)
    → open_clipboard_with_retry o ≡ true
    → o.locks ≡ true
    → c.block ≡ some units
    → (read_clipboard_text utf o c).0 ≡ some (utf.from_utf16_lossy (until_nul units))
unfolding read_clipboard_text read_clipboard_text_locked
read utf o c units can_open can_lock b = ground arith

-- A text that was written without an error is read back by every read that succeeds in opening and
-- locking, whatever the block holds behind the text, when the text's UTF-16 has no zero unit and
-- decodes to it. The write has closed the clipboard and kept no block of memory.
pub read-write :
    (utf : Utf16) (o o' : Win32) (text : List ℕ) (c : Clip)
    → NulFree (utf.encode_utf16 text)
    → utf.from_utf16_lossy (utf.encode_utf16 text) ≡ text
    → (write_clipboard_text utf o text c).0 ≡ none
    → open_clipboard_with_retry o' ≡ true
    → o'.locks ≡ true
    → ((read_clipboard_text utf o' (write_clipboard_text utf o text c).1).0 ≡ some text)
      × ((write_clipboard_text utf o text c).1.is_open ≡ false)
      × ((write_clipboard_text utf o text c).1.owned ≡ c.owned)
read-write utf o o' text c free back done can_open can_lock =
    let wide = utf.encode_utf16 text in
    let w = written utf o text c done in
    let r = read utf o' (write_clipboard_text utf o text c).1 _ can_open can_lock w.0 in
    let e =
      ap until_nul (append_assoc wide (0 ∷ []) o.padding) ∙ until_nul-NulFree wide o.padding free in
    (r ∙ ap (λ u. some (utf.from_utf16_lossy u)) e ∙ ap some back, w.1, w.2)
