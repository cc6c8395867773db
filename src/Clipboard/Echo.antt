-- ===== src/Clipboard/Echo.antt =====
-- The echo guard: texts written for the peer, against later changes of the clipboard.
use kmwarp.Base.{ℕ, ◌≡◌, ◌↔◌, true, List, ap, bytes_eq_iff}
use kmwarp.Clipboard.{EchoGuard, remember_remote_write, is_echo_of_remote}

-- After a text of the peer was remembered, a local change is taken for an echo exactly when it is that
-- text, the hash having no collision on the two.
is_echo_of_remote-remember_remote_write :
    (hash : List ℕ → List ℕ) (guard : EchoGuard) (text change : List ℕ)
    → (hash text ≡ hash change → text ≡ change)
    → (is_echo_of_remote hash (remember_remote_write hash guard text) change ≡ true)
      ↔ (text ≡ change)
unfolding is_echo_of_remote remember_remote_write
is_echo_of_remote-remember_remote_write hash guard text change free =
    let same = bytes_eq_iff (hash text) (hash change) in
    (λ h. free (same.0 h), λ h. same.1 (ap hash h))
