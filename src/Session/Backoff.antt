-- ===== src/Session/Backoff.antt =====
-- `connect_with_backoff` of crates/client/src/app.rs: attempts to connect, with a sleep after each failure.
use mathlib.Core.Path.{ap₂}
use native.Mathlib.Nat.{pow-suc}
use kmwarp.Base.{
  ℕ, zero, suc, ◌+◌, ◌*◌, ◌^◌, ◌<◌, min, ◌≡◌, ap, ◌∙◌, Bool, true, false, List, [], ◌∷◌, Option,
  none, some, arith,
}

-- Milliseconds.
abbrev pub backoff_initial : ℕ
backoff_initial = 250

abbrev pub backoff_max : ℕ
backoff_max = 5000

-- The attempts until one succeeds: the index of that attempt, counted from one and saturating, and the
-- sleeps before it. `attempts` says how each attempt ends; `none` means that the list ends first.
unfoldable pub backoff_loop : List Bool → (delay attempt : ℕ) → Option ℕ × List ℕ
backoff_loop [] delay attempt = (none, [])
backoff_loop (true ∷ attempts) delay attempt = (some attempt, [])
backoff_loop (false ∷ attempts) delay attempt =
    let (done, sleeps) =
      backoff_loop attempts (min (delay * 2) backoff_max) (min (attempt + 1) 4294967295) in
    (done, delay ∷ sleeps)

unfoldable pub connect_with_backoff : List Bool → Option ℕ × List ℕ
connect_with_backoff attempts = backoff_loop attempts backoff_initial 1

-- That many failures, then a success.
abbrev pub failures : ℕ → List Bool → List Bool
failures zero rest = true ∷ rest
failures (suc n) rest = false ∷ failures n rest

-- The capped doubling, from the `k`-th sleep on.
abbrev pub sleeps_from : ℕ → ℕ → List ℕ
sleeps_from k zero = []
sleeps_from k (suc n) = min (250 * 2 ^ k) 5000 ∷ sleeps_from (suc k) n

doubled : (k : ℕ) → min (min (250 * 2 ^ k) 5000 * 2) 5000 ≡ min (250 * 2 ^ suc k) 5000
doubled k = rw (pow-suc 2 k) (omega arith)

backoff_loop-failures :
    (n k attempt : ℕ) (rest : List Bool)
    → attempt + n < 4294967296
    → backoff_loop (failures n rest) (min (250 * 2 ^ k) 5000) attempt
      ≡ (some (attempt + n), sleeps_from k n)
unfolding backoff_loop
backoff_loop-failures zero k attempt rest h = ap (λ a. (some a, [])) (omega arith)
backoff_loop-failures (suc n) k attempt rest h =
    let delay : ℕ = min (250 * 2 ^ k) 5000 in
    ap₂
      (λ d a.
        ((backoff_loop (failures n rest) d a).0, delay ∷ (backoff_loop (failures n rest) d a).1))
      (doubled k) (omega arith)
    ∙ ap (λ out. (out.0, delay ∷ out.1))
        (backoff_loop-failures n (suc k) (attempt + 1) rest (omega arith))
    ∙ ap (λ a. (some a, delay ∷ sleeps_from (suc k) n)) (omega arith)

-- The client connects at the first attempt that succeeds, however many failed before, and the `k`-th
-- sleep, counted from zero, is 250 ms doubled `k` times and cut to 5 s.
pub connect_with_backoff-failures :
    (n : ℕ) (rest : List Bool)
    → n < 4294967295
    → connect_with_backoff (failures n rest) ≡ (some (suc n), sleeps_from 0 n)
unfolding connect_with_backoff
connect_with_backoff-failures n rest h =
    backoff_loop-failures n 0 1 rest (omega arith)
    ∙ ap (λ a. (some a, sleeps_from 0 n)) (omega arith)
