-- ===== src/Service/Helper/Ending.antt =====
-- Rounds of the two threads after the wait has returned: each takes one of the steps that are left.
use mathlib.Core.Path.{subst}
use kmwarp.Base.{
  ℕ, ◌+◌, ◌-◌, ◌≤◌, ◌<◌, ◌≡◌, refl, sym, ap, ◌∙◌, Bool, true, false, List, [], ◌∷◌, arith, length,
  ◌⊎◌, inl, inr, ◌≢◌,
}
use kmwarp.Service.Helper.{
  unreported, MainAt, starting, launching, launched, waiting, woken, swapped, stopping, finished,
  failed, HandlerAt, ready, taken, terminated, World, System, main_step, handler_step, Event,
  main_runs, handler_runs, step, run,
}

-- Both threads run once, the service's first or the handler's first; no call fails.
abbrev pub round : Bool → List Event → List Event
round true es = main_runs ∷ handler_runs true ∷ es
round false es = handler_runs true ∷ main_runs ∷ es

abbrev pub rounds : List Bool → List Event
rounds [] = []
rounds (b ∷ bs) = round b (rounds bs)

abbrev pub main_left : MainAt → ℕ
main_left woken = 3
main_left (swapped _) = 2
main_left stopping = 1
main_left _ = 0

abbrev pub handler_left : HandlerAt → ℕ
handler_left ready = 0
handler_left (taken _) = 2
handler_left (terminated _) = 1

abbrev pub late : MainAt → Bool
late woken = true
late (swapped _) = true
late stopping = true
late finished = true
late _ = false

-- The helper has ended, or is about to be terminated.
abbrev pub Doomed : HandlerAt → Bool → Type 0
Doomed (taken _) alive = 0 ≤ 0
Doomed _ alive = alive ≡ false

pub record Ending (n : ℕ) (main : MainAt) (handler : HandlerAt) (alive : Bool) : Type 0 where
  pub is_late : late main ≡ true
  pub doomed : Doomed handler alive
  pub left : handler_left handler + main_left main ≤ n

abbrev pub Ends : ℕ → World → Type 0
Ends n w = Ending n w.main w.handler w.alive

main_step-turn :
    (o : System) (at : MainAt) (w : World)
    → o.sets_stopped ≡ true
    → w.main ≡ at
    → late at ≡ true
    → (late (main_step o at w).main ≡ true)
      × ((main_step o at w).handler ≡ w.handler)
      × ((main_step o at w).alive ≡ w.alive)
      × (main_left (main_step o at w).main ≤ main_left at)
      × ((w.alive ≡ true) ⊎ (main_left (main_step o at w).main ≡ main_left at - 1))
unfolding main_step
main_step-turn o waiting w p e l = ground arith
main_step-turn o woken w p e l = ground arith
main_step-turn o (swapped x) w p e l = ground arith
main_step-turn o stopping w p e l = ground arith
main_step-turn o finished w p e l =
    let m = ap main_left e in (ap late e, refl, refl, omega arith, inr m)
main_step-turn o starting w p e l = ground arith
main_step-turn o launching w p e l = ground arith
main_step-turn o launched w p e l = ground arith
main_step-turn o failed w p e l = ground arith
main_step-turn o unreported w p e l = ground arith

handler_step-turn :
    (at : HandlerAt) (w : World)
    → w.handler ≡ at
    → Doomed at w.alive
    → ((handler_step true at w).main ≡ w.main)
      × ((handler_step true at w).alive ≡ false)
      × (handler_left (handler_step true at w).handler ≡ handler_left at - 1)
unfolding handler_step
handler_step-turn ready w e d = (refl, d, ap handler_left e)
handler_step-turn (taken raw) w e d = ground arith
handler_step-turn (terminated raw) w e d = ground arith

dead_is_lost : (at : HandlerAt) (alive : Bool) → alive ≡ false → Doomed at alive
dead_is_lost ready alive e = e
dead_is_lost (taken _) alive e = omega arith
dead_is_lost (terminated _) alive e = e

Doomed-cases :
    (at : HandlerAt) (alive : Bool) → Doomed at alive → (alive ≡ false) ⊎ (0 < handler_left at)
Doomed-cases ready alive d = inl d
Doomed-cases (taken _) alive d = inr (omega arith)
Doomed-cases (terminated _) alive d = inl d

transported :
    {at at' : HandlerAt} {alive alive' : Bool}
    → at' ≡ at
    → alive' ≡ alive
    → Doomed at alive
    → Doomed at' alive'
transported {at = at} {alive' = alive'} e f d =
    subst (λ x. Doomed x alive') (sym e) (subst (λ b. Doomed at b) (sym f) d)

pub ne : true ≢ false
ne e = ground arith

round-Ends :
    (o : System) (b : Bool) (n : ℕ) (es : List Event) (w : World)
    → o.sets_stopped ≡ true
    → Ends n w
    → (v : World) × (run o (round b es) w ≡ run o es v) × Ends (n - 1) v
unfolding run step
round-Ends o true n es w p k =
    let v = main_step o w.main w in
    let m = main_step-turn o w.main w p refl k.is_late in
    let h = handler_step-turn v.handler v refl (transported m.1 m.2 k.doomed) in
    (
      handler_step true v.handler v,
      refl,
      record {
        is_late = ap late h.0 ∙ m.0;
        doomed = dead_is_lost _ _ h.1;
        left = elim m.4 [
          | inl up ↦ elim (Doomed-cases w.handler w.alive k.doomed) [
            | inl dead ↦ absurd (ne (sym up ∙ dead))
            | inr lt ↦
                let a = ap main_left h.0 in
                let c = ap handler_left m.1 in
                let l = k.left in let d = h.2 in let e = m.3 in omega arith
          ]
          | inr down ↦
              let a = ap main_left h.0 in
              let c = ap handler_left m.1 in let l = k.left in let d = h.2 in omega arith
        ];
      },
    )
round-Ends o false n es w p k =
    let v = handler_step true w.handler w in
    let h = handler_step-turn w.handler w refl k.doomed in
    let m = main_step-turn o v.main v p refl (ap late h.0 ∙ k.is_late) in
    (
      main_step o v.main v,
      refl,
      record {
        is_late = m.0;
        doomed = dead_is_lost _ _ (m.2 ∙ h.1);
        left = elim m.4 [
          | inl up ↦ absurd (ne (sym up ∙ h.1))
          | inr down ↦
              let a = ap main_left h.0 in
              let c = ap handler_left m.1 in let l = k.left in let d = h.2 in omega arith
        ];
      },
    )

weaken : (n : ℕ) (w : World) → Ends n w → n ≤ 0 → Ends 0 w
weaken n w k le = record {
  is_late = k.is_late;
  doomed = k.doomed;
  left = let l = k.left in omega arith;
}

pub rounds-Ends :
    (o : System) (n : ℕ) (bs : List Bool) (w : World)
    → o.sets_stopped ≡ true
    → n ≤ length bs
    → Ends n w
    → Ends 0 (run o (rounds bs) w)
unfolding run
rounds-Ends o n [] w p le k = weaken n w k le
rounds-Ends o n (b ∷ bs) w p le k =
    let (v, e, k') = round-Ends o b n (rounds bs) w p k in
    subst (λ x. Ends 0 x) (sym e) (rounds-Ends o (n - 1) bs v p (omega arith) k')

pub nothing_left :
    (main : MainAt) (handler : HandlerAt) (alive : Bool)
    → Ending 0 main handler alive
    → (main ≡ finished) × (handler ≡ ready) × (alive ≡ false)
nothing_left main (taken _) alive k = let l = k.left in absurd (omega arith)
nothing_left main (terminated _) alive k = let l = k.left in absurd (omega arith)
nothing_left finished ready alive k = (refl, refl, k.doomed)
nothing_left starting ready alive k = absurd (ne (sym k.is_late))
nothing_left launching ready alive k = absurd (ne (sym k.is_late))
nothing_left launched ready alive k = absurd (ne (sym k.is_late))
nothing_left failed ready alive k = absurd (ne (sym k.is_late))
nothing_left waiting ready alive k = absurd (ne (sym k.is_late))
nothing_left unreported ready alive k = absurd (ne (sym k.is_late))
nothing_left woken ready alive k = let l = k.left in absurd (omega arith)
nothing_left (swapped _) ready alive k = let l = k.left in absurd (omega arith)
nothing_left stopping ready alive k = let l = k.left in absurd (omega arith)
