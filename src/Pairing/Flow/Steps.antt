-- ===== src/Pairing/Flow/Steps.antt =====
-- What the steps of a flow read, write and leave alone.
use kmwarp.Base.{◌≡◌, refl, sym, ap, ◌∙◌, Result, ok, err}
use mathlib.Core.Path.{subst, ap₂}
use kmwarp.Wire.{Message}
use kmwarp.Wire.Connection.{ConnectionError, FrameReader, FrameWriter, read_frame, write_frame}
use kmwarp.Pairing.Pins.{Disk}
use kmwarp.Pairing.Flow.{
  World, Flow, FlowError, after, ◌>>=◌, with_reader, with_writer, receive, send,
}

abbrev pub Keeps : {A : Type 0} → Flow A → Type 0
Keeps m = (w : World) → (m w).1.disk ≡ w.disk

-- A bind ends where its first step fails, or where its second ends.
pub after-Keeps :
    {A B : Type 0} (P : Disk → Type 0) (m : Flow A) (f : A → Flow B) (w : World)
    → Keeps m
    → P w.disk
    → ((a : A) (w' : World) → m w ≡ (ok a, w') → P (f a w').1.disk)
    → P (after (m w) f).1.disk
after-Keeps {A} {B} P m f w keeps now then_ = go (m w) refl
  where
    go : (p : Result A FlowError × World) → m w ≡ p → P (after p f).1.disk
    go (ok a, w') e = then_ a w' e
    go (err e', w') e = subst P (sym (keeps w) ∙ ap (λ out. out.1.disk) e) now

-- Where the second step keeps the disk, the disk is what the first step left.
pub after-disk :
    {A B : Type 0} (p : Result A FlowError × World) (f : A → Flow B)
    → ((a : A) → Keeps (f a))
    → (after p f).1.disk ≡ p.1.disk
after-disk (ok a, w) f keeps = keeps a w
after-disk (err e, w) f keeps = refl

pub >>=-Keeps :
    {A B : Type 0} (m : Flow A) (f : A → Flow B)
    → Keeps m
    → ((a : A) → Keeps (f a))
    → Keeps (m >>= f)
>>=-Keeps m f keeps keeps' w = after-disk (m w) f keeps' ∙ keeps w

-- A first step that ends well leaves the rest to the second.
pub after-run :
    {A B : Type 0} (m : Flow A) (f : A → Flow B) (w : World) {a : A} {w' : World}
    {out : Result B FlowError × World}
    → m w ≡ (ok a, w')
    → f a w' ≡ out
    → after (m w) f ≡ out
after-run m f w e rest = ap (λ p. after p f) e ∙ rest

pub after-eq-ok :
    {A B : Type 0} (p : Result A FlowError × World) (f : A → Flow B) {b : B} {w' : World}
    → after p f ≡ (ok b, w')
    → (a : A) × (w₁ : World) × (p ≡ (ok a, w₁)) × (f a w₁ ≡ (ok b, w'))
after-eq-ok (ok a, w₁) f h = (a, w₁, refl, h)
after-eq-ok (err e, w₁) f h = cc

pub ok-eq_inj :
    {A E : Type 0} {a b : A} {w w' : World} → Path (Result A E × World) (ok a, w) (ok b, w') → a ≡ b
ok-eq_inj h = cc

-- Only the reader moves, past the frame that it read.
pub record Received (m : Message) (w w' : World) : Type 0 where
  pub frame : read_frame w.reader ≡ (ok m, w'.reader)
  pub disk : w'.disk ≡ w.disk

-- Only the writer moves.
pub record Sent (w w' : World) : Type 0 where
  pub reader : w'.reader ≡ w.reader
  pub disk : w'.disk ≡ w.disk

pub receive-Keeps : Keeps receive
unfolding receive
receive-Keeps w = go (read_frame w.reader)
  where
    go : (p : Result Message ConnectionError × FrameReader) → (with_reader p w).1.disk ≡ w.disk
    go (ok m, r) = refl
    go (err e, r) = refl

pub receive-Received : {m : Message} {w w' : World} → receive w ≡ (ok m, w') → Received m w w'
unfolding receive
receive-Received {m} {w} {w'} h = go (read_frame w.reader) refl h
  where
    go :
        (p : Result Message ConnectionError × FrameReader)
        → read_frame w.reader ≡ p
        → with_reader p w ≡ (ok m, w')
        → Received m w w'
    go (ok m', r) e h = record {
      frame = e ∙ ap₂ (λ a b. (ok a, b)) (ok-eq_inj h) (ap (λ out. out.1.reader) h);
      disk = sym (ap (λ out. out.1.disk) h);
    }
    go (err e', r) e h = cc

send-Sent_any : (m : Message) (w : World) → Sent w (send m w).1
unfolding send
send-Sent_any m w = go (write_frame m w.writer)
  where
    go : (p : Result (Unit {0}) ConnectionError × FrameWriter) → Sent w (with_writer p w).1
    go (ok m, r) = record { reader = refl; disk = refl }
    go (err e, r) = record { reader = refl; disk = refl }

pub send-Keeps : (m : Message) → Keeps (send m)
send-Keeps m w = (send-Sent_any m w).disk

pub send-Sent : (m : Message) (w : World) {w' : World} → send m w ≡ (ok tt, w') → Sent w w'
send-Sent m w h = subst (λ out. Sent w out) (ap (λ out. out.1) h) (send-Sent_any m w)

-- A message that is read behind a send, and found to be `m'` with nothing changed by the look.
pub Received-trans :
    {m m' : Message} {w w₁ w₂ w' : World}
    → Sent w w₁
    → Received m w₁ w₂
    → m ≡ m'
    → w' ≡ w₂
    → Received m' w w'
Received-trans sent got is still = record {
  frame =
      sym (ap read_frame sent.reader)
      ∙ got.frame
      ∙ ap₂ (λ a b. (ok a, b)) is (sym (ap (λ w. w.reader) still));
  disk = ap (λ w. w.disk) still ∙ got.disk ∙ sent.disk;
}

pub Received-trans_still :
    {m : Message} {w w₁ w' : World} → Received m w w₁ → w' ≡ w₁ → Received m w w'
Received-trans_still {m} {w} got still = subst (λ v. Received m w v) (sym still) got

pub Received-Sent : {m : Message} {w w₁ w' : World} → Received m w w₁ → Sent w₁ w' → Received m w w'
Received-Sent {m} got sent = record {
  frame = got.frame ∙ ap (λ r. (ok m, r)) (sym sent.reader);
  disk = sent.disk ∙ got.disk;
}
