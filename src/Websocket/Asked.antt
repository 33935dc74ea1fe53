-- ===== src/Websocket/Asked.antt =====
-- The addresses that `serve_websocket` of src/wsocket.rs asks for, along its events.
use Prim.Native.String.{String}
use text.Mathlib.TextEquality.{eq_iff}
use rocks.Base.{
  ◌≡◌, ◌↔◌, ◌⊎◌, inl, refl, sym, ap, subst, ◌∙◌, Bool, true, false, List, [], ◌∷◌, ◌++◌,
  if◌then◌else◌, arith,
}
use rocks.Addr.{ReqAddr}
use rocks.Error.{Result}
use rocks.Websocket.{
  Event, rejected, accepted, received, copied, connected, sent, Traced, resume, map_my_err, offers,
}

-- The addresses that the resolver was asked to connect to.
abbrev pub asked : List Event → List ReqAddr
asked [] = []
asked (connected a ∷ es) = a ∷ asked es
asked (sent b ∷ es) = asked es
asked (rejected ∷ es) = asked es
asked (accepted ∷ es) = asked es
asked (received ∷ es) = asked es
asked (copied ∷ es) = asked es

asked-append : (xs ys : List Event) → asked (xs ++ ys) ≡ asked xs ++ asked ys
asked-append [] ys = refl
asked-append (connected a ∷ es) ys = ap (λ l. a ∷ l) (asked-append es ys)
asked-append (sent b ∷ es) ys = asked-append es ys
asked-append (rejected ∷ es) ys = asked-append es ys
asked-append (accepted ∷ es) ys = asked-append es ys
asked-append (received ∷ es) ys = asked-append es ys
asked-append (copied ∷ es) ys = asked-append es ys

pub asked-append_quiet : (es xs : List Event) → asked es ≡ [] → asked (es ++ xs) ≡ asked xs
asked-append_quiet es xs quiet = asked-append es xs ∙ rw quiet refl

-- No address, or one.
abbrev pub AtMostOne : List ReqAddr → Type 0
AtMostOne to = (to ≡ []) ⊎ ((a : ReqAddr) × (to ≡ a ∷ []))

-- A name is among these.
abbrev pub Listed : String → List String → Type 0
Listed name [] = ⊥
Listed name (s ∷ ss) = (s ≡ name) ⊎ Listed name ss

pub offers_iff : (ss : List String) → (offers ss ≡ true) ↔ Listed "rust-websocket" ss
unfolding offers
offers_iff [] = (λ h. cc, λ h. elim h [ ])
offers_iff (s ∷ ss) = ground (arith, offers_iff ss, eq_iff s "rust-websocket")

module _ {X Y : Type 0} where
  pub asked-resume :
      {A B : Type 0} (text : String) (r : Result X A) (es : List Event) (f : A → Traced X Y B)
      → asked es ≡ []
      → ((a : A) → asked (f a).1 ≡ [])
      → asked (resume (map_my_err {Y = Y} text r) es f).1 ≡ []
  asked-resume text (Result.ok a) es f quiet h = asked-append_quiet es (f a).1 quiet ∙ h a
  asked-resume text (Result.err e) es f quiet h = quiet

  pub resume_asks :
      {A B : Type 0} (text : String) (r : Result X A) (es : List Event) (f : A → Traced X Y B)
      {to : ReqAddr}
      → asked es ≡ []
      → asked (resume (map_my_err {Y = Y} text r) es f).1 ≡ to ∷ []
      → (a : A) × (r ≡ Result.ok a) × (asked (f a).1 ≡ to ∷ [])
  resume_asks text (Result.ok a) es f quiet h =
      (a, refl, sym (asked-append_quiet es (f a).1 quiet) ∙ h)
  resume_asks text (Result.err e) es f quiet h = cc

  pub AtMostOne-resume :
      {A B : Type 0} (text : String) (r : Result X A) (es : List Event) (f : A → Traced X Y B)
      → asked es ≡ []
      → ((a : A) → AtMostOne (asked (f a).1))
      → AtMostOne (asked (resume (map_my_err {Y = Y} text r) es f).1)
  AtMostOne-resume text (Result.ok a) es f quiet h =
      subst AtMostOne (sym (asked-append_quiet es (f a).1 quiet)) (h a)
  AtMostOne-resume text (Result.err e) es f quiet h = inl quiet

  pub if_asks :
      {A : Type 0} (b : Bool) (p q : Traced X Y A) {to : ReqAddr}
      → asked q.1 ≡ []
      → asked (if b then p else q).1 ≡ to ∷ []
      → (b ≡ true) × (asked p.1 ≡ to ∷ [])
  if_asks true p q quiet h = (refl, h)
  if_asks false p q quiet h = cc
