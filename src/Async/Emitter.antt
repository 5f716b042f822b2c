-- ===== src/Async/Emitter.antt =====
-- shareds/async/src/emitter/event-emitter.ts: `mitt`. The `Map` of event types is an association list;
-- a handler is a number, by which `indexOf` compares; what `emit` does is the list of its calls, in order.
use nope.Prelude.{
  ℕ, ◌≡◌, refl, sym, ap, ◌∙◌, List, [], ◌∷◌, ◌++◌, map, Option, none, some, ◌==◌, if◌then◌else◌,
  ite, map_get, map_set, map_get-set_self, map_get-set_ne, Option-cases, inl, inr, subst,
}

-- One call of a handler: a handler of the type gets the event, a wildcard handler the type and the event.
pub data Call (T E : Type 0) : Type 0 where
  handles : ℕ → E → Call T E
  handles_any : ℕ → T → E → Call T E

pub data Op (T : Type 0) : Type 0 where
  ons : T → ℕ → Op T
  offs : T → ℕ → Op T
  clears : T → Op T

-- `splice(indexOf(handler) >>> 0, 1)`: the first occurrence goes, and where there is none, nothing.
abbrev pub splice_first : ℕ → List ℕ → List ℕ
splice_first h [] = []
splice_first h (k ∷ ks) = if k == h then ks else k ∷ splice_first h ks

abbrev pub or_empty : Option (List ℕ) → List ℕ
or_empty none = []
or_empty (some hs) = hs

module _ {T : Type 0} (dec : Discrete T) where
  abbrev on_found : List (T × List ℕ) → T → ℕ → Option (List ℕ) → List (T × List ℕ)
  on_found all type h (some hs) = map_set dec all type (hs ++ h ∷ [])
  on_found all type h none = map_set dec all type (h ∷ [])

  pub on : List (T × List ℕ) → T → ℕ → List (T × List ℕ)
  on all type h = on_found all type h (map_get dec all type)

  abbrev off_found : List (T × List ℕ) → T → Option ℕ → Option (List ℕ) → List (T × List ℕ)
  off_found all type (some h) (some hs) = map_set dec all type (splice_first h hs)
  off_found all type none (some hs) = map_set dec all type []
  off_found all type h none = all

  -- `off(type, handler)`; without a handler all of the type go.
  pub off : List (T × List ℕ) → T → Option ℕ → List (T × List ℕ)
  off all type h = off_found all type h (map_get dec all type)

  -- The handlers that a type has.
  abbrev pub handlers : List (T × List ℕ) → T → List ℕ
  handlers all type = or_empty (map_get dec all type)

  -- `emit(type, evt)`; `any` is the type `'*'`.
  pub emit : {E : Type 0} → T → List (T × List ℕ) → T → E → List (Call T E)
  emit any all type evt =
      map (λ h. handles h evt) (handlers all type)
      ++ map (λ h. handles_any h type evt) (handlers all any)

  pub step : List (T × List ℕ) → Op T → List (T × List ℕ)
  unfolding on off
  step all (ons t h) = on all t h
  step all (offs t h) = off all t (some h)
  step all (clears t) = off all t none

  pub run : List (T × List ℕ) → List (Op T) → List (T × List ℕ)
  run all [] = all
  run all (o ∷ os) = run (step all o) os

  -- What an operation makes of the handlers of one type, seen without the map.
  abbrev pub track : T → List ℕ → Op T → List ℕ
  track t hs (ons u h) = ite (dec u t) (hs ++ h ∷ []) hs
  track t hs (offs u h) = ite (dec u t) (splice_first h hs) hs
  track t hs (clears u) = ite (dec u t) [] hs

  abbrev pub track_all : T → List ℕ → List (Op T) → List ℕ
  track_all t hs [] = hs
  track_all t hs (o ∷ os) = track_all t (track t hs o) os

  -- One write at `u`, with what it leaves there.
  written :
      (all : List (T × List ℕ)) (t u : T) (new : List ℕ)
      → handlers (map_set dec all u new) t ≡ ite (dec u t) new (handlers all t)
  written all t u new =
      elim (dec u t) as (λ d. handlers (map_set dec all u new) t ≡ ite d new (handlers all t)) [
        | yes e ↦
            subst (λ x. or_empty (map_get dec (map_set dec all u new) x) ≡ new) e
              (ap or_empty (map_get-set_self dec all u new))
        | no n ↦ ap or_empty (map_get-set_ne dec all u t new n)
      ]

  unwritten :
      (all : List (T × List ℕ)) (t u : T)
      → map_get dec all u ≡ none
      → handlers all t ≡ ite (dec u t) [] (handlers all t)
  unwritten all t u e = elim (dec u t) as (λ d. handlers all t ≡ ite d [] (handlers all t)) [
    | yes p ↦ ap or_empty (subst (λ x. map_get dec all x ≡ none) p e)
    | no n ↦ refl
  ]

  at_type :
      (all : List (T × List ℕ)) (t u : T) (f : List ℕ → List ℕ) {o : Option (List ℕ)}
      → map_get dec all u ≡ o
      → ite (dec u t) (f (or_empty o)) (handlers all t)
        ≡ ite (dec u t) (f (handlers all t)) (handlers all t)
  at_type all t u f {o = o} e =
      elim (dec u t)
        as (λ d.
          ite d (f (or_empty o)) (handlers all t) ≡ ite d (f (handlers all t)) (handlers all t)) [
            | yes p ↦ ap (λ o. f (or_empty o)) (sym e) ∙ ap (λ x. f (handlers all x)) p
            | no n ↦ refl
          ]

  on-track :
      (all : List (T × List ℕ)) (t u : T) (h : ℕ)
      → handlers (on all u h) t ≡ ite (dec u t) (handlers all t ++ h ∷ []) (handlers all t)
  unfolding on
  on-track all t u h = elim (Option-cases (map_get dec all u)) [
    | inl e ↦ rw e (written all t u (h ∷ []) ∙ at_type all t u (λ hs. hs ++ h ∷ []) e)
    | inr (hs, e) ↦ rw e (written all t u (hs ++ h ∷ []) ∙ at_type all t u (λ hs. hs ++ h ∷ []) e)
  ]

  off-track :
      (all : List (T × List ℕ)) (t u : T) (h : ℕ)
      → handlers (off all u (some h)) t
        ≡ ite (dec u t) (splice_first h (handlers all t)) (handlers all t)
  unfolding off
  off-track all t u h = elim (Option-cases (map_get dec all u)) [
    | inl e ↦ rw e (unwritten all t u e ∙ at_type all t u (splice_first h) e)
    | inr (hs, e) ↦ rw e (written all t u (splice_first h hs) ∙ at_type all t u (splice_first h) e)
  ]

  clear-track :
      (all : List (T × List ℕ)) (t u : T)
      → handlers (off all u none) t ≡ ite (dec u t) [] (handlers all t)
  unfolding off
  clear-track all t u = elim (Option-cases (map_get dec all u)) [
    | inl e ↦ rw e (unwritten all t u e)
    | inr (hs, e) ↦ rw e (written all t u [])
  ]

  step-track :
      (all : List (T × List ℕ)) (t : T) (o : Op T)
      → handlers (step all o) t ≡ track t (handlers all t) o
  unfolding step
  step-track all t (ons u h) = on-track all t u h
  step-track all t (offs u h) = off-track all t u h
  step-track all t (clears u) = clear-track all t u

  -- After any registrations and removals, the handlers of a type are what the operations on that type
  -- alone make of those that it had: one more at the end, the first occurrence gone, or none left.
  pub run-track :
      (all : List (T × List ℕ)) (t : T) (os : List (Op T))
      → handlers (run all os) t ≡ track_all t (handlers all t) os
  unfolding run
  run-track all t [] = refl
  run-track all t (o ∷ os) =
      run-track (step all o) t os ∙ ap (λ hs. track_all t hs os) (step-track all t o)
