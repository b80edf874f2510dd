-- ===== src/Dag/Engine/Batch/Moves.antt =====
-- What the moves of a batch take out of the pool, the rule for what they keep, and that they come to an end.
use hermes_mcp_bridge.Base.{
  ◌+◌, ◌≢◌, ◌++◌, none, some, if◌then◌else◌, some, Option, All, All-append, All-imp, All-map, Bool,
  List, [], any_of, ap, arith, false, if_ind, inl, inr, length, ltb, refl, suc, sym, zero, ℕ, ◌<◌,
  ◌||◌, ◌∙◌, ◌∷◌, ◌≡◌, ◌≤◌, ◌⊎◌,
}
use hermes_mcp_bridge.Dag.Engine.Batch.{
  holds, Flight, Resource, Node, Held, Move, Pool, hold, take_off, take_offs, is_locked, land,
  lands, moves, pick, selects, taken,
}

module _ {A : Type 0} where
  -- One of the list, and the others.
  abbrev pub Split : A → List A → List A → Type 0
  Split x rest [] = ⊥
  Split x rest (y ∷ l) = ((x ≡ y) × (rest ≡ l)) ⊎ ((r : List A) × (rest ≡ y ∷ r) × Split x r l)

  pub Split-length : (x : A) (rest l : List A) → Split x rest l → length l ≡ suc (length rest)
  Split-length x rest [] s = absurd s
  Split-length x rest (y ∷ l) s = elim s [
    | inl (e, same) ↦ ap (λ t. suc (length t)) (sym same)
    | inr (r, same, deeper) ↦ ap suc (Split-length x r l deeper ∙ sym (ap length same))
  ]

  pub Split-any_of :
      (p : A → Bool) (x : A) (rest l : List A)
      → Split x rest l
      → any_of p l ≡ (p x || any_of p rest)
  Split-any_of p x rest [] s = absurd s
  Split-any_of p x rest (y ∷ l) s = elim s [
    | inl (e, same) ↦ rw (e, same) refl
    | inr (r, same, deeper) ↦ rw same (ground (arith, Split-any_of p x r l deeper))
  ]

  pub selects-Split : (l : List A) → All (λ t. Split t.0 t.1 l) (selects l)
  unfolding selects
  selects-Split [] = tt
  selects-Split (x ∷ xs) = (
    inl (refl, refl),
    All-map (λ t. Split t.0 t.1 (x ∷ xs)) (λ t. (t.0, x ∷ t.1)) (selects xs)
        (All-imp (λ t. Split t.0 t.1 xs) (λ t. Split t.0 (x ∷ t.1) (x ∷ xs)) (selects xs)
          (λ t s. inr (t.1, refl, s)) (selects-Split xs)),
  )

module _ (parallelism : ℕ) where
  -- What a move that is offered relies on.
  abbrev pub CanGo : Pool → Move → Type 0
  CanGo p (hold n rest) = (taken p < parallelism) × Split n rest p.queued
  CanGo p (take_off h rest) = (is_locked h.resource p.flying ≡ false) × Split h rest p.held
  CanGo p (land f rest) = Split f rest p.flying

  take_offs-CanGo :
      (p : Pool) (l : List (Held × List Held))
      → All (λ t. Split t.0 t.1 p.held) l
      → All (CanGo p) (take_offs p.flying l)
  take_offs-CanGo p [] a = tt
  take_offs-CanGo p ((h, rest) ∷ l) a =
      let more = take_offs-CanGo p l a.1 in
      if_ind (All (CanGo p)) (is_locked h.resource p.flying) (λ e. more) (λ e. ((e, a.0), more))

  pub moves-CanGo : (p : Pool) → All (CanGo p) (moves parallelism p)
  unfolding moves
  moves-CanGo p =
      let landing =
        All-map (CanGo p) (λ t. land t.0 t.1) (selects p.flying) (selects-Split p.flying) in
      let going =
        All-append (CanGo p) (take_offs p.flying (selects p.held)) (lands (selects p.flying))
          (take_offs-CanGo p (selects p.held) (selects-Split p.held)) landing in
      All-append (CanGo p) _ _
        (if_ind (All (CanGo p)) (ltb (taken p) parallelism)
          (λ e.
            All-map (CanGo p) (λ t. hold t.0 t.1) (selects p.queued)
              (All-imp (λ t. Split t.0 t.1 p.queued) _ (selects p.queued)
                (λ t s. (ground (arith, e), s)) (selects-Split p.queued)))
          (λ e. tt))
        going

  pub pick-CanGo :
      (p : Pool) (n : ℕ) (m : Move) (ms : List Move)
      → All (CanGo p) (m ∷ ms)
      → CanGo p (pick n m ms)
  pick-CanGo p zero m ms a = a.0
  pick-CanGo p (suc n) m [] a = a.0
  pick-CanGo p (suc n) m (m' ∷ ms) a = pick-CanGo p n m' ms a.1

  abbrev pub IsIdle : Pool → Type 0
  IsIdle p = (p.queued ≡ []) × (p.held ≡ []) × (p.flying ≡ [])

  not_nil : {A : Type 0} (xs ys : List A) (a : A) (l : List A) → xs ++ (ys ++ (a ∷ l)) ≢ []
  not_nil [] [] a l e = cc
  not_nil [] (y ∷ ys) a l e = cc
  not_nil (x ∷ xs) ys a l e = cc

  unlocked : (k : Option Resource) → is_locked k [] ≡ false
  unlocked none = refl
  unlocked (some k) = refl

  no_moves :
      (q : List Node) (h : List Held) (f : List Flight)
      → 1 ≤ parallelism
      → (if ltb (length h + length f) parallelism then holds (selects q) else [])
          ++ (take_offs f (selects h) ++ lands (selects f))
        ≡ []
      → (q ≡ []) × (h ≡ []) × (f ≡ [])
  unfolding selects
  no_moves q h (x ∷ f) one e = absurd (not_nil _ (take_offs (x ∷ f) (selects h)) _ _ e)
  no_moves q (x ∷ h) [] one e =
      let free = unlocked x.resource in absurd (not_nil _ [] _ _ (rw free at e))
  no_moves (x ∷ q) [] [] one e = absurd (ground (arith, e))
  no_moves [] [] [] one e = (refl, refl, refl)

  -- The event loop never waits for ever: while a task is not over, one can go on.
  pub no_moves-IsIdle : (p : Pool) → 1 ≤ parallelism → moves parallelism p ≡ [] → IsIdle p
  unfolding moves
  no_moves-IsIdle p one e = no_moves p.queued p.held p.flying one e
