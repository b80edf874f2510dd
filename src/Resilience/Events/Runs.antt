-- ===== src/Resilience/Events/Runs.antt =====
-- What the tracker guarantees of a run, over any observations of any runs.
use hermes_mcp_bridge.Base.Dict.{get-pop, get-set, get-pop_ne}
use mathlib.Core.Path.{subst}
use hermes_mcp_bridge.Base.{
  ◌↔◌, err, Result, refl, All, Bool-cases, sym, [], List, false, suc, inl, inr, eq_iff, suc,
  if◌then◌else◌, if_ind, false, maybe, str_eq, ap, ◌∷◌, ◌≢◌, Bool, ℕ, List, Option, String, arith,
  not, true, ◌&&◌, ◌≡◌, ◌≤◌,
}
use hermes_mcp_bridge.Base.Int.{ℤ, ◌≤ℤ◌}
use hermes_mcp_bridge.Resilience.Events.{
  same_status, conflicting_terminal_state, status, RunObservation, TerminalStateError, is_terminal,
  apply_all, slice_to, initial, or_text, of_text, forgotten, forget, state_of, observed, observe,
  apply, Event, Tracker, RunState, RunStatus, is_completion, is_terminal_state, observe_state,
  order,
}
use hermes_mcp_bridge.Base.Dict

-- The lock on terminal states is set where the status is one of them.
abbrev pub IsLockedRight : RunState → Type 0
IsLockedRight st = st.terminal_applied ≡ is_terminal_state st.status

-- How a run may move on.
pub record IsAdvance (st st' : RunState) : Type 0 where
  pub right : IsLockedRight st'
  pub rank : order st.status ≤ order st'.status
  pub sequence : st.sequence ≤ℤ st'.sequence
  pub locked : st.terminal_applied ≡ true → (st'.status ≡ st.status) × (st'.terminal_applied ≡ true)

observe_state-IsAdvance :
    (n : RunStatus) (q : Option ℤ) (o : String) (st : RunState)
    → IsLockedRight st
    → IsAdvance st (observe_state n q o st).0
unfolding observe_state
observe_state-IsAdvance n q o st h = ground arith

observe_state-terminal :
    (n : RunStatus) (q : Option ℤ) (o : String) (st : RunState)
    → IsLockedRight st
    → is_completion (observe_state n q o st).1
      ≡ (not st.terminal_applied && (observe_state n q o st).0.terminal_applied)
unfolding observe_state
observe_state-terminal n q o st h = ground arith

same_status_iff : (a b : RunStatus) → (same_status a b ≡ true) ↔ (a ≡ b)
same_status_iff a b = ground arith

observe_state-conflict :
    (n : RunStatus) (q : Option ℤ) (o : String) (st : RunState)
    → ((observe_state n q o st).1 ≡ err conflicting_terminal_state)
      ↔ (st.terminal_applied ≡ true) × (is_terminal_state n ≡ true) × (n ≢ st.status)
unfolding observe_state
observe_state-conflict n q o st = ground (arith, same_status_iff n st.status)

state_of-set :
    (t : Tracker) (k run : String) (st : RunState)
    → state_of (Dict.set t k st) run ≡ (if str_eq k run then st else state_of t run)
state_of-set t k run st = ground (arith, get-set t k run st)

state_of-pop :
    (t : Tracker) (k run : String) → k ≢ run → state_of (Dict.pop t k) run ≡ state_of t run
state_of-pop t k run h = ap (λ o. maybe o initial (λ st. st)) (get-pop_ne t k run h)

completion-set :
    (t : Tracker) (k run : String) (step : RunState × Result TerminalStateError RunObservation)
    → IsLockedRight (state_of t run)
    → (IsLockedRight (state_of t k)
        → is_completion step.1 ≡ (not (state_of t k).terminal_applied && step.0.terminal_applied))
    → (str_eq k run && is_completion step.1) ≡ (
        not (state_of t run).terminal_applied
        && (state_of (Dict.set t k step.0) run).terminal_applied)
completion-set t k run step h own =
    subst
      (λ x.
        (str_eq k run && is_completion step.1)
        ≡ (not (state_of t run).terminal_applied && x.terminal_applied))
      (sym (state_of-set t k run step.0))
      (elim (Bool-cases (str_eq k run)) [
        | inl same ↦
            let one =
              subst
                (λ i.
                  IsLockedRight (state_of t i)
                  → is_completion step.1
                    ≡ (not (state_of t i).terminal_applied && step.0.terminal_applied))
                ((eq_iff k run).0 same) own in
            rw same (one h)
        | inr other ↦ rw other (ground arith)
      ])

-- A call that does not forget the run.
abbrev pub KeepsRun : String → Event → Type 0
KeepsRun run (observed k s q o) = Unit
KeepsRun run (forgotten k) = k ≢ run

stays-IsAdvance : (st : RunState) → IsLockedRight st → IsAdvance st st
stays-IsAdvance st h = ground arith

module _ (strip_lower : String → String) where
  -- Whether the event is a completion of the run that the tracker takes as new.
  abbrev pub completes : String → Event → Tracker → Bool
  completes run (observed k s q o) t =
      str_eq k run && is_completion (observe strip_lower k s q o t).1
  completes run (forgotten k) t = false

  abbrev pub completions : String → List Event → Tracker → ℕ
  completions run [] t = 0
  completions run (e ∷ es) t =
      let rest = completions run es (apply strip_lower e t) in
      if completes run e t then suc rest else rest

  apply-IsAdvance :
      (e : Event) (run : String) (t : Tracker)
      → KeepsRun run e
      → IsLockedRight (state_of t run)
      → IsAdvance (state_of t run) (state_of (apply strip_lower e t) run)
  unfolding apply observe forget
  apply-IsAdvance (observed k s q o) run t keep h =
      let n = of_text (strip_lower (or_text s "unknown")) in
      let origin = slice_to 16 (strip_lower (or_text o "unknown")) in
      let st = (observe_state n q origin (state_of t k)).0 in
      rw (state_of-set t k run st) (
        if_ind (IsAdvance (state_of t run)) (str_eq k run)
          (λ same.
            subst (λ i. IsLockedRight (state_of t i) → IsAdvance (state_of t i) st)
              ((eq_iff k run).0 same) (observe_state-IsAdvance n q origin (state_of t k)) h)
          (λ _. stays-IsAdvance (state_of t run) h))
  apply-IsAdvance (forgotten k) run t keep h =
      rw (state_of-pop t k run keep) (stays-IsAdvance (state_of t run) h)

  completes_lem :
      (e : Event) (run : String) (t : Tracker)
      → KeepsRun run e
      → IsLockedRight (state_of t run)
      → completes run e t ≡ (not (is_terminal t run) && is_terminal (apply strip_lower e t) run)
  unfolding apply observe forget
  completes_lem (observed k s q o) run t keep h =
      let n = of_text (strip_lower (or_text s "unknown")) in
      let origin = slice_to 16 (strip_lower (or_text o "unknown")) in
      completion-set t k run (observe_state n q origin (state_of t k)) h
        (observe_state-terminal n q origin (state_of t k))
  completes_lem (forgotten k) run t keep h =
      subst (λ x. false ≡ (not (state_of t run).terminal_applied && x.terminal_applied))
        (sym (state_of-pop t k run keep)) (ground arith)

  apply-IsLockedRight :
      (e : Event) (run : String) (t : Tracker)
      → IsLockedRight (state_of t run)
      → IsLockedRight (state_of (apply strip_lower e t) run)
  unfolding apply forget
  apply-IsLockedRight (observed k s q o) run t h =
      unfold apply in (apply-IsAdvance (observed k s q o) run t tt h).right
  apply-IsLockedRight (forgotten k) run t h =
      subst IsLockedRight (ap (λ o. maybe o initial (λ st. st)) (sym (get-pop t k run))) (
        if_ind (λ o. IsLockedRight (maybe o initial (λ st. st))) (str_eq k run) (λ _. refl)
          (λ _. h))

  apply_all-IsLockedRight :
      (es : List Event) (run : String) (t : Tracker)
      → IsLockedRight (state_of t run)
      → IsLockedRight (state_of (apply_all strip_lower es t) run)
  unfolding apply_all
  apply_all-IsLockedRight [] run t h = h
  apply_all-IsLockedRight (e ∷ es) run t h =
      apply_all-IsLockedRight es run (apply strip_lower e t) (apply-IsLockedRight e run t h)

  join-IsAdvance : (a b c : RunState) → IsAdvance a b → IsAdvance b c → IsAdvance a c
  join-IsAdvance a b c p q = ground arith

  apply_all-IsAdvance :
      (es : List Event) (run : String) (t : Tracker)
      → All (KeepsRun run) es
      → IsLockedRight (state_of t run)
      → IsAdvance (state_of t run) (state_of (apply_all strip_lower es t) run)
  unfolding apply_all
  apply_all-IsAdvance [] run t keep h = stays-IsAdvance (state_of t run) h
  apply_all-IsAdvance (e ∷ es) run t keep h =
      let first = apply-IsAdvance e run t keep.0 h in
      join-IsAdvance _ _ _ first
        (apply_all-IsAdvance es run (apply strip_lower e t) keep.1 first.right)

  -- While no one forgets a run, its status never falls back in the order unknown, queued, running,
  -- terminal, and its sequence number never decreases; and once a terminal state is applied, the status is
  -- that state after any further observations, and stays terminal. This holds of a tracker that any
  -- calls on an empty one have led to.
  pub runs-IsAdvance :
      (past es : List Event) (run : String)
      → All (KeepsRun run) es
      → IsAdvance
          (state_of (apply_all strip_lower past []) run)
          (state_of (apply_all strip_lower es (apply_all strip_lower past [])) run)
  runs-IsAdvance past es run keep =
      apply_all-IsAdvance es run (apply_all strip_lower past []) keep
        (apply_all-IsLockedRight past run [] (unfold Dict.get in refl))

  completions_lem :
      (es : List Event) (run : String) (t : Tracker)
      → All (KeepsRun run) es
      → IsLockedRight (state_of t run)
      → completions run es t
        ≡ (if not (is_terminal t run) && is_terminal (apply_all strip_lower es t) run then 1 else 0)
  unfolding apply_all
  completions_lem [] run t keep h = ground arith
  completions_lem (e ∷ es) run t keep h =
      let t' = apply strip_lower e t in
      let first = apply-IsAdvance e run t keep.0 h in
      let rest = apply_all-IsAdvance es run t' keep.1 first.right in
      let here = completes_lem e run t keep.0 h in
      let there = completions_lem es run t' keep.1 first.right in
      let once_locked = first.locked in let then_locked = rest.locked in ground arith

  -- No double completion: while no one forgets a run, the observations of it that the tracker
  -- takes as a new terminal state are one if the run becomes terminal and none otherwise, however many
  -- events repeat it and from whichever source.
  pub completed_once :
      (past es : List Event) (run : String)
      → All (KeepsRun run) es
      → completions run es (apply_all strip_lower past []) ≡ (
          if not (is_terminal (apply_all strip_lower past []) run)
            && is_terminal (apply_all strip_lower es (apply_all strip_lower past [])) run
          then 1
          else 0)
  completed_once past es run keep =
      completions_lem es run (apply_all strip_lower past []) keep
        (apply_all-IsLockedRight past run [] (unfold Dict.get in refl))

  -- A contradiction is an error, and the only one: `observe` raises exactly when a terminal state of the
  -- run is applied and the text it is given reads as another terminal state.
  conflict_raises :
      (run : String) (s : Option String) (q : Option ℤ) (o : Option String) (t : Tracker)
      → ((observe strip_lower run s q o t).1 ≡ err conflicting_terminal_state)
        ↔ (is_terminal t run ≡ true)
          × (is_terminal_state (of_text (strip_lower (or_text s "unknown"))) ≡ true)
          × (of_text (strip_lower (or_text s "unknown")) ≢ status t run)
  unfolding observe
  conflict_raises run s q o t =
      observe_state-conflict (of_text (strip_lower (or_text s "unknown"))) q
        (slice_to 16 (strip_lower (or_text o "unknown"))) (state_of t run)
