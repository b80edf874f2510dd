-- ===== src/Resilience/Events/Tests.antt =====
-- A stream of events of two runs, with a repeated completion, and the theorems at it.
use hermes_mcp_bridge.Base.Dict
use hermes_mcp_bridge.Base.{
  eq_iff, arith, All, List, String, [], err, if◌then◌else◌, none, not, refl, some, ℕ, ◌&&◌, ◌∷◌,
  ◌≡◌,
}
use hermes_mcp_bridge.Base.Int.{pos}
use hermes_mcp_bridge.Resilience.Events.{
  Event, apply, apply_all, completed, conflicting_terminal_state, forget, forgotten, is_terminal,
  observe, observe_state, observed, of_text, slice_to, state_of, status, unknown,
}
use hermes_mcp_bridge.Resilience.Events.Runs.{
  IsAdvance, KeepsRun, completed_once, completions, runs-IsAdvance,
}

-- Texts that are already trimmed and in lower case.
abbrev plain : String → String
plain s = s

abbrev seen_at : ℕ → String → Event
seen_at n s = observed "a" (some s) (some (pos n)) (some "sse")

-- The run starts, another one ends, and the polling reports it without sequence numbers.
abbrev past : List Event
past =
    seen_at 0 "queued"
    ∷ seen_at 2 "running"
    ∷ observed "b" (some "failed") none (some "polling")
    ∷ []

abbrev more : List Event
more =
    seen_at 1 "queued"
    ∷ seen_at 3 "completed"
    ∷ observed "a" (some "completed") none (some "polling")
    ∷ forgotten "b"
    ∷ observed "a" (some "running") none none
    ∷ []

program : Unit {0}
unfolding apply apply_all observe observe_state of_text slice_to forget Dict.get Dict.set Dict.pop
program = tt

more_run :
    (status (apply_all plain more (apply_all plain past [])) "a" ≡ completed)
    × (completions plain "a" more (apply_all plain past []) ≡ 1)
    × (status (apply_all plain more (apply_all plain past [])) "b" ≡ unknown)
    × ((observe plain "a"
          (some "failed")
          none
          none
          (apply_all plain more (apply_all plain past []))).1
        ≡ err conflicting_terminal_state)
unfolding program
more_run = (refl, refl, refl, refl)

keeps : All (KeepsRun "a") more
keeps = (tt, (tt, (tt, ((λ e. ground (arith, (eq_iff "b" "a").1 e)), (tt, tt)))))

runs-IsAdvance_example :
    IsAdvance
      (state_of (apply_all plain past []) "a")
      (state_of (apply_all plain more (apply_all plain past [])) "a")
runs-IsAdvance_example = runs-IsAdvance plain past more "a" keeps

completed_once_example : completions plain "a" more (apply_all plain past []) ≡ (
    if not (is_terminal (apply_all plain past []) "a")
      && is_terminal (apply_all plain more (apply_all plain past [])) "a"
    then 1
    else 0)
completed_once_example = completed_once plain past more "a" keeps
