-- ===== src/Resilience/Events.antt =====
-- The run-state tracker of src/hermes_mcp_bridge/resilience/events.py, through which the event stream
-- and the polling report. Its lock makes each method one step. `strip` and `lower` of Python's `str`
-- are one parameter, a function on texts; the metrics hooks are left out.
pub mod Runs
pub mod Tests
use hermes_mcp_bridge.Base.Dict
use hermes_mcp_bridge.Base.Dict.{Dict}
use hermes_mcp_bridge.Base.Int.{ℤ, negsuc, leb_ℤ, suc_ℤ, max_ℤ}
use hermes_mcp_bridge.Base.{
  Bool, List, Option, Result, String, [], any_of, err, false, if◌then◌else◌, ltb, maybe, none, not,
  ok, some, str_eq, suc, true, zero, ℕ, ◌&&◌, ◌+◌, ◌==◌, ◌∷◌,
}

pub data RunStatus : Type 0 where
  unknown queued running completed failed cancelled : RunStatus

-- `_ORDER`
abbrev pub order : RunStatus → ℕ
order unknown = 0
order queued = 1
order running = 2
order _ = 3

-- `TERMINAL_STATES`
abbrev pub is_terminal_state : RunStatus → Bool
is_terminal_state completed = true
is_terminal_state failed = true
is_terminal_state cancelled = true
is_terminal_state _ = false

-- The key of `_ORDER` that a normalised text is, and "unknown" where it is none.
pub of_text : String → RunStatus
of_text s =
    if str_eq s "queued"
    then queued
    else if str_eq s "running"
    then running
    else if str_eq s "completed"
    then completed
    else if str_eq s "failed"
    then failed
    else if str_eq s "cancelled"
    then cancelled
    else unknown

abbrev pub index : RunStatus → ℕ
index unknown = 0
index queued = 1
index running = 2
index completed = 3
index failed = 4
index cancelled = 5

abbrev pub same_status : RunStatus → RunStatus → Bool
same_status a b = index a == index b

pub data Reason : Type 0 where
  duplicate terminal_lock out_of_order regression applied_reason : Reason

pub record RunObservation : Type 0 where
  pub status : RunStatus
  pub sequence : ℤ
  pub source : String
  pub applied : Bool
  pub reason : Reason

pub data TerminalStateError : Type 0 where
  conflicting_terminal_state : TerminalStateError

pub record RunState : Type 0 where
  pub status : RunStatus
  pub sequence : ℤ
  pub terminal_applied : Bool
  pub duplicates : ℕ
  pub out_of_order : ℕ
  pub sources : List String

abbrev pub initial : RunState
initial = record {
  status = unknown;
  sequence = negsuc 0;
  terminal_applied = false;
  duplicates = 0;
  out_of_order = 0;
  sources = [];
}

-- set.add
abbrev add_source : String → List String → List String
add_source s l = if any_of (str_eq s) l then l else s ∷ l

abbrev seen : RunState → String → Reason → RunObservation
seen st origin reason = record {
  status = st.status;
  sequence = st.sequence;
  source = origin;
  applied = false;
  reason = reason;
}

-- A counted duplicate, and a counted event out of order, with what the caller is told.
abbrev Step : Type 0
Step = RunState × Result TerminalStateError RunObservation

abbrev as_duplicate : RunState → String → Step
as_duplicate st origin =
    (record st { duplicates = st.duplicates + 1 }, ok (seen st origin duplicate))

abbrev as_disorder : RunState → String → Reason → Step
as_disorder st origin reason =
    (record st { out_of_order = st.out_of_order + 1 }, ok (seen st origin reason))

-- The branch for a run whose terminal state is applied.
after_terminal : RunStatus → String → RunState → Step
after_terminal n origin st =
    if same_status n st.status
    then as_duplicate st origin
    else if is_terminal_state n
    then (st, err conflicting_terminal_state)
    else as_disorder st origin terminal_lock

-- `sequence is not None and seq <= state.sequence`
abbrev is_stale : Option ℤ → RunState → Bool
is_stale none st = false
is_stale (some q) st = leb_ℤ q st.sequence

abbrev seq_of : Option ℤ → RunState → ℤ
seq_of none st = suc_ℤ st.sequence
seq_of (some q) st = q

-- The assignments at the end of `observe`.
advance : RunStatus → ℤ → String → RunState → Step
advance n q origin st =
    let st' = record st {
      status = n;
      sequence = max_ℤ st.sequence q;
      terminal_applied = if is_terminal_state n then true else st.terminal_applied;
    } in
    (
      st',
      ok (record {
        status = n;
        sequence = st'.sequence;
        source = origin;
        applied = true;
        reason = applied_reason;
      }),
    )

-- The branches for a run that is not yet terminal.
before_terminal : RunStatus → Option ℤ → String → RunState → Step
before_terminal n sequence origin st =
    if is_stale sequence st
    then (if same_status n st.status
        then as_duplicate st origin
        else as_disorder st origin out_of_order)
    else if ltb (order n) (order st.status)
    then as_disorder st origin regression
    else if same_status n st.status && not (is_terminal_state n)
    then (let st' = record st {
      duplicates = st.duplicates + 1;
      sequence = max_ℤ st.sequence (seq_of sequence st);
    } in
        (st', ok (seen st' origin duplicate)))
    else advance n (seq_of sequence st) origin st

-- The body of `observe` on the state of the run.
pub observe_state : RunStatus → Option ℤ → String → RunState → Step
unfolding after_terminal before_terminal advance
observe_state n sequence origin st =
    let st' = record st { sources = add_source origin st.sources } in
    if st'.terminal_applied
    then after_terminal n origin st'
    else before_terminal n sequence origin st'

-- The first n characters of a text: s[:n]
pub slice_to : ℕ → String → String
slice_to zero s = String.[]
slice_to (suc n) String.[] = String.[]
slice_to (suc n) (String.◌∷◌ c s) = String.◌∷◌ c (slice_to n s)

-- `text or default`
abbrev or_text : Option String → String → String
or_text none d = d
or_text (some s) d = if str_eq s "" then d else s

abbrev pub Tracker : Type 0
Tracker = Dict RunState

-- self._runs.get(run_id), with the state that `setdefault` puts there
abbrev pub state_of : Tracker → String → RunState
state_of t run = maybe (Dict.get t run) initial (λ st. st)

module _ (strip_lower : String → String) where
  pub observe :
      String
      → Option String
      → Option ℤ
      → Option String
      → Tracker
      → Tracker × Result TerminalStateError RunObservation
  observe run_id status sequence source t =
      let n = of_text (strip_lower (or_text status "unknown")) in
      let origin = slice_to 16 (strip_lower (or_text source "unknown")) in
      let (st, r) = observe_state n sequence origin (state_of t run_id) in (Dict.set t run_id st, r)

abbrev pub status : Tracker → String → RunStatus
status t run_id = (state_of t run_id).status

abbrev pub is_terminal : Tracker → String → Bool
is_terminal t run_id = (state_of t run_id).terminal_applied

pub forget : String → Tracker → Tracker
forget run_id t = Dict.pop t run_id

-- What the bridge does with a tracker.
pub data Event : Type 0 where
  observed : String → Option String → Option ℤ → Option String → Event
  forgotten : String → Event

module _ (strip_lower : String → String) where
  pub apply : Event → Tracker → Tracker
  apply (observed run s q o) t = (observe strip_lower run s q o t).0
  apply (forgotten run) t = forget run t

  pub apply_all : List Event → Tracker → Tracker
  apply_all [] t = t
  apply_all (e ∷ es) t = apply_all es (apply e t)

-- The observation is new, and of a terminal state.
abbrev pub is_completion : Result TerminalStateError RunObservation → Bool
is_completion (ok r) = r.applied && is_terminal_state r.status
is_completion (err e) = false
