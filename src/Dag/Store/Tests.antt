-- ===== src/Dag/Store/Tests.antt =====
-- Two engines and one execution, and the theorems at them.
use hermes_mcp_bridge.Base.Dict
use hermes_mcp_bridge.Base.{
  true, eq_iff, ◌≢◌, List, String, [], arith, err, false, if◌then◌else◌, none, not, ok, refl, some,
  ◌&&◌, ◌<◌, ◌∷◌, ◌≡◌,
}
use hermes_mcp_bridge.Base.Dict.{Dict, IsUnique, by_key, get, set}
use hermes_mcp_bridge.Dag.Contract.{
  checkpoint_tampered, lease_fence_stale, pending, plan_partial, success,
}
use hermes_mcp_bridge.Dag.Json.{
  no_fields, text, field, object, Json, assert_fields, assert_items, assert_no_secret_material,
  store_error,
}
use hermes_mcp_bridge.Dag.Store.{
  leased, refused, Row, put, Call, Checkpoint, CheckpointStore, Lease, NodeState, acquire_lease,
  apply, apply_all, approval_holder, as_dict, body, budget_json, checked, consume_approval,
  consume_call, create, create_call, empty, grant, lease_call, lease_json, load, save, save_call,
  save_row, schema, states_json,
}
use hermes_mcp_bridge.Dag.Store.Fence.{leases_increase, stale_writer_refused}
use hermes_mcp_bridge.Dag.Store.Approvals.{approval_single_use, consumptions, held}
use hermes_mcp_bridge.Dag.Body.Codec.{
  IsKeyed, budget_from, checkpoint_from_body, from_dict, lease_from, node_status, plan_status,
  states_from,
}
use hermes_mcp_bridge.Dag.Body.Codec.Reads.{sorted_checkpoint}
use hermes_mcp_bridge.Dag.Store.Records.{load-save, tampering_refused}
use hermes_mcp_bridge.Dag.Transform.{set_field}

abbrev plain : String → String
plain s = s

-- A stand-in for the hash: the first text of a body, its execution, or nothing.
abbrev digest : Json → String
digest (object (field k (text s) f)) = s
digest _ = ""

abbrev node : NodeState
node = record {
  node_id = "n";
  status = pending;
  attempt = 0;
  idempotency_key = none;
  effect_ref = none;
  result = object (field "effect_ref" (text "pr-7") no_fields);
  reason_code = none;
  operation_digest = none;
}

abbrev start : Checkpoint
start = record {
  execution_id = "e";
  plan_digest = "p";
  principal_ref = "alice";
  projection_digest = "j";
  policy_digest = "q";
  lease = record { owner_id = "one"; fence_token = 1; expires_at_ms = 50; heartbeat_at_ms = 0 };
  schema_version = schema;
  approval_ref = none;
  status = none;
  node_states = ("n", node) ∷ [];
  budget_consumed = ("external_calls", 0) ∷ [];
  replay = false;
}

abbrev leaky : Checkpoint
leaky = record start {
  node_states =
      ("n", record node { result = object (field "my_api_token" (text "x") no_fields) }) ∷ [];
}

program : Unit {0}
unfolding create save save_row load checked acquire_lease grant leased set_field
    checkpoint_from_body node_status plan_status from_dict states_from budget_from lease_from
    consume_approval approval_holder apply apply_all assert_no_secret_material assert_items
    assert_fields body as_dict states_json budget_json lease_json Dict.by_key Dict.get Dict.set
program = tt

clean : assert_no_secret_material plain (body start) ≡ ok tt
unfolding program
clean = refl

secret_refused :
    assert_no_secret_material plain (body leaky)
    ≡ err (store_error checkpoint_tampered "secret-like field")
unfolding program
secret_refused = refl

abbrev taken_over : CheckpointStore
taken_over = apply_all plain digest (create_call start ∷ lease_call "e" "two" 90 ∷ []) empty

stale :
    (save plain digest start 1 taken_over).1
    ≡ err (store_error lease_fence_stale "stale fence token")
unfolding program
stale = refl

abbrev second : Lease
second = record { owner_id = "two"; fence_token = 2; expires_at_ms = 90; heartbeat_at_ms = 0 }

abbrev created : CheckpointStore
created = apply_all plain digest (create_call start ∷ []) empty

granted : (acquire_lease plain digest "e" "two" 90 created).1 ≡ ok second
unfolding program
granted = refl

abbrev saved : List Call
saved = save_call start 2 ∷ consume_call "a" "m" "e" ∷ []

granted_again :
    (acquire_lease plain digest "e" "one" 99
      (apply_all plain digest saved (acquire_lease plain digest "e" "two" 90 created).0)).1
    ≡ ok (record { owner_id = "one"; fence_token = 3; expires_at_ms = 99; heartbeat_at_ms = 0 })
unfolding program
granted_again = refl

leases_increase_example : 2 < 3
leases_increase_example =
    leases_increase plain digest "e" "two" "one" 90 99 second
      (record { owner_id = "one"; fence_token = 3; expires_at_ms = 99; heartbeat_at_ms = 0 }) saved
      created granted granted_again

stale_writer_refused_example :
    save plain digest start 1
      (apply_all plain digest saved (acquire_lease plain digest "e" "two" 90 created).0)
    ≡ (
      apply_all plain digest saved (acquire_lease plain digest "e" "two" 90 created).0,
      err (store_error lease_fence_stale "stale fence token"),
    )
stale_writer_refused_example =
    stale_writer_refused plain digest "e" "two" 90 second saved start 1 created granted refl
      (omega arith) clean

abbrev race : List Call
race = consume_call "a" "m" "e" ∷ consume_call "a" "m" "f" ∷ []

one_wins : consumptions plain digest "a" "m" race created ≡ 1
unfolding program
one_wins = refl

approval_single_use_example :
    (consumptions plain digest "a" "m" race created ≡ (
      if not (held plain digest "a" "m" created)
        && held plain digest "a" "m" (apply_all plain digest race created)
      then 1
      else 0))
    × ((consume_approval "a" "m" "e" (apply_all plain digest race created)).1 ≡ true
        → let after = (consume_approval "a" "m" "e" (apply_all plain digest race created)).0 in
          (approval_holder "a" "m" (apply_all plain digest race after) ≡ some "e")
          × (consumptions plain digest "a" "m" race after ≡ 0))
approval_single_use_example = approval_single_use plain digest "a" "m" race race created "e"

-- The nodes do not stand in the order of their keys.
abbrev unsorted : Checkpoint
unsorted = record start {
  status = some plan_partial;
  node_states =
      ("n", record node { status = success; effect_ref = some "pr-7" })
      ∷ ("b", record node { node_id = "b" })
      ∷ [];
}

unsorted-IsKeyed : IsKeyed unsorted.node_states
unfolding program
unsorted-IsKeyed = ((refl, (refl, tt)), (refl, (refl, tt)))

external_calls_once : IsUnique unsorted.budget_consumed
unfolding program
external_calls_once = (refl, tt)

unsorted_saved : (save plain digest unsorted 1 created).1 ≡ ok tt
unfolding program
unsorted_saved = refl

load-save_example :
    (load plain digest "e" (save plain digest unsorted 1 created).0
      ≡ ok (sorted_checkpoint unsorted))
    × ((i : String) → get (sorted_checkpoint unsorted).node_states i ≡ get unsorted.node_states i)
    × ((i : String)
        → get (sorted_checkpoint unsorted).budget_consumed i ≡ get unsorted.budget_consumed i)
load-save_example =
    load-save plain digest unsorted 1 created unsorted_saved refl unsorted-IsKeyed
      external_calls_once

forged_digest : ◌≢◌ {A = String} "f" "e"
forged_digest q = ground (arith, (eq_iff "f" "e").1 q)

abbrev created_row : Row
created_row = record { plan_digest = "p"; fence_token = 1; record_digest = "e"; body = body start }

found : Dict.get created.rows "e" ≡ some created_row
unfolding program
found = refl

start-IsKeyed : IsKeyed start.node_states
unfolding program
start-IsKeyed = ((refl, tt), (refl, tt))

abbrev forged : Checkpoint
forged = record start { execution_id = "f" }

digests_differ : digest (body forged) ≢ digest (body start)
unfolding program
digests_differ = forged_digest

tampering_refused_example :
    (load plain digest "e" created ≡ ok (sorted_checkpoint start))
    × (load plain digest "e" (put "e" (record created_row { body = body forged }) created)
        ≡ err (refused (store_error checkpoint_tampered "record digest")))
tampering_refused_example =
    tampering_refused plain digest (create_call start ∷ []) "e" created_row start forged found refl
      refl refl start-IsKeyed start-IsKeyed digests_differ
