-- ===== src/Locks/Tests.antt =====
-- A writer, another one and a reader on one key, and the theorems at them.
use hermes_mcp_bridge.Base.Dict
use hermes_mcp_bridge.Base.{
  if◌then◌else◌, ◌&&◌, str_eq, ◌≢◌, List, Option, String, [], arith, eq_iff, err, map, none, ok,
  refl, some, ℕ, ◌∷◌, ◌≡◌,
}
use hermes_mcp_bridge.Base.Dict.{Dict, get, set}
use hermes_mcp_bridge.Locks.{
  released, Call, LockRequest, LockType, ResourceLock, Table, acquire, acquire_call, active, apply,
  apply_all, enforce_compatibility, expires_at, get_lock, intent_to_write, is_blocked,
  lock_conflict, new_row, read_shared, reap_expired, release, release_call, write_exclusive,
}
use hermes_mcp_bridge.Locks.Answers.{
  release_reports_before, expired_still_blocks, reader_beside_writer,
}
use hermes_mcp_bridge.Locks.Writers.{IsExclusive, calls-IsExclusive}

abbrev request : String → LockType → ℕ → LockRequest
request owner t ttl = record {
  lock_key = "repo";
  owner = owner;
  lock_type = t;
  execution_id = none;
  context = none;
  ttl_seconds = ttl;
}

abbrev row : Option ℕ → ResourceLock
row expires = record {
  lock_type = write_exclusive;
  execution_id = none;
  context = none;
  ttl_seconds = 0;
  acquired_at = 5;
  renewed_at = 5;
  expires_at = expires;
  status = active;
}

-- Alice writes without a limit, or for one second.
abbrev held : Option ℕ → Table
held expires = ("repo", ("alice", row expires) ∷ []) ∷ []

program : Unit {0}
unfolding get_lock is_blocked enforce_compatibility reap_expired expires_at new_row acquire release
    apply apply_all Dict.get Dict.set
program = tt

acquire_run : (acquire 5 (request "alice" write_exclusive 0) []).0 ≡ held none
unfolding program
acquire_run = refl

writer_refused : (acquire 9 (request "bob" intent_to_write 0) (held none)).1 ≡ err lock_conflict
unfolding program
writer_refused = refl

after_release :
    (acquire 9 (request "bob" write_exclusive 0) (release 8 "repo" "alice" (held none)).0).1
    ≡ ok (some (record (row none) { acquired_at = 9; renewed_at = 9 }))
unfolding program
after_release = refl

abbrev calls : List Call
calls =
    acquire_call 5 (request "alice" write_exclusive 1)
    ∷ acquire_call 6 (request "bob" read_shared 0)
    ∷ release_call 7 "repo" "alice"
    ∷ acquire_call 8 (request "carol" write_exclusive 0)
    ∷ []

calls-IsExclusive_example : IsExclusive (apply_all calls [])
calls-IsExclusive_example = calls-IsExclusive calls

alice_held : (expires : Option ℕ) → get_lock "repo" "alice" (held expires) ≡ some (row expires)
unfolding program
alice_held expires = refl

other_owner : ◌≢◌ {A = String} "alice" "bob"
other_owner q = ground (arith, (eq_iff "alice" "bob").1 q)

reader_beside_writer_example :
    let (t', r) = acquire 9 (request "bob" read_shared 0) (held (some 10)) in
    (l : ResourceLock) × (r ≡ ok (some l))
    × (get_lock "repo" "bob" t' ≡ some l)
    × (l.lock_type ≡ read_shared)
    × (l.status ≡ active)
    × (get_lock "repo" "alice" t' ≡ some (row (some 10)))
reader_beside_writer_example =
    reader_beside_writer 9 (request "bob" read_shared 0) (held (some 10)) "alice" (row (some 10))
      refl (alice_held (some 10)) other_owner refl refl refl

expired_still_blocks_example :
    (apply_all
        (map (λ n. acquire_call n (request "bob" write_exclusive 0)) (20 ∷ 30 ∷ []))
        (held (some 10))
      ≡ held (some 10))
    × (acquire 900 (request "bob" write_exclusive 0) (held (some 10))
        ≡ (held (some 10), err lock_conflict))
expired_still_blocks_example =
    expired_still_blocks 900 (20 ∷ 30 ∷ []) (request "bob" write_exclusive 0) (held (some 10))
      "alice" (row (some 10)) refl (alice_held (some 10)) other_owner refl refl

release_reports_before_example :
    ((get_lock "repo" "alice" (held none) ≡ none)
      → release 8 "repo" "alice" (held none) ≡ (held none, none))
    × ((l : ResourceLock)
        → get_lock "repo" "alice" (held none) ≡ some l
        → ((release 8 "repo" "alice" (held none)).1 ≡ some l)
          × ((j p : String)
              → get_lock j p (release 8 "repo" "alice" (held none)).0 ≡ (
                  if str_eq "repo" j && str_eq "alice" p
                  then some (record l { status = released; renewed_at = 8 })
                  else get_lock j p (held none))))
release_reports_before_example = release_reports_before 8 "repo" "alice" (held none)
