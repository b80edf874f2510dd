-- ===== src/Locks.antt =====
-- The lock registry of src/hermes_mcp_bridge/locks.py. Each method is one SQLite transaction, so one step;
-- a rollback is the old table. The rows stand by their key and, under it, by their owner, which is the
-- primary key of the table. `acquire` reads its answer in the step that writes it, where the source reads it
-- right behind the transaction. Times and lifetimes are natural numbers; the metrics and the metadata are left out.
pub mod Lookup
pub mod Writers
pub mod Answers
pub mod Tests
use hermes_mcp_bridge.Base.Dict
use hermes_mcp_bridge.Base.{
  Bool, List, Option, Result, String, [], and_then, false, if◌then◌else◌, leb, maybe, none, not, ok,
  require, some, str_eq, true, ℕ, ◌&&◌, ◌*◌, ◌+◌, ◌==◌, ◌||◌, ◌∷◌,
}
use hermes_mcp_bridge.Base.Dict.{Dict, get, set}

pub data LockType : Type 0 where
  read_shared intent_to_write write_exclusive approval_pending : LockType

pub data LockStatus : Type 0 where
  active expired released : LockStatus

abbrev pub is_active : LockStatus → Bool
is_active active = true
is_active _ = false

-- `_INCOMPATIBLE_LOCK_PAIRS`, of the requested and the existing type
abbrev pub incompatible : LockType → LockType → Bool
incompatible write_exclusive t = true
incompatible intent_to_write write_exclusive = true
incompatible approval_pending write_exclusive = true
incompatible _ _ = false

abbrev pub is_read_shared : LockType → Bool
is_read_shared read_shared = true
is_read_shared _ = false

pub record ResourceLock : Type 0 where
  pub lock_type : LockType
  pub execution_id : Option String
  pub context : Option String
  pub ttl_seconds : ℕ
  pub acquired_at : ℕ
  pub renewed_at : ℕ
  pub expires_at : Option ℕ
  pub status : LockStatus

pub record LockRequest : Type 0 where
  pub lock_key : String
  pub owner : String
  pub lock_type : LockType
  pub execution_id : Option String
  pub context : Option String
  pub ttl_seconds : ℕ

pub data LockError : Type 0 where
  lock_conflict : LockError

abbrev pub Table : Type 0
Table = Dict (Dict ResourceLock)

-- The rows of a key.
abbrev pub owners : Table → String → Dict ResourceLock
owners t k = maybe (Dict.get t k) [] (λ d. d)

pub get_lock : String → String → Table → Option ResourceLock
get_lock k owner t = Dict.get (owners t k) owner

-- The loop of `_enforce_compatibility`: whether a row stands against the request.
pub is_blocked : LockType → String → Dict ResourceLock → Bool
is_blocked t owner [] = false
is_blocked t owner ((o, l) ∷ d) =
    let rest = is_blocked t owner d in
    is_active l.status && not (str_eq o owner) && incompatible t l.lock_type || rest

pub enforce_compatibility : LockRequest → Table → Result LockError (Unit {0})
enforce_compatibility q t =
    if is_read_shared q.lock_type
    then ok tt
    else require (not (is_blocked q.lock_type q.owner (owners t q.lock_key))) lock_conflict

abbrev pub is_over : ℕ → Option ℕ → Bool
is_over now none = false
is_over now (some e) = leb e now

abbrev pub reap : ℕ → ResourceLock → ResourceLock
reap now l =
    if is_active l.status && is_over now l.expires_at then record l { status = expired } else l

abbrev pub map_values : {A : Type 0} → (A → A) → Dict A → Dict A
map_values f [] = []
map_values f ((k, a) ∷ d) = (k, f a) ∷ map_values f d

pub reap_expired : ℕ → Table → Table
reap_expired now t = map_values (map_values (reap now)) t

-- A second, in the unit of the times.
abbrev second : ℕ
second = 1000000

pub expires_at : ℕ → ℕ → Option ℕ
expires_at now ttl = if ttl == 0 then none else some (now + second * ttl)

-- The row that is written: an existing one keeps the time of its first acquisition.
pub new_row : ℕ → LockRequest → Option ResourceLock → ResourceLock
new_row now q old = record {
  lock_type = q.lock_type;
  execution_id = q.execution_id;
  context = q.context;
  ttl_seconds = q.ttl_seconds;
  acquired_at = maybe old now (λ l. l.acquired_at);
  renewed_at = now;
  expires_at = expires_at now q.ttl_seconds;
  status = active;
}

abbrev pub put_lock : String → String → ResourceLock → Table → Table
put_lock k owner l t = Dict.set t k (Dict.set (owners t k) owner l)

pub acquire : ℕ → LockRequest → Table → Table × Result LockError (Option ResourceLock)
acquire now q t =
    and_then (t, enforce_compatibility q t)
      λ _ t.
        let t' = reap_expired now t in
        let t'' = put_lock q.lock_key q.owner (new_row now q (get_lock q.lock_key q.owner t')) t' in
        (t'', ok (get_lock q.lock_key q.owner t''))

-- `release` answers with the row as it was before.
pub release : ℕ → String → String → Table → Table × Option ResourceLock
release now k owner t =
    maybe (get_lock k owner t) (t, none)
      (λ l. (put_lock k owner (record l { status = released; renewed_at = now }) t, some l))

pub data Call : Type 0 where
  acquire_call : ℕ → LockRequest → Call
  release_call : ℕ → String → String → Call

pub apply : Call → Table → Table
apply (acquire_call now q) t = (acquire now q t).0
apply (release_call now k owner) t = (release now k owner t).0

pub apply_all : List Call → Table → Table
apply_all [] t = t
apply_all (c ∷ cs) t = apply_all cs (apply c t)
