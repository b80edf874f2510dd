-- ===== src/Locks/Answers.antt =====
-- What the registry answers: to a reader beside a writer, to a writer behind an expired lock, to a release.
use hermes_mcp_bridge.Base.Dict
use mathlib.Core.Path.{subst}
use mathlib.Core.Option.{some-injective}
use hermes_mcp_bridge.Base.{
  eq_refl, not, ◌||◌, map, Option, ok, err, Result, List, ◌∙◌, sym, some, Bool-cases, String, [],
  ap, arith, eq_iff, false, if◌then◌else◌, inl, inr, maybe, none, refl, some, str_eq, true, ℕ, ◌&&◌,
  ◌∙◌, ◌∷◌, ◌≡◌, ◌≢◌,
}
use hermes_mcp_bridge.Base.Dict.{Dict, get, get-set, set}
use hermes_mcp_bridge.Locks.{
  is_over, released, released, LockRequest, LockError, lock_conflict, enforce_compatibility,
  acquire, release, new_row, apply_all, apply, acquire_call, is_read_shared, owners, read_shared,
  write_exclusive, active, LockType, ResourceLock, Table, active, get_lock, incompatible, is_active,
  is_blocked, owners, put_lock, reap, reap_expired,
}
use hermes_mcp_bridge.Locks.Lookup.{get_lock-reap, get_lock-put}

admits_reader :
    (q : LockRequest) (t : Table) → q.lock_type ≡ read_shared → enforce_compatibility q t ≡ ok tt
unfolding enforce_compatibility
admits_reader q t h = ground (arith, h)

admitted :
    (now : ℕ) (q : LockRequest) (t : Table)
    → enforce_compatibility q t ≡ ok tt
    → let t' = reap_expired now t in
      let t'' = put_lock q.lock_key q.owner (new_row now q (get_lock q.lock_key q.owner t')) t' in
      acquire now q t ≡ (t'', ok (get_lock q.lock_key q.owner t''))
unfolding acquire
admitted now q t h = rw h refl

-- A reader is never refused: an acquire of a shared read writes the reader's row, active and of its type, and
-- answers with it, also beside an active exclusive write of another owner whose time is not over; that one then
-- stays as it is, and both locks are active.
pub reader_beside_writer :
    (now : ℕ) (q : LockRequest) (t : Table) (p : String) (m : ResourceLock)
    → q.lock_type ≡ read_shared
    → get_lock q.lock_key p t ≡ some m
    → p ≢ q.owner
    → m.lock_type ≡ write_exclusive
    → m.status ≡ active
    → is_over now m.expires_at ≡ false
    → let (t', r) = acquire now q t in
      (l : ResourceLock) × (r ≡ ok (some l))
      × (get_lock q.lock_key q.owner t' ≡ some l)
      × (l.lock_type ≡ read_shared)
      × (l.status ≡ active)
      × (get_lock q.lock_key p t' ≡ some m)
unfolding new_row
reader_beside_writer now q t p m reader found differ writer a lasting =
    let t' = reap_expired now t in
    let l = new_row now q (get_lock q.lock_key q.owner t') in
    let kept : reap now m ≡ m = ground (arith, lasting) in
    let there =
      get_lock-reap now t q.lock_key p
      ∙ ap (λ x. maybe x none (λ z. some (reap now z))) found
      ∙ ap some kept in
    let foreign : str_eq q.owner p ≡ false =
      ground (arith, eq_iff q.owner p, eq_iff p q.owner, differ) in
    let e = admitted now q t (admits_reader q t reader) in
    let own = ap (λ (r : Table × Result LockError (Option ResourceLock)). r.0) e in
    let mine : get_lock q.lock_key q.owner (put_lock q.lock_key q.owner l t') ≡ some l =
      get_lock-put q.lock_key q.owner q.lock_key q.owner l t'
      ∙ rw (eq_refl q.lock_key, eq_refl q.owner) refl in
    (
      l,
      ap (λ (r : Table × Result LockError (Option ResourceLock)). r.1) e ∙ ap ok mine,
      ap (get_lock q.lock_key q.owner) own ∙ mine,
      reader,
      refl,
      ap (get_lock q.lock_key p) own
          ∙ get_lock-put q.lock_key q.owner q.lock_key p l t'
          ∙ rw (foreign, eq_refl q.lock_key) there,
    )

blocking :
    (t : LockType) (owner : String) (d : Dict ResourceLock) (o : String) (l : ResourceLock)
    → Dict.get d o ≡ some l
    → o ≢ owner
    → is_active l.status ≡ true
    → incompatible t l.lock_type ≡ true
    → is_blocked t owner d ≡ true
unfolding is_blocked Dict.get
blocking t owner [] o l found differ a c = absurd (cc found)
blocking t owner ((i, m) ∷ d) o l found differ a c = elim (Bool-cases (str_eq i o)) [
  | inl same ↦
      let e : m ≡ l = some-injective _ _ (cc (found, same)) in
      let foreign : str_eq i owner ≡ false =
        ground (arith, eq_iff i owner, eq_iff i o, same, differ) in
      subst
        (λ (z : ResourceLock).
          (is_active z.status && not (str_eq i owner) && incompatible t z.lock_type
            || is_blocked t owner d)
          ≡ true)
        (sym e) (ground (arith, a, foreign, c))
  | inr other ↦
      let rest = blocking t owner d o l (ground (arith, found, other)) differ a c in
      ground (arith, rest)
]

refused :
    (now : ℕ) (q : LockRequest) (t : Table)
    → is_read_shared q.lock_type ≡ false
    → is_blocked q.lock_type q.owner (owners t q.lock_key) ≡ true
    → acquire now q t ≡ (t, err lock_conflict)
unfolding acquire enforce_compatibility
refused now q t writes blocked = rw (writes, blocked) refl

repeated :
    (nows : List ℕ) (q : LockRequest) (t : Table)
    → is_read_shared q.lock_type ≡ false
    → is_blocked q.lock_type q.owner (owners t q.lock_key) ≡ true
    → apply_all (map (λ n. acquire_call n q) nows) t ≡ t
unfolding apply_all apply
repeated [] q t writes blocked = refl
repeated (n ∷ nows) q t writes blocked =
    ap
      (λ (r : Table × Result LockError (Option ResourceLock)).
        apply_all (map (λ n. acquire_call n q) nows) r.0)
      (refused n q t writes blocked)
    ∙ repeated nows q t writes blocked

-- An expired lock blocks for good: where a row of another owner is still marked active and its type excludes the
-- requested one, a request that is no shared read is refused at any time, also after the row's time is
-- over, and however often it is repeated it changes nothing: the check comes before the expired rows are
-- reaped, and its refusal rolls the reaping back.
pub expired_still_blocks :
    (now : ℕ) (nows : List ℕ) (q : LockRequest) (t : Table) (p : String) (m : ResourceLock)
    → is_read_shared q.lock_type ≡ false
    → get_lock q.lock_key p t ≡ some m
    → p ≢ q.owner
    → is_active m.status ≡ true
    → incompatible q.lock_type m.lock_type ≡ true
    → (apply_all (map (λ n. acquire_call n q) nows) t ≡ t)
      × (acquire now q t ≡ (t, err lock_conflict))
unfolding get_lock
expired_still_blocks now nows q t p m writes found differ a c =
    let blocked = blocking q.lock_type q.owner (owners t q.lock_key) p m found differ a c in
    (repeated nows q t writes blocked, refused now q t writes blocked)

release_found :
    (now : ℕ) (k o : String) (t : Table) (l : ResourceLock)
    → get_lock k o t ≡ some l
    → release now k o t
      ≡ (put_lock k o (record l { status = released; renewed_at = now }) t, some l)
unfolding release
release_found now k o t l found = rw found refl

-- A release frees the lock and reports it as it was: where the owner has a row, the row is then marked released
-- and every other row is as before, while the answer is the row from before the release, so that of an
-- active lock still says that it is active; where the owner has none, the answer is none and nothing changes.
pub release_reports_before :
    (now : ℕ) (k o : String) (t : Table)
    → ((get_lock k o t ≡ none) → release now k o t ≡ (t, none))
      × ((l : ResourceLock)
          → get_lock k o t ≡ some l
          → ((release now k o t).1 ≡ some l)
            × ((j p : String)
                → get_lock j p (release now k o t).0 ≡ (
                    if str_eq k j && str_eq o p
                    then some (record l { status = released; renewed_at = now })
                    else get_lock j p t)))
unfolding release
release_reports_before now k o t = (
  λ missing. rw missing refl,
  λ l found.
      let e = release_found now k o t l found in
      (
        ap (λ (r : Table × Option ResourceLock). r.1) e,
        λ j p.
            ap (λ (r : Table × Option ResourceLock). get_lock j p r.0) e
            ∙ get_lock-put k o j p (record l { status = released; renewed_at = now }) t,
      ),
)
