-- ===== src/Locks/Writers.antt =====
-- Which locks can stand together on one key.
use hermes_mcp_bridge.Base.Dict
use mathlib.Core.Path.{subst}
use mathlib.Core.Option.{some-injective}
use hermes_mcp_bridge.Base.{
  Option, ok, Result, and_then_ind, maybe_ind, List, ◌∙◌, sym, some, Bool, Bool-cases, String, [],
  ap, arith, eq_iff, false, inl, inr, some, str_eq, true, ℕ, ◌&&◌, ◌∙◌, ◌∷◌, ◌≡◌, ◌≢◌,
}
use hermes_mcp_bridge.Base.Dict.{Dict, get, get-set, set}
use hermes_mcp_bridge.Locks.{
  LockRequest, LockError, enforce_compatibility, acquire, release, new_row, apply_all, apply, Call,
  acquire_call, release_call, is_read_shared, owners, LockType, ResourceLock, Table, get_lock,
  incompatible, is_active, is_blocked, owners, put_lock, reap_expired,
}
use hermes_mcp_bridge.Locks.Lookup.{reaped, put_cases}

-- Two types that exclude each other in both directions: one writes, and the other is no mere reader.
abbrev pub conflicts : LockType → LockType → Bool
conflicts a b = incompatible a b && incompatible b a

conflicts_comm : (a b : LockType) → conflicts a b ≡ false → conflicts b a ≡ false
conflicts_comm a b h = ground (arith, h)

-- No two active locks of different owners on one key conflict.
abbrev pub IsExclusive : Table → Type 0
IsExclusive t =
    (k o p : String) (l m : ResourceLock)
    → get_lock k o t ≡ some l
    → get_lock k p t ≡ some m
    → o ≢ p
    → is_active l.status ≡ true
    → is_active m.status ≡ true
    → conflicts l.lock_type m.lock_type ≡ false

blocked_by :
    (t : LockType) (owner : String) (d : Dict ResourceLock) (o : String) (l : ResourceLock)
    → is_blocked t owner d ≡ false
    → Dict.get d o ≡ some l
    → o ≢ owner
    → is_active l.status ≡ true
    → incompatible t l.lock_type ≡ false
unfolding is_blocked Dict.get
blocked_by t owner [] o l h found differ a = absurd (cc found)
blocked_by t owner ((i, m) ∷ d) o l h found differ a = elim (Bool-cases (str_eq i o)) [
  | inl same ↦
      let e : m ≡ l = some-injective _ _ (cc (found, same)) in
      let standing : is_active m.status ≡ true =
        subst (λ (z : ResourceLock). is_active z.status ≡ true) (sym e) a in
      let foreign : str_eq i owner ≡ false =
        ground (arith, eq_iff i owner, eq_iff i o, same, differ) in
      subst (λ (z : ResourceLock). incompatible t z.lock_type ≡ false) e
        (ground (arith, h, standing, foreign))
  | inr other ↦ blocked_by t owner d o l (ground (arith, h)) (ground (arith, found, other)) differ a
]

reap_expired-IsExclusive : (now : ℕ) (t : Table) → IsExclusive t → IsExclusive (reap_expired now t)
reap_expired-IsExclusive now t h k o p l m fl fm differ al am =
    h k o p l m (reaped now t k o l fl al) (reaped now t k p m fm am) differ al am

-- A row that is put under a key and owner, of a type that conflicts with no active row of another owner.
put_lock-IsExclusive :
    (k o : String) (l : ResourceLock) (t : Table)
    → IsExclusive t
    → (is_active l.status ≡ true
        → (p : String) (m : ResourceLock) → get_lock k p t ≡ some m
        → p ≢ o
        → is_active m.status ≡ true
        → conflicts l.lock_type m.lock_type ≡ false)
    → IsExclusive (put_lock k o l t)
put_lock-IsExclusive k o l t h fits j a b x y fx fy differ ax ay =
    elim (put_cases k o j a l x t fx) [
      | inl (same_key, is_a, is_x) ↦ elim (put_cases k o j b l y t fy) [
        | inl (_, is_b, is_y) ↦ absurd (differ (sym is_a ∙ is_b))
        | inr old ↦
            subst (λ (z : ResourceLock). conflicts z.lock_type y.lock_type ≡ false) is_x
              (fits (subst (λ (z : ResourceLock). is_active z.status ≡ true) (sym is_x) ax) b y
                (subst (λ i. get_lock i b t ≡ some y) (sym same_key) old)
                (λ e. differ (sym is_a ∙ sym e)) ay)
      ]
      | inr old ↦ elim (put_cases k o j b l y t fy) [
        | inl (same_key, is_b, is_y) ↦ conflicts_comm y.lock_type x.lock_type (
            subst (λ (z : ResourceLock). conflicts z.lock_type x.lock_type ≡ false) is_y
              (fits (subst (λ (z : ResourceLock). is_active z.status ≡ true) (sym is_y) ay) a x
                (subst (λ i. get_lock i a t ≡ some x) (sym same_key) old) (λ e. differ (e ∙ is_b))
                ax))
        | inr old' ↦ h j a b x y old old' differ ax ay
      ]
    ]

-- What the check of a request lets through.
enforced :
    (q : LockRequest) (t : Table) (p : String) (m : ResourceLock)
    → enforce_compatibility q t ≡ ok tt
    → get_lock q.lock_key p t ≡ some m
    → p ≢ q.owner
    → is_active m.status ≡ true
    → conflicts q.lock_type m.lock_type ≡ false
unfolding enforce_compatibility get_lock
enforced q t p m h found differ a = elim (Bool-cases (is_read_shared q.lock_type)) [
  | inl reader ↦ ground (arith, reader)
  | inr other ↦
      let clear : is_blocked q.lock_type q.owner (owners t q.lock_key) ≡ false =
        ground (arith, h, other) in
      let fits = blocked_by q.lock_type q.owner (owners t q.lock_key) p m clear found differ a in
      ground (arith, fits)
]

acquire-IsExclusive :
    (now : ℕ) (q : LockRequest) (t : Table) → IsExclusive t → IsExclusive (acquire now q t).0
unfolding acquire new_row
acquire-IsExclusive now q t h =
    and_then_ind (λ (r : Table × Result LockError (Option ResourceLock)). IsExclusive r.0)
      (t, enforce_compatibility q t)
      (λ s a e.
        let same = ap (λ (r : Table × Result LockError (Unit {0})). r.0) e in
        subst
          (λ u. IsExclusive (
            put_lock q.lock_key q.owner
              (new_row now q (get_lock q.lock_key q.owner (reap_expired now u)))
              (reap_expired now u)))
          same
          (put_lock-IsExclusive q.lock_key q.owner _ (reap_expired now t)
            (reap_expired-IsExclusive now t h)
            (λ _ p m found differ active_m.
              enforced q t p m (ap (λ (r : Table × Result LockError (Unit {0})). r.1) e)
                (reaped now t q.lock_key p m found active_m) differ active_m)))
      (λ s x e. subst IsExclusive (ap (λ (r : Table × Result LockError (Unit {0})). r.0) e) h)

release-IsExclusive :
    (now : ℕ) (k o : String) (t : Table) → IsExclusive t → IsExclusive (release now k o t).0
unfolding release
release-IsExclusive now k o t h =
    maybe_ind (λ (r : Table × Option ResourceLock). IsExclusive r.0) (get_lock k o t) (λ _. h)
      (λ l found. put_lock-IsExclusive k o _ t h (λ a. absurd (cc a)))

apply_all-IsExclusive : (cs : List Call) (t : Table) → IsExclusive t → IsExclusive (apply_all cs t)
unfolding apply_all apply
apply_all-IsExclusive [] t h = h
apply_all-IsExclusive (acquire_call now q ∷ cs) t h =
    apply_all-IsExclusive cs _ (acquire-IsExclusive now q t h)
apply_all-IsExclusive (release_call now k o ∷ cs) t h =
    apply_all-IsExclusive cs _ (release-IsExclusive now k o t h)

-- Writers exclude each other: whatever is acquired and released on an empty registry, two active locks of
-- different owners on one key are never a writer and another writer, an intent to write, or a pending
-- approval. A reader beside a writer is not ruled out.
pub calls-IsExclusive : (cs : List Call) → IsExclusive (apply_all cs [])
calls-IsExclusive cs =
    apply_all-IsExclusive cs [] (λ k o p l m fl. absurd (unfold get_lock Dict.get in cc fl))
