-- ===== src/Locks/Lookup.antt =====
-- What is found in the table after a row is put or the expired rows are reaped.
use hermes_mcp_bridge.Base.Dict
use mathlib.Core.Path.{subst}
use mathlib.Core.Option.{some-injective}
use hermes_mcp_bridge.Base.{
  ◌⊎◌, if_ind, ◌∙◌, sym, some, Bool-cases, Option-cases, String, [], ap, arith, eq_iff,
  if◌then◌else◌, inl, inr, maybe, none, refl, some, str_eq, true, ℕ, ◌&&◌, ◌∙◌, ◌∷◌, ◌≡◌,
}
use hermes_mcp_bridge.Base.Dict.{Dict, get, get-set, set}
use hermes_mcp_bridge.Locks.{
  owners, ResourceLock, Table, get_lock, is_active, map_values, owners, put_lock, reap,
  reap_expired,
}

get-map_values :
    {A : Type 0} (f : A → A) (d : Dict A) (k : String)
    → Dict.get (map_values f d) k ≡ maybe (Dict.get d k) none (λ a. some (f a))
unfolding Dict.get
get-map_values f [] k = refl
get-map_values f ((j, a) ∷ d) k = elim (Bool-cases (str_eq j k)) [
  | inl same ↦ rw same refl
  | inr other ↦ rw other (get-map_values f d k)
]

pub get_lock-reap :
    (now : ℕ) (t : Table) (k o : String)
    → get_lock k o (reap_expired now t) ≡ maybe (get_lock k o t) none (λ l. some (reap now l))
unfolding get_lock reap_expired
get_lock-reap now t k o = elim (Option-cases (Dict.get t k)) [
  | inl missing ↦ rw (get-map_values (map_values (reap now)) t k, missing) (unfold Dict.get in refl)
  | inr (d, found) ↦
      rw (get-map_values (map_values (reap now)) t k, found) (get-map_values (reap now) d o)
]

pub get_lock-put :
    (k o j p : String) (l : ResourceLock) (t : Table)
    → get_lock j p (put_lock k o l t)
      ≡ (if str_eq k j && str_eq o p then some l else get_lock j p t)
unfolding get_lock
get_lock-put k o j p l t = elim (Bool-cases (str_eq k j)) [
  | inl same ↦
      rw (get-set t k j (Dict.set (owners t k) o l), same)
        (get-set (owners t k) o p l
          ∙ ap (λ i. if str_eq o p then some l else Dict.get (owners t i) p) ((eq_iff k j).0 same))
  | inr other ↦ rw (get-set t k j (Dict.set (owners t k) o l), other) refl
]

reap-active : (now : ℕ) (l : ResourceLock) → is_active (reap now l).status ≡ true → reap now l ≡ l
reap-active now l h = ground (arith, h)

-- What is found active after a reap was there before.
pub reaped :
    (now : ℕ) (t : Table) (k o : String) (l : ResourceLock)
    → get_lock k o (reap_expired now t) ≡ some l
    → is_active l.status ≡ true
    → get_lock k o t ≡ some l
reaped now t k o l found a = elim (Option-cases (get_lock k o t)) [
  | inl missing ↦ absurd (cc (get_lock-reap now t k o, missing, found))
  | inr (m, there) ↦
      let e : reap now m ≡ l = some-injective _ _ (
        ap (λ x. maybe x none (λ z. some (reap now z))) (sym there)
        ∙ sym (get_lock-reap now t k o)
        ∙ found) in
      there
      ∙ ap some (
          sym
            (reap-active now m (subst (λ (z : ResourceLock). is_active z.status ≡ true) (sym e) a))
          ∙ e)
]

pub put_cases :
    (k o j p : String) (l x : ResourceLock) (t : Table)
    → get_lock j p (put_lock k o l t) ≡ some x
    → (k ≡ j) × (o ≡ p) × (l ≡ x) ⊎ (get_lock j p t ≡ some x)
put_cases k o j p l x t h =
    if_ind (λ v. v ≡ some x → (k ≡ j) × (o ≡ p) × (l ≡ x) ⊎ (get_lock j p t ≡ some x))
      (str_eq k j && str_eq o p)
      (λ here e. inl (
        (eq_iff k j).0 (ground (arith, here)),
        (eq_iff o p).0 (ground (arith, here)),
        some-injective _ _ e,
      ))
      (λ there e. inr e) (sym (get_lock-put k o j p l t) ∙ h)
