-- ===== src/Base/Dict.antt =====
-- Python's `dict` with text keys, as an association list in insertion order: an assignment to a
-- key that is there keeps its place, a new key goes to the end.
pub mod Ascending
use mathlib.Core.Path.{◌≡◌, refl, subst, ap, sym, ◌∙◌}
use mathlib.Core.Logic.{◌≢◌, ◌⊎◌, inl, inr}
use mathlib.Core.Option.{Option, none, some}
use mathlib.Core.List.{List, [], ◌∷◌}
use Prim.Native.String.{String}
use native.Mathlib.Omega.{arith}
use text.Mathlib.Text.{◌==◌}
use text.Mathlib.TextEquality.{eq_iff}
use hermes_mcp_bridge.Base.Tests.{Bool-cases, if◌then◌else◌}
use hermes_mcp_bridge.Base.Counts.{text_le}

abbrev pub Dict {ℓ} : Type ℓ → Type ℓ
Dict V = List (String × V)

module _ {ℓ} {V : Type ℓ} where
  -- d.get(k)
  unfoldable pub get : Dict V → String → Option V
  get [] k = none
  get ((j, v) ∷ m) k = if j == k then some v else get m k

  -- d[k] = v
  unfoldable pub set : Dict V → String → V → Dict V
  set [] k v = (k, v) ∷ []
  set ((j, w) ∷ m) k v = if j == k then (k, v) ∷ m else (j, w) ∷ set m k v

  -- d.pop(k, None)
  unfoldable pub pop : Dict V → String → Dict V
  pop [] k = []
  pop ((j, v) ∷ m) k = let rest = pop m k in if j == k then rest else (j, v) ∷ rest

  pub get-set :
      (d : Dict V) (k j : String) (v : V) → get (set d k v) j ≡ (if k == j then some v else get d j)
  unfolding get set
  get-set [] k j v = refl
  get-set ((i, w) ∷ d) k j v = ground (arith, eq_iff k j, eq_iff i k, eq_iff i j, get-set d k j v)

  pub get-pop : (d : Dict V) (k j : String) → get (pop d k) j ≡ (if k == j then none else get d j)
  unfolding get pop
  get-pop [] k j = ground arith
  get-pop ((i, w) ∷ d) k j = ground (arith, get-pop d k j, eq_iff i k, eq_iff i j, eq_iff k j)

module _ {ℓ} {V : Type ℓ} (d : Dict V) (k : String) where
  pub get-set_self : (v : V) → get (set d k v) k ≡ some v
  get-set_self v = get-set d k k v ∙ ground (arith, eq_iff k k)

  pub get-set_ne : (j : String) (v : V) → k ≢ j → get (set d k v) j ≡ get d j
  get-set_ne j v h = get-set d k j v ∙ ground (arith, eq_iff k j)

  pub get-pop_ne : (j : String) → k ≢ j → get (pop d k) j ≡ get d j
  get-pop_ne j h = get-pop d k j ∙ ground (arith, eq_iff k j)

  -- What is found after an assignment is either the new value or an old one.
  pub get-set_cases :
      (j : String) (v w : V)
      → get (set d k v) j ≡ some w
      → (k ≡ j) × (v ≡ w) ⊎ (k ≢ j) × (get d j ≡ some w)
  get-set_cases j v w h = ground (arith, get-set d k j v, eq_iff k j)

  pub get-pop_cases : (j : String) (w : V) → get (pop d k) j ≡ some w → (k ≢ j) × (get d j ≡ some w)
  get-pop_cases j w h = ground (arith, get-pop d k j, eq_iff k j)

-- No key stands twice.
abbrev pub IsUnique {ℓ} : {V : Type ℓ} → Dict V → Type ℓ
IsUnique [] = Unit
IsUnique ((k, v) ∷ m) = (get m k ≡ none) × IsUnique m

abbrev pub AllItems {ℓ κ} : {V : Type ℓ} → (String → V → Type κ) → Dict V → Type κ
AllItems P [] = Unit
AllItems P ((k, v) ∷ m) = P k v × AllItems P m

module _ {ℓ} {V : Type ℓ} where
  pub set-IsUnique : (d : Dict V) (k : String) (v : V) → IsUnique d → IsUnique (set d k v)
  unfolding set
  set-IsUnique [] k v u = (unfold get in refl, u)
  set-IsUnique ((j, w) ∷ m) k v u = elim (Bool-cases (j == k)) [
    | inl same ↦ rw same (rw ((eq_iff j k).0 same) at u.0, u.1)
    | inr differ ↦ rw differ (
      get-set_ne m k j v (λ e. cc (differ, (eq_iff j k).1 (sym e))) ∙ u.0,
      set-IsUnique m k v u.1,
    )
  ]

  pub pop-IsUnique : (d : Dict V) (k : String) → IsUnique d → IsUnique (pop d k)
  unfolding pop
  pop-IsUnique [] k u = u
  pop-IsUnique ((j, w) ∷ m) k u = elim (Bool-cases (j == k)) [
    | inl same ↦ rw same (pop-IsUnique m k u.1)
    | inr differ ↦
        rw differ
          (get-pop_ne m k j (λ e. cc (differ, (eq_iff j k).1 (sym e))) ∙ u.0, pop-IsUnique m k u.1)
  ]

  AllItems-map {κ μ} :
      {P : String → V → Type κ} {Q : String → V → Type μ} (d : Dict V)
      → ((k : String) (v : V) → P k v → Q k v)
      → AllItems P d
      → AllItems Q d
  AllItems-map [] f a = tt
  AllItems-map ((k, v) ∷ m) f a = (f k v a.0, AllItems-map m f a.1)

  get-cons_ne : (k j : String) (v : V) (m : Dict V) → k ≢ j → get ((k, v) ∷ m) j ≡ get m j
  unfolding get
  get-cons_ne k j v m h = ground (arith, eq_iff k j)

  -- Every item of a dictionary is what its key finds.
  pub items-get : (d : Dict V) → IsUnique d → AllItems (λ k v. get d k ≡ some v) d
  items-get [] u = tt
  items-get ((k, v) ∷ m) u = (
    unfold get in rw ((eq_iff k k).1 refl),
    AllItems-map m (λ j w e. get-cons_ne k j v m (λ same. cc (u.0, ap (get m) same)) ∙ e)
        (items-get m u.1),
  )

  pub set-AllItems {κ} :
      (P : String → V → Type κ) (d : Dict V) (k : String) (v : V)
      → P k v
      → AllItems P d
      → AllItems P (set d k v)
  unfolding set
  set-AllItems P [] k v p a = (p, tt)
  set-AllItems P ((j, w) ∷ m) k v p a = elim (Bool-cases (j == k)) [
    | inl same ↦ rw same (p, a.1)
    | inr differ ↦ rw differ (a.0, set-AllItems P m k v p a.1)
  ]

  pub get-AllItems {κ} :
      (P : String → V → Type κ) (d : Dict V) (k : String) (v : V)
      → AllItems P d
      → get d k ≡ some v
      → P k v
  unfolding get
  get-AllItems P [] k v a h = absurd (cc h)
  get-AllItems P ((j, w) ∷ m) k v a h = elim (Bool-cases (j == k)) [
    | inl same ↦
        let found : w ≡ v = ground (arith, h, same) in
        subst (λ i. P i v) ((eq_iff j k).0 same) (subst (P j) found a.0)
    | inr differ ↦ get-AllItems P m k v a.1 (ground (arith, h, differ))
  ]

-- Python's `sorted` on the items, where no key stands twice.
module _ {ℓ} {V : Type ℓ} where
  by_key_insert : String → V → Dict V → Dict V
  by_key_insert k v [] = (k, v) ∷ []
  by_key_insert k v ((j, w) ∷ d) =
      let rest = by_key_insert k v d in if text_le k j then (k, v) ∷ (j, w) ∷ d else (j, w) ∷ rest

  unfoldable pub by_key : Dict V → Dict V
  unfolding by_key_insert
  by_key [] = []
  by_key ((k, v) ∷ d) = by_key_insert k v (by_key d)

  by_key_insert-AllItems {κ} :
      (P : String → V → Type κ) (k : String) (v : V) (d : Dict V)
      → P k v
      → AllItems P d
      → AllItems P (by_key_insert k v d)
  unfolding by_key_insert
  by_key_insert-AllItems P k v [] p a = (p, tt)
  by_key_insert-AllItems P k v ((j, w) ∷ d) p a = elim (Bool-cases (text_le k j)) [
    | inl before ↦ rw before (p, a)
    | inr after ↦ rw after (a.0, by_key_insert-AllItems P k v d p a.1)
  ]

  pub by_key-AllItems {κ} :
      (P : String → V → Type κ) (d : Dict V) → AllItems P d → AllItems P (by_key d)
  unfolding by_key
  by_key-AllItems P [] a = tt
  by_key-AllItems P ((k, v) ∷ d) a =
      by_key_insert-AllItems P k v (by_key d) a.0 (by_key-AllItems P d a.1)

  get-by_key_insert :
      (k : String) (v : V) (d : Dict V) (i : String)
      → get d k ≡ none
      → get (by_key_insert k v d) i ≡ (if k == i then some v else get d i)
  unfolding get by_key_insert
  get-by_key_insert k v [] i h = refl
  get-by_key_insert k v ((j, w) ∷ d) i h = elim (Bool-cases (text_le k j)) [
    | inl before ↦ rw before refl
    | inr after ↦
        rw after (ground (arith, h, get-by_key_insert k v d i, eq_iff j k, eq_iff k i, eq_iff j i))
  ]

  -- Sorting the items of a dictionary changes no look-up.
  pub get-by_key : (d : Dict V) (i : String) → IsUnique d → get (by_key d) i ≡ get d i
  unfolding get by_key
  get-by_key [] i u = refl
  get-by_key ((k, v) ∷ d) i u =
      get-by_key_insert k v (by_key d) i (get-by_key d k u.1 ∙ u.0)
      ∙ ap (λ o. if k == i then some v else o) (get-by_key d i u.1)

  not_first :
      (k j : String) (w : V) (d : Dict V) → get ((j, w) ∷ d) k ≡ none → (k ≢ j) × (get d k ≡ none)
  unfolding get
  not_first k j w d h = ground (arith, h, eq_iff j k)

  by_key_insert-IsUnique :
      (k : String) (v : V) (d : Dict V)
      → get d k ≡ none
      → IsUnique d
      → IsUnique (by_key_insert k v d)
  unfolding by_key_insert
  by_key_insert-IsUnique k v [] h u = (unfold get in refl, tt)
  by_key_insert-IsUnique k v ((j, w) ∷ d) h u = elim (Bool-cases (text_le k j)) [
    | inl before ↦ rw before (h, u)
    | inr after ↦
        let (distinct, absent) = not_first k j w d h in
        rw after (
          get-by_key_insert k v d j absent ∙ ground (arith, u.0, distinct, eq_iff k j),
          by_key_insert-IsUnique k v d absent u.1,
        )
  ]

  pub by_key-IsUnique : (d : Dict V) → IsUnique d → IsUnique (by_key d)
  unfolding by_key
  by_key-IsUnique [] u = u
  by_key-IsUnique ((k, v) ∷ d) u =
      by_key_insert-IsUnique k v (by_key d) (get-by_key d k u.1 ∙ u.0) (by_key-IsUnique d u.1)

pub ruleset dict_laws = (get-set, get-pop)
