-- ===== src/Base/Dict/Ascending.antt =====
-- Python's `sorted` on the items of a dictionary, a second time.
use Prim.Native.Nat.compare as compare_ℕ
use Prim.Native.Nat.{ℕ, zero, suc, Ordering, compare as compare_ℕ}
use Prim.Native.Char.{code}
use Prim.Native.String.compare
use Prim.Native.String.{String, [], ◌∷◌, compare, then as and_then}
use mathlib.Core.Path.{◌≡◌, refl, ap, sym, ◌∙◌}
use mathlib.Core.Logic.{inl, inr}
use mathlib.Core.Bool.{Bool, true, false}
use mathlib.Core.List.{[] as nil, ◌∷◌ as ◌::◌}
use native.Mathlib.Omega.{arith}
use hermes_mcp_bridge.Base.Tests.{Bool-cases}
use hermes_mcp_bridge.Base.Counts.{text_le}
use hermes_mcp_bridge.Base.Dict.{Dict, by_key, by_key_insert}

abbrev flip : Ordering → Ordering
flip Ordering.lt = Ordering.gt
flip Ordering.eq = Ordering.eq
flip Ordering.gt = Ordering.lt

flip-compare_ℕ : (m n : ℕ) → compare_ℕ n m ≡ flip (compare_ℕ m n)
flip-compare_ℕ zero zero = compare_ℕ.zero-zero ∙ sym (ap flip compare_ℕ.zero-zero)
flip-compare_ℕ zero (suc n) = compare_ℕ.suc-zero n ∙ sym (ap flip (compare_ℕ.zero-suc n))
flip-compare_ℕ (suc m) zero = compare_ℕ.zero-suc m ∙ sym (ap flip (compare_ℕ.suc-zero m))
flip-compare_ℕ (suc m) (suc n) =
    compare_ℕ.suc-suc n m ∙ flip-compare_ℕ m n ∙ sym (ap flip (compare_ℕ.suc-suc m n))

flip-and_then : (a b : Ordering) → flip (and_then a b) ≡ and_then (flip a) (flip b)
flip-and_then Ordering.lt b = refl
flip-and_then Ordering.eq b = refl
flip-and_then Ordering.gt b = refl

flip-compare : (s t : String) → compare t s ≡ flip (compare s t)
flip-compare [] [] = compare.nil-nil ∙ sym (ap flip compare.nil-nil)
flip-compare [] (d ∷ t) = compare.cons-nil d t ∙ sym (ap flip (compare.nil-cons d t))
flip-compare (c ∷ s) [] = compare.nil-cons c s ∙ sym (ap flip (compare.cons-nil c s))
flip-compare (c ∷ s) (d ∷ t) =
    compare.cons-cons d c t s
    ∙ ap (λ o. and_then o (compare t s)) (flip-compare_ℕ (code c) (code d))
    ∙ ap (and_then (flip (compare_ℕ (code c) (code d)))) (flip-compare s t)
    ∙ sym (flip-and_then (compare_ℕ (code c) (code d)) (compare s t))
    ∙ sym (ap flip (compare.cons-cons c d s t))

abbrev no_gt : Ordering → Bool
no_gt Ordering.lt = true
no_gt Ordering.eq = true
no_gt Ordering.gt = false

no_gt-flip : (o : Ordering) → no_gt o ≡ false → no_gt (flip o) ≡ true
no_gt-flip Ordering.lt h = absurd (cc h)
no_gt-flip Ordering.eq h = refl
no_gt-flip Ordering.gt h = refl

of_compare : (a b : String) → text_le a b ≡ no_gt (compare a b)
of_compare a b = ground arith

text_le_total : (a b : String) → text_le a b ≡ false → text_le b a ≡ true
text_le_total a b h =
    of_compare b a
    ∙ ap no_gt (flip-compare a b)
    ∙ no_gt-flip (compare a b) (sym (of_compare a b) ∙ h)

module _ {ℓ} {V : Type ℓ} where
  abbrev IsFirst : String → Dict V → Type 0
  IsFirst k nil = Unit {0}
  IsFirst k ((j, w) :: d) = text_le k j ≡ true

  abbrev IsAscending : Dict V → Type 0
  IsAscending nil = Unit {0}
  IsAscending ((k, v) :: d) = IsFirst k d × IsAscending d

  insert-IsFirst :
      (i k : String) (v : V) (d : Dict V)
      → text_le i k ≡ true
      → IsFirst i d
      → IsFirst i (by_key_insert k v d)
  unfolding by_key_insert
  insert-IsFirst i k v nil le h = le
  insert-IsFirst i k v ((j, w) :: d) le h = elim (Bool-cases (text_le k j)) [
    | inl before ↦ rw before le
    | inr after ↦ rw after h
  ]

  insert-IsAscending :
      (k : String) (v : V) (d : Dict V) → IsAscending d → IsAscending (by_key_insert k v d)
  unfolding by_key_insert
  insert-IsAscending k v nil a = (tt, tt)
  insert-IsAscending k v ((j, w) :: d) a = elim (Bool-cases (text_le k j)) [
    | inl before ↦ rw before (before, a)
    | inr after ↦
        rw after
          (insert-IsFirst j k v d (text_le_total k j after) a.0, insert-IsAscending k v d a.1)
  ]

  by_key-IsAscending : (d : Dict V) → IsAscending (by_key d)
  unfolding by_key
  by_key-IsAscending nil = tt
  by_key-IsAscending ((k, v) :: d) = insert-IsAscending k v (by_key d) (by_key-IsAscending d)

  insert_first : (k : String) (v : V) (d : Dict V) → IsFirst k d → by_key_insert k v d ≡ (k, v) :: d
  unfolding by_key_insert
  insert_first k v nil h = refl
  insert_first k v ((j, w) :: d) h = rw h refl

  by_key_lem : (d : Dict V) → IsAscending d → by_key d ≡ d
  unfolding by_key
  by_key_lem nil a = refl
  by_key_lem ((k, v) :: d) a = ap (by_key_insert k v) (by_key_lem d a.1) ∙ insert_first k v d a.0

  -- What is sorted stays as it is.
  pub by_key-by_key : (d : Dict V) → by_key (by_key d) ≡ by_key d
  by_key-by_key d = by_key_lem (by_key d) (by_key-IsAscending d)
