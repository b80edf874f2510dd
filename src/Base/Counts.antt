-- ===== src/Base/Counts.antt =====
-- Texts in lists: whether one is there and how often, which forgets their order, and Python's `sorted`.
use Prim.Native.Nat.{ℕ, suc, ◌+◌, ◌≤◌, Ordering}
use Prim.Native.String.{String, compare, ◌++◌ as ◌<>◌}
use mathlib.Core.Path.{◌≡◌, refl}
use mathlib.Core.Bool.{not, ◌&&◌, Bool, true, false}
use mathlib.Core.List.{List, [], ◌∷◌, ◌++◌}
use native.Mathlib.Omega.{arith}
use text.Mathlib.TextEquality.{eq_iff}
use hermes_mcp_bridge.Base.Tests.{str_eq, leb, if◌then◌else◌}
use hermes_mcp_bridge.Base.Lists.{length, All}
use hermes_mcp_bridge.Base.Text.{any_of}

-- `x in xs`
abbrev pub member : String → List String → Bool
member x xs = any_of (str_eq x) xs

abbrev pub one_if : Bool → ℕ
one_if true = 1
one_if false = 0

abbrev pub count : String → List String → ℕ
count a [] = 0
count a (x ∷ xs) = one_if (str_eq a x) + count a xs

abbrev pub text_le : String → String → Bool
text_le a b = elim (compare a b) [ Ordering.gt ↦ false | _ ↦ true ]

insert : String → List String → List String
insert a [] = a ∷ []
insert a (x ∷ xs) = let rest = insert a xs in if text_le a x then a ∷ x ∷ xs else x ∷ rest

unfoldable pub sorted : List String → List String
unfolding insert
sorted [] = []
sorted (x ∷ xs) = insert x (sorted xs)

-- The elements of `is` that are not in `out`.
abbrev pub without : List String → List String → List String
without out [] = []
without out (i ∷ is) = let rest = without out is in if member i out then rest else i ∷ rest

pub member-without :
    (i : String) (out is : List String)
    → member i (without out is) ≡ (member i is && not (member i out))
member-without i out [] = refl
member-without i out (j ∷ is) = ground (arith, member-without i out is, eq_iff i j)

-- ",".join(xs)
abbrev pub join : List String → String
join [] = ""
join (x ∷ []) = x
join (x ∷ y ∷ ys) = x <> ("," <> join (y ∷ ys))

pub count-append : (a : String) (xs ys : List String) → count a (xs ++ ys) ≡ count a xs + count a ys
count-append a [] ys = omega arith
count-append a (x ∷ xs) ys = omega (arith, count-append a xs ys)

pub member-count : (a : String) (xs : List String) → member a xs ≡ leb 1 (count a xs)
member-count a [] = refl
member-count a (x ∷ xs) = ground (arith, member-count a xs)

count-insert :
    (a x : String) (xs : List String) → count a (insert x xs) ≡ one_if (str_eq a x) + count a xs
unfolding insert
count-insert a x [] = refl
count-insert a x (y ∷ ys) = ground (arith, count-insert a x ys)

pub count-sorted : (a : String) (xs : List String) → count a (sorted xs) ≡ count a xs
unfolding sorted
count-sorted a [] = refl
count-sorted a (x ∷ xs) = omega (arith, count-insert a x (sorted xs), count-sorted a xs)

-- The list without the first that is there.
remove : String → List String → List String
remove a [] = []
remove a (x ∷ xs) = let rest = remove a xs in if str_eq a x then xs else x ∷ rest

count-remove :
    (a b : String) (xs : List String)
    → 1 ≤ count b xs
    → count a (remove b xs) + one_if (str_eq a b) ≡ count a xs
unfolding remove
count-remove a b [] h = absurd (omega arith)
count-remove a b (x ∷ xs) h =
    ground (arith, count-remove a b xs, eq_iff a b, eq_iff b x, eq_iff a x)

length-remove :
    (b : String) (xs : List String) → 1 ≤ count b xs → suc (length (remove b xs)) ≡ length xs
unfolding remove
length-remove b [] h = absurd (omega arith)
length-remove b (x ∷ xs) h = ground (arith, length-remove b xs)

pub count_self : (x : String) (xs : List String) → 1 ≤ count x (x ∷ xs)
count_self x xs = ground (arith, eq_iff x x)

-- Where nothing is more often, the list is no longer.
pub length-le_of_count :
    (xs ys : List String) → ((a : String) → count a xs ≤ count a ys) → length xs ≤ length ys
length-le_of_count [] ys h = omega arith
length-le_of_count (x ∷ xs) ys h =
    let there : 1 ≤ count x ys = omega (arith, h x, count_self x xs) in
    omega (
      arith,
      length-remove x ys there,
      length-le_of_count xs (remove x ys) (λ a. omega (arith, h a, count-remove a x ys there)),
    )

-- And where it is as long, everything is as often.
pub count-eq_of_length :
    (xs ys : List String)
    → ((a : String) → count a xs ≤ count a ys)
    → length ys ≤ length xs
    → (a : String) → count a xs ≡ count a ys
count-eq_of_length [] [] h l a = refl
count-eq_of_length [] (y ∷ ys) h l a = absurd (omega arith)
count-eq_of_length (x ∷ xs) ys h l a =
    let there : 1 ≤ count x ys = omega (arith, h x, count_self x xs) in
    omega (
      arith,
      count-remove a x ys there,
      count-eq_of_length xs (remove x ys) (λ b. omega (arith, h b, count-remove b x ys there))
          (omega (arith, length-remove x ys there)) a,
    )

pub nil_of_count : (xs : List String) → ((a : String) → count a xs ≡ 0) → xs ≡ []
nil_of_count [] h = refl
nil_of_count (x ∷ xs) h = absurd (omega (arith, h x, count_self x xs))

pub All-members {κ} :
    {P : String → Type κ} (xs : List String) → ((i : String) → member i xs ≡ true → P i) → All P xs
All-members [] h = tt
All-members (x ∷ xs) h =
    (h x (ground (arith, eq_iff x x)), All-members xs (λ i m. h i (ground (arith, m))))
