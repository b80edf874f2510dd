-- ===== src/Resolver/Graph.antt =====
-- `_has_cycle` and `_depth` of src/hermes_mcp_bridge/v2/resolver.py. A call either answers from its table or
-- enters a node that the path holds no more than once, so a level more than there are nodes is enough fuel.
pub mod Answers
use hermes_mcp_bridge.Base.Dict
use hermes_mcp_bridge.Base.{
  Bool, List, Option, String, [], false, if◌then◌else◌, is_some, length, map, max, maybe, member,
  none, some, suc, true, zero, ℕ, ◌+◌, ◌∷◌,
}
use hermes_mcp_bridge.Base.Dict.{Dict, get, set}

-- operation_ref and depends_on of each operation
abbrev pub Graph : Type 0
Graph = Dict (List String)

abbrev pub keys : Graph → List String
keys g = map (λ (e : String × List String). e.0) g

abbrev pub parents : Graph → String → List String
parents g n = maybe (Dict.get g n) [] (λ ps. ps)

-- The marks 0, 1 and 2.
pub data Mark : Type 0 where
  unseen on_path finished : Mark

abbrev pub Marks : Type 0
Marks = Dict Mark

abbrev pub mark_of : Marks → String → Mark
mark_of state n = maybe (Dict.get state n) unseen (λ m. m)

-- What is done at each mark.
abbrev pub by_mark {ℓ} : {A : Type ℓ} → Mark → A → A → A → A
by_mark unseen a b c = a
by_mark on_path a b c = b
by_mark finished a b c = c

-- `any` over the nodes that the graph has
unfoldable pub visit_any :
    (String → Marks → Option (Bool × Marks)) → Graph → List String → Marks → Option (Bool × Marks)
visit_any visit g [] state = some (false, state)
visit_any visit g (p ∷ ps) state =
    let rest = visit_any visit g ps in
    if is_some (Dict.get g p)
    then maybe (visit p state) none (λ r. if r.0 then some (true, r.1) else rest r.1)
    else rest state

unfoldable pub visit : ℕ → Graph → String → Marks → Option (Bool × Marks)
visit zero g n state = none
visit (suc fuel) g n state =
    let deeper = visit_any (visit fuel g) g (parents g n) (Dict.set state n on_path) in
    by_mark (mark_of state n)
      (maybe deeper none (λ r. some (r.0, if r.0 then r.1 else Dict.set r.1 n finished)))
      (some (true, state)) (some (false, state))

unfoldable pub has_cycle : Graph → Option Bool
has_cycle g = maybe (visit_any (visit (suc (length g)) g) g (keys g) []) none (λ r. some r.0)

-- `max` over the nodes that the graph has, 0 where there are none
unfoldable pub depth_max :
    (String → Dict ℕ → Option (ℕ × Dict ℕ)) → Graph → List String → Dict ℕ → Option (ℕ × Dict ℕ)
depth_max deep g [] memo = some (0, memo)
depth_max deep g (p ∷ ps) memo =
    let rest = depth_max deep g ps in
    if is_some (Dict.get g p)
    then maybe (deep p memo) none (λ r. maybe (rest r.1) none (λ q. some (max r.0 q.0, q.1)))
    else rest memo

unfoldable pub depth_from : ℕ → Graph → List String → String → Dict ℕ → Option (ℕ × Dict ℕ)
depth_from zero g seen n memo = none
depth_from (suc fuel) g seen n memo =
    let deep = depth_max (depth_from fuel g (n ∷ seen)) g (parents g n) memo in
    if member n seen
    then some (0, memo)
    else maybe (Dict.get memo n) (maybe deep none (λ r. some (1 + r.0, Dict.set r.1 n (1 + r.0))))
        (λ d. some (d, memo))

unfoldable pub depth : Graph → Option ℕ
depth g = maybe (depth_max (depth_from (suc (length g)) g []) g (keys g) []) none (λ r. some r.0)
