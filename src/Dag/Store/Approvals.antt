-- ===== src/Dag/Store/Approvals.antt =====
-- An approval is consumed once.
use hermes_mcp_bridge.Base.Dict
use hermes_mcp_bridge.Base.{
  none, Option-cases, not, arith, true, maybe, Bool, Bool-cases, List, String, [], ap, eq_iff,
  false, if◌then◌else◌, inl, inr, refl, some, str_eq, suc, ℕ, ◌&&◌, ◌∙◌, ◌∷◌, ◌≡◌,
}
use hermes_mcp_bridge.Base.Dict.{Dict, get, get-set, set}
use hermes_mcp_bridge.Dag.Json.{Json}
use hermes_mcp_bridge.Dag.Store.{
  apply_all, lease_call, save_call, create_call, save_row, Checkpoint, grant, create, acquire_lease,
  save, Call, CheckpointStore, apply, approval_holder, consume_approval, consume_call, nonces,
}

holder-set :
    (a nonce e b m : String) (s : CheckpointStore)
    → approval_holder b m
        (record s { approvals = Dict.set s.approvals a (Dict.set (nonces a s) nonce e) })
      ≡ (if str_eq a b && str_eq nonce m then some e else approval_holder b m s)
unfolding approval_holder
holder-set a nonce e b m s = elim (Bool-cases (str_eq a b)) [
  | inl same ↦
      rw (get-set s.approvals a b (Dict.set (nonces a s) nonce e), same)
        (get-set (nonces a s) nonce m e
          ∙ ap (λ k. if str_eq nonce m then some e else Dict.get (nonces k s) m)
              ((eq_iff a b).0 same))
  | inr other ↦ rw (get-set s.approvals a b (Dict.set (nonces a s) nonce e), other) refl
]

consume-taken :
    (a nonce e h : String) (s : CheckpointStore)
    → approval_holder a nonce s ≡ some h
    → consume_approval a nonce e s ≡ (s, false)
unfolding consume_approval
consume-taken a nonce e h s taken = rw taken refl

consume-free :
    (a nonce e : String) (s : CheckpointStore)
    → approval_holder a nonce s ≡ none
    → consume_approval a nonce e s
      ≡ (record s { approvals = Dict.set s.approvals a (Dict.set (nonces a s) nonce e) }, true)
unfolding consume_approval
consume-free a nonce e s free = rw free refl

module _ (lower : String → String) (sha256_hex : Json → String) (a nonce : String) where
  -- Whether the call is a consumption of the approval that succeeds.
  abbrev pub consumes : Call → CheckpointStore → Bool
  consumes (consume_call b m e) s = str_eq b a && str_eq m nonce && (consume_approval b m e s).1
  consumes _ s = false

  abbrev pub consumptions : List Call → CheckpointStore → ℕ
  consumptions [] s = 0
  consumptions (c ∷ cs) s =
      let rest = consumptions cs (apply lower sha256_hex c s) in
      if consumes c s then suc rest else rest

  abbrev pub held : CheckpointStore → Bool
  held s = maybe (approval_holder a nonce s) false (λ h. true)

  -- A call keeps the holder, and it consumes the approval exactly if that becomes held.
  record IsCounted (c : Call) (s : CheckpointStore) : Type 0 where
    pub kept :
        (h : String)
        → approval_holder a nonce s ≡ some h
        → approval_holder a nonce (apply lower sha256_hex c s) ≡ some h
    pub counted : consumes c s ≡ (not (held s) && held (apply lower sha256_hex c s))

  same_approvals :
      (s s' : CheckpointStore)
      → s'.approvals ≡ s.approvals
      → approval_holder a nonce s' ≡ approval_holder a nonce s
  unfolding approval_holder
  same_approvals s s' h = ap (λ d. Dict.get (maybe (Dict.get d a) [] (λ d. d)) nonce) h

  create-approvals :
      (c : Checkpoint) (s : CheckpointStore)
      → (create lower sha256_hex c s).0.approvals ≡ s.approvals
  unfolding create
  create-approvals c s = ground arith

  save-approvals :
      (c : Checkpoint) (f : ℕ) (s : CheckpointStore)
      → (save lower sha256_hex c f s).0.approvals ≡ s.approvals
  unfolding save save_row
  save-approvals c f s = ground arith

  acquire_lease-approvals :
      (e owner : String) (x : ℕ) (s : CheckpointStore)
      → (acquire_lease lower sha256_hex e owner x s).0.approvals ≡ s.approvals
  unfolding acquire_lease grant
  acquire_lease-approvals e owner x s = ground arith

  -- What a call that is no consumption of this approval leaves.
  same_count :
      (c : Call) (s : CheckpointStore)
      → approval_holder a nonce (apply lower sha256_hex c s) ≡ approval_holder a nonce s
      → consumes c s ≡ false
      → IsCounted c s
  same_count c s h n = record { kept = λ x e. h ∙ e; counted = ground (arith, h, n) }

  consume-IsCounted : (b m e : String) (s : CheckpointStore) → IsCounted (consume_call b m e) s
  unfolding apply
  consume-IsCounted b m e s = elim (Option-cases (approval_holder b m s)) [
    | inl free ↦ record {
      kept = λ x h. ground (
        arith,
        h,
        free,
        eq_iff b a,
        eq_iff m nonce,
        holder-set b m e a nonce s,
        consume-free b m e s free,
      );
      counted = ground (
        arith,
        free,
        eq_iff b a,
        eq_iff m nonce,
        holder-set b m e a nonce s,
        consume-free b m e s free,
      );
    }
    | inr (h, taken) ↦
        let same = consume-taken b m e h s taken in
        same_count (consume_call b m e) s
          (unfold apply in ap (λ t. approval_holder a nonce t.0) same)
          (ap (λ t. str_eq b a && str_eq m nonce && t.1) same ∙ ground arith)
  ]

  apply-IsCounted : (c : Call) (s : CheckpointStore) → IsCounted c s
  unfolding apply
  apply-IsCounted (create_call c) s =
      same_count (create_call c) s (same_approvals s _ (create-approvals c s)) refl
  apply-IsCounted (save_call c f) s =
      same_count (save_call c f) s (same_approvals s _ (save-approvals c f s)) refl
  apply-IsCounted (lease_call e owner x) s =
      same_count (lease_call e owner x) s (same_approvals s _ (acquire_lease-approvals e owner x s))
        refl
  apply-IsCounted (consume_call b m e) s = consume-IsCounted b m e s

  apply_all-Holds :
      (h : String) (cs : List Call) (s : CheckpointStore)
      → approval_holder a nonce s ≡ some h
      → approval_holder a nonce (apply_all lower sha256_hex cs s) ≡ some h
  unfolding apply_all
  apply_all-Holds h [] s q = q
  apply_all-Holds h (c ∷ cs) s q =
      apply_all-Holds h cs (apply lower sha256_hex c s) ((apply-IsCounted c s).kept h q)

  apply_all-held :
      (cs : List Call) (s : CheckpointStore)
      → held s ≡ true
      → held (apply_all lower sha256_hex cs s) ≡ true
  apply_all-held cs s q = elim (Option-cases (approval_holder a nonce s)) [
    | inl free ↦ absurd (cc (q, free))
    | inr (h, found) ↦ rw (apply_all-Holds h cs s found) refl
  ]

  counted :
      (cs : List Call) (s : CheckpointStore)
      → consumptions cs s
        ≡ (if not (held s) && held (apply_all lower sha256_hex cs s) then 1 else 0)
  unfolding apply_all
  counted [] s = ground arith
  counted (c ∷ cs) s =
      let s' = apply lower sha256_hex c s in
      let here = (apply-IsCounted c s).counted in
      let there = counted cs s' in
      let lasting = apply_all-held cs s' in
      let first_lasting = apply_all-held (c ∷ []) s in
      ground (arith, here, there, lasting, first_lasting)

  consumed-Held :
      (e : String) (s : CheckpointStore)
      → (consume_approval a nonce e s).1 ≡ true
      → approval_holder a nonce (consume_approval a nonce e s).0 ≡ some e
  consumed-Held e s h = elim (Option-cases (approval_holder a nonce s)) [
    | inl free ↦ ground (
      arith,
      eq_iff a a,
      eq_iff nonce nonce,
      holder-set a nonce e a nonce s,
      consume-free a nonce e s free,
    )
    | inr (x, taken) ↦ absurd (cc (h, ap (λ t. t.1) (consume-taken a nonce e x s taken)))
  ]

  -- Single use: however many executions race for it, an approval with its nonce is consumed once at most: once
  -- if it was free and ends up held, and else never. An execution whose consumption succeeds, behind any calls,
  -- is its holder from then on, over all further calls, and no other one succeeds.
  pub approval_single_use :
      (cs cs' : List Call) (s : CheckpointStore) (e : String)
      → (consumptions cs s
          ≡ (if not (held s) && held (apply_all lower sha256_hex cs s) then 1 else 0))
        × ((consume_approval a nonce e (apply_all lower sha256_hex cs s)).1 ≡ true
            → let after = (consume_approval a nonce e (apply_all lower sha256_hex cs s)).0 in
              (approval_holder a nonce (apply_all lower sha256_hex cs' after) ≡ some e)
              × (consumptions cs' after ≡ 0))
  approval_single_use cs cs' s e = (
    counted cs s,
    λ h.
        let before = apply_all lower sha256_hex cs s in
        let after = (consume_approval a nonce e before).0 in
        let holds = consumed-Held e before h in
        let there : held after ≡ true = rw holds refl in
        (apply_all-Holds e cs' after holds, counted cs' after ∙ rw there refl),
  )
