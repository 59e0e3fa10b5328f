-- ===== src/Replay/Complete.antt =====
-- src/obs_agent/jsonl_replay.py: a complete selection has the ancestors of its target, whole messages and the
-- result of each of their tool calls.
use recursive_harness_builde.Prelude.{
  contains-append, All-contains, ℕ, suc, ◌≡◌, sym, refl, ap, subst, ◌∙◌, inl, inr, Option, some,
  true, false, List, [], ◌∷◌, ◌++◌, ◌==◌, Bool-cases, nat_eq, contains, any, lookup, length, arith,
}
use recursive_harness_builde.Replay.Rows.{assistant, Row, RowMap, ok, keys, effective, walk}
use recursive_harness_builde.Replay.Select.{
  is_faulty, goal_of, tool_uses, all_in, all_uses, all_results, in_group, message_ids, group_of,
  until, select_replay_entries,
}
use recursive_harness_builde.Replay.Inversion.{Steps, IsNothing, select-Steps}
use recursive_harness_builde.Replay.Sound.{
  walk-IsWithin, resolve_keeps, contains_tail, contains-keep, lookup-keep, contains-message_ids,
}

contains-until :
    (t v : ℕ) (s : Row) (d : RowMap) → lookup v (until t d) ≡ some s → contains (keys d) v ≡ true
unfolding contains until keys lookup
contains-until t v s [] h = ground (arith, h)
contains-until t v s ((w, r) ∷ d) h = elim (Bool-cases (w == v)) [
  | inl e ↦ rw e refl
  | inr e ↦ elim (Bool-cases (w == t)) [
    | inl b ↦ ground (arith, b, e, h)
    | inr b ↦ rw (e, contains-until t v s d (ground (arith, b, e, h))) refl
  ]
]

-- `u` stands on the chain of parents from `t`.
abbrev pub IsAncestor : RowMap → ℕ → ℕ → Type 0
IsAncestor d t u =
    (chain : List ℕ) × (walk (suc (length d)) d (some t) [] ≡ ok chain) × (contains chain u ≡ true)

-- An assistant row of the message `m`, of the main conversation, that is not after `t`.
abbrev pub IsEarly : RowMap → ℕ → ℕ → ℕ → Row → Type 0
IsEarly d t m v s =
    (lookup v (until t d) ≡ some s)
    × (s.is_sidechain ≡ false)
    × (s.kind ≡ assistant)
    × (s.message_id ≡ some m)

in_group_lem :
    (ids : List ℕ) (d : RowMap) (t m v : ℕ) (s : Row)
    → IsEarly d t m v s
    → contains ids m ≡ true
    → in_group ids (v, s) ≡ true
in_group_lem ids d t m v s (l, n, k, i) h = rw (n, k, i, h) refl

module _ (spread : List ℕ → List ℕ) where
  ancestor_selected :
      (d selected : RowMap) (t u : ℕ)
      → Steps spread true d t selected
      → IsAncestor d t u
      → contains (keys selected) u ≡ true
  unfolding keys
  ancestor_selected d selected t u s (chain, w, h) =
      let same : contains s.chain u ≡ true =
        subst (λ c. contains c u ≡ true) (cc (w, s.walked)) h in
      let within = walk-IsWithin (suc (length d)) d (some t) [] s.chain tt s.walked in
      subst (λ x. contains (keys x) u ≡ true) (sym s.kept)
        (contains-keep (contains s.chosen) u d
          (All-contains (λ v. contains (keys d) v ≡ true) s.chain u within same)
          (resolve_keeps (until t d) (spread (all_uses (group_of d t s.chain)))
            (keys (group_of d t s.chain) ++ s.chain) s.chosen u s.resolved
            (contains_tail (keys (group_of d t s.chain)) s.chain u same)))

  message_selected :
      (d selected : RowMap) (t u m v : ℕ) (r s : Row)
      → Steps spread true d t selected
      → IsAncestor d t u
      → lookup u d ≡ some r
      → r.kind ≡ assistant
      → r.message_id ≡ some m
      → IsEarly d t m v s
      → (contains (keys selected) v ≡ true)
        × (all_in (all_results selected) (tool_uses s.content) ≡ true)
  message_selected d selected t u m v r s p (chain, w, h) l k i early =
      let same : contains p.chain u ≡ true =
        subst (λ c. contains c u ≡ true) (cc (w, p.walked)) h in
      let ids = contains-message_ids d p.chain u m r same l k i in
      let (inside, uses) =
        lookup-keep (in_group (message_ids d p.chain)) v s (until t d) early.0
          (in_group_lem (message_ids d p.chain) d t m v s early ids) in
      let group = keys (group_of d t p.chain) in
      (
        subst (λ x. contains (keys x) v ≡ true) (sym p.kept)
            (contains-keep (contains p.chosen) v d (contains-until t v s d early.0) (
              resolve_keeps (until t d) (spread (all_uses (group_of d t p.chain)))
                (group ++ p.chain) p.chosen v p.resolved
                (contains-append group p.chain v ∙ rw inside refl))),
        uses (all_results selected) (p.complete refl).0,
      )

  -- Where nothing is selected, the target has no ancestor.
  IsNothing-IsAncestor :
      (target : Option ℕ) (d selected : RowMap) (t u : ℕ)
      → IsNothing target d selected
      → goal_of target d ≡ some t
      → ¬ IsAncestor d t u
  unfolding keys contains
  IsNothing-IsAncestor target d selected t u (n, inr g) e (chain, w, h) = ground (arith, g, e)
  IsNothing-IsAncestor target d selected t u (n, inl g) e (chain, w, h) =
      let within = walk-IsWithin (suc (length d)) d (some t) [] chain tt w in
      ground (
        arith,
        All-contains (λ v. contains (keys d) v ≡ true) chain u within h,
        ap (λ x. contains (keys x) u) g,
      )

  -- A selection that is required to be complete, and succeeds, cuts no message and no tool call in two. Let
  -- `t` be the row to end at, the one asked for or the newest leaf; `u` an assistant row of the message `m`
  -- on the chain of parents from `t`; and `v` an assistant row of the same message, not of a side chain and
  -- not after `t`. Then `u` and `v` are both selected, each tool call of `v` has its result in a selected
  -- row, and no selected row is an API error or synthetic.
  pub select-IsWhole :
      (target : Option ℕ) (rows : List Row) (selected : RowMap) (t u m v : ℕ) (r s : Row)
      → select_replay_entries spread true target rows ≡ ok selected
      → goal_of target (effective rows) ≡ some t
      → IsAncestor (effective rows) t u
      → lookup u (effective rows) ≡ some r
      → r.kind ≡ assistant
      → r.message_id ≡ some m
      → IsEarly (effective rows) t m v s
      → (contains (keys selected) u ≡ true)
        × (contains (keys selected) v ≡ true)
        × (all_in (all_results selected) (tool_uses s.content) ≡ true)
        × (any is_faulty selected ≡ false)
  select-IsWhole target rows selected t u m v r s e g a l k i early =
      elim (select-Steps spread true target rows selected e) [
        | inl n ↦ absurd (IsNothing-IsAncestor target (effective rows) selected t u n g a)
        | inr (t', g', p) ↦
            let p' = subst (λ x. Steps spread true (effective rows) x selected) (cc (g, g')) p in
            let (x, y) = message_selected (effective rows) selected t u m v r s p' a l k i early in
            (ancestor_selected (effective rows) selected t u p' a, x, y, (p'.complete refl).1)
      ]
