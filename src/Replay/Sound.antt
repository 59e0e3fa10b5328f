-- ===== src/Replay/Sound.antt =====
-- src/obs_agent/jsonl_replay.py: what a selection holds: the row it ends at with its ancestors, whole messages,
-- and the result of each of their tool calls.
use recursive_harness_builde.Prelude.{
  contains-append, IsWithin, ℕ, zero, suc, ◌≡◌, sym, refl, ap, subst, ◌∙◌, inl, inr, Option, none,
  some, Option-cases, Bool, true, ◌&&◌, List, [], ◌∷◌, ◌++◌, ◌==◌, ==_iff, ==_refl, nat_eq,
  contains, lookup, Bool-cases, arith,
}
use recursive_harness_builde.Replay.Rows.{assistant, Row, RowMap, ok, keys, keep, walk}
use recursive_harness_builde.Replay.Select.{
  tool_uses, answer, candidates, resolve, all_in, all_uses, id_of, message_ids,
}
use recursive_harness_builde.Replay.Inversion.{and_then-ok}
use recursive_harness_builde.Replay.Ends.{contains-lookup}

pub contains_tail : (us vs : List ℕ) (v : ℕ) → contains vs v ≡ true → contains (us ++ vs) v ≡ true
contains_tail us vs v h = ground (arith, contains-append us vs v, h)

-- The walk keeps the rows visited, and its rows are in the map.
pub walk-IsWithin :
    (fuel : ℕ) (d : RowMap) (u : Option ℕ) (seen chain : List ℕ)
    → IsWithin (keys d) seen
    → walk fuel d u seen ≡ ok chain
    → IsWithin (keys d) chain
unfolding walk
walk-IsWithin zero d none seen chain h e = subst (IsWithin (keys d)) (cc e) h
walk-IsWithin (suc fuel) d none seen chain h e = subst (IsWithin (keys d)) (cc e) h
walk-IsWithin zero d (some u) seen chain h e = cc e
walk-IsWithin (suc fuel) d (some u) seen chain h e = elim (Bool-cases (contains seen u)) [
  | inl b ↦ cc (rw (walk, b) at e)
  | inr b ↦ elim (Option-cases (lookup u d)) [
    | inl o ↦ cc (rw (walk, b, o) at e)
    | inr (r, o) ↦
        walk-IsWithin fuel d r.parent (u ∷ seen) chain (contains-lookup u r d o, h)
          (rw (walk, b, o) at e)
  ]
]

-- What was chosen stays chosen while the tool calls are looked at.
pub resolve_keeps :
    (early : RowMap) (tools chosen final : List ℕ) (u : ℕ)
    → resolve early tools chosen ≡ ok final
    → contains chosen u ≡ true
    → contains final u ≡ true
unfolding resolve
resolve_keeps early [] chosen final u e h = subst (λ f. contains f u ≡ true) (cc e) h
resolve_keeps early (tool ∷ tools) chosen final u e h =
    let (more, a, f) =
      and_then-ok (answer tool chosen (candidates tool early))
        (λ more. resolve early tools (more ++ chosen)) final e in
    resolve_keeps early tools (more ++ chosen) final u f (contains_tail more chosen u h)

pub contains-keep :
    (q : ℕ → Bool) (u : ℕ) (d : RowMap)
    → contains (keys d) u ≡ true
    → q u ≡ true
    → contains (keys (keep (λ x. q x.0) d)) u ≡ true
unfolding contains keys keep
contains-keep q u [] h k = h
contains-keep q u ((v, r) ∷ d) h k = elim (Bool-cases (v == u)) [
  | inl e ↦ rw (subst (λ w. q w ≡ true) (sym ((==_iff v u).0 e)) k) (rw e refl)
  | inr e ↦
      let rest = contains-keep q u d (ground (arith, h, e)) k in
      elim (Bool-cases (q v)) [ inl b ↦ rw b (rw (e, rest) refl) | inr b ↦ rw b rest ]
]

all_in-append : (ids a b : List ℕ) → all_in ids (a ++ b) ≡ (all_in ids a && all_in ids b)
unfolding all_in
all_in-append ids [] b = refl
all_in-append ids (t ∷ a) b = ground (arith, all_in-append ids a b)

row_eq : (w v : ℕ) (r s : Row) → w ≡ v → r ≡ s → ◌≡◌ {A = ℕ × Row} (w, r) (v, s)
row_eq w v r s e f = cc (e, f)

id_of-assistant : (r : Row) (m : ℕ) → r.kind ≡ assistant → r.message_id ≡ some m → id_of r ≡ m ∷ []
id_of-assistant r m k i = rw (k, i) refl

-- A row that the group takes is in it, and so are its tool calls.
pub lookup-keep :
    (p : ℕ × Row → Bool) (v : ℕ) (s : Row) (d : RowMap)
    → lookup v d ≡ some s
    → p (v, s) ≡ true
    → (contains (keys (keep p d)) v ≡ true)
      × ((ids : List ℕ)
          → all_in ids (all_uses (keep p d)) ≡ true
          → all_in ids (tool_uses s.content) ≡ true)
unfolding contains keys keep lookup all_uses
lookup-keep p v s [] h k = ground (arith, h)
lookup-keep p v s ((w, r) ∷ d) h k = elim (Bool-cases (w == v)) [
  | inl e ↦
      let same : r ≡ s = ground (arith, h, e) in
      rw (subst (λ x. p x ≡ true) (sym (row_eq w v r s ((==_iff w v).0 e) same)) k) (
        rw e refl,
        λ ids a.
            subst (λ x. all_in ids (tool_uses x.content) ≡ true) same
              (ground (arith, a, all_in-append ids (tool_uses r.content) (all_uses (keep p d)))),
      )
  | inr e ↦
      let rest = lookup-keep p v s d (ground (arith, h, e)) k in
      elim (Bool-cases (p (w, r))) [
        | inl b ↦ rw b (
          rw (e, rest.0) refl,
          λ ids a.
              rest.1 ids
                (ground (arith, a, all_in-append ids (tool_uses r.content) (all_uses (keep p d)))),
        )
        | inr b ↦ rw b rest
      ]
]

pub contains-message_ids :
    (d : RowMap) (chain : List ℕ) (u m : ℕ) (r : Row)
    → contains chain u ≡ true
    → lookup u d ≡ some r
    → r.kind ≡ assistant
    → r.message_id ≡ some m
    → contains (message_ids d chain) m ≡ true
unfolding contains message_ids
contains-message_ids d [] u m r h l k i = h
contains-message_ids d (v ∷ chain) u m r h l k i = elim (Bool-cases (v == u)) [
  | inl e ↦
      let same : lookup v d ≡ some r = ap (λ w. lookup w d) ((==_iff v u).0 e) ∙ l in
      rw (message_ids, same, id_of-assistant r m k i, ==_refl m) refl
  | inr e ↦
      let rest = contains-message_ids d chain u m r (ground (arith, h, e)) l k i in
      elim (Option-cases (lookup v d)) [
        | inl o ↦ rw (message_ids, o) rest
        | inr (t, o) ↦ rw (message_ids, o) (contains_tail (id_of t) (message_ids d chain) m rest)
      ]
]
