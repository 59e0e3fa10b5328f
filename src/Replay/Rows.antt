-- ===== src/Replay/Rows.antt =====
-- src/obs_agent/jsonl_replay.py: the rows of a transcript, the map of the latest row of each identifier, and
-- the walk up the parents. Identifiers are numbers, in place of texts that are not empty; a timestamp is
-- its place in the order of the texts, and 0 where it is missing.
use recursive_harness_builde.Prelude.{
  ℕ, zero, suc, Option, none, some, Bool, true, false, List, [], ◌∷◌, nat_eq, contains, lookup,
  insert, if◌then◌else◌,
}

-- The types of row that the code tells apart.
pub data Kind : Type 0 where
  user : Kind
  assistant : Kind
  system : Kind
  progress : Kind
  attachment : Kind
  other : Kind

-- The items of a message's content: tool calls and results by the call's identifier.
pub data Block : Type 0 where
  tool_use : ℕ → Block
  tool_result : ℕ → Block
  text : Block

pub record Row : Type 0 where
  pub uuid : Option ℕ
  pub parent : Option ℕ
  pub kind : Kind
  pub is_sidechain : Bool
  pub timestamp : ℕ
  pub message_id : Option ℕ
  pub content : List Block
  pub is_api_error : Bool
  pub is_synthetic : Bool

-- What the selection raises.
pub data Refusal : Type 0 where
  target_missing : ℕ → Refusal
  parent_cycle : ℕ → Refusal
  ancestor_missing : ℕ → Refusal
  ambiguous_results : ℕ → Refusal
  incomplete_round : Refusal
  error_row : Refusal
  out_of_fuel : Refusal

pub data Result {ℓ} (A : Type ℓ) : Type ℓ where
  ok : A → Result A
  refused : Refusal → Result A

unfoldable pub and_then {ℓ κ} : {A : Type ℓ} {B : Type κ} → Result A → (A → Result B) → Result B
and_then (ok a) f = f a
and_then (refused e) f = refused e

-- Rows under their identifiers, in the order of a Python dictionary.
abbrev pub RowMap : Type 0
RowMap = List (ℕ × Row)

unfoldable pub keys : RowMap → List ℕ
keys [] = []
keys ((u, r) ∷ d) = u ∷ keys d

unfoldable pub keep : (ℕ × Row → Bool) → RowMap → RowMap
keep p [] = []
keep p (x ∷ d) = let rest = keep p d in if p x then x ∷ rest else rest

abbrev pub put : RowMap → Row → RowMap
put d r = elim r.uuid [ none ↦ d | some u ↦ insert u r d ]

unfoldable pub put_all : RowMap → List Row → RowMap
put_all d [] = d
put_all d (r ∷ rows) = put_all (put d r) rows

-- `effective`: the latest row of each identifier, at the place of the first.
unfoldable pub effective : List Row → RowMap
effective rows = put_all [] rows

-- The walk from a row up its parents; the rows visited, the last one first.
unfoldable pub walk : ℕ → RowMap → Option ℕ → List ℕ → Result (List ℕ)
walk fuel d none chosen = ok chosen
walk zero d (some u) chosen = refused out_of_fuel
walk (suc fuel) d (some u) chosen = elim (contains chosen u) [
  | true ↦ refused (parent_cycle u)
  | false ↦ elim (lookup u d) [
    | none ↦ refused (ancestor_missing u)
    | some r ↦ walk fuel d r.parent (u ∷ chosen)
  ]
]
