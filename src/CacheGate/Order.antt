-- ===== src/CacheGate/Order.antt =====
-- src/obs_agent/cache_gate.py: which reports `find_passing_report` reads as reruns, and in which order.
use recursive_harness_builde.Prelude.{
  ℕ, ◌≤◌, ◌≡◌, ◌≢◌, true, List, [], ◌∷◌, All, leb, arith, ==_refl, string_eq, inl, inr, Bool-cases,
}
use recursive_harness_builde.CacheGate.Reports.{Identity, same_code}
use recursive_harness_builde.CacheGate.Search.{
  Loaded, put_oldest, oldest_first, is_rerun, kept_among,
}

-- The times of the entries never fall.
abbrev pub IsAscending : List Loaded → Type 0
IsAscending [] = Unit
IsAscending (l ∷ ls) = All (λ k. l.mtime ≤ k.mtime) ls × IsAscending ls

put_oldest-All :
    (P : Loaded → Type 0) (l : Loaded) (ks : List Loaded) → P l → All P ks → All P (put_oldest l ks)
unfolding put_oldest
put_oldest-All P l [] p h = (p, h)
put_oldest-All P l (k ∷ ks) p h = elim (Bool-cases (leb l.mtime k.mtime)) [
  | inl e ↦ rw e (p, h)
  | inr e ↦ rw e (h.0, put_oldest-All P l ks p h.1)
]

raise : (a b : ℕ) (ls : List Loaded) → a ≤ b → All (λ k. b ≤ k.mtime) ls → All (λ k. a ≤ k.mtime) ls
raise a b [] h all = tt
raise a b (l ∷ ls) h all = (omega (arith, h, all.0), raise a b ls h all.1)

put_oldest-IsAscending :
    (l : Loaded) (ks : List Loaded) → IsAscending ks → IsAscending (put_oldest l ks)
unfolding put_oldest
put_oldest-IsAscending l [] h = (tt, tt)
put_oldest-IsAscending l (k ∷ ks) h = elim (Bool-cases (leb l.mtime k.mtime)) [
  | inl e ↦
      let below : l.mtime ≤ k.mtime = ground arith in
      rw e ((below, raise l.mtime k.mtime ks below h.0), h)
  | inr e ↦
      let above : k.mtime ≤ l.mtime = ground arith in
      rw e (put_oldest-All (λ j. k.mtime ≤ j.mtime) l ks above h.0, put_oldest-IsAscending l ks h.1)
]

oldest_first-IsAscending : (ls : List Loaded) → IsAscending (oldest_first ls)
unfolding oldest_first
oldest_first-IsAscending [] = tt
oldest_first-IsAscending (l ∷ ls) =
    put_oldest-IsAscending l (oldest_first ls) (oldest_first-IsAscending ls)

module _ (target : Identity) (l : Loaded) where
  -- A rerun of `l`: not older, another report, of the target's code.
  abbrev pub IsRerun : Loaded → Type 0
  IsRerun k = (l.mtime ≤ k.mtime) × (k.directory ≢ l.directory) × (same_code k.report target ≡ true)

  is_rerun-IsRerun : (k : Loaded) → is_rerun target l k ≡ true → IsRerun k
  is_rerun-IsRerun k h = (ground arith, apart, ground arith)
    where
      apart : k.directory ≢ l.directory
      apart e = ground (arith, e, ==_refl l.directory)

  kept-All : (P : Loaded → Type 0) (ks : List Loaded) → All P ks → All P (kept_among target l ks)
  unfolding kept_among
  kept-All P [] h = tt
  kept-All P (k ∷ ks) h = elim (Bool-cases (is_rerun target l k)) [
    | inl e ↦ rw e (h.0, kept-All P ks h.1)
    | inr e ↦ rw e (kept-All P ks h.1)
  ]

  kept-IsRerun : (ks : List Loaded) → All IsRerun (kept_among target l ks)
  unfolding kept_among
  kept-IsRerun [] = tt
  kept-IsRerun (k ∷ ks) = elim (Bool-cases (is_rerun target l k)) [
    | inl e ↦ rw e (is_rerun-IsRerun k e, kept-IsRerun ks)
    | inr e ↦ rw e (kept-IsRerun ks)
  ]

  kept-IsAscending : (ks : List Loaded) → IsAscending ks → IsAscending (kept_among target l ks)
  unfolding kept_among
  kept-IsAscending [] h = tt
  kept-IsAscending (k ∷ ks) h = elim (Bool-cases (is_rerun target l k)) [
    | inl e ↦ rw e (kept-All (λ j. k.mtime ≤ j.mtime) ks h.0, kept-IsAscending ks h.1)
    | inr e ↦ rw e (kept-IsAscending ks h.1)
  ]

-- The reruns of a report that the rerun rule reads are other reports, of the target's code and not
-- older than it, and they come in the order of their times.
pub reruns_in_order :
    (target : Identity) (loaded : List Loaded) (l : Loaded)
    → All (IsRerun target l) (kept_among target l (oldest_first loaded))
      × IsAscending (kept_among target l (oldest_first loaded))
reruns_in_order target loaded l = (
  kept-IsRerun target l (oldest_first loaded),
  kept-IsAscending target l (oldest_first loaded) (oldest_first-IsAscending loaded),
)
