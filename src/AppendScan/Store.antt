-- ===== src/AppendScan/Store.antt =====
-- src/obs_agent/append_scan.py: what a scan does to the entries of the cache.
use recursive_harness_builde.Prelude.{
  ℕ, suc, inl, inr, String, not, List, [], ◌∷◌, ◌++◌, ◌==◌, ◌||◌, nat_eq, string_eq, Bool-cases,
  Option-cases, length, lookup, insert, remove, Entries, Entries-lookup, Entries-insert,
  Entries-remove, ltb, if◌then◌else◌,
}
use recursive_harness_builde.AppendScan.Lines.{Folder}
use recursive_harness_builde.AppendScan.Scan.{
  File, Entry, Progress, entry_of, has_stat, move_to_end, evict, stored,
}

module _ {S : Type 0} (x : Folder S) (Q : String → Entry S → Type 0) where
  evict-Entries : (es : List (String × Entry S)) → Entries Q es → Entries Q (evict x es)
  unfolding evict
  evict-Entries [] h = tt
  evict-Entries (e ∷ es) h = elim (Bool-cases (ltb x.maxsize (suc (length es)))) [
    | inl b ↦ rw b (evict-Entries es h.1)
    | inr b ↦ rw b h
  ]

  append-Entries : (a b : List (String × Entry S)) → Entries Q a → Entries Q b → Entries Q (a ++ b)
  append-Entries [] b h k = k
  append-Entries (e ∷ a) b h k = (h.0, append-Entries a b h.1 k)

  move_to_end-Entries :
      (key : String) (es : List (String × Entry S))
      → Entries Q es
      → Entries Q (move_to_end x key es)
  unfolding move_to_end
  move_to_end-Entries key es h = elim (Option-cases (lookup key es)) [
    | inl e ↦ rw (move_to_end, e) h
    | inr (v, e) ↦
        rw (move_to_end, e)
          (append-Entries (remove key es) ((key, v) ∷ []) (Entries-remove Q key es h)
            (Entries-lookup Q key v es h e, tt))
  ]

  pub stored-Entries :
      (key : String) (f : File) (verified reused : ℕ) (p : Progress S)
      (es : List (String × Entry S))
      → Q key (entry_of x f verified p)
      → Entries Q es
      → Entries Q (stored x key f verified reused p es)
  unfolding stored
  stored-Entries key f verified reused p es q h = evict-Entries _ (move_to_end-Entries key _ kept)
    where
      kept : Entries Q (
          if p.offset == 0
          then remove key es
          else if reused == 0 || not (p.offset == reused) || not (has_stat x (lookup key es) f)
          then insert key (entry_of x f verified p) es
          else es)
      kept = elim (Bool-cases (p.offset == 0)) [
        | inl b ↦ rw b (Entries-remove Q key es h)
        | inr b ↦
            rw b
              (elim (Bool-cases
                (reused == 0 || not (p.offset == reused) || not (has_stat x (lookup key es) f))) [
                  | inl c ↦ rw c (Entries-insert Q key (entry_of x f verified p) es q h)
                  | inr c ↦ rw c h
                ])
      ]
