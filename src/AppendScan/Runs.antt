-- ===== src/AppendScan/Runs.antt =====
-- src/obs_agent/append_scan.py: scans between the changes that the writers of session files make.
use recursive_harness_builde.Prelude.{
  append_assoc, ℕ, suc, ◌≡◌, sym, refl, subst, ◌∙◌, ◌⊎◌, inl, inr, ◌<◌, ◌≤◌, String, Option, none,
  some, true, List, ◌++◌, nat_eq, string_eq, ==_iff, arith, lookup, Entries, Entries-lookup,
  All-map,
}
use recursive_harness_builde.AppendScan.Lines.{Folder}
use recursive_harness_builde.AppendScan.Whole.{whole, IsLinewise}
use recursive_harness_builde.AppendScan.Scan.{
  File, Entry, Cache, Progress, Reading, finished, Answer, missing, entry_of, answer_of, scanned,
  scan_file, scan, accepts, clear,
}
use recursive_harness_builde.AppendScan.Blocks.{IsAt, IsThrough}
use recursive_harness_builde.AppendScan.Ended.{IsEnded, IsEnded-prefix}
use recursive_harness_builde.AppendScan.Rescan.{
  counted-entries, IsBeginning, scan_file-IsThrough, scan_file-whole,
}
use recursive_harness_builde.AppendScan.Writers.{
  World, set_file, Step, Run, scanning, clearing, appending, cutting, replacing, removing, stay,
  step,
}
use recursive_harness_builde.AppendScan.Store.{stored-Entries}

set_file-cases :
    (key k : String) (o : Option File) (files : String → Option File) (f : File)
    → set_file key o files k ≡ some f
    → (key ≡ k) × (o ≡ some f) ⊎ (files k ≡ some f)
set_file-cases key k o files f h = ground (arith, h, ==_iff key k)

module _ {S : Type 0} (x : Folder S) (linewise : IsLinewise x) where
  -- An entry's inode was used, and its state is that of a beginning of the file, if it is of that file.
  abbrev pub IsKnown : (String → Option File) → ℕ → String → Entry S → Type 0
  IsKnown files fresh key e =
      (e.ino < fresh) × ((f : File) → files key ≡ some f → IsBeginning x linewise e f)

  pub record IsSound (w : World S) : Type 0 where
    pub used : (key : String) (f : File) → w.files key ≡ some f → f.ino < w.fresh
    pub known : Entries (IsKnown w.files w.fresh) w.cache.entries

  scanned-Entries :
      (Q : String → Entry S → Type 0) (key : String) (f : File) (verified reused : ℕ) (c : Cache S)
      (r : Reading S)
      → ((read : List ℕ) (p : Progress S) (carry : List ℕ)
          → f.bytes ≡ read ++ carry
          → IsAt x linewise p read
          → Q key (entry_of x f verified p))
      → IsThrough x linewise f.bytes r
      → Entries Q c.entries
      → Entries Q (scanned x key f verified reused r c).0.entries
  scanned-Entries Q key f verified reused c (finished p carry) q (read, e, h, l) k =
      stored-Entries x Q key f verified reused p c.entries (q read p carry (sym e) h) k
  scanned-Entries Q key f verified reused c Reading.undecodable q h k = k
  scanned-Entries Q key f verified reused c Reading.stuck q h k = k

  entries_known :
      (w : World S)
      → IsSound w
      → (key : String) (f : File) → w.files key ≡ some f
      → (now : ℕ) (e : Entry S) → lookup key w.cache.entries ≡ some e
      → accepts x now f e ≡ true
      → IsBeginning x linewise e f
  entries_known w i key f o now e l a =
      (Entries-lookup (IsKnown w.files w.fresh) key e w.cache.entries i.known l).1 f o

  module _ (k : 0 < x.block_bytes) (w : World S) (i : IsSound w) where
    module _ (now : ℕ) (key : String) where
      scan-IsKnown :
          (o : Option File)
          → w.files key ≡ o
          → Entries (IsKnown w.files w.fresh) (scan x now key o w.cache).0.entries
      unfolding scan scan_file
      scan-IsKnown none e = i.known
      scan-IsKnown (some f) e =
          scanned-Entries (IsKnown w.files w.fresh) key f _ _ _ _
            (λ read p carry split at. (
              i.used key f e,
              λ g h same. (
                read,
                carry,
                (subst (λ j. j.bytes ≡ read ++ carry) (same_file f g e h) split),
                at,
              ),
            ))
            (scan_file-IsThrough x linewise k now f (lookup key w.cache.entries)
              (entries_known w i key f e now))
            (rw (counted-entries x _ w.cache) i.known)
        where
          same_file : (f g : File) → w.files key ≡ some f → w.files key ≡ some g → f ≡ g
          same_file f g e h = cc (e, h)

      scan-IsSound : IsSound (record w { cache = (scan x now key (w.files key) w.cache).0 })
      scan-IsSound = record { used = i.used; known = scan-IsKnown (w.files key) refl }

    changed-IsSound :
        (key : String) (o : Option File) (fresh : ℕ)
        → w.fresh ≤ fresh
        → ((f : File) → o ≡ some f → f.ino < fresh)
        → ((e : Entry S)
            → IsKnown w.files w.fresh key e
            → (f : File) → o ≡ some f
            → IsBeginning x linewise e f)
        → IsSound (record w { files = set_file key o w.files; fresh = fresh })
    changed-IsSound key o fresh le used begins = record {
      used = λ j g h. elim (set_file-cases key j o w.files g h) [
        | inl (same, u) ↦ used g u
        | inr u ↦ omega (arith, le, i.used j g u)
      ];
      known =
          All-map _ _
            (λ entry h. (
              omega (arith, le, h.0),
              λ g u. elim (set_file-cases key entry.0 o w.files g u) [
                | inl (same, v) ↦
                    begins entry.1 (subst (λ j. IsKnown w.files w.fresh j entry.1) (sym same) h) g v
                | inr v ↦ h.1 g v
              ],
            ))
            w.cache.entries i.known;
    }

    -- A change that keeps every beginning of complete lines.
    edited-IsSound :
        (key : String) (f f' : File)
        → w.files key ≡ some f
        → f'.ino ≡ f.ino
        → ((read more : List ℕ)
            → f.bytes ≡ read ++ more
            → IsEnded read
            → (rest : List ℕ) × (f'.bytes ≡ read ++ rest))
        → IsSound (record w { files = set_file key (some f') w.files })
    edited-IsSound key f f' e ino keeps =
        changed-IsSound key (some f') w.fresh (omega arith)
          (λ g h. ground (arith, h, ino, i.used key f e))
          (λ entry kn g h.
            subst (λ j. IsBeginning x linewise entry j) (is_file g h)
              (λ same.
                let (read, more, split, at) = kn.1 f e (same ∙ ino) in
                let (rest, split') = keeps read more split at.ended in (read, rest, split', at)))
      where
        is_file : (g : File) → ◌≡◌ {A = Option File} (some f') (some g) → f' ≡ g
        is_file g h = cc h

  Step-IsSound : 0 < x.block_bytes → (w v : World S) → Step x w v → IsSound w → IsSound v
  unfolding clear
  Step-IsSound k _ _ (scanning w now key) i = scan-IsSound k w i now key
  Step-IsSound k _ _ (clearing w) i = record { used = i.used; known = tt }
  Step-IsSound k _ _ (appending w key f more mtime ctime e) i =
      edited-IsSound k w i key f _ e refl
        (λ read rest split n. (rest ++ more, rw split (append_assoc read rest more)))
  Step-IsSound k _ _ (cutting w key f kept torn mtime ctime e split l) i =
      edited-IsSound k w i key f _ e refl
        (λ read rest split' n. IsEnded-prefix read rest kept torn (sym split' ∙ split) n l)
  Step-IsSound k _ _ (replacing w key f new) i =
      changed-IsSound k w i key (some f) (suc w.fresh) (omega arith) (λ g h. ground (arith, h, new))
        (λ e kn g h same. ground (arith, kn.0, h, same, new))
  Step-IsSound k _ _ (removing w key) i =
      changed-IsSound k w i key none w.fresh (omega arith) (λ g h. ground (arith, h))
        (λ e kn g h. ground (arith, h))

  pub Run-IsSound : 0 < x.block_bytes → (w v : World S) → Run x w v → IsSound w → IsSound v
  Run-IsSound k _ _ (stay w) i = i
  Run-IsSound k u w (step {v = v} r s) i = Step-IsSound k v w s (Run-IsSound k u v r i)

  -- A reader that keeps nothing.
  abbrev pub read_whole : Option File → Answer S
  read_whole none = missing
  read_whole (some f) = answer_of x (whole x f.bytes)

  -- In every run from a sound world, a scan of any path answers what a reader does that keeps
  -- nothing and folds the file line by line, where a newline separates what is decoded and blocks
  -- are not empty.
  pub scan_refines :
      0 < x.block_bytes
      → (w v : World S) → Run x w v
      → IsSound w
      → (now : ℕ) (key : String)
      → (scan x now key (v.files key) v.cache).1 ≡ read_whole (v.files key)
  unfolding scan
  scan_refines k w v r i now key = answered (v.files key) refl
    where
      answered : (o : Option File) → v.files key ≡ o → (scan x now key o v.cache).1 ≡ read_whole o
      answered none e = refl
      answered (some f) e =
          scan_file-whole x linewise k now key f v.cache
            (entries_known v (Run-IsSound k w v r i) key f e now)
