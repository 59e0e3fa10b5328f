-- ===== src/AppendScan/Rescan.antt =====
-- src/obs_agent/append_scan.py: one scan with the entries of earlier ones.
use recursive_harness_builde.Prelude.{
  ℕ, suc, ◌≡◌, sym, refl, subst, ap, ◌∙◌, inl, inr, ◌<◌, String, Option, none, some, true, List, [],
  ◌++◌, nat_eq, string_eq, ==_iff, Bool-cases, arith, length, drop, drop-append, length-append,
  lookup,
}
use recursive_harness_builde.AppendScan.Lines.{Folder}
use recursive_harness_builde.AppendScan.Whole.{whole, fold_lines, IsLinewise}
use recursive_harness_builde.AppendScan.Scan.{
  File, Entry, Cache, Progress, Reading, finished, accepts, progress_of, start_of, counted,
  answer_of, scanned, scan_file, read_blocks,
}
use recursive_harness_builde.AppendScan.Blocks.{IsAt, IsThrough, read_blocks-IsThrough, finish-IsAt}

pub counted-entries :
    {S : Type 0} (x : Folder S) (reused : ℕ) (c : Cache S)
    → (counted x reused c).entries ≡ c.entries
counted-entries x reused c = ground arith

module _ {S : Type 0} (x : Folder S) (linewise : IsLinewise x) where
  -- An entry whose state is that of a beginning of the file, or which is of another file.
  abbrev pub IsBeginning : Entry S → File → Type 0
  IsBeginning e f =
      e.ino ≡ f.ino
      → (read : List ℕ) × (more : List ℕ) × (f.bytes ≡ read ++ more)
        × IsAt x linewise (progress_of x e) read

  accepts-ino : (now : ℕ) (f : File) (e : Entry S) → accepts x now f e ≡ true → e.ino ≡ f.ino
  unfolding accepts
  accepts-ino now f e a = ground (arith, a, ==_iff e.ino f.ino)

  start_of-IsAt :
      (now : ℕ) (f : File) (o : Option (Entry S))
      → ((e : Entry S) → o ≡ some e → accepts x now f e ≡ true → IsBeginning e f)
      → (read : List ℕ) × (more : List ℕ) × (f.bytes ≡ read ++ more)
        × IsAt x linewise (start_of x now f o).0 read
  unfolding fold_lines
  start_of-IsAt now f none h =
      ([], f.bytes, refl, record { ended = tt; offset = refl; folded = λ more. refl })
  start_of-IsAt now f (some e) h = elim (Bool-cases (accepts x now f e)) [
    | inl a ↦ rw a (h e refl a (accepts-ino now f e a))
    | inr a ↦ rw a ([], f.bytes, refl, record { ended = tt; offset = refl; folded = λ more. refl })
  ]

  scanned-value :
      (key : String) (f : File) (verified reused : ℕ) (c : Cache S) (r : Reading S)
      → IsThrough x linewise f.bytes r
      → (scanned x key f verified reused r c).1 ≡ answer_of x (whole x f.bytes)
  scanned-value key f verified reused c (finished p carry) (read, e, h, l) =
      finish-IsAt x linewise p read carry h l ∙ ap (λ bs. answer_of x (whole x bs)) e
  scanned-value key f verified reused c Reading.undecodable h = rw h refl
  scanned-value key f verified reused c Reading.stuck h = ground (arith, h)

  pub through :
      0 < x.block_bytes
      → (f : File) (p : Progress S) (read more : List ℕ) → f.bytes ≡ read ++ more
      → IsAt x linewise p read
      → IsThrough x linewise f.bytes
          (read_blocks x (suc (length f.bytes)) (drop p.offset f.bytes) [] p)
  through k f p read more e h = rw (rest) (
      subst (λ bs. IsThrough x linewise bs (read_blocks x (suc (length f.bytes)) more [] p)) (sym e)
        (read_blocks-IsThrough x linewise k (suc (length f.bytes)) more [] read p fuel h tt))
    where
      rest : drop p.offset f.bytes ≡ more
      rest = rw (h.offset, e) (drop-append read more)

      fuel : length more < suc (length f.bytes)
      fuel = rw e (omega (arith, length-append read more))

  -- The loop of a scan gets through.
  pub scan_file-IsThrough :
      0 < x.block_bytes
      → (now : ℕ) (f : File) (o : Option (Entry S))
      → ((e : Entry S) → o ≡ some e → accepts x now f e ≡ true → IsBeginning e f)
      → (let p = (start_of x now f o).0 in
          IsThrough x linewise f.bytes
            (read_blocks x (suc (length f.bytes)) (drop p.offset f.bytes) [] p))
  scan_file-IsThrough k now f o h =
      let (read, more, e, at) = start_of-IsAt now f o h in
      through k f (start_of x now f o).0 read more e at

  -- A scan answers what a reader of the whole file does, provided that the entry of the path, if the scan
  -- accepts it, holds the state of a beginning of the file.
  pub scan_file-whole :
      0 < x.block_bytes
      → (now : ℕ) (key : String) (f : File) (c : Cache S)
      → ((e : Entry S) → lookup key c.entries ≡ some e → accepts x now f e ≡ true → IsBeginning e f)
      → (scan_file x now key f c).1 ≡ answer_of x (whole x f.bytes)
  unfolding scan_file
  scan_file-whole k now key f c h =
      scanned-value key f _ _ _ _ (scan_file-IsThrough k now f (lookup key c.entries) h)
