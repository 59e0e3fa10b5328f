-- ===== src/AppendScan/Limits.antt =====
-- src/obs_agent/append_scan.py: the loop ends, an old entry is not trusted, and the cache stays small.
use recursive_harness_builde.Prelude.{
  split_last, ℕ, zero, suc, ◌≡◌, ◌≢◌, inl, inr, ◌+◌, ◌<◌, ◌≤◌, String, Option, none, some, true,
  false, List, [], ◌∷◌, ◌++◌, arith, Bool-cases, Option-cases, length, take, drop, is_empty, lookup,
  string_eq,
}
use recursive_harness_builde.AppendScan.Lines.{Folder}
use recursive_harness_builde.AppendScan.Whole.{whole, IsLinewise}
use recursive_harness_builde.AppendScan.Scan.{
  File, Entry, Cache, Progress, Reading, finished, accepts, evict, stored, answer_of, scan_file,
  scan, read_blocks, absorb, scanned, counted, start_of,
}
use recursive_harness_builde.AppendScan.Blocks.{length-drop-lt}
use recursive_harness_builde.AppendScan.Rescan.{counted-entries, scan_file-whole}

module _ {S : Type 0} (x : Folder S) where
  -- The loop over the blocks of what is left of a file ends after at most one round more than there are
  -- bytes, whatever it finds in them, where blocks are not empty.
  pub read_blocks_ends :
      0 < x.block_bytes
      → (fuel : ℕ) (rest carry : List ℕ) (p : Progress S) → length rest < fuel
      → read_blocks x fuel rest carry p ≢ Reading.stuck
  unfolding read_blocks
  read_blocks_ends k zero rest carry p f = ground (arith, f)
  read_blocks_ends k (suc fuel) rest carry p f =
      elim (Bool-cases (is_empty (take x.block_bytes rest))) [
        | inl e ↦ rw (read_blocks, e) (λ h. ground (arith, h))
        | inr e ↦
            rw (read_blocks, e)
              (elim (Option-cases (split_last (carry ++ take x.block_bytes rest))) [
                | inl s ↦ rw s (
                    read_blocks_ends k fuel (drop x.block_bytes rest)
                      (carry ++ take x.block_bytes rest) p (shorter e))
                | inr ((xs, ys), s) ↦ rw s (elim (Option-cases (absorb x p xs)) [
                  | inl a ↦ rw a (λ h. ground (arith, h))
                  | inr (q, a) ↦
                      rw a (read_blocks_ends k fuel (drop x.block_bytes rest) ys q (shorter e))
                ])
              ])
      ]
    where
      shorter : is_empty (take x.block_bytes rest) ≡ false → length (drop x.block_bytes rest) < fuel
      shorter e = omega (arith, f, length-drop-lt x.block_bytes rest k e)

  evict_bounded : (es : List (String × Entry S)) → length (evict x es) ≤ x.maxsize
  unfolding evict
  evict_bounded [] = omega arith
  evict_bounded (e ∷ es) = ground (arith, evict_bounded es)

  scanned_bounded :
      (key : String) (f : File) (verified reused : ℕ) (c : Cache S) (r : Reading S)
      → length c.entries ≤ x.maxsize
      → length (scanned x key f verified reused r c).0.entries ≤ x.maxsize
  unfolding stored
  scanned_bounded key f verified reused c (finished p carry) h = evict_bounded _
  scanned_bounded key f verified reused c Reading.undecodable h = h
  scanned_bounded key f verified reused c Reading.stuck h = h

  -- A cache of at most `maxsize` entries is one after a scan too, whatever the scan meets.
  pub scan_bounded :
      (now : ℕ) (key : String) (o : Option File) (c : Cache S)
      → length c.entries ≤ x.maxsize
      → length (scan x now key o c).0.entries ≤ x.maxsize
  unfolding scan scan_file
  scan_bounded now key none c h = h
  scan_bounded now key (some f) c h =
      let p = (start_of x now f (lookup key c.entries)).0 in
      scanned_bounded key f _ p.offset (counted x p.offset c)
        (read_blocks x (suc (length f.bytes)) (drop p.offset f.bytes) [] p)
        (rw (counted-entries x p.offset c) h)

  accepts-recent :
      (now : ℕ) (f : File) (e : Entry S)
      → accepts x now f e ≡ true
      → now < e.verified_at + x.revalidate
  unfolding accepts
  accepts-recent now f e a = ground (arith, a)

  -- Whatever the cache holds, a scan that comes `revalidate` or more after the last full scan
  -- answers what a reader of the whole file does, where a newline separates what is decoded and
  -- blocks are not empty.
  pub stale_scan :
      IsLinewise x
      → 0 < x.block_bytes
      → (now : ℕ) (key : String) (f : File) (c : Cache S)
      → ((e : Entry S) → lookup key c.entries ≡ some e → e.verified_at + x.revalidate ≤ now)
      → (scan x now key (some f) c).1 ≡ answer_of x (whole x f.bytes)
  unfolding scan
  stale_scan linewise k now key f c old =
      scan_file-whole x linewise k now key f c
        (λ e l a. ground (arith, old e l, accepts-recent now f e a))
