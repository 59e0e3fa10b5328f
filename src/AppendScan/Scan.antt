-- ===== src/AppendScan/Scan.antt =====
-- src/obs_agent/append_scan.py: `AppendScanCache.scan`. A scan sees one state of the file, and times are
-- whole numbers.
use recursive_harness_builde.Prelude.{
  newline, split_last, ℕ, zero, suc, ◌+◌, ◌-◌, String, Option, none, some, Bool, true, false, ◌&&◌,
  ◌||◌, not, List, [], ◌∷◌, ◌++◌, ◌==◌, nat_eq, string_eq, length, take, drop, is_empty, lookup,
  insert, remove, ltb, leb, if◌then◌else◌,
}
use recursive_harness_builde.AppendScan.Lines.{Folder, fold_bytes, ◌>>=◌}

-- `_SIGNATURE_BYTES`
abbrev pub signature_bytes : ℕ
signature_bytes = 256

-- A file: what `os.fstat` says, and its bytes.
pub record File : Type 0 where
  pub dev : ℕ
  pub ino : ℕ
  pub mtime : ℕ
  pub ctime : ℕ
  pub bytes : List ℕ

pub record Entry (S : Type 0) : Type 0 where
  pub dev : ℕ
  pub ino : ℕ
  pub offset : ℕ
  pub head : List ℕ
  pub before : List ℕ
  pub state : S
  pub verified_at : ℕ
  pub size : ℕ
  pub mtime : ℕ
  pub ctime : ℕ

-- The entries in the order of their last use, the newest last.
pub record Cache (S : Type 0) : Type 0 where
  pub entries : List (String × Entry S)
  pub full_scans : ℕ
  pub incremental_scans : ℕ

-- Where a scan stands between two blocks, but for the carry.
pub record Progress (S : Type 0) : Type 0 where
  pub state : S
  pub offset : ℕ
  pub head : List ℕ
  pub before : List ℕ

pub data Reading (S : Type 0) : Type 0 where
  finished : Progress S → List ℕ → Reading S
  undecodable stuck : Reading S

pub data Answer (S : Type 0) : Type 0 where
  value : S → Answer S
  missing undecodable stuck : Answer S

unfoldable pub same_bytes : List ℕ → List ℕ → Bool
same_bytes [] [] = true
same_bytes [] (b ∷ bs) = false
same_bytes (a ∷ as') [] = false
same_bytes (a ∷ as') (b ∷ bs) = a == b && same_bytes as' bs

-- `data[-n:]` for a positive `n`.
abbrev pub last_bytes : ℕ → List ℕ → List ℕ
last_bytes n bs = drop (length bs - n) bs

-- `clear`
unfoldable pub clear : {S : Type 0} → Cache S → Cache S
clear c = record c { entries = [] }

module _ {S : Type 0} (x : Folder S) where
  abbrev pub absorbed : Progress S → List ℕ → S → Progress S
  absorbed p complete s = record {
    state = s;
    offset = p.offset + length complete;
    head = if p.offset == 0 then take signature_bytes complete else p.head;
    before = last_bytes signature_bytes (p.before ++ complete);
  }

  -- The body of the loop where the block completes lines; `xs` is `complete[:-1]`.
  unfoldable pub absorb : Progress S → List ℕ → Option (Progress S)
  absorb p xs = fold_bytes x p.state xs >>= λ s. some (absorbed p (xs ++ newline ∷ []) s)

  -- The loop: what is left to read, and the carry.
  unfoldable pub read_blocks : ℕ → List ℕ → List ℕ → Progress S → Reading S
  read_blocks zero rest carry p = stuck
  read_blocks (suc fuel) rest carry p = elim (is_empty (take x.block_bytes rest)) [
    | true ↦ finished p carry
    | false ↦ elim (split_last (carry ++ take x.block_bytes rest)) [
      | none ↦ read_blocks fuel (drop x.block_bytes rest) (carry ++ take x.block_bytes rest) p
      | some (xs, ys) ↦ elim (absorb p xs) [
        | none ↦ undecodable
        | some q ↦ read_blocks fuel (drop x.block_bytes rest) ys q
      ]
    ]
  ]

  abbrev is_rewritten : File → Entry S → Bool
  is_rewritten f e = length f.bytes == e.size && not (f.mtime == e.mtime && f.ctime == e.ctime)

  -- The conditions under which a scan goes on from an entry.
  unfoldable pub accepts : ℕ → File → Entry S → Bool
  accepts now f e =
      e.dev == f.dev
      && e.ino == f.ino
      && leb e.offset (length f.bytes)
      && not (is_rewritten f e)
      && ltb now (e.verified_at + x.revalidate)
      && same_bytes (take (length e.head) f.bytes) e.head
      && same_bytes (take (length e.before) (drop (e.offset - length e.before) f.bytes)) e.before

  abbrev pub fresh_progress : Progress S
  fresh_progress = record { state = x.initial; offset = 0; head = []; before = [] }

  abbrev pub progress_of : Entry S → Progress S
  progress_of e = record { state = e.state; offset = e.offset; head = e.head; before = e.before }

  -- Where a scan begins, with the time of the last full scan.
  abbrev pub start_of : ℕ → File → Option (Entry S) → Progress S × ℕ
  start_of now f none = (fresh_progress, now)
  start_of now f (some e) =
      if accepts now f e then (progress_of e, e.verified_at) else (fresh_progress, now)

  abbrev pub counted : ℕ → Cache S → Cache S
  counted reused c =
      if reused == 0
      then record c { full_scans = suc c.full_scans }
      else record c { incremental_scans = suc c.incremental_scans }

  abbrev pub entry_of : File → ℕ → Progress S → Entry S
  entry_of f verified p = record {
    dev = f.dev;
    ino = f.ino;
    offset = p.offset;
    head = p.head;
    before = p.before;
    state = p.state;
    verified_at = verified;
    size = length f.bytes;
    mtime = f.mtime;
    ctime = f.ctime;
  }

  abbrev pub has_stat : Option (Entry S) → File → Bool
  has_stat none f = false
  has_stat (some e) f = e.size == length f.bytes && e.mtime == f.mtime && e.ctime == f.ctime

  -- `move_to_end`, where the key is there.
  unfoldable pub move_to_end : String → List (String × Entry S) → List (String × Entry S)
  move_to_end key es = elim (lookup key es) [ none ↦ es | some e ↦ remove key es ++ (key, e) ∷ [] ]

  -- `popitem(last=False)` while there are more than `maxsize` entries.
  unfoldable pub evict : List (String × Entry S) → List (String × Entry S)
  evict [] = []
  evict (e ∷ es) = let rest = evict es in if ltb x.maxsize (suc (length es)) then rest else e ∷ es

  -- What the second section under the lock does to the entries.
  unfoldable pub stored :
      String → File → ℕ → ℕ → Progress S → List (String × Entry S) → List (String × Entry S)
  stored key f verified reused p es = evict (
      move_to_end key (
        if p.offset == 0
        then remove key es
        else if reused == 0 || not (p.offset == reused) || not (has_stat (lookup key es) f)
        then insert key (entry_of f verified p) es
        else es))

  abbrev pub answer_of : Option S → Answer S
  answer_of none = undecodable
  answer_of (some s) = value s

  -- The torn last line counts for the answer alone.
  abbrev pub finish : List ℕ → Progress S → Answer S
  finish [] p = value p.state
  finish (b ∷ bs) p = answer_of (fold_bytes x p.state (b ∷ bs))

  abbrev pub scanned : String → File → ℕ → ℕ → Reading S → Cache S → Cache S × Answer S
  scanned key f verified reused (finished p carry) c =
      (record c { entries = stored key f verified reused p c.entries }, finish carry p)
  scanned key f verified reused undecodable c = (c, undecodable)
  scanned key f verified reused stuck c = (c, stuck)

  -- `scan`, for a path at which there is a file.
  unfoldable pub scan_file : ℕ → String → File → Cache S → Cache S × Answer S
  scan_file now key f c =
      let (p, verified) = start_of now f (lookup key c.entries) in
      scanned key f verified p.offset
        (read_blocks (suc (length f.bytes)) (drop p.offset f.bytes) [] p) (counted p.offset c)

  -- `scan`
  unfoldable pub scan : ℕ → String → Option File → Cache S → Cache S × Answer S
  scan now key none c = (c, missing)
  scan now key (some f) c = scan_file now key f c
