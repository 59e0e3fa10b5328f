-- ===== src/CacheGate/Search.antt =====
-- src/obs_agent/cache_gate.py: `find_passing_report` over the reports that could be read, and the
-- decision of `check`. What git says of the code is an argument.
use recursive_harness_builde.Prelude.{
  ℕ, String, Option, none, some, Bool, true, false, ◌&&◌, not, List, [], ◌∷◌, ◌++◌, map, leb,
  contains, ◌==◌, string_eq, if◌then◌else◌, is_empty, is_some,
}
use recursive_harness_builde.CacheGate.Reports.{Report, Identity, same_code, text_eq}
use recursive_harness_builde.CacheGate.Matching.{report_matches}

-- An entry of `loaded`; the directory tells report objects apart.
pub record Loaded : Type 0 where
  pub mtime : ℕ
  pub directory : String
  pub report : Report

unfoldable pub put_newest : Loaded → List Loaded → List Loaded
put_newest l [] = l ∷ []
put_newest l (k ∷ ks) = if leb k.mtime l.mtime then l ∷ k ∷ ks else k ∷ put_newest l ks

-- `loaded.sort(key=…, reverse=True)`, which keeps the order of equal times
unfoldable pub newest_first : List Loaded → List Loaded
unfolding put_newest
newest_first [] = []
newest_first (l ∷ ls) = put_newest l (newest_first ls)

unfoldable pub put_oldest : Loaded → List Loaded → List Loaded
put_oldest l [] = l ∷ []
put_oldest l (k ∷ ks) = if leb l.mtime k.mtime then l ∷ k ∷ ks else k ∷ put_oldest l ks

-- `sorted(loaded, key=…)`
unfoldable pub oldest_first : List Loaded → List Loaded
unfolding put_oldest
oldest_first [] = []
oldest_first (l ∷ ls) = put_oldest l (oldest_first ls)

-- The condition of the comprehension that collects the reruns.
abbrev pub is_rerun : Identity → Loaded → Loaded → Bool
is_rerun target l k =
    leb l.mtime k.mtime && not (k.directory == l.directory) && same_code k.report target

unfoldable pub kept_among : Identity → Loaded → List Loaded → List Loaded
kept_among target l [] = []
kept_among target l (k ∷ ks) =
    if is_rerun target l k then k ∷ kept_among target l ks else kept_among target l ks

-- `reruns`, oldest first
abbrev pub reruns_of : Identity → List Loaded → Loaded → List Report
reruns_of target loaded l = map (λ k. k.report) (kept_among target l (oldest_first loaded))

unfoldable pub first_match : Identity → List Loaded → List Loaded → Option String
first_match target loaded [] = none
first_match target loaded (l ∷ ls) =
    if report_matches l.report target (reruns_of target loaded l)
    then some l.directory
    else first_match target loaded ls

-- `find_passing_report`
unfoldable pub find_passing_report : Identity → List Loaded → Option String
unfolding newest_first first_match
find_passing_report target read = let loaded = newest_first read in first_match target loaded loaded

-- The keys of the running record that `check` reads.
pub record Running : Type 0 where
  pub head : Option String
  pub dirty : Option String
  pub cliproxy : Option String

-- What git says: the files with a marker in the target, those in another commit, if there is such a
-- commit, and the files changed since it.
pub record Repository : Type 0 where
  pub sensitive : List String
  pub sensitive_at : String → Option (List String)
  pub changed_since : String → Option (List String)

abbrev pub head_of : Running → Option String
head_of r =
    if text_eq r.dirty none then r.head else if text_eq r.dirty (some "clean") then r.head else none

-- `base`, as given or from the running record
abbrev pub base_of : Option String → Option Running → Option String
base_of (some b) running = some b
base_of none none = none
base_of none (some r) = head_of r

-- `changed_files`
abbrev pub changed_files : Repository → Option String → Option (List String)
changed_files repo none = none
changed_files repo (some base) = if base == "" then none else repo.changed_since base

abbrev pub added : Option (List String) → List String → List String
added none files = files
added (some more) files = files ++ more

abbrev pub sensitive_of : Repository → Option String → List String
sensitive_of repo none = repo.sensitive
sensitive_of repo (some base) =
    if base == "" then repo.sensitive else added (repo.sensitive_at base) repo.sensitive

unfoldable pub both : List String → List String → List String
both [] ys = []
both (x ∷ xs) ys = if contains ys x then x ∷ both xs ys else both xs ys

abbrev cliproxy_file : String
cliproxy_file = "CLIProxyAPI (/workspace/runtime/cliproxy binary or config)"

abbrev pub differ : Option String → Option String → Bool
differ none b = false
differ (some a) none = false
differ (some a) (some b) = not (a == "") && not (b == "") && not (a == b)

-- Both know a CLIProxyAPI, and it is not the same.
unfoldable pub proxy_changed : Option Running → Identity → Bool
proxy_changed none target = false
proxy_changed (some r) target = differ r.cliproxy target.cliproxy

-- `touched`, in no particular order and with repetitions
unfoldable pub touched_files :
    Option (List String) → List String → Option Running → Identity → List String
touched_files changed sensitive running target =
    (elim changed as (λ _. List String) [ none ↦ sensitive | some files ↦ both files sensitive ])
    ++ (if proxy_changed running target then cliproxy_file ∷ [] else [])

pub record GateResult : Type 0 where
  pub ok : Bool
  pub touched : List String
  pub report : Option String

-- `check`; `read` are the reports that could be read. The repository and the target are those of the
-- candidate where `OBS_CACHE_GATE_RELEASE` names the repository and no target is given.
unfoldable pub check :
    Repository → Identity → Option String → Option Running → List Loaded → GateResult
check repo target base running read =
    let at = base_of base running in
    let changed = changed_files repo at in
    let touched = touched_files changed (sensitive_of repo at) running target in
    if is_some changed && is_empty touched
    then record { ok = true; touched = []; report = none }
    else elim (find_passing_report target read) [
      | some directory ↦ record { ok = true; touched = touched; report = some directory }
      | none ↦ record { ok = false; touched = touched; report = none }
    ]
