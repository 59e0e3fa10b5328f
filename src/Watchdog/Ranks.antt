-- ===== src/Watchdog/Ranks.antt =====
-- src/obs_agent/spark_watchdog.py: `observe_ranks`.
use recursive_harness_builde.Prelude.{
  ℕ, zero, suc, ◌+◌, ◌-◌, String, Option, none, some, Bool, true, false, ◌&&◌, not, List, [], ◌∷◌,
  ◌++◌, ltb, leb, length, contains, lookup, insert, ◌==◌, nat_eq, string_eq, if◌then◌else◌,
}
use recursive_harness_builde.Watchdog.Detector.{
  Detector, RankInfo, Summary, History, crashloop_window, gpu_temp_warn, hardware_xids, get_at,
}

abbrev pub drop : ℕ → List ℕ → List ℕ
drop zero xs = xs
drop (suc n) [] = []
drop (suc n) (x ∷ xs) = drop n xs

-- `sorted(set(xs))`
put_sorted : ℕ → List ℕ → List ℕ
put_sorted x [] = x ∷ []
put_sorted x (y ∷ ys) =
    if x == y then y ∷ ys else if ltb x y then x ∷ y ∷ ys else y ∷ put_sorted x ys

sorted_set : List ℕ → List ℕ
unfolding put_sorted
sorted_set [] = []
sorted_set (x ∷ xs) = put_sorted x (sorted_set xs)

-- `[x for x in xs if x in HARDWARE_XIDS]`
hardware : List ℕ → List ℕ
hardware [] = []
hardware (x ∷ xs) = if contains hardware_xids x then x ∷ hardware xs else hardware xs

-- `dict.setdefault(host, n)`, the value read
abbrev pub set_default : Option ℕ → ℕ → ℕ
set_default none n = n
set_default (some b) n = b

abbrev pub is_hot : RankInfo → Bool
is_hot info = leb gpu_temp_warn (get_at info.gpu_temp)

abbrev pub was_hot : Option Summary → Bool
was_hot none = false
was_hot (some s) = s.hot

note_memory : String → Option ℕ → Detector → Detector
note_memory host none d = d
note_memory host (some m) d = record d { mem = insert host m d.mem }

-- The out-of-memory kills of one host: a count that grew is new, one that fell is a reboot.
unfoldable pub note_oom : String → Option ℕ → Detector → Detector
note_oom host none d = d
note_oom host (some n) d =
    if ltb (set_default (lookup host d.oom_base) n) n
    then record d {
      new_oom = insert host (n - set_default (lookup host d.oom_base) n) d.new_oom;
      oom_base = insert host n d.oom_base;
    }
    else record d { oom_base = insert host n d.oom_base }

-- The codes past those seen before; a list that became shorter is a reboot.
abbrev pub fresh_codes : Option ℕ → List ℕ → List ℕ
fresh_codes none xs = []
fresh_codes (some seen) xs = drop seen xs

unfoldable pub note_xids : String → Option (List ℕ) → Detector → Detector
unfolding hardware sorted_set
note_xids host none d = d
note_xids host (some xs) d =
    let new = hardware (fresh_codes (lookup host d.xid_base) xs) in
    let d' = record d { xid_base = insert host (length xs) d.xid_base } in
    elim new [
      | [] ↦ d'
      | x ∷ xs' ↦ record d' { new_hw_xid = insert host (sorted_set (x ∷ xs')) d.new_hw_xid }
    ]

-- `while hist and now - hist[0][0] > CRASHLOOP_WINDOW: hist.pop(0)`
unfoldable pub trim : ℕ → History → History
trim now [] = []
trim now (e ∷ h) = elim (ltb (e.0 + crashloop_window) now) [ true ↦ trim now h | false ↦ e ∷ h ]

abbrev pub history_of : Option History → History
history_of none = []
history_of (some h) = h

unfoldable pub note_restarts : ℕ → String → Option ℕ → Detector → Detector
unfolding trim
note_restarts now host none d = d
note_restarts now host (some n) d = record d {
  rank_history =
      insert host (trim now (history_of (lookup host d.rank_history) ++ (now, n) ∷ []))
        d.rank_history;
}

-- One host of `observe_ranks`, and whether the event `gpu_temperature` is written.
unfoldable pub observe_rank : ℕ → String → Option RankInfo → Detector → Detector × Bool
unfolding note_memory note_oom note_xids note_restarts
observe_rank now host none d = (d, false)
observe_rank now host (some info) d =
    let summary : Summary = record { info = info; hot = is_hot info } in
    let d' = record d { hosts = insert host summary d.hosts } in
    (
      note_restarts now host info.restart_count (
          note_xids host info.xids
            (note_oom host info.oom_kills (note_memory host info.mem_available d'))),
      is_hot info && not (was_hot (lookup host d.hosts)),
    )

unfoldable pub observe_ranks : ℕ → List (String × Option RankInfo) → Detector → Detector
unfolding observe_rank
observe_ranks now [] d = d
observe_ranks now ((host, info) ∷ ranks) d =
    observe_ranks now ranks (observe_rank now host info d).0
