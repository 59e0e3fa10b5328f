-- ===== src/Replay/Samples.antt =====
-- src/obs_agent/jsonl_replay.py: rows for the tests.
use recursive_harness_builde.Prelude.{ℕ, Option, false, List}
use recursive_harness_builde.Replay.Rows.{Kind, Block, Row}

abbrev pub row : Option ℕ → Option ℕ → Kind → Option ℕ → List Block → Row
row u p k m bs = record {
  uuid = u;
  parent = p;
  kind = k;
  is_sidechain = false;
  timestamp = 0;
  message_id = m;
  content = bs;
  is_api_error = false;
  is_synthetic = false;
}
