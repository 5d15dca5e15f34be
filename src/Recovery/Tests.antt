-- ===== src/Recovery/Tests.antt =====
-- The theorems on recoveries at a concrete checkpoint.
use astra_sync.Prelude.{
  ℕ, pos, List, [], ◌∷◌, Text, text_eq, codes, Option, none, some, Result, ok, err, if◌then◌else◌,
}
use astra_sync.Recovery.Record.{CheckpointFile, Manifest}
use astra_sync.Recovery.Manager.{Sources}

abbrev job : Text
job = codes "orders"

-- The content for which CRC-32C has its published check value.
abbrev digits : List ℕ
digits = codes "123456789"

abbrev state_file : CheckpointFile
state_file = record {
  file_name = codes "state";
  file_uri = codes "s3://b/state";
  file_size = pos 9;
  file_crc = 0xe3069283;
}

abbrev latest_manifest : Manifest
latest_manifest = record {
  manifest_job = job;
  manifest_epoch = pos 4;
  manifest_sequence = pos 7;
  manifest_uri = codes "s3://b/manifest";
  files = state_file ∷ [];
  manifest_created = 10;
  manifest_crc = 0;
}

abbrev stored : Text → Result Text (List ℕ)
stored uri = if text_eq uri (codes "s3://b/state") then ok digits else err (codes "missing")

abbrev accepts : Manifest → Option Text
accepts m = none

abbrev all_sources : Sources
all_sources = record {
  latest = some (ok (some latest_manifest));
  storage = some stored;
  parser = none;
  validator = some accepts;
  restorer = some accepts;
}
