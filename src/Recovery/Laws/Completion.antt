-- ===== src/Recovery/Laws/Completion.antt =====
-- Recoveries that go through.
use astra_sync.Recovery.Record.{Recovery}
