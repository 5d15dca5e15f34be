-- ===== src/Publisher/Tests.antt =====
-- The theorem on publications at a concrete checkpoint, and runs of the code.
use astra_sync.Prelude.{
  ℤ, pos, ◌≡◌, ◌⊎◌, [], Text, codes, is_blank, space_width, false, Result, ok, err, refl, arith,
}
use astra_sync.Wal.Storage.{Store}
use astra_sync.Wal.Writer.{Writer, new_state}
use astra_sync.Wal.Laws.Writing.{Logs}
use astra_sync.Publisher.Publish.{CheckpointRecord, PublishError, epoch_fenced, publish}
use astra_sync.Publisher.Laws.{Rejects, Publishes, publish-Publishes}

abbrev checkpoint_record : CheckpointRecord
checkpoint_record = record {
  record_job = codes "orders";
  record_epoch = pos 3;
  record_uri = codes "s3://b/1";
  completed_at = 10;
}

abbrev east_writer : Writer
east_writer = new_state (codes "east") (codes "wal") (pos 10)

abbrev no_objects : Store
no_objects = record { objects = []; faults = [] }

empty-Logs : Logs east_writer no_objects []
empty-Logs = record { numbered = tt; counted = refl; room = omega arith; written = tt; local = tt }

fenced_off :
    publish east_writer 20 false (ok (pos 4)) checkpoint_record no_objects
    ≡ (err (epoch_fenced (pos 3) (pos 4)), east_writer, no_objects)
unfolding publish is_blank space_width
fenced_off = refl

publish-Publishes_example :
    let out = publish east_writer 20 false (ok (pos 3)) checkpoint_record no_objects in
    ((x : PublishError) × Rejects (ok (pos 3)) false checkpoint_record x
      × (out ≡ (err x, east_writer, no_objects)))
    ⊎ ((◌≡◌ {A = Result Text ℤ} (ok (pos 3)) (ok (pos 3)))
        × Publishes east_writer no_objects [] 20 checkpoint_record out)
publish-Publishes_example =
    publish-Publishes east_writer no_objects [] 20 false (ok (pos 3)) checkpoint_record empty-Logs
      (omega arith)
