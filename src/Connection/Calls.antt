-- ===== src/Connection/Calls.antt =====
-- A repository of control-plane/connection/memory under any sequence of calls that change it.
use astra_sync.Prelude.{ℤ, Text, List, [], ◌∷◌}
use astra_sync.Job.Status.{Time}
use astra_sync.Connection.Policy.{Outside}
use astra_sync.Connection.Operation.{Completion}
use astra_sync.Connection.Mutation.{Mutation, ReferenceCounts}
use astra_sync.Connection.Store.{Repository, set_reference_counts}
use astra_sync.Connection.Apply.{apply}
use astra_sync.Connection.Expiry.{expire_tests}
use astra_sync.Connection.Claims.{claim_tests, complete_test}

-- The calls with their arguments; a time is the one at which the call is made.
pub data Call : Type 0 where
  apply_call : Mutation → Call
  claim_call : Text → ℤ → ℤ → Time → Call
  complete_call : Text → Text → Completion → Time → Call
  expire_call : Time → Call
  references_call : Text → ReferenceCounts → Call

module _ (o : Outside) where
  unfoldable pub perform : Repository → Call → Repository
  perform r (apply_call m) = let (_, s) = apply o r m in s
  perform r (claim_call executor limit lease now) =
      let (_, s) = claim_tests o r executor limit lease now in s
  perform r (complete_call id executor c now) =
      let (_, s) = complete_test o r id executor c now in s
  perform r (expire_call now) = let (_, s) = expire_tests r now in s
  perform r (references_call uid counts) = set_reference_counts r uid counts

  unfoldable pub perform_all : Repository → List Call → Repository
  perform_all r [] = r
  perform_all r (c ∷ cs) = perform_all (perform r c) cs
