-- ===== src/Recovery/Laws/Calls.antt =====
-- A whole call of `Recover`.
use astra_sync.Prelude.{ℤ, ◌≡◌, Text, is_blank, true, none, is_neg}
use astra_sync.Recovery.Manager.{Sources}

-- Why a recovery does not begin.
pub data Missing (v : Sources) (job : Text) (epoch : ℤ) : Type 0 where
  no_job : is_blank job ≡ true → Missing v job epoch
  no_epoch : is_neg epoch ≡ true → Missing v job epoch
  no_log : v.latest ≡ none → Missing v job epoch
  no_validator : v.validator ≡ none → Missing v job epoch
  no_restorer : v.restorer ≡ none → Missing v job epoch
  no_storage : v.storage ≡ none → Missing v job epoch
