-- ===== src/Container/Summary.antt =====
-- internal/container/handler.go, `PrepareSummaryModel`: what a page shows of a server's status. The
-- format of time.RFC3339 is a parameter.
use gopanel.Common.{ℕ, Option, Bytes, codes, ◌++◌}
use gopanel.Container.Status.{StatusState, not_checked, checking, connected, unavailable, Status}

pub record DockerSummaryModel : Type 0 where
  pub server_id : Bytes
  pub state : Bytes
  pub status_label : Bytes
  pub freshness : Bytes
  pub error_reference : Bytes
  pub csrf_token : Bytes
  pub success_message : Bytes

-- The constants of `StatusState`
abbrev pub state_text : StatusState → Bytes
state_text not_checked = codes "not_checked"
state_text checking = codes "checking"
state_text connected = codes "connected"
state_text unavailable = codes "unavailable"

module _ (format : Option ℕ → Bytes) where
  unfoldable pub status_presentation : StatusState → (checked_at : Option ℕ) → Bytes × Bytes
  status_presentation checking at =
      (codes "Checking Docker", codes "The current check has not completed yet.")
  status_presentation connected at = (codes "Docker connected", codes "Checked " ++ format at)
  status_presentation unavailable at = (codes "Docker unavailable", codes "Checked " ++ format at)
  status_presentation not_checked at =
      (codes "Docker not checked", codes "Waiting for the first process-local status check.")

  unfoldable pub prepare_summary_model :
      (server_id : Bytes) → Status → (token success_message : Bytes) → DockerSummaryModel
  unfolding status_presentation
  prepare_summary_model server_id status token success_message =
      let (label, freshness) = status_presentation status.state status.checked_at in
      record {
        server_id = server_id;
        state = state_text status.state;
        status_label = label;
        freshness = freshness;
        error_reference = status.error_reference;
        csrf_token = token;
        success_message = success_message;
      }
