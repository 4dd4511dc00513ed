-- ===== src/Container/Status.antt =====
-- internal/container/status.go. The mutex makes each method one step. A time is in nanoseconds, and
-- `none` is time.Time{}.
use gopanel.Common.{ℕ, List, [], Option, none, some, Bytes}
use gopanel.Common.Assoc.{lookup, insert}

pub data StatusState : Type 0 where
  not_checked checking connected unavailable : StatusState

pub record Status : Type 0 where
  pub server_id : Bytes
  pub state : StatusState
  pub checked_at : Option ℕ
  pub error_reference : Bytes

pub record StatusCache : Type 0 where
  pub statuses : List (Bytes × Status)

unfoldable pub new_status_cache : StatusCache
new_status_cache = record { statuses = [] }

abbrev pub status_or_not_checked : Bytes → Option Status → Status
status_or_not_checked server_id none = record {
  server_id = server_id;
  state = not_checked;
  checked_at = none;
  error_reference = [];
}
status_or_not_checked server_id (some status) = status

unfoldable pub get_status : StatusCache → Bytes → Status
get_status cache server_id = status_or_not_checked server_id (lookup server_id cache.statuses)

unfoldable pub store_status : StatusCache → Status → StatusCache
store_status cache status = record cache {
  statuses = insert status.server_id status cache.statuses;
}

unfoldable pub mark_checking : StatusCache → Bytes → StatusCache
unfolding store_status
mark_checking cache server_id =
    store_status cache
      (record { server_id = server_id; state = checking; checked_at = none; error_reference = [] })

unfoldable pub mark_connected : StatusCache → Bytes → ℕ → StatusCache
unfolding store_status
mark_connected cache server_id checked_at = store_status cache (record {
  server_id = server_id;
  state = connected;
  checked_at = some checked_at;
  error_reference = [];
})

unfoldable pub mark_unavailable : StatusCache → Bytes → ℕ → Bytes → StatusCache
unfolding store_status
mark_unavailable cache server_id checked_at reference = store_status cache (record {
  server_id = server_id;
  state = unavailable;
  checked_at = some checked_at;
  error_reference = reference;
})
