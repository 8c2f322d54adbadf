-- ===== src/MonFormat/Tests.antt =====
-- Instances of the theorems on what is shown, and a line of the log.
use socksv5_proxy.Base.{◌≡◌, refl, true, some, [], ◌∷◌, length, arith}
use socksv5_proxy.Metrics.{Metrics}
use socksv5_proxy.UserTable
use socksv5_proxy.UserTable.{UserTable}
use socksv5_proxy.MonPayload.{metrics_payload, list_payload}
use socksv5_proxy.MonFormat.{
  historic_line, current_line, bytes_line, log_line, mon_format_metrics, mon_format_users,
  mon_format_access_log, format_entries, be_u16, be_u64, be_loop,
}
use socksv5_proxy.MonFormat.Shown.{metrics_shown, users_shown, shown_users, AllShort}

abbrev counters : Metrics
counters = record { historic_connections = 300; current_connections = 2; bytes_transferred = 70000 }

metrics_shown_example :
    mon_format_metrics (some (metrics_payload counters)) (length (metrics_payload counters))
    ≡ (historic_line 300 ∷ current_line 2 ∷ bytes_line 70000 ∷ [], true)
metrics_shown_example = metrics_shown counters (omega arith) (omega arith) (omega arith)

abbrev one_user : UserTable
one_user = record UserTable.init {
  entries = record { name = 98 ∷ 111 ∷ 98 ∷ 0 ∷ []; pass = 112 ∷ 0 ∷ []; active = true } ∷ [];
  count = 1;
}

users_shown_example :
    mon_format_users (some (list_payload one_user)) (length (list_payload one_user))
    ≡ (shown_users (UserTable.list one_user.entries), true)
unfolding UserTable.list AllShort
users_shown_example = users_shown one_user (omega arith) (omega arith, tt)

-- An entry of user "u" for "h" on port 80.
log_shown :
    mon_format_access_log
      (some (0 ∷ 1 ∷ 0 ∷ 0 ∷ 0 ∷ 0 ∷ 0 ∷ 0 ∷ 1 ∷ 5 ∷ 0 ∷ 80 ∷ 1 ∷ 117 ∷ 1 ∷ 104 ∷ []))
      16
    ≡ (log_line 261 (117 ∷ []) (104 ∷ []) 80 ∷ [], true)
unfolding mon_format_access_log format_entries be_u16 be_u64 be_loop
log_shown = refl
