-- ===== src/MonPayload.antt =====
-- server/mon_nio.c: the payloads of the responses of the monitoring protocol.
pub mod Bounds
use socksv5_proxy.Base.{
  ℕ, zero, suc, ◌+◌, ◌-◌, ◌*◌, ◌/◌, ◌%◌, ◌^◌, Bool, true, false, not, Option, none, some, ltb, leb,
  ◌==◌, ◌&&◌, ◌>>=◌, if◌then◌else◌, List, [], ◌∷◌, ◌++◌, length, take, drop, get_or, c_str, strlen,
  copy_to, ℤ, pos, negsuc,
}
use socksv5_proxy.UserTable
use socksv5_proxy.UserTable.{UserTable}
use socksv5_proxy.Metrics.{Metrics}
use socksv5_proxy.AccessLog
use socksv5_proxy.AccessLog.{AccessLog, AccessEntry, max_log_entries, empty_entry}
use socksv5_proxy.MonProtocol.{mon_response_header_len}

abbrev pub mon_io_buf_size : ℕ
mon_io_buf_size = 4096

abbrev pub mon_response_payload_max : ℕ
mon_response_payload_max = mon_io_buf_size - mon_response_header_len

-- The `n` bytes of the number, the highest one first.
unfoldable pub put_be : ℕ → ℕ → List ℕ
put_be v zero = []
put_be v (suc n) = (v / 2 ^ (8 * n)) % 2 ^ 8 ∷ put_be v n

-- `struct list_ctx`: `bytes` are those of `buf` from offset 1 on, so `offset` is one more.
pub record ListCtx : Type 0 where
  pub bytes : List ℕ
  pub cap : ℕ
  pub count : ℕ

unfoldable pub list_user_cb : ListCtx → List ℕ → ListCtx
list_user_cb lc name =
    let len = if ltb 255 (strlen name) then 255 else strlen name in
    let offset = 1 + length lc.bytes in
    if leb (offset + len + 1) lc.cap
    then record lc {
      bytes = lc.bytes ++ (len % 256 ∷ take len (c_str name));
      count = if ltb lc.count 255 then lc.count + 1 else lc.count;
    }
    else lc

-- The calls that `user_table_list` makes of it.
unfoldable pub list_users : ListCtx → List (List ℕ) → ListCtx
unfolding list_user_cb
list_users lc [] = lc
list_users lc (name ∷ names) = list_users (list_user_cb lc name) names

pub access_log_entry_encoded_len : AccessEntry → ℕ
access_log_entry_encoded_len e = (8 + 2 + 1 + 1) + strlen e.username + strlen e.dest_addr

-- The first loop of GET_ACCESS_LOG, on fuel, from the newest entry back: `start` and `encoded`.
choose : ℕ → List AccessEntry → ℕ → ℕ → ℕ → ℕ → ℕ → ℕ × ℕ
choose zero es newest count off start encoded = (start, encoded)
choose (suc fuel) es newest count off start encoded =
    let idx = (newest + max_log_entries - 1 - encoded) % max_log_entries in
    let entry_len = access_log_entry_encoded_len (get_or es idx empty_entry) in
    let rest = choose fuel es newest count (off + entry_len) idx ((encoded + 1) % 2 ^ 16) in
    if ltb encoded count
    then (if ltb mon_response_payload_max (off + entry_len) then (start, encoded) else rest)
    else (start, encoded)

entry_bytes : AccessEntry → List ℕ
unfolding put_be
entry_bytes e =
    put_be e.timestamp 8
    ++ put_be e.dest_port 2
    ++ (strlen e.username % 256 ∷ take (strlen e.username % 256) e.username)
    ++ (strlen e.dest_addr % 256 ∷ take (strlen e.dest_addr % 256) e.dest_addr)

-- The second loop: `n` entries from `i` steps behind `start` on.
encode_entries : ℕ → List AccessEntry → ℕ → ℕ → List ℕ
encode_entries zero es start i = []
encode_entries (suc n) es start i =
    entry_bytes (get_or es ((start + i) % max_log_entries) empty_entry)
    ++ encode_entries n es start (i + 1)

-- The payloads of the three requests that read something.
unfoldable pub list_payload : UserTable → List ℕ
unfolding list_users
list_payload t =
    let lc =
      list_users (record { bytes = []; cap = mon_response_payload_max; count = 0 })
        (UserTable.list t.entries) in
    lc.count ∷ lc.bytes

unfoldable pub metrics_payload : Metrics → List ℕ
metrics_payload m =
    put_be m.historic_connections 8
    ++ put_be m.current_connections 8
    ++ put_be m.bytes_transferred 8

-- The fuel of `choose` is the number of entries.
pub log_payload : AccessLog → List ℕ
log_payload log =
    let (entries, count) = AccessLog.get log in
    let newest = (AccessLog.oldest_index log + count) % max_log_entries in
    let (start, encoded) = choose count entries newest count 2 newest 0 in
    put_be encoded 2 ++ encode_entries encoded entries start 0
