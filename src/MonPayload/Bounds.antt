-- ===== src/MonPayload/Bounds.antt =====
-- Every payload fits behind the header of a response in a buffer of 4096 bytes.
use socksv5_proxy.Base.{
  ℕ, zero, suc, ◌+◌, ◌-◌, ◌%◌, ◌≤◌, ◌<◌, ◌≡◌, refl, sym, ap, ap₂, ◌∙◌, ltb, if◌then◌else◌, List, [],
  ◌∷◌, ◌++◌, length, length-append, length-take, take, c_str, strlen, get_or, arith, Bool-cases,
  inl, inr,
}
use socksv5_proxy.UserTable
use socksv5_proxy.UserTable.{UserTable}
use socksv5_proxy.Metrics.{Metrics}
use socksv5_proxy.AccessLog.{AccessLog, get, AccessEntry, empty_entry, oldest_index}
use socksv5_proxy.MonPayload.{
  ListCtx, list_user_cb, list_users, list_payload, put_be, metrics_payload,
  access_log_entry_encoded_len, choose, entry_bytes, encode_entries, log_payload,
}

list_user_cb_fits :
    (lc : ListCtx) (name : List ℕ)
    → 1 + length lc.bytes ≤ lc.cap
    → (1 + length (list_user_cb lc name).bytes ≤ lc.cap) × ((list_user_cb lc name).cap ≡ lc.cap)
unfolding list_user_cb
list_user_cb_fits lc name h =
    let long = take (if ltb 255 (strlen name) then 255 else strlen name) (c_str name) in
    ground (
      arith,
      length-append lc.bytes ((if ltb 255 (strlen name) then 255 else strlen name) % 256 ∷ long),
      length-take (if ltb 255 (strlen name) then 255 else strlen name) (c_str name),
    )

list_users_fits :
    (lc : ListCtx) (names : List (List ℕ))
    → 1 + length lc.bytes ≤ lc.cap
    → (1 + length (list_users lc names).bytes ≤ lc.cap)
unfolding list_users
list_users_fits lc [] h = h
list_users_fits lc (name ∷ names) h =
    let (room, same) = list_user_cb_fits lc name h in
    omega (arith, same, list_users_fits (list_user_cb lc name) names (omega (arith, same, room)))

pub list_payload_fits : (t : UserTable) → length (list_payload t) ≤ 4092
unfolding list_payload
list_payload_fits t = omega (
  arith,
  list_users_fits (record { bytes = []; cap = 4092; count = 0 }) (UserTable.list t.entries)
      (omega arith),
)

pub length-put_be : (v n : ℕ) → length (put_be v n) ≡ n
unfolding put_be
length-put_be v zero = refl
length-put_be v (suc n) = ap suc (length-put_be v n)

-- The payload of the metrics is of the length that the protocol gives it.
pub length-metrics_payload : (m : Metrics) → length (metrics_payload m) ≡ 24
unfolding metrics_payload
length-metrics_payload m = omega (
  arith,
  length-append (put_be m.historic_connections 8)
      (put_be m.current_connections 8 ++ put_be m.bytes_transferred 8),
  length-append (put_be m.historic_connections 8 ++ put_be m.current_connections 8)
      (put_be m.bytes_transferred 8),
  length-append (put_be m.historic_connections 8) (put_be m.current_connections 8),
  length-put_be m.historic_connections 8,
  length-put_be m.current_connections 8,
  length-put_be m.bytes_transferred 8,
)

entry_bytes_fits : (e : AccessEntry) → length (entry_bytes e) ≤ access_log_entry_encoded_len e
unfolding entry_bytes access_log_entry_encoded_len
entry_bytes_fits e = omega (
  arith,
  length-take (strlen e.username % 256) e.username,
  length-take (strlen e.dest_addr % 256) e.dest_addr,
  length-append (take (strlen e.username % 256) e.username)
      (strlen e.dest_addr % 256 ∷ take (strlen e.dest_addr % 256) e.dest_addr),
)

-- The entries from one step further on.
encode_entries-shift :
    (n : ℕ) (es : List AccessEntry) (a i : ℕ)
    → encode_entries n es a (i + 1) ≡ encode_entries n es ((a + 1) % 1024) i
unfolding encode_entries
encode_entries-shift zero es a i = refl
encode_entries-shift (suc n) es a i =
    ap₂ (λ j t. entry_bytes (get_or es j empty_entry) ++ t) (omega arith)
      (encode_entries-shift n es a (i + 1))

encode_entries-back :
    (n : ℕ) (es : List AccessEntry) (idx start : ℕ)
    → idx < 1024
    → start ≡ (idx + 1) % 1024
    → encode_entries (suc n) es idx 0
      ≡ entry_bytes (get_or es idx empty_entry) ++ encode_entries n es start 0
unfolding encode_entries
encode_entries-back n es idx start h e =
    ap₂ (λ j t. entry_bytes (get_or es j empty_entry) ++ t) (omega arith)
      (encode_entries-shift n es idx 0 ∙ ap (λ a. encode_entries n es a 0) (sym e))

-- What `choose` picks is no longer than what it counted, and that is within the limit.
choose_fits :
    (fuel : ℕ) (es : List AccessEntry) (newest count off start encoded : ℕ)
    → newest < 1024
    → count ≤ 1024
    → encoded ≤ count
    → start ≡ (newest + 1024 - encoded) % 1024
    → off ≤ 4092
    → 2 + length (encode_entries encoded es start 0) ≤ off
    → let (start', encoded') = choose fuel es newest count off start encoded in
      2 + length (encode_entries encoded' es start' 0) ≤ 4092
unfolding choose
choose_fits zero es newest count off start encoded n c e s o h = omega arith
choose_fits (suc fuel) es newest count off start encoded n c e s o h =
    elim (Bool-cases (ltb encoded count)) [
      | inl more ↦ rw more (elim (Bool-cases (ltb 4092 (off + size))) [
        | inl full ↦ rw full (omega arith)
        | inr room ↦ rw room (
            choose_fits fuel es newest count (off + size) idx ((encoded + 1) % 65536) n c
              (ground arith) (ground arith) (ground arith) (longer (ground arith)))
      ])
      | inr all ↦ rw all (omega arith)
    ]
  where
    idx : ℕ
    idx = (newest + 1024 - 1 - encoded) % 1024

    size : ℕ
    size = access_log_entry_encoded_len (get_or es idx empty_entry)

    longer :
        encoded < count → 2 + length (encode_entries ((encoded + 1) % 65536) es idx 0) ≤ off + size
    longer lt =
        let next : (encoded + 1) % 65536 ≡ suc encoded = omega arith in
        rw (next, encode_entries-back encoded es idx start (omega arith) (omega arith))
          (omega (
            arith,
            length-append (entry_bytes (get_or es idx empty_entry))
                (encode_entries encoded es start 0),
            entry_bytes_fits (get_or es idx empty_entry),
          ))

pub log_payload_fits : (log : AccessLog) → log.count ≤ 1024 → length (log_payload log) ≤ 4092
unfolding log_payload get encode_entries
log_payload_fits log h =
    let newest = (oldest_index log + log.count) % 1024 in
    let (start, encoded) = choose log.count log.entries newest log.count 2 newest 0 in
    omega (
      arith,
      length-append (put_be encoded 2) (encode_entries encoded log.entries start 0),
      length-put_be encoded 2,
      choose_fits log.count log.entries newest log.count 2 newest 0 (omega arith) h (omega arith)
          (omega arith) (omega arith) (omega arith),
    )
