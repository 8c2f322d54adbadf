-- ===== src/AccessLog.antt =====
-- server/access_log.c: the last 1024 connections, in a circular array.
mod Tests
pub mod History
use socksv5_proxy.Base.{
  ℕ, ◌+◌, ◌%◌, Option, none, some, ltb, if◌then◌else◌, List, [], ◌∷◌, set, get_or, replicate,
  strncpy,
}

abbrev pub max_log_entries : ℕ
max_log_entries = 1024

-- `username` and `dest_addr` are `char[256]`.
pub record AccessEntry : Type 0 where
  pub username : List ℕ
  pub dest_addr : List ℕ
  pub dest_port : ℕ
  pub timestamp : ℕ

pub record AccessLog : Type 0 where
  pub entries : List AccessEntry
  pub count : ℕ
  pub next : ℕ

-- memset to zero.
unfoldable pub empty_entry : AccessEntry
empty_entry = record {
  username = replicate 256 0;
  dest_addr = replicate 256 0;
  dest_port = 0;
  timestamp = 0;
}

pub init : AccessLog
init = record { entries = replicate max_log_entries empty_entry; count = 0; next = 0 }

-- The text that stands for a null pointer is "-".
pub or_dash : Option (List ℕ) → List ℕ
or_dash none = b'-' ∷ 0 ∷ []
or_dash (some text) = text

-- What `access_log_add` writes over an entry; `now` is what time(NULL) returns.
pub stamped : AccessEntry → Option (List ℕ) → Option (List ℕ) → ℕ → ℕ → AccessEntry
unfolding or_dash
stamped e username dest_addr dest_port now = record {
  username = set (strncpy e.username 255 (or_dash username)) 255 0;
  dest_addr = set (strncpy e.dest_addr 255 (or_dash dest_addr)) 255 0;
  dest_port = dest_port;
  timestamp = now;
}

pub add : AccessLog → Option (List ℕ) → Option (List ℕ) → ℕ → ℕ → AccessLog
add log username dest_addr dest_port now = record {
  entries =
      set log.entries log.next
        (stamped (get_or log.entries log.next empty_entry) username dest_addr dest_port now);
  count = if ltb log.count max_log_entries then log.count + 1 else log.count;
  next = (log.next + 1) % max_log_entries;
}

pub count : AccessLog → ℕ
count log = log.count

-- The array and `*out_count`.
unfoldable pub get : AccessLog → List AccessEntry × ℕ
get log = (log.entries, log.count)

pub oldest_index : AccessLog → ℕ
oldest_index log = if ltb log.count max_log_entries then 0 else log.next
