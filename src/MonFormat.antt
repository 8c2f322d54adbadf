-- ===== src/MonFormat.antt =====
-- client/mon_client.c: what the client prints for the payload of a response. A line of output is
-- what it shows, not its text; the time of a line of the log is the number that gmtime_r(3) gets.
pub mod Shown
mod Tests
use socksv5_proxy.Base.{
  ℕ, zero, suc, ◌+◌, ◌*◌, ◌%◌, ◌^◌, Bool, true, false, Option, none, some, ltb, leb, ◌==◌, not,
  ◌&&◌, if◌then◌else◌, List, [], ◌∷◌, ◌++◌, take, drop, get_or, c_str,
}

pub data Line : Type 0 where
  historic_line current_line bytes_line : ℕ → Line
  user_line added_line deleted_line : List ℕ → Line
  log_line : ℕ → List ℕ → List ℕ → ℕ → Line
  no_users_line empty_log_line : Line

pub be_u16 : List ℕ → ℕ
be_u16 p = (get_or p 0 0 * 2 ^ 8 + get_or p 1 0) % 2 ^ 16

-- The loop of `be_u64` over the next `n` bytes; `v` is a uint64_t.
pub be_loop : ℕ → ℕ → List ℕ → ℕ
be_loop zero v p = v
be_loop (suc n) v p = be_loop n ((v * 2 ^ 8) % 2 ^ 64 + get_or p 0 0) (drop 1 p)

pub be_u64 : List ℕ → ℕ
unfolding be_loop
be_u64 p = be_loop 8 0 p

-- What "%.*s" prints of `n` bytes.
abbrev pub printed : ℕ → List ℕ → List ℕ
printed n p = c_str (take n p)

-- The lines, and whether the result is 0.
pub mon_format_metrics : Option (List ℕ) → ℕ → List Line × Bool
unfolding be_u64
mon_format_metrics none len = ([], false)
mon_format_metrics (some p) len = if not (len == 24) then ([], false) else (
  historic_line (be_u64 p)
      ∷ current_line (be_u64 (drop 8 p))
      ∷ bytes_line (be_u64 (drop 16 p))
      ∷ [],
  true,
)

-- The loop of `mon_format_users`, for `n` more names.
pub format_names : ℕ → List ℕ → ℕ → ℕ → List Line × Bool
format_names zero p len off = ([], true)
format_names (suc n) p len off =
    let nl = get_or p off 0 in
    let (lines, ok) = format_names n p len (off + 1 + nl) in
    if leb len off
    then ([], false)
    else if ltb len (off + 1 + nl)
    then ([], false)
    else (user_line (printed nl (drop (off + 1) p)) ∷ lines, ok)

pub mon_format_users : Option (List ℕ) → ℕ → List Line × Bool
unfolding format_names
mon_format_users none len = ([], false)
mon_format_users (some p) len =
    let count = get_or p 0 0 in
    let (lines, ok) = format_names count p len 1 in
    if ltb len 1
    then ([], false)
    else if ok && (count == 0)
    then (lines ++ no_users_line ∷ [], true)
    else (lines, ok)

-- The loop of `mon_format_access_log`, for `n` more entries.
pub format_entries : ℕ → List ℕ → ℕ → ℕ → List Line × Bool
unfolding be_u16 be_u64
format_entries zero p len off = ([], true)
format_entries (suc n) p len off =
    let ts = be_u64 (drop off p) in
    let port = be_u16 (drop (off + 8) p) in
    let ul = get_or p (off + 10) 0 in
    let al = get_or p (off + 11 + ul) 0 in
    let (lines, ok) = format_entries n p len (off + 12 + ul + al) in
    if ltb len (off + 8 + 2 + 1)
    then ([], false)
    else if ltb len (off + 11 + ul + 1)
    then ([], false)
    else if ltb len (off + 12 + ul + al)
    then ([], false)
    else (
      log_line ts (printed ul (drop (off + 11) p)) (printed al (drop (off + 12 + ul) p)) port
          ∷ lines,
      ok,
    )

pub mon_format_access_log : Option (List ℕ) → ℕ → List Line × Bool
unfolding be_u16 format_entries
mon_format_access_log none len = ([], false)
mon_format_access_log (some p) len =
    let count = be_u16 p in
    let (lines, ok) = format_entries count p len 2 in
    if ltb len 2
    then ([], false)
    else if ok && (count == 0)
    then (lines ++ empty_log_line ∷ [], true)
    else (lines, ok)
