-- ===== src/AccessLog/History.antt =====
-- The circular array is the list of the most recent connections, oldest first.
use mathlib.Core.List.{map, map-append}
use socksv5_proxy.Base.{
  ℕ, zero, suc, ◌+◌, ◌%◌, ◌≤◌, ◌<◌, ◌≡◌, ◌≢◌, refl, sym, ap, ap₂, ◌∙◌, Option, ltb, ltb→lt,
  if◌then◌else◌, List, [], ◌∷◌, ◌++◌, set, get_or, take, length, length-set, length-strncpy,
  length-replicate, length-append, strncpy_text, c_str, arith, Bool-cases, inl, inr, replicate,
}
use socksv5_proxy.AccessLog.{
  AccessLog, AccessEntry, empty_entry, init, add, stamped, oldest_index, or_dash,
}

-- `n` entries from index `h` on, going round at 1024.
window : List AccessEntry → ℕ → ℕ → List AccessEntry
window es h zero = []
window es h (suc n) = get_or es h empty_entry ∷ window es ((h + 1) % 1024) n

get_or-set_self :
    (es : List AccessEntry) (i : ℕ) (e : AccessEntry)
    → i < length es
    → get_or (set es i e) i empty_entry ≡ e
get_or-set_self [] i e h = absurd (omega arith)
get_or-set_self (x ∷ es) zero e h = refl
get_or-set_self (x ∷ es) (suc i) e h = get_or-set_self es i e (omega arith)

get_or-set_ne :
    (es : List AccessEntry) (i j : ℕ) (e : AccessEntry)
    → i ≢ j
    → get_or (set es i e) j empty_entry ≡ get_or es j empty_entry
get_or-set_ne [] i j e h = refl
get_or-set_ne (x ∷ es) zero zero e h = absurd (h refl)
get_or-set_ne (x ∷ es) zero (suc j) e h = refl
get_or-set_ne (x ∷ es) (suc i) zero e h = refl
get_or-set_ne (x ∷ es) (suc i) (suc j) e h = get_or-set_ne es i j e (λ q. h (ap suc q))

-- A write just behind a window that does not go all the way round extends it.
window-set :
    (es : List AccessEntry) (n h j : ℕ) (e : AccessEntry)
    → length es ≡ 1024
    → h < 1024
    → n < 1024
    → j ≡ (h + n) % 1024
    → window (set es j e) h (suc n) ≡ window es h n ++ (e ∷ [])
unfolding window
window-set es zero h j e l lh ln ej =
    let q : j ≡ h = omega arith in rw q (ap (λ x. x ∷ []) (get_or-set_self es h e (omega arith)))
window-set es (suc n) h j e l lh ln ej =
    ap₂ ◌∷◌ (get_or-set_ne es j h e (omega arith))
      (window-set es n ((h + 1) % 1024) j e l (omega arith) (omega arith) (omega arith))

-- One connection as a reader of the log sees it.
pub record Line : Type 0 where
  pub user : List ℕ
  pub addr : List ℕ
  pub port : ℕ
  pub time : ℕ

line : AccessEntry → Line
line e = record {
  user = c_str e.username;
  addr = c_str e.dest_addr;
  port = e.dest_port;
  time = e.timestamp;
}

pub history : AccessLog → List Line
history log = map line (window log.entries (oldest_index log) log.count)

abbrev pub HasRoom : List AccessEntry → Type 0
HasRoom [] = Unit
HasRoom (e ∷ es) = (length e.username ≡ 256) × (length e.dest_addr ≡ 256) × HasRoom es

pub record IsValid (log : AccessLog) : Type 0 where
  pub slots : length log.entries ≡ 1024
  pub next_in : log.next < 1024
  pub count_in : log.count ≤ 1024
  pub filling : log.count < 1024 → log.next ≡ log.count
  pub room : HasRoom log.entries

-- What a full log forgets.
pub recent : List Line → List Line
recent [] = []
recent (x ∷ xs) = if ltb 1024 (length (x ∷ xs)) then xs else x ∷ xs

get_or-HasRoom :
    (es : List AccessEntry) (i : ℕ)
    → HasRoom es
    → (length (get_or es i empty_entry).username ≡ 256)
      × (length (get_or es i empty_entry).dest_addr ≡ 256)
unfolding empty_entry
get_or-HasRoom [] i r = (refl, refl)
get_or-HasRoom (e ∷ es) zero r = (r.0, r.1)
get_or-HasRoom (e ∷ es) (suc i) r = get_or-HasRoom es i r.2

set-HasRoom :
    (es : List AccessEntry) (i : ℕ) (e : AccessEntry)
    → HasRoom es
    → length e.username ≡ 256
    → length e.dest_addr ≡ 256
    → HasRoom (set es i e)
set-HasRoom [] i e r u a = tt
set-HasRoom (x ∷ es) zero e r u a = (u, a, r.2)
set-HasRoom (x ∷ es) (suc i) e r u a = (r.0, r.1, set-HasRoom es i e r.2 u a)

replicate-HasRoom : (n : ℕ) → HasRoom (replicate n empty_entry)
unfolding empty_entry
replicate-HasRoom zero = tt
replicate-HasRoom (suc n) = (refl, refl, replicate-HasRoom n)

-- `access_log_init` makes a valid log with no history.
pub init-IsValid : IsValid init × (history init ≡ [])
unfolding init history window
init-IsValid = (
  record {
    slots = length-replicate 1024 empty_entry;
    next_in = omega arith;
    count_in = omega arith;
    filling = λ _. refl;
    room = replicate-HasRoom 1024;
  },
  refl,
)

-- The line that a call of `access_log_add` records: "-" for a null pointer, at most 255 bytes.
abbrev pub recorded : Option (List ℕ) → Option (List ℕ) → ℕ → ℕ → Line
recorded username dest_addr dest_port now = record {
  user = take 255 (c_str (or_dash username));
  addr = take 255 (c_str (or_dash dest_addr));
  port = dest_port;
  time = now;
}

recent_short : (xs : List Line) → length xs ≤ 1024 → recent xs ≡ xs
unfolding recent
recent_short [] h = refl
recent_short (x ∷ xs) h = ground arith

recent_long : (x : Line) (xs : List Line) → 1024 ≤ length xs → recent (x ∷ xs) ≡ xs
unfolding recent
recent_long x xs h = ground arith

length-lines : (es : List AccessEntry) (h n : ℕ) → length (map line (window es h n)) ≡ n
unfolding window
length-lines es h zero = refl
length-lines es h (suc n) = ap suc (length-lines es ((h + 1) % 1024) n)

-- A log with room takes one entry more.
grown :
    (es : List AccessEntry) (n m : ℕ) (e : AccessEntry)
    → length es ≡ 1024
    → n < 1024
    → m ≡ suc n
    → map line (window (set es n e) 0 m) ≡ recent (map line (window es 0 n) ++ (line e ∷ []))
grown es n m e l h q =
    ap (λ k. map line (window (set es n e) 0 k)) q
    ∙ ap (map line) (window-set es n 0 n e l (omega arith) h (omega arith))
    ∙ map-append line (window es 0 n) (e ∷ [])
    ∙ sym (
        recent_short _ (
          omega
            (arith, length-append (map line (window es 0 n)) (line e ∷ []), length-lines es 0 n)))

opened :
    (es : List AccessEntry) (j n : ℕ)
    → map line (window es j (suc n))
      ≡ line (get_or es j empty_entry) ∷ map line (window es ((j + 1) % 1024) n)
unfolding window
opened es j n = refl

-- A full log writes over its oldest entry.
turned :
    (es : List AccessEntry) (j : ℕ) (e : AccessEntry)
    → length es ≡ 1024
    → j < 1024
    → map line (window (set es j e) ((j + 1) % 1024) 1024)
      ≡ recent (map line (window es j 1024) ++ (line e ∷ []))
turned es j e l h =
    ap (map line)
      (window-set es 1023 ((j + 1) % 1024) j e l (omega arith) (omega arith) (omega arith))
    ∙ map-append line kept (e ∷ [])
    ∙ sym (
        recent_long (line (get_or es j empty_entry)) (map line kept ++ (line e ∷ [])) (
          omega (
            arith,
            length-append (map line kept) (line e ∷ []),
            length-lines es ((j + 1) % 1024) 1023,
          )))
    ∙ ap (λ t. recent (t ++ (line e ∷ []))) (sym (opened es j 1023))
  where
    kept : List AccessEntry
    kept = window es ((j + 1) % 1024) 1023

module _ (u a : Option (List ℕ)) (p now : ℕ) where
  line-stamped :
      (e : AccessEntry)
      → length e.username ≡ 256
      → length e.dest_addr ≡ 256
      → line (stamped e u a p now) ≡ recorded u a p now
  unfolding line stamped
  line-stamped e ru ra =
      rw (strncpy_text e.username 255 (or_dash u) ru, strncpy_text e.dest_addr 255 (or_dash a) ra)

  -- `access_log_add` keeps the log valid.
  pub add-IsValid : (log : AccessLog) → IsValid log → IsValid (add log u a p now)
  unfolding add stamped
  add-IsValid log v =
      let old = get_or log.entries log.next empty_entry in
      record {
        slots = length-set log.entries log.next _ ∙ v.slots;
        next_in = omega arith;
        count_in = ground arith;
        filling = ground arith;
        room =
            set-HasRoom log.entries log.next _ v.room
              (length-strncpy old.username 255 (or_dash u)
                ∙ (get_or-HasRoom log.entries log.next v.room).0)
              (length-strncpy old.dest_addr 255 (or_dash a)
                ∙ (get_or-HasRoom log.entries log.next v.room).1);
      }

  -- A call of `access_log_add` on a valid log appends its line to the history; a log that already
  -- holds 1024 lines forgets the oldest one, and keeps the order of the others.
  pub history-add :
      (log : AccessLog)
      → IsValid log
      → history (add log u a p now) ≡ recent (history log ++ (recorded u a p now ∷ []))
  unfolding history add oldest_index
  history-add log v = elim (Bool-cases (ltb log.count 1024)) [
    | inl part ↦
        let at_next : log.next ≡ log.count = ground (arith, v.filling) in
        let start : oldest_index (add log u a p now) ≡ 0 = ground (arith, v.filling) in
        let more : (add log u a p now).count ≡ suc log.count = ground arith in
        let old : oldest_index log ≡ 0 = ground arith in
        ap₂ (λ h k. map line (window (set log.entries log.next written) h k)) start more
        ∙ ap (λ j. map line (window (set log.entries j written) 0 (suc log.count))) at_next
        ∙ grown log.entries log.count (suc log.count) written v.slots (ltb→lt log.count 1024 part)
            refl
        ∙ ap₂ (λ h x. recent (map line (window log.entries h log.count) ++ (x ∷ []))) (sym old) seen
    | inr full ↦
        let all : log.count ≡ 1024 = ground (arith, v.count_in) in
        let start : oldest_index (add log u a p now) ≡ (log.next + 1) % 1024 = ground arith in
        let more : (add log u a p now).count ≡ 1024 = ground arith in
        let old : oldest_index log ≡ log.next = ground arith in
        ap₂ (λ h k. map line (window (set log.entries log.next written) h k)) start more
        ∙ turned log.entries log.next written v.slots v.next_in
        ∙ ap₂ (λ h x. recent (map line (window log.entries h 1024) ++ (x ∷ []))) (sym old) seen
        ∙ ap
            (λ k.
              recent
                (map line (window log.entries (oldest_index log) k) ++ (recorded u a p now ∷ [])))
            (sym all)
  ]
    where
      written : AccessEntry
      written = stamped (get_or log.entries log.next empty_entry) u a p now

      seen : line written ≡ recorded u a p now
      seen =
          line-stamped (get_or log.entries log.next empty_entry)
            (get_or-HasRoom log.entries log.next v.room).0
            (get_or-HasRoom log.entries log.next v.room).1
