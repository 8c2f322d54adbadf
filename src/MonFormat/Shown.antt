-- ===== src/MonFormat/Shown.antt =====
-- The client shows what the server has put into a payload.
use socksv5_proxy.Base.{
  ℕ, zero, suc, ◌+◌, ◌*◌, ◌/◌, ◌%◌, ◌^◌, ◌≤◌, ◌<◌, ◌≡◌, ◌==◌, ==_iff, refl, sym, ap, ◌∙◌, arith,
  ltb, leb, Bool-cases, inl, inr, true, false, some, List, [], ◌∷◌, ◌++◌, append_assoc, append-nil,
  take_all, length, length-append, drop, get_or, c_str, strlen, take-append,
}
use native.Mathlib.Nat.{div-div-eq-div-mul, div-le_self, pow-suc}
use socksv5_proxy.Metrics.{Metrics}
use socksv5_proxy.UserTable
use socksv5_proxy.UserTable.{UserTable}
use socksv5_proxy.MonPayload.{
  ListCtx, list_user_cb, list_users, list_payload, put_be, metrics_payload,
}
use socksv5_proxy.MonPayload.Bounds.{length-metrics_payload}
use socksv5_proxy.MonFormat.{
  Line, historic_line, current_line, bytes_line, user_line, no_users_line, be_loop, be_u64,
  mon_format_metrics, format_names, mon_format_users,
}

-- One byte more of a number.
next_byte : (q : ℕ) → q < 2 ^ 64 → ((q / 256) * 2 ^ 8) % 2 ^ 64 + q % 256 ≡ q
next_byte q h = omega arith

pow_next : (a b : ℕ) → b ≡ a + 1 → 2 ^ b ≡ 2 ^ a * 2
pow_next a b e = ap (λ (k : ℕ). 2 ^ k) (omega arith) ∙ pow-suc 2 a

pow_byte : (k : ℕ) → 2 ^ (k + 8) ≡ 2 ^ k * 256
pow_byte k = omega (
  arith,
  pow_next k (k + 1) refl,
  pow_next (k + 1) (k + 2) (omega arith),
  pow_next (k + 2) (k + 3) (omega arith),
  pow_next (k + 3) (k + 4) (omega arith),
  pow_next (k + 4) (k + 5) (omega arith),
  pow_next (k + 5) (k + 6) (omega arith),
  pow_next (k + 6) (k + 7) (omega arith),
  pow_next (k + 7) (k + 8) (omega arith),
)

be_loop-put_be :
    (n v : ℕ) (rest : List ℕ) → v < 2 ^ 64 → be_loop n (v / 2 ^ (8 * n)) (put_be v n ++ rest) ≡ v
unfolding be_loop put_be
be_loop-put_be zero v rest h = omega arith
be_loop-put_be (suc n) v rest h =
    let q = v / 2 ^ (8 * n) in
    let more : 2 ^ (8 * suc n) ≡ 2 ^ (8 * n) * 256 =
      ap (λ (k : ℕ). 2 ^ k) (omega arith) ∙ pow_byte (8 * n) in
    let split : v / 2 ^ (8 * suc n) ≡ q / 256 =
      ap (λ (m : ℕ). v / m) more ∙ sym (div-div-eq-div-mul v (2 ^ (8 * n)) 256) in
    let small : q < 2 ^ 64 = omega (arith, div-le_self v (2 ^ (8 * n))) in
    rw (split, next_byte q small) (be_loop-put_be n v rest h)

be_u64-put_be : (v : ℕ) (rest : List ℕ) → v < 2 ^ 64 → be_u64 (put_be v 8 ++ rest) ≡ v
unfolding be_u64
be_u64-put_be v rest h =
    let high : v / 2 ^ 64 ≡ 0 = omega arith in
    ap (λ (x : ℕ). be_loop 8 x (put_be v 8 ++ rest)) (sym high) ∙ be_loop-put_be 8 v rest h

-- The client shows the three counters of the server as they are, whatever their values as 64-bit
-- numbers.
pub metrics_shown :
    (m : Metrics)
    → m.historic_connections < 2 ^ 64
    → m.current_connections < 2 ^ 64
    → m.bytes_transferred < 2 ^ 64
    → mon_format_metrics (some (metrics_payload m)) (length (metrics_payload m)) ≡ (
      historic_line m.historic_connections
          ∷ current_line m.current_connections
          ∷ bytes_line m.bytes_transferred
          ∷ [],
      true,
    )
unfolding mon_format_metrics metrics_payload put_be
metrics_shown m h c b =
    let first = put_be m.historic_connections 8 in
    let second = put_be m.current_connections 8 in
    let third = put_be m.bytes_transferred 8 in
    let size : (length (first ++ second ++ third) == 24) ≡ true =
      (==_iff (length (first ++ second ++ third)) 24).1 (length-metrics_payload m) in
    rw
      (
        size,
        be_u64-put_be m.historic_connections (second ++ third) h,
        be_u64-put_be m.current_connections third c,
        be_u64-put_be m.bytes_transferred [] b,
      )
      refl

-- What the client takes for names.
pub user_lines : List (List ℕ) → List Line
user_lines [] = []
user_lines (name ∷ names) = user_line (c_str name) ∷ user_lines names

-- The names as they stand in a payload.
named : List (List ℕ) → List ℕ
named [] = []
named (name ∷ names) = (strlen name ∷ c_str name) ++ named names

get_or-append : (xs : List ℕ) (y : ℕ) (ys : List ℕ) → get_or (xs ++ y ∷ ys) (length xs) 0 ≡ y
get_or-append [] y ys = refl
get_or-append (x ∷ xs) y ys = get_or-append xs y ys

drop_past : (xs : List ℕ) (y : ℕ) (ys : List ℕ) → drop (suc (length xs)) (xs ++ y ∷ ys) ≡ ys
drop_past [] y ys = refl
drop_past (x ∷ xs) y ys = drop_past xs y ys

c_str-c_str : (xs : List ℕ) → c_str (c_str xs) ≡ c_str xs
c_str-c_str [] = refl
c_str-c_str (x ∷ xs) = elim (Bool-cases (x == 0)) [
  | inl e ↦ rw e refl
  | inr e ↦ rw (e, e, c_str-c_str xs) refl
]

-- The loop of the client over names that the server has written.
format_names-named :
    (names : List (List ℕ)) (front : List ℕ) (p : List ℕ)
    → p ≡ front ++ named names
    → format_names (length names) p (length p) (length front) ≡ (user_lines names, true)
unfolding format_names named user_lines
format_names-named [] front p e = refl
format_names-named (name ∷ names) front p e =
    let l = strlen name in
    let next = front ++ (l ∷ c_str name) in
    let same : p ≡ next ++ named names =
      e ∙ sym (append_assoc front (l ∷ c_str name) (named names)) in
    let size : length next ≡ length front + 1 + l =
      omega (arith, length-append front (l ∷ c_str name)) in
    let total : length p ≡ length next + length (named names) =
      ap length same ∙ length-append next (named names) in
    let here : get_or p (length front) 0 ≡ l =
      ap (λ (q : List ℕ). get_or q (length front) 0) e
      ∙ get_or-append front l (c_str name ++ named names) in
    let one_more : length front + 1 ≡ suc (length front) = omega arith in
    let text : drop (length front + 1) p ≡ c_str name ++ named names =
      ap (λ (k : ℕ). drop k p) one_more
      ∙ ap (λ (q : List ℕ). drop (suc (length front)) q) e
      ∙ drop_past front l (c_str name ++ named names) in
    let inside : leb (length p) (length front) ≡ false = ground arith in
    let inside' : ltb (length p) (length front + 1 + l) ≡ false = ground arith in
    let rest = format_names-named names next p same in
    rw
      (
        here,
        text,
        inside,
        inside',
        ← size,
        rest,
        take-append (c_str name) (named names),
        c_str-c_str name,
      )
      refl

-- Each name is one that a table can hold.
unfoldable pub AllShort : List (List ℕ) → Type 0
AllShort [] = Unit
AllShort (name ∷ names) = (strlen name ≤ 255) × AllShort names

-- What `list_user_cb` has written after the names.
record Listed (lc lc' : ListCtx) (names : List (List ℕ)) : Type 0 where
  bytes : lc'.bytes ≡ lc.bytes ++ named names
  count : lc'.count ≡ lc.count + length names

list_user_cb-Listed :
    (lc : ListCtx) (name : List ℕ)
    → strlen name ≤ 255
    → lc.count < 255
    → 1 + length lc.bytes + 256 ≤ lc.cap
    → list_user_cb lc name
      ≡ record lc { bytes = lc.bytes ++ (strlen name ∷ c_str name); count = lc.count + 1 }
unfolding list_user_cb
list_user_cb-Listed lc name short few room =
    let fits : ltb 255 (strlen name) ≡ false = ground arith in
    let inside : leb (1 + length lc.bytes + strlen name + 1) lc.cap ≡ true = ground arith in
    let counted : ltb lc.count 255 ≡ true = ground arith in
    let byte : strlen name % 256 ≡ strlen name = omega arith in
    rw (fits, inside, counted, byte, take_all (strlen name) (c_str name) (omega arith)) refl

list_users-Listed :
    (lc : ListCtx) (names : List (List ℕ))
    → AllShort names
    → lc.count + length names ≤ 255
    → 1 + length lc.bytes + 256 * length names ≤ lc.cap
    → Listed lc (list_users lc names) names
unfolding list_users AllShort named
list_users-Listed lc [] short few room = record {
  bytes = sym (append-nil lc.bytes);
  count = omega arith;
}
list_users-Listed lc (name ∷ names) (short, more) few room =
    let lc₁ : ListCtx = record lc {
      bytes = lc.bytes ++ (strlen name ∷ c_str name);
      count = lc.count + 1;
    } in
    let r =
      list_users-Listed lc₁ names more (omega arith)
        (omega (arith, length-append lc.bytes (strlen name ∷ c_str name), short)) in
    rw (list_user_cb-Listed lc name short (omega arith) (omega arith)) (record {
      bytes = r.bytes ∙ append_assoc lc.bytes (strlen name ∷ c_str name) (named names);
      count = r.count ∙ omega arith;
    })

abbrev pub shown_users : List (List ℕ) → List Line
shown_users [] = no_users_line ∷ []
shown_users (name ∷ names) = user_lines (name ∷ names)

format_no_names : mon_format_users (some (0 ∷ [])) 1 ≡ (no_users_line ∷ [], true)
unfolding mon_format_users format_names
format_no_names = refl

format_users-named :
    (names : List (List ℕ))
    → let p = length names ∷ named names in
      mon_format_users (some p) (length p) ≡ (shown_users names, true)
unfolding mon_format_users named
format_users-named [] = format_no_names
format_users-named (name ∷ names) =
    let all = name ∷ names in
    let p : List ℕ = length all ∷ named all in
    let long : ltb (length p) 1 ≡ false = ground arith in
    let some_names : (length all == 0) ≡ false = ground arith in
    rw (long, some_names, format_names-named all (length all ∷ []) p refl) refl

-- The client shows the name of each user in the table of the server, in the order of the table,
-- and nothing else, for tables of up to fifteen users, which the table of ten users is, with names
-- of up to 255 bytes; if there is none it says so.
pub users_shown :
    (t : UserTable)
    → length (UserTable.list t.entries) ≤ 15
    → AllShort (UserTable.list t.entries)
    → mon_format_users (some (list_payload t)) (length (list_payload t))
      ≡ (shown_users (UserTable.list t.entries), true)
unfolding list_payload
users_shown t few short =
    let names = UserTable.list t.entries in
    let lc : ListCtx = record { bytes = []; cap = 4092; count = 0 } in
    let r = list_users-Listed lc names short (omega arith) (omega arith) in
    let counted : (list_users lc names).count ≡ length names = r.count ∙ omega arith in
    rw (r.bytes, counted) (format_users-named names)
