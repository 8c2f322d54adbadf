-- ===== src/Selector.antt =====
-- shared/selector.c: the table of the descriptors that are watched. A pointer to a handler or to
-- the data of the user is a number; `none` as a result stands for a failed assertion, for an
-- access behind the table or through a pointer into a table that has been moved since, and for a
-- descriptor set used at -1.
pub mod Map
pub mod Capacity
pub mod Register
pub mod Unregister
pub mod Closing
mod Tests
use socksv5_proxy.Base.{
  ℕ, zero, suc, ◌+◌, ◌-◌, ◌*◌, ◌/◌, ◌%◌, ◌^◌, Bool, true, false, not, ◌&&◌, ◌||◌, Option, none,
  some, ◌>>=◌, ltb, leb, ◌==◌, if◌then◌else◌, List, [], ◌∷◌, ◌++◌, length, get_elem?, set, take,
  replicate, ℤ, pos, negsuc,
}
use socksv5_proxy.Socks5.{Interest}

pub data SelectorStatus : Type 0 where
  selector_success selector_enomem selector_maxfd : SelectorStatus
  selector_iargs selector_fdinuse selector_io : SelectorStatus

-- == SELECTOR_SUCCESS
unfoldable pub is_success : SelectorStatus → Bool
is_success selector_success = true
is_success _ = false

abbrev pub op_noop : Interest
op_noop = record { op_read = false; op_write = false }

-- An `fd` of FD_UNUSED is `none`.
pub record Item : Type 0 where
  pub fd : Option ℕ
  pub interest : Interest
  pub handler : Option ℕ
  pub attachment : ℕ

-- `cleanup` is a pointer to a function.
pub record BlockingJob : Type 0 where
  pub fd : ℕ
  pub attachment : ℕ
  pub cleanup : Option ℕ

-- A `fd_set`.
abbrev pub FdSet : Type 0
FdSet = ℕ → Bool

-- `fd_size` is the length of `fds`; a null `fds` is the empty list. The copies of the sets and
-- the times that pselect(2) takes are no state between two calls.
pub record Selector : Type 0 where
  pub fds : List Item
  pub max_fd : ℕ
  pub master_r : FdSet
  pub master_w : FdSet
  pub resolution_jobs : List BlockingJob

abbrev pub is_used : Item → Bool
is_used i = elim i.fd [ none ↦ false | some fd ↦ true ]

-- ITEMS_MAX_SIZE, which is FD_SETSIZE.
abbrev pub items_max_size : ℕ
items_max_size = 1024

-- The loop of `next_capacity`, on fuel: the number is halved until it is 0.
bit_length : ℕ → ℕ → ℕ
bit_length zero tmp = 0
bit_length (suc fuel) tmp = let rest = bit_length fuel (tmp / 2) in if tmp == 0 then 0 else rest + 1

pub next_capacity : ℕ → ℕ
unfolding bit_length
next_capacity n =
    let tmp = 2 ^ bit_length n n in (if ltb items_max_size tmp then items_max_size else tmp) + 1

-- A zeroed item after `item_init`.
abbrev pub unused : Item
unused = record { fd = none; interest = op_noop; handler = none; attachment = 0 }

-- `items_max_fd` over the items up to `max_fd`.
items_max_fd : List Item → ℕ → ℕ
items_max_fd [] max = max
items_max_fd (i ∷ is) max =
    items_max_fd is (elim i.fd [ none ↦ max | some fd ↦ if ltb max fd then fd else max ])

-- FD_SET and FD_CLR.
abbrev pub fd_put : FdSet → ℕ → Bool → FdSet
fd_put s fd b j = if j == fd then b else s j

-- `items_update_fdset_for_fd` for an item in use.
items_update_fdset_for_fd : Selector → ℕ → Interest → Selector
items_update_fdset_for_fd s fd interest = record s {
  master_r = fd_put s.master_r fd interest.op_read;
  master_w = fd_put s.master_w fd interest.op_write;
}

-- `memory` says whether calloc(3) or realloc(3) succeeds. That the new size times that of an item
-- is a size_t is no test here: it is at most 1025.
pub ensure_capacity : Selector → ℕ → Bool → Selector × SelectorStatus
unfolding next_capacity
ensure_capacity s n memory =
    if ltb n (length s.fds)
    then (s, selector_success)
    else if ltb items_max_size n
    then (s, selector_maxfd)
    else if memory
    then (
      record s { fds = s.fds ++ replicate (next_capacity n - length s.fds) unused },
      selector_success,
    )
    else (s, selector_enomem)

-- `none` is a null pointer; `memory` is for malloc(3) and calloc(3) in turn.
pub selector_new : ℕ → Bool → Bool → Option Selector
unfolding ensure_capacity
selector_new initial_elements memory memory' =
    let fresh : Selector = record {
      fds = [];
      max_fd = 0;
      master_r = λ j. false;
      master_w = λ j. false;
      resolution_jobs = [];
    } in
    let (s, ret) = ensure_capacity fresh initial_elements memory' in
    if memory then elim ret [ selector_success ↦ some s | _ ↦ none ] else none

-- The test INVALID_FD(fd): `bad`, or what follows, for the descriptor as an index.
pub with_fd : {A : Type 0} → ℤ → A → (ℕ → A) → A
with_fd (negsuc n) bad k = bad
with_fd (pos fd) bad k = if leb items_max_size fd then bad else k fd

-- The registration itself, once there is room.
pub enter : Selector → ℕ → ℕ → Interest → ℕ → Option (Selector × SelectorStatus)
unfolding items_update_fdset_for_fd
enter s fd handler interest attachment = do
  item ← get_elem? s.fds fd
  let item' : Item = record {
    fd = some fd;
    handler = some handler;
    interest = interest;
    attachment = attachment;
  }
  let s' = record s { fds = set s.fds fd item'; max_fd = if ltb s.max_fd fd then fd else s.max_fd }
  some (
      if is_used item
      then (s, selector_fdinuse)
      else (items_update_fdset_for_fd s' fd interest, selector_success))

-- `none` among the arguments is a null handler.
pub selector_register :
    Selector → ℤ → Option ℕ → Interest → ℕ → Bool → Option (Selector × SelectorStatus)
unfolding ensure_capacity enter with_fd
selector_register s fd none interest attachment memory = some (s, selector_iargs)
selector_register s fd (some handler) interest attachment memory =
    with_fd fd (some (s, selector_iargs)) λ ufd.
      let (s', ret) = ensure_capacity s ufd memory in
      if ltb (length s.fds) ufd
      then elim ret [
        | selector_success ↦ enter s' ufd handler interest attachment
        | other ↦ some (s', other)
      ]
      else enter s ufd handler interest attachment

pub selector_set_interest : Selector → ℤ → Interest → Option (Selector × SelectorStatus)
unfolding items_update_fdset_for_fd with_fd
selector_set_interest s fd i = with_fd fd (some (s, selector_iargs)) λ ufd.
    get_elem? s.fds ufd >>= λ item.
    let s' = record s { fds = set s.fds ufd (record item { interest = i }) } in
    some (
      if is_used item
      then (items_update_fdset_for_fd s' ufd i, selector_success)
      else (s, selector_iargs))

-- `struct selector_key` without the selector.
pub record SelectorKey : Type 0 where
  pub fd : ℕ
  pub attachment : ℕ

-- A callback may call the selector, and change what else there is, a `W`.
abbrev pub Callback : Type 0 → Type 0
Callback W = SelectorKey → Selector → W → Option (Selector × W)

pub record FdHandler (W : Type 0) : Type 0 where
  pub handle_read : Option (Callback W)
  pub handle_write : Option (Callback W)
  pub handle_block_done : Option (Callback W)
  pub handle_close : Option (Callback W)

-- Nothing is called where a callback may be null.
abbrev pub call_if : {W : Type 0} → Option (Callback W) → Callback W
call_if none key s w = some (s, w)
call_if (some f) key s w = f key s w

-- The end of `selector_unregister_fd`, behind the close callback.
pub forget : Selector → ℕ → Option Selector
unfolding items_update_fdset_for_fd items_max_fd
forget s fd = do
  item ← get_elem? s.fds fd
  fd' ← item.fd
  let s₁ = items_update_fdset_for_fd s fd' op_noop
  let fds = set s.fds fd unused
  some (record s₁ { fds = fds; max_fd = items_max_fd (take (s.max_fd + 1) fds) 0 })

-- The handlers are given by what their pointers point to; a used item has one.
module _ {W : Type 0} (handlers : ℕ → FdHandler W) where
  pub close_callback : Option ℕ → Option (Callback W)
  close_callback none = none
  close_callback (some h) = (handlers h).handle_close

  pub selector_unregister_fd : Selector → W → ℤ → Option (Selector × W × SelectorStatus)
  unfolding forget close_callback with_fd
  selector_unregister_fd s w fd = with_fd fd (some (s, w, selector_iargs)) λ ufd.
      get_elem? s.fds ufd >>= λ item.
      if is_used item
      then (item.fd >>= λ own.
          call_if (close_callback item.handler) (record { fd = own; attachment = item.attachment })
            s w
          >>= λ (s₁, w₁).
              if length s₁.fds == length s.fds
              then (forget s₁ ufd >>= λ s₂. some (s₂, w₁, selector_success))
              else none)
      else some (s, w, selector_iargs)

-- `memory` says whether malloc(3) succeeds; the signal that wakes the selector is left out.
pub selector_notify_block_done : Selector → ℕ → ℕ → Option ℕ → Bool → Selector × SelectorStatus
selector_notify_block_done s fd attachment cleanup memory =
    if memory
    then (
      record s {
        resolution_jobs =
            record { fd = fd; attachment = attachment; cleanup = cleanup } ∷ s.resolution_jobs;
      },
      selector_success,
    )
    else (s, selector_enomem)
