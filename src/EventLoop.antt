-- ===== src/EventLoop.antt =====
-- shared/selector.c: one round of the event loop, the delivery of the jobs that other threads have
-- finished, and the end of the selector. The handlers and the cleanup functions are given by what
-- their pointers point to, and may change the selector.
pub mod Iteration
pub mod Jobs
pub mod Destroy
mod Tests
use socksv5_proxy.Base.{
  ℕ, zero, suc, ◌+◌, ◌-◌, Bool, true, false, ◌&&◌, Option, none, some, ◌>>=◌, ◌==◌, if◌then◌else◌,
  List, [], ◌∷◌, length, get_elem?, pos,
}
use socksv5_proxy.Selector.{
  SelectorStatus, Selector, Item, FdSet, FdHandler, SelectorKey, Callback, call_if, BlockingJob,
  is_used, selector_success, selector_io, selector_unregister_fd,
}

-- What pselect(2) answers: the descriptors that are ready, or an error.
pub data Pselect : Type 0 where
  pselect_ready : FdSet → FdSet → Pselect
  pselect_interrupted pselect_bad_descriptor pselect_failed : Pselect

-- A handler that must be there: an assertion fails where it is null.
abbrev pub call : {W : Type 0} → Option (Callback W) → Callback W
call none key s w = none
call (some f) key s w = f key s w

module _ {W : Type 0} (handlers : ℕ → FdHandler W) where
  abbrev pub read_of : Item → Option (Callback W)
  read_of i = i.handler >>= λ h. (handlers h).handle_read

  abbrev pub write_of : Item → Option (Callback W)
  write_of i = i.handler >>= λ h. (handlers h).handle_write

  abbrev pub block_done_of : Item → Option (Callback W)
  block_done_of i = i.handler >>= λ h. (handlers h).handle_block_done

  -- The part of the loop's body that reads.
  pub serve_read : FdSet → Item → Callback W
  serve_read slave_r item key s w =
      if slave_r key.fd && item.interest.op_read then call (read_of item) key s w else some (s, w)

  pub serve_item : Item → Callback W
  serve_item item key s w =
      if item.interest.op_write then call (write_of item) key s w else some (s, w)

  -- The part that writes. The item is a pointer into the table of `size` items from before the
  -- handler for reading, so it is read again, and it is lost if the table has grown.
  pub serve_write : FdSet → ℕ → ℕ → Callback W
  unfolding serve_item
  serve_write slave_w size i key s w =
      if slave_w i
      then (if length s.fds == size
          then (get_elem? s.fds i >>= λ item. serve_item item key s w)
          else none)
      else some (s, w)

  -- The body of the loop behind ITEM_USED, for the descriptor of the item.
  pub handle_used : FdSet → FdSet → ℕ → Item → Option ℕ → Selector → W → Option (Selector × W)
  unfolding serve_read serve_write
  handle_used slave_r slave_w i item none s w = some (s, w)
  handle_used slave_r slave_w i item (some fd) s w =
      let key : SelectorKey = record { fd = fd; attachment = item.attachment } in
      serve_read slave_r item key s w >>= λ (s₁, w₁). serve_write slave_w (length s.fds) i key s₁ w₁

  pub handle_item : FdSet → FdSet → ℕ → Selector → W → Option (Selector × W)
  unfolding handle_used
  handle_item slave_r slave_w i s w =
      get_elem? s.fds i >>= λ item. handle_used slave_r slave_w i item item.fd s w

  -- The loop, for `left` more items from `i` on.
  pub handle_items : FdSet → FdSet → ℕ → ℕ → Selector → W → Option (Selector × W)
  unfolding handle_item
  handle_items slave_r slave_w zero i s w = some (s, w)
  handle_items slave_r slave_w (suc left) i s w = handle_item slave_r slave_w i s w >>= λ (s₁, w₁).
      handle_items slave_r slave_w left (i + 1) s₁ w₁

  pub handle_iteration : FdSet → FdSet → Selector → W → Option (Selector × W)
  unfolding handle_items
  handle_iteration slave_r slave_w s w = handle_items slave_r slave_w (s.max_fd + 1) 0 s w

  module _ (cleanups : ℕ → ℕ → W → W) where
    -- A job is for an item in use, of the same user, or it is dropped.
    pub notify : BlockingJob → Item → Option ℕ → Selector → W → Option (Selector × W)
    notify j item none s w = some (s, w)
    notify j item (some fd) s w =
        if item.attachment == j.attachment
        then call_if (block_done_of item) (record { fd = fd; attachment = item.attachment }) s w
        else some (s, w)

    -- What the loop does before it goes to the next job.
    pub handle_job : BlockingJob → Selector → W → Option (Selector × W)
    unfolding notify
    handle_job j s w = get_elem? s.fds j.fd >>= λ item. notify j item item.fd s w

    -- `cleanup`, where it is not null.
    pub clean : BlockingJob → W → W
    clean j w = elim j.cleanup [ none ↦ w | some c ↦ cleanups c j.attachment w ]

    pub handle_jobs : List BlockingJob → Selector → W → Option (Selector × W)
    unfolding handle_job clean
    handle_jobs [] s w = some (s, w)
    handle_jobs (j ∷ js) s w = handle_job j s w >>= λ (s₁, w₁). handle_jobs js s₁ (clean j w₁)

    pub handle_block_notifications : Selector → W → Option (Selector × W)
    unfolding handle_jobs
    handle_block_notifications s w = handle_jobs s.resolution_jobs s w >>= λ (s₁, w₁).
        some (record s₁ { resolution_jobs = [] }, w₁)

    pub selector_select : Pselect → Selector → W → Option (Selector × W × SelectorStatus)
    unfolding handle_iteration handle_block_notifications
    selector_select (pselect_ready slave_r slave_w) s w =
        handle_iteration slave_r slave_w s w >>= λ (s₁, w₁).
        handle_block_notifications s₁ w₁ >>= λ (s₂, w₂). some (s₂, w₂, selector_success)
    selector_select pselect_interrupted s w =
        handle_block_notifications s w >>= λ (s₂, w₂). some (s₂, w₂, selector_success)
    selector_select pselect_bad_descriptor s w = some (s, w, selector_io)
    selector_select pselect_failed s w = some (s, w, selector_io)

    -- The loop of `selector_destroy` over the items: their number is read again each time, so the
    -- callbacks decide how often it runs; `fuel` bounds that.
    pub unregister_used : ℕ → Item → Selector → W → Option (Selector × W)
    unregister_used i item s w =
        if is_used item
        then (selector_unregister_fd handlers s w (pos i) >>= λ (s₁, w₁, _). some (s₁, w₁))
        else some (s, w)

    pub unregister_all : ℕ → ℕ → Selector → W → Option (Selector × W)
    unfolding unregister_used
    unregister_all zero i s w = none
    unregister_all (suc fuel) i s w = elim (get_elem? s.fds i) [
      | none ↦ some (s, w)
      | some item ↦ unregister_used i item s w >>= λ (s₁, w₁). unregister_all fuel (i + 1) s₁ w₁
    ]

    -- Its loop over the jobs.
    pub clean_all : List BlockingJob → W → W
    unfolding clean
    clean_all [] w = w
    clean_all (j ∷ js) w = clean_all js (clean j w)

    pub selector_destroy : ℕ → Selector → W → Option W
    unfolding unregister_all clean_all
    selector_destroy fuel s w =
        if length s.fds == 0
        then some w
        else (unregister_all fuel 0 s w >>= λ (s₁, w₁). some (clean_all s₁.resolution_jobs w₁))
