-- ===== src/Consume.antt =====
-- The loop that server/hello.c, server/auth.c, server/request.c and server/mon_parser.c share:
-- take bytes from a buffer, feed each to a parser, and stop when the parser says it is done.
pub mod Stream
use socksv5_proxy.Base.{ℕ, zero, suc, Bool, true, false, Option, none, some, ◌>>=◌, if◌then◌else◌}
use socksv5_proxy.Buffer
use socksv5_proxy.Buffer.{Buffer}

module _ {P S : Type 0} (feed : P → ℕ → P × S) (is_done : S → Bool → Bool × Bool) where
  -- `while (buffer_can_read(b)) { c = buffer_read(b); st = feed(p, c); if (is_done(st, errored))
  -- break; }` on fuel; `none` when a buffer operation faults or the fuel runs out.
  pub loop : ℕ → Buffer → P → S → Bool → Option (Buffer × P × S × Bool)
  loop zero b p st err = if Buffer.can_read b then none else some (b, p, st, err)
  loop (suc fuel) b p st err = elim (Buffer.can_read b) [
    | true ↦
        (Buffer.read b >>= λ (c, b').
        let (p', st') = feed p c in
        let (stop, err') = is_done st' err in
        let rest = loop fuel b' p' st' err' in if stop then some (b', p', st', err') else rest)
    | false ↦ some (b, p, st, err)
  ]
