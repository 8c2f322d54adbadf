-- ===== src/Request/Bounds.antt =====
-- Every byte that the parser stores lies inside its arrays, and no index wraps round.
use socksv5_proxy.Base.{ℕ, ◌<◌, ◌≡◌, length, length-set, arith, set, ◌⊎◌}
use socksv5_proxy.Request.{
  RequestParser, request_dst_addr, request_dst_port, parser_feed, parser_init,
}

-- Between two bytes the next store is in bounds: while an address is read its index is below its
-- length, but for a domain name whose length is still to come.
pub record IsValid (p : RequestParser) : Type 0 where
  pub address_room : length p.address ≡ 256
  pub port_room : length p.port ≡ 2
  pub len_byte : p.address_len < 256
  pub index_below :
      p.state ≡ request_dst_addr
      → (p.address_index < p.address_len)
        ⊎ ((p.atyp ≡ 3) × (p.address_len ≡ 0) × (p.address_index ≡ 0))
  pub port_below : p.state ≡ request_dst_port → p.port_index < 2

-- `request_parser_init` makes a valid parser.
pub parser_init-IsValid :
    (p : RequestParser) → length p.address ≡ 256 → length p.port ≡ 2 → IsValid (parser_init p)
unfolding parser_init
parser_init-IsValid p h k = ground (arith, length-set p.port 0 0, length-set (set p.port 0 0) 1 0)

-- `request_parser_feed` keeps the parser valid, on every byte and in every state.
pub parser_feed-IsValid :
    (p : RequestParser) (b : ℕ) → b < 256 → IsValid p → IsValid (parser_feed p b).0
unfolding parser_feed
parser_feed-IsValid p b lt v =
    ground (arith, length-set p.address p.address_index b, length-set p.port p.port_index b)
