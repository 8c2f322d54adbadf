-- ===== src/Hello/Tests.antt =====
-- Runs of the greeting parser, and instances of its theorems.
use socksv5_proxy.Base.{ℕ, ◌≡◌, refl, some, none, List, [], ◌∷◌, arith, true, false, Bool}
use socksv5_proxy.Buffer.{Buffer}
use socksv5_proxy.Buffer.Fifo.{Holds}
use socksv5_proxy.Consume.{loop}
use socksv5_proxy.Consume.Stream.{drain, loop_drained, loop_chunks}
use socksv5_proxy.Hello.{
  HelloParser, HelloState, hello_version, hello_nmethods, parser_feed, is_done, hello_done,
  hello_error_unsupported_version, consume, parser_init,
}
use socksv5_proxy.Hello.Parse.{greeting_parsed, version_refused, finished, offer}

abbrev last : ℕ → ℕ → ℕ
last sel m = m

abbrev fresh : HelloParser
fresh = record {
  on_authentication_method = some last;
  selected = 0xFF;
  state = hello_done;
  remaining = 7;
}

-- Two methods, and one byte of the next message.
abbrev greeting : Buffer
greeting = record { storage = 5 ∷ 2 ∷ 0 ∷ 2 ∷ 1 ∷ []; limit = 5; read_pos = 0; write_pos = 5 }

greeting_parsed_example :
    (b : Buffer) × (consume greeting (parser_init fresh) false
      ≡ some (b, finished (some last) (offer last 0xFF (0 ∷ 2 ∷ [])), hello_done, false))
    × Holds b (1 ∷ [])
    × (b.limit ≡ 5)
greeting_parsed_example =
    greeting_parsed fresh (0 ∷ 2 ∷ []) (1 ∷ []) false (record { valid = omega arith; held = refl })
      (omega arith) refl

version_refused_example :
    (b : Buffer) × (consume
        (record greeting { storage = 4 ∷ 2 ∷ 0 ∷ 2 ∷ 1 ∷ [] })
        (parser_init fresh)
        false
      ≡ some (
        b,
        record (parser_init fresh) { state = hello_error_unsupported_version },
        hello_error_unsupported_version,
        true,
      ))
    × Holds b (2 ∷ 0 ∷ 2 ∷ 1 ∷ [])
    × (b.limit ≡ 5)
version_refused_example =
    version_refused fresh 4 (2 ∷ 0 ∷ 2 ∷ 1 ∷ []) false (record { valid = omega arith; held = refl })
      (omega arith)

abbrev start : HelloParser
start = record {
  on_authentication_method = none;
  selected = 0xFF;
  state = hello_version;
  remaining = 0;
}

abbrev holding : List ℕ → ℕ → Buffer
holding bytes n = record { storage = bytes; limit = n; read_pos = 0; write_pos = n }

flagless : (st : HelloState) (e e' : Bool) → (is_done st e).0 ≡ (is_done st e').0
unfolding is_done
flagless hello_version e e' = refl
flagless _ e e' = refl

-- A greeting cut behind its first byte.
first_piece :
    (b : Buffer) × (loop parser_feed is_done 1 (holding (5 ∷ []) 1) start hello_version false
      ≡ some (b, record start { state = hello_nmethods }, hello_nmethods, false))
    × Holds b []
    × (b.limit ≡ 1)
unfolding drain parser_feed is_done
first_piece =
    loop_drained parser_feed is_done start hello_version false refl
      (record { valid = omega arith; held = refl })

open_end : (is_done hello_nmethods false).0 ≡ false
unfolding is_done
open_end = refl

loop_chunks_example :
    (rest : List ℕ) × (p' : HelloParser) × (st' : HelloState) × (err' : Bool) × (b₂' : Buffer)
    × (b' : Buffer) × (loop parser_feed is_done 2
          (holding (1 ∷ 2 ∷ []) 2)
          (record start { state = hello_nmethods })
          hello_nmethods
          false
        ≡ some (b₂', p', st', err'))
    × (loop parser_feed is_done 3 (holding (5 ∷ 1 ∷ 2 ∷ []) 3) start hello_version false
        ≡ some (b', p', st', err'))
    × Holds b₂' rest
    × Holds b' rest
loop_chunks_example =
    loop_chunks parser_feed is_done flagless (5 ∷ []) (1 ∷ 2 ∷ []) start
      (record start { state = hello_nmethods }) hello_version hello_nmethods false false
      (record { valid = omega arith; held = refl }) (record { valid = omega arith; held = refl })
      (record { valid = omega arith; held = refl }) first_piece.1 open_end
