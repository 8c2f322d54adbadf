-- ===== src/Hello/Parse.antt =====
-- The greeting of a client, fed byte by byte.
use socksv5_proxy.Base.{
  ℕ, suc, ◌-◌, ◌<◌, ◌≡◌, ◌≢◌, Bool, true, Option, some, List, [], ◌∷◌, ◌++◌, length, arith,
}
use socksv5_proxy.Consume.Stream.{drain, loop_drained}
use socksv5_proxy.Buffer.{Buffer}
use socksv5_proxy.Buffer.Fifo.{Holds}
use socksv5_proxy.Hello.{
  HelloState, HelloParser, hello_version, hello_methods, hello_done,
  hello_error_unsupported_version, parser_feed, is_done, parser_init, consume,
}

-- A parser that has `k` methods to read.
abbrev reading : Option (ℕ → ℕ → ℕ) → ℕ → ℕ → HelloParser
reading cb sel k = record {
  on_authentication_method = cb;
  selected = sel;
  state = hello_methods;
  remaining = k;
}

abbrev pub finished : Option (ℕ → ℕ → ℕ) → ℕ → HelloParser
finished cb sel = record {
  on_authentication_method = cb;
  selected = sel;
  state = hello_done;
  remaining = 0;
}

abbrev pub offer : (ℕ → ℕ → ℕ) → ℕ → List ℕ → ℕ
offer f sel [] = sel
offer f sel (m ∷ ms) = offer f (f sel m) ms

drain_methods :
    (f : ℕ → ℕ → ℕ) (m : ℕ) (ms rest : List ℕ) (sel k : ℕ) (st : HelloState) (err : Bool)
    → k ≡ suc (length ms)
    → k < 256
    → drain parser_feed is_done (m ∷ ms ++ rest) (reading (some f) sel k) st err
      ≡ (rest, finished (some f) (offer f sel (m ∷ ms)), hello_done, err)
unfolding drain parser_feed is_done
drain_methods f m [] rest sel k st err e lt = ground arith
drain_methods f m (m' ∷ ms) rest sel k st err e lt =
    ground (arith, drain_methods f m' ms rest (f sel m) (k - 1) hello_methods err)

drain_greeting :
    {f : ℕ → ℕ → ℕ} (ms rest : List ℕ) (st : HelloState) (err : Bool) (p : HelloParser)
    → length ms < 256
    → p.on_authentication_method ≡ some f
    → drain parser_feed is_done (5 ∷ length ms ∷ ms ++ rest) (parser_init p) st err
      ≡ (rest, finished (some f) (offer f p.selected ms), hello_done, err)
unfolding drain parser_feed is_done parser_init
drain_greeting [] rest st err p lt e = ground arith
drain_greeting {f} (m ∷ ms) rest st err p lt e =
    ground (arith, drain_methods f m ms rest p.selected (suc (length ms)) hello_methods err)

refused :
    (p : HelloParser) (c : ℕ) (rest : List ℕ) (err : Bool)
    → c ≢ 5
    → drain parser_feed is_done (c ∷ rest) (parser_init p) hello_version err ≡ (
      rest,
      record (parser_init p) { state = hello_error_unsupported_version },
      hello_error_unsupported_version,
      true,
    )
unfolding drain parser_feed is_done parser_init
refused p c rest err ne = ground arith

-- A greeting with up to 255 methods is taken whole and nothing behind it: the parser is done
-- without an error, and the callback was made for every method in the order offered.
pub greeting_parsed :
    {b : Buffer} {f : ℕ → ℕ → ℕ} (p : HelloParser) (ms rest : List ℕ) (err : Bool)
    → Holds b (5 ∷ length ms ∷ ms ++ rest)
    → length ms < 256
    → p.on_authentication_method ≡ some f
    → (b' : Buffer) × (consume b (parser_init p) err
        ≡ some (b', finished (some f) (offer f p.selected ms), hello_done, err))
      × Holds b' rest
      × (b'.limit ≡ b.limit)
unfolding consume parser_init
greeting_parsed p ms rest err h lt e =
    loop_drained parser_feed is_done (parser_init p) hello_version err
      (drain_greeting ms rest hello_version err p lt e) h

-- A greeting with another version byte is refused at that byte, and the rest is not read.
pub version_refused :
    {b : Buffer} (p : HelloParser) (c : ℕ) (rest : List ℕ) (err : Bool)
    → Holds b (c ∷ rest)
    → c ≢ 5
    → (b' : Buffer) × (consume b (parser_init p) err
        ≡ some (
          b',
          record (parser_init p) { state = hello_error_unsupported_version },
          hello_error_unsupported_version,
          true,
        ))
      × Holds b' rest
      × (b'.limit ≡ b.limit)
unfolding consume parser_init
version_refused p c rest err h ne =
    loop_drained parser_feed is_done (parser_init p) hello_version err (refused p c rest err ne) h
