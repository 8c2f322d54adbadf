-- ===== src/MonParser/Parse.antt =====
-- A monitoring request of up to two arguments, fed byte by byte.
use socksv5_proxy.Base.{
  ℕ, suc, ◌+◌, ◌%◌, leb, ◌==◌, ◌<◌, ◌≡◌, refl, ◌∙◌, Bool, true, false, List, [], ◌∷◌, ◌++◌, length,
  set, stored, arith,
}
use socksv5_proxy.Consume.Stream.{drain, behind, drain-copy}
use socksv5_proxy.MonParser.{
  MonParser, MonParserState, mon_parser_arg_data, mon_parser_done, parser_feed, is_done,
}

-- A parser of a request of `n` arguments, with the two slots for lengths and for arguments.
abbrev pub parser : MonParserState → ℕ → ℕ → ℕ → ℕ → List ℕ → List ℕ → ℕ → ℕ → MonParser
parser st cmd n l₀ l₁ x y cur off = record {
  state = st;
  request = record {
    version = 1;
    cmd = cmd;
    nargs = n;
    arg_lens = l₀ ∷ l₁ ∷ [];
    args = x ∷ y ∷ [];
  };
  current_arg = cur;
  current_arg_offset = off;
}

module _ (cmd l₀ l₁ : ℕ) where
  -- A byte of the first argument that is not its last.
  step₀ :
      (n : ℕ) (y : List ℕ) (o : ℕ) (x : List ℕ) (c : ℕ)
      → l₀ < 256
      → suc o < l₀
      → parser_feed (parser mon_parser_arg_data cmd n l₀ l₁ x y 0 o) c
        ≡ (parser mon_parser_arg_data cmd n l₀ l₁ (set x o c) y 0 (suc o), mon_parser_arg_data)
  unfolding parser_feed
  step₀ n y o x c lt h =
      let next : (o + 1) % 256 ≡ suc o = omega arith in
      let more : leb l₀ (suc o) ≡ false = ground arith in rw (next, more)

  -- A byte of the second argument that is not its last.
  step₁ :
      (x : List ℕ) (o : ℕ) (y : List ℕ) (c : ℕ)
      → l₁ < 256
      → suc o < l₁
      → parser_feed (parser mon_parser_arg_data cmd 2 l₀ l₁ x y 1 o) c
        ≡ (parser mon_parser_arg_data cmd 2 l₀ l₁ x (set y o c) 1 (suc o), mon_parser_arg_data)
  unfolding parser_feed
  step₁ x o y c lt h =
      let next : (o + 1) % 256 ≡ suc o = omega arith in
      let more : leb l₁ (suc o) ≡ false = ground arith in rw (next, more)

  -- The last byte of the only argument.
  last_only :
      (y : List ℕ) (o : ℕ) (x : List ℕ) (c : ℕ)
      → l₀ < 256
      → suc o ≡ l₀
      → parser_feed (parser mon_parser_arg_data cmd 1 l₀ l₁ x y 0 o) c
        ≡ (parser mon_parser_done cmd 1 l₀ l₁ (set (set x o c) l₀ 0) y 1 0, mon_parser_done)
  unfolding parser_feed
  last_only y o x c lt h =
      let next : (o + 1) % 256 ≡ l₀ = omega arith in
      let done : leb l₀ l₀ ≡ true = ground arith in rw (next, done)

  -- The last byte of the second argument.
  last_second :
      (x : List ℕ) (o : ℕ) (y : List ℕ) (c : ℕ)
      → l₁ < 256
      → suc o ≡ l₁
      → parser_feed (parser mon_parser_arg_data cmd 2 l₀ l₁ x y 1 o) c
        ≡ (parser mon_parser_done cmd 2 l₀ l₁ x (set (set y o c) l₁ 0) 2 0, mon_parser_done)
  unfolding parser_feed
  last_second x o y c lt h =
      let next : (o + 1) % 256 ≡ l₁ = omega arith in
      let done : leb l₁ l₁ ≡ true = ground arith in rw (next, done)

-- The last byte of the first of two arguments, the second one empty.
last_first :
    (cmd l₀ : ℕ) (y : List ℕ) (o : ℕ) (x : List ℕ) (c : ℕ)
    → l₀ < 256
    → suc o ≡ l₀
    → parser_feed (parser mon_parser_arg_data cmd 2 l₀ 0 x y 0 o) c
      ≡ (parser mon_parser_done cmd 2 l₀ 0 (set (set x o c) l₀ 0) (set y 0 0) 2 0, mon_parser_done)
unfolding parser_feed
last_first cmd l₀ y o x c lt h =
    let next : (o + 1) % 256 ≡ l₀ = omega arith in
    let done : leb l₀ l₀ ≡ true = ground arith in rw (next, done)

-- The last byte of the first of two arguments, the second one not empty.
last_former :
    (cmd l₀ k : ℕ) (y : List ℕ) (o : ℕ) (x : List ℕ) (c : ℕ)
    → l₀ < 256
    → suc o ≡ l₀
    → parser_feed (parser mon_parser_arg_data cmd 2 l₀ (suc k) x y 0 o) c ≡ (
      parser mon_parser_arg_data cmd 2 l₀ (suc k) (set (set x o c) l₀ 0) y 1 0,
      mon_parser_arg_data,
    )
unfolding parser_feed
last_former cmd l₀ k y o x c lt h =
    let next : (o + 1) % 256 ≡ l₀ = omega arith in
    let done : leb l₀ l₀ ≡ true = ground arith in
    let more : (suc k == 0) ≡ false = ground arith in rw (next, done, more)

open_data : (err : Bool) → is_done mon_parser_arg_data err ≡ (false, err)
unfolding is_done
open_data err = refl

-- The bytes of the only argument.
pub only_data :
    (c : ℕ) (cs rest : List ℕ) (cmd l₁ : ℕ) (x y : List ℕ) (err : Bool)
    → suc (length cs) < 256
    → drain parser_feed is_done
        (c ∷ cs ++ rest)
        (parser mon_parser_arg_data cmd 1 (suc (length cs)) l₁ x y 0 0)
        mon_parser_arg_data
        err
      ≡ (
        rest,
        parser mon_parser_done cmd 1 (suc (length cs)) l₁ (stored x (c ∷ cs)) y 1 0,
        mon_parser_done,
        err,
      )
unfolding behind is_done
only_data c cs rest cmd l₁ x y err lt =
    drain-copy parser_feed is_done (λ o a. parser mon_parser_arg_data cmd 1 l₀ l₁ a y 0 o)
      mon_parser_arg_data
      (λ a. (parser mon_parser_done cmd 1 l₀ l₁ (set a l₀ 0) y 1 0, mon_parser_done)) l₀ open_data
      (λ o a b h. step₀ cmd l₀ l₁ 1 y o a b lt h) (λ o a b h. last_only cmd l₀ l₁ y o a b lt h) c cs
      rest 0 x err (omega arith)
  where
    l₀ : ℕ
    l₀ = suc (length cs)

-- The bytes of the first of two arguments, the second one empty.
pub first_data :
    (c : ℕ) (cs rest : List ℕ) (cmd : ℕ) (x y : List ℕ) (err : Bool)
    → suc (length cs) < 256
    → drain parser_feed is_done
        (c ∷ cs ++ rest)
        (parser mon_parser_arg_data cmd 2 (suc (length cs)) 0 x y 0 0)
        mon_parser_arg_data
        err
      ≡ (
        rest,
        parser mon_parser_done cmd 2 (suc (length cs)) 0 (stored x (c ∷ cs)) (set y 0 0) 2 0,
        mon_parser_done,
        err,
      )
unfolding behind is_done
first_data c cs rest cmd x y err lt =
    drain-copy parser_feed is_done (λ o a. parser mon_parser_arg_data cmd 2 l₀ 0 a y 0 o)
      mon_parser_arg_data
      (λ a. (parser mon_parser_done cmd 2 l₀ 0 (set a l₀ 0) (set y 0 0) 2 0, mon_parser_done)) l₀
      open_data (λ o a b h. step₀ cmd l₀ 0 2 y o a b lt h)
      (λ o a b h. last_first cmd l₀ y o a b lt h) c cs rest 0 x err (omega arith)
  where
    l₀ : ℕ
    l₀ = suc (length cs)

-- The bytes of the second of two arguments.
pub second_data :
    (c : ℕ) (cs rest : List ℕ) (cmd l₀ : ℕ) (x y : List ℕ) (err : Bool)
    → suc (length cs) < 256
    → drain parser_feed is_done
        (c ∷ cs ++ rest)
        (parser mon_parser_arg_data cmd 2 l₀ (suc (length cs)) x y 1 0)
        mon_parser_arg_data
        err
      ≡ (
        rest,
        parser mon_parser_done cmd 2 l₀ (suc (length cs)) x (stored y (c ∷ cs)) 2 0,
        mon_parser_done,
        err,
      )
unfolding behind is_done
second_data c cs rest cmd l₀ x y err lt =
    drain-copy parser_feed is_done (λ o a. parser mon_parser_arg_data cmd 2 l₀ l₁ x a 1 o)
      mon_parser_arg_data
      (λ a. (parser mon_parser_done cmd 2 l₀ l₁ x (set a l₁ 0) 2 0, mon_parser_done)) l₁ open_data
      (λ o a b h. step₁ cmd l₀ l₁ x o a b lt h) (λ o a b h. last_second cmd l₀ l₁ x o a b lt h) c cs
      rest 0 y err (omega arith)
  where
    l₁ : ℕ
    l₁ = suc (length cs)

-- The bytes of two arguments that are not empty.
pub both_data :
    (c : ℕ) (cs : List ℕ) (d : ℕ) (ds rest : List ℕ) (cmd : ℕ) (x y : List ℕ) (err : Bool)
    → suc (length cs) < 256
    → suc (length ds) < 256
    → drain parser_feed is_done
        (c ∷ cs ++ (d ∷ ds ++ rest))
        (parser mon_parser_arg_data cmd 2 (suc (length cs)) (suc (length ds)) x y 0 0)
        mon_parser_arg_data
        err
      ≡ (
        rest,
        parser mon_parser_done cmd 2
            (suc (length cs))
            (suc (length ds))
            (stored x (c ∷ cs))
            (stored y (d ∷ ds))
            2
            0,
        mon_parser_done,
        err,
      )
unfolding behind is_done
both_data c cs d ds rest cmd x y err lt lt' =
    drain-copy parser_feed is_done (λ o a. parser mon_parser_arg_data cmd 2 l₀ l₁ a y 0 o)
      mon_parser_arg_data
      (λ a. (parser mon_parser_arg_data cmd 2 l₀ l₁ (set a l₀ 0) y 1 0, mon_parser_arg_data)) l₀
      open_data (λ o a b h. step₀ cmd l₀ l₁ 2 y o a b lt h)
      (λ o a b h. last_former cmd l₀ (length ds) y o a b lt h) c cs (d ∷ ds ++ rest) 0 x err
      (omega arith)
    ∙ second_data d ds rest cmd l₀ (stored x (c ∷ cs)) y err lt'
  where
    l₀ : ℕ
    l₀ = suc (length cs)

    l₁ : ℕ
    l₁ = suc (length ds)
