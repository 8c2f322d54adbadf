-- ===== src/MonParser/Message.antt =====
-- Whole requests of the monitoring protocol: a header, the lengths and the arguments.
use socksv5_proxy.Base.{
  ℕ, suc, ltb, ◌==◌, ◌<◌, ◌≡◌, refl, ap, ◌∙◌, Bool, false, some, List, [], ◌∷◌, ◌++◌, length, set,
  c_str, c_str-stored, stored, arith, append_assoc, append-nil,
}
use socksv5_proxy.Buffer.{Buffer}
use socksv5_proxy.Buffer.Fifo.{Holds}
use socksv5_proxy.Consume.Stream.{drain, loop_drained}
use socksv5_proxy.MonParser.{
  MonParser, mon_parser_version, mon_parser_arg_data, mon_parser_done, parser_init, parser_feed,
  is_done, consume,
}
use socksv5_proxy.MonParser.Parse.{parser, only_data, first_data, second_data, both_data}

start : ℕ → ℕ → List ℕ → List ℕ → MonParser
start a b x y = record {
  state = mon_parser_version;
  request = record { version = 0; cmd = 0; nargs = 0; arg_lens = a ∷ b ∷ []; args = x ∷ y ∷ [] };
  current_arg = 0;
  current_arg_offset = 0;
}

no_args :
    (cmd : ℕ) (rest : List ℕ) (a b : ℕ) (x y : List ℕ) (err : Bool)
    → drain parser_feed is_done (1 ∷ cmd ∷ 0 ∷ rest) (start a b x y) mon_parser_version err
      ≡ (rest, parser mon_parser_done cmd 0 a b x y 0 0, mon_parser_done, err)
unfolding start drain parser_feed is_done
no_args cmd rest a b x y err = refl

one_arg_head :
    (cmd c : ℕ) (cs rest : List ℕ) (a b : ℕ) (x y : List ℕ) (err : Bool)
    → suc (length cs) < 256
    → drain parser_feed is_done
        (1 ∷ cmd ∷ 1 ∷ suc (length cs) ∷ rest)
        (start a b x y)
        mon_parser_version
        err
      ≡ drain parser_feed is_done rest
          (parser mon_parser_arg_data cmd 1 (suc (length cs)) b x y 0 0)
          mon_parser_arg_data
          err
unfolding start drain parser_feed is_done
one_arg_head cmd c cs rest a b x y err lt =
    let fits : ltb 255 (suc (length cs)) ≡ false = ground arith in
    let more : (suc (length cs) == 0) ≡ false = ground arith in rw (fits, more)

one_arg :
    (cmd : ℕ) (u rest : List ℕ) (a b : ℕ) (x y : List ℕ) (err : Bool)
    → length u < 256
    → drain parser_feed is_done
        (1 ∷ cmd ∷ 1 ∷ length u ∷ u ++ rest)
        (start a b x y)
        mon_parser_version
        err
      ≡ (rest, parser mon_parser_done cmd 1 (length u) b (stored x u) y 1 0, mon_parser_done, err)
unfolding start drain parser_feed is_done
one_arg cmd [] rest a b x y err lt = refl
one_arg cmd (c ∷ cs) rest a b x y err lt =
    one_arg_head cmd c cs (c ∷ cs ++ rest) a b x y err lt ∙ only_data c cs rest cmd b x y err lt

two_args_head :
    (cmd k l : ℕ) (rest : List ℕ) (a b : ℕ) (x y : List ℕ) (err : Bool)
    → suc k < 256
    → l < 256
    → drain parser_feed is_done
        (1 ∷ cmd ∷ 2 ∷ suc k ∷ l ∷ rest)
        (start a b x y)
        mon_parser_version
        err
      ≡ drain parser_feed is_done rest
          (parser mon_parser_arg_data cmd 2 (suc k) l x y 0 0)
          mon_parser_arg_data
          err
unfolding start drain parser_feed is_done
two_args_head cmd k l rest a b x y err lt lt' =
    let fits : ltb 255 (suc k) ≡ false = ground arith in
    let fits' : ltb 255 l ≡ false = ground arith in
    let more : (suc k == 0) ≡ false = ground arith in rw (fits, fits', more)

late_head :
    (cmd k : ℕ) (rest : List ℕ) (a b : ℕ) (x y : List ℕ) (err : Bool)
    → suc k < 256
    → drain parser_feed is_done
        (1 ∷ cmd ∷ 2 ∷ 0 ∷ suc k ∷ rest)
        (start a b x y)
        mon_parser_version
        err
      ≡ drain parser_feed is_done rest
          (parser mon_parser_arg_data cmd 2 0 (suc k) (set x 0 0) y 1 0)
          mon_parser_arg_data
          err
unfolding start drain parser_feed is_done
late_head cmd k rest a b x y err lt =
    let fits : ltb 255 (suc k) ≡ false = ground arith in
    let more : (suc k == 0) ≡ false = ground arith in rw (fits, more)

two_args :
    (cmd : ℕ) (u v rest : List ℕ) (a b : ℕ) (x y : List ℕ) (err : Bool)
    → length u < 256
    → length v < 256
    → drain parser_feed is_done
        (1 ∷ cmd ∷ 2 ∷ length u ∷ length v ∷ u ++ (v ++ rest))
        (start a b x y)
        mon_parser_version
        err
      ≡ (
        rest,
        parser mon_parser_done cmd 2 (length u) (length v) (stored x u) (stored y v) 2 0,
        mon_parser_done,
        err,
      )
unfolding start drain parser_feed is_done
two_args cmd [] [] rest a b x y err lt lt' = refl
two_args cmd [] (d ∷ ds) rest a b x y err lt lt' =
    late_head cmd (length ds) (d ∷ ds ++ rest) a b x y err lt'
    ∙ second_data d ds rest cmd 0 (set x 0 0) y err lt'
two_args cmd (c ∷ cs) [] rest a b x y err lt lt' =
    two_args_head cmd (length cs) 0 (c ∷ cs ++ rest) a b x y err lt lt'
    ∙ first_data c cs rest cmd x y err lt
two_args cmd (c ∷ cs) (d ∷ ds) rest a b x y err lt lt' =
    two_args_head cmd (length cs) (suc (length ds)) (c ∷ cs ++ (d ∷ ds ++ rest)) a b x y err lt lt'
    ∙ both_data c cs d ds rest cmd x y err lt lt'

abbrev pub lens : List (List ℕ) → List ℕ
lens [] = []
lens (u ∷ us) = length u ∷ lens us

abbrev pub joined : List (List ℕ) → List ℕ
joined [] = []
joined (u ∷ us) = u ++ joined us

-- The bytes of a request with the arguments `args`, as mon_protocol.h draws them.
abbrev pub wire : ℕ → List (List ℕ) → List ℕ
wire cmd args = 1 ∷ cmd ∷ length args ∷ lens args ++ joined args

-- At most two arguments of at most 255 bytes.
abbrev pub IsSendable : List (List ℕ) → Type 0
IsSendable [] = Unit
IsSendable (u ∷ []) = length u < 256
IsSendable (u ∷ v ∷ []) = (length u < 256) × (length v < 256)
IsSendable (u ∷ v ∷ w ∷ r) = ⊥

-- The texts in the rows of an argument array.
abbrev pub HoldsTexts : List (List ℕ) → List (List ℕ) → Type 0
HoldsTexts [] rows = Unit
HoldsTexts (u ∷ us) [] = ⊥
HoldsTexts (u ∷ us) (row ∷ rows) = (c_str row ≡ c_str u) × HoldsTexts us rows

-- A parser with the arrays of a `struct mon_request`.
pub record HasArrays (p : MonParser) : Type 0 where
  pub l₀ : ℕ
  pub l₁ : ℕ
  pub x : List ℕ
  pub y : List ℕ
  pub two_lens : p.request.arg_lens ≡ l₀ ∷ l₁ ∷ []
  pub two_args : p.request.args ≡ x ∷ y ∷ []
  pub x_room : length x ≡ 256
  pub y_room : length y ≡ 256

initial : (p : MonParser) (h : HasArrays p) → parser_init p ≡ start h.l₀ h.l₁ h.x h.y
unfolding parser_init start
initial p h = rw (h.two_lens, h.two_args)

-- A request of a command with up to two arguments of up to 255 bytes each, empty ones included,
-- is taken whole and nothing behind it: the parser is done without an error, and holds the
-- command, the number of arguments and their texts, each up to its first zero byte.
pub request_taken :
    {b : Buffer} (p : MonParser) (cmd : ℕ) (args : List (List ℕ)) (rest : List ℕ) (err : Bool)
    → Holds b (wire cmd args ++ rest)
    → IsSendable args
    → HasArrays p
    → (b' : Buffer) × (p' : MonParser) × (consume b (parser_init p) err
        ≡ some (b', p', mon_parser_done, err))
      × Holds b' rest
      × (p'.request.cmd ≡ cmd)
      × (p'.request.nargs ≡ length args)
      × HoldsTexts args p'.request.args
unfolding consume start
request_taken p cmd [] rest err h s a = rw (initial p a) (
    let (b', e, k, l) =
      loop_drained parser_feed is_done (start a.l₀ a.l₁ a.x a.y) mon_parser_version err
        (no_args cmd rest a.l₀ a.l₁ a.x a.y err) h in
    (b', _, e, k, refl, refl, tt))
request_taken p cmd (u ∷ []) rest err h s a = rw (initial p a) (
    let (b', e, k, l) =
      loop_drained parser_feed is_done (start a.l₀ a.l₁ a.x a.y) mon_parser_version err
        (ap
            (λ t.
              drain parser_feed is_done (1 ∷ cmd ∷ 1 ∷ length u ∷ t ++ rest)
                (start a.l₀ a.l₁ a.x a.y) mon_parser_version err)
            (append-nil u)
          ∙ one_arg cmd u rest a.l₀ a.l₁ a.x a.y err s)
        h in
    (b', _, e, k, refl, refl, (c_str-stored a.x u (omega (arith, a.x_room)), tt)))
request_taken p cmd (u ∷ v ∷ []) rest err h s a = rw (initial p a) (
    let (b', e, k, l) =
      loop_drained parser_feed is_done (start a.l₀ a.l₁ a.x a.y) mon_parser_version err
        (ap
            (λ t.
              drain parser_feed is_done (1 ∷ cmd ∷ 2 ∷ length u ∷ length v ∷ t)
                (start a.l₀ a.l₁ a.x a.y) mon_parser_version err)
            (append_assoc u (v ++ []) rest ∙ ap (λ t. u ++ (t ++ rest)) (append-nil v))
          ∙ two_args cmd u v rest a.l₀ a.l₁ a.x a.y err s.0 s.1)
        h in
    (
      b',
      _,
      e,
      k,
      refl,
      refl,
      (
        c_str-stored a.x u (omega (arith, a.x_room)),
        (c_str-stored a.y v (omega (arith, a.y_room)), tt),
      ),
    ))
request_taken p cmd (u ∷ v ∷ w ∷ r) rest err h s a = absurd s
