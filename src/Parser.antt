-- ===== src/Parser.antt =====
-- shared/parser.c: a parser that a table of transitions drives. `none` stands for an access
-- behind one of the tables.
use socksv5_proxy.Base.{
  ℕ, zero, suc, ◌/◌, ◌%◌, ◌==◌, Bool, true, false, ◌&&◌, ◌||◌, Option, none, some, ◌>>=◌, leb,
  if◌then◌else◌, List, [], ◌∷◌, get_elem?, replicate, ℤ, pos, negsuc,
}

-- The pointer `next` of an event is in the parser.
pub record ParserEvent : Type 0 where
  pub event_type : ℕ
  pub chars : List ℕ
  pub n : ℕ

pub record ParserStateTransition : Type 0 where
  pub condition : ℤ
  pub dest : ℕ
  pub act₁ : ParserEvent → ℕ → ParserEvent
  pub act₂ : Option (ParserEvent → ℕ → ParserEvent)

abbrev pub any : ℕ
any = 512

-- `states_n` is given by the lengths of the lists.
pub record ParserDefinition : Type 0 where
  pub states_count : ℕ
  pub states : List (List ParserStateTransition)
  pub start_state : ℕ

-- `e₁.next` points to `e₂` where `chained` is true, and is a null pointer else.
pub record Parser : Type 0 where
  pub classes : List ℕ
  pub def : ParserDefinition
  pub state : ℕ
  pub e₁ : ParserEvent
  pub e₂ : ParserEvent
  pub chained : Bool

no_event : ParserEvent
no_event = record { event_type = 0; chars = replicate 3 0; n = 0 }

-- Where malloc(3) succeeds.
pub parser_init : List ℕ → ParserDefinition → Parser
unfolding no_event
parser_init classes def = record {
  classes = classes;
  def = def;
  state = def.start_state;
  e₁ = no_event;
  e₂ = no_event;
  chained = false;
}

pub parser_reset : Parser → Parser
parser_reset p = let def = p.def in record p { state = def.start_state }

-- Whether two numbers have one of their lowest `w` bits in common.
common_bit : ℕ → ℕ → ℕ → Bool
common_bit zero a b = false
common_bit (suc w) a b =
    let rest = common_bit w (a / 2) (b / 2) in (a % 2 == 1) && (b % 2 == 1) || rest

-- The tests of the loop of `parser_feed`; ints have 32 bits.
matched : ℕ → ℕ → ℤ → Bool
unfolding common_bit
matched type c (negsuc n) = false
matched type c (pos n) =
    if leb n 255 then c == n else if n == any then true else common_bit 32 type n

-- The body of the loop for a transition that matches.
take_transition : Parser → ParserStateTransition → ℕ → Parser
take_transition p t c =
    let p' = record p { e₁ = t.act₁ p.e₁ c; state = t.dest } in
    elim t.act₂ [ none ↦ p' | some act ↦ record p' { e₂ = act p.e₂ c; chained = true } ]

-- The loop: the first transition that matches.
feed_transitions : Parser → List ParserStateTransition → ℕ → ℕ → Parser
unfolding matched take_transition
feed_transitions p [] type c = p
feed_transitions p (t ∷ ts) type c =
    let rest = feed_transitions p ts type c in
    if matched type c t.condition then take_transition p t c else rest

-- The event returned is `e₁` of the parser.
pub parser_feed : Parser → ℕ → Option Parser
unfolding feed_transitions
parser_feed p c = do
  type ← get_elem? p.classes c
  let def = p.def
  transitions ← get_elem? def.states p.state
  some (feed_transitions (record p { chained = false }) transitions type c)

-- 255 elements.
pub parser_no_classes : List ℕ
parser_no_classes = replicate 255 0
