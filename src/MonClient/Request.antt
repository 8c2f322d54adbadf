-- ===== src/MonClient/Request.antt =====
-- The requests of the client, and how the server takes them.
use socksv5_proxy.Base.{
  ℕ, ◌-◌, ◌≤◌, ◌≡◌, refl, sym, subst, ◌∙◌, arith, true, false, Option, ◌>>=◌, none, some, List, [],
  ◌∷◌, ◌++◌, append-nil, length, length-append, copy_to, replicate, strlen, c_str, pos,
}
use socksv5_proxy.Buffer.{Buffer}
use socksv5_proxy.Buffer.Fifo.{Holds}
use socksv5_proxy.MonProtocol.{MonRequest, request_encode}
use socksv5_proxy.MonParser
use socksv5_proxy.MonParser.{MonParser, mon_parser_done}
use socksv5_proxy.MonParser.Message.{wire, IsSendable, HasArrays, HoldsTexts, request_taken}
use socksv5_proxy.MonClient.{
  ClientArgs, ClientCmd, cmd_none, cmd_metrics, cmd_list_users, cmd_add_user, cmd_del_user,
  cmd_access_log, bare_request, fill_arg, build_cmd_request, queue_request,
}
use socksv5_proxy.MonClient.Encode.{
  queue_bytes, with_texts, filled_two, encode_two, with_text, filled_one, encode_one, encode_bare,
}

-- The request is built and queued whole, and a parser of the server that reads what was queued
-- takes it: it is done without an error, nothing is left, and it holds the command and the texts.
pub record ServerTakes (built : Option MonRequest) (b : Buffer) (p : MonParser) (cmd : ℕ)
    (texts : List (List ℕ)) : Type 0 where
  req : MonRequest
  is_built : built ≡ some req
  b' : Buffer
  is_queued : queue_request b req ≡ some (b', true)
  rest : Buffer
  p' : MonParser
  is_taken :
      MonParser.consume b' (MonParser.parser_init p) false ≡ some (rest, p', mon_parser_done, false)
  nothing_left : Holds rest []
  command : p'.request.cmd ≡ cmd
  number : p'.request.nargs ≡ length texts
  arguments : HoldsTexts texts p'.request.args

understood :
    {built : Option MonRequest} {b : Buffer} (p : MonParser) (req : MonRequest) (cmd : ℕ)
    (texts : List (List ℕ))
    → built ≡ some req
    → request_encode req (replicate 515 0) 515
      ≡ (copy_to (replicate 515 0) 0 (wire cmd texts), pos (length (wire cmd texts)))
    → length (wire cmd texts) ≤ 515
    → IsSendable texts
    → Holds b []
    → 515 ≤ b.limit - b.write_pos
    → HasArrays p
    → ServerTakes built b p cmd texts
understood p req cmd texts is_built encoded short sendable h room arrays =
    let (b', q, k) = queue_bytes req (wire cmd texts) encoded h short room in
    let all = subst (λ (w : List ℕ). Holds b' w) (sym (append-nil (wire cmd texts))) k in
    let (rest, p', e, left, c, n, t) = request_taken p cmd texts [] false all sendable arrays in
    record {
      req = req;
      is_built = is_built;
      b' = b';
      is_queued = q;
      rest = rest;
      p' = p';
      is_taken = e;
      nothing_left = left;
      command = c;
      number = n;
      arguments = t;
    }

understood_two :
    {built : Option MonRequest} {b : Buffer} (p : MonParser) (cmd : ℕ) (s t : List ℕ)
    → built ≡ (fill_arg (bare_request cmd 2) 0 s >>= λ req. fill_arg req 1 t)
    → strlen s ≤ 255
    → strlen t ≤ 255
    → Holds b []
    → 515 ≤ b.limit - b.write_pos
    → HasArrays p
    → ServerTakes built b p cmd (c_str s ∷ c_str t ∷ [])
understood_two p cmd s t is_built hs ht h room arrays =
    understood p (with_texts cmd s t) cmd (c_str s ∷ c_str t ∷ [])
      (is_built ∙ filled_two cmd s t hs ht) (encode_two cmd s t hs ht)
      (omega (arith, length-append (c_str s) (c_str t ++ []), length-append (c_str t) []))
      (omega arith, omega arith) h room arrays

understood_one :
    {built : Option MonRequest} {b : Buffer} (p : MonParser) (cmd : ℕ) (s : List ℕ)
    → built ≡ fill_arg (bare_request cmd 1) 0 s
    → strlen s ≤ 255
    → Holds b []
    → 515 ≤ b.limit - b.write_pos
    → HasArrays p
    → ServerTakes built b p cmd (c_str s ∷ [])
understood_one p cmd s is_built hs h room arrays =
    understood p (with_text cmd s) cmd (c_str s ∷ []) (is_built ∙ filled_one cmd s hs)
      (encode_one cmd s hs) (omega (arith, length-append (c_str s) [])) (omega arith) h room arrays

understood_bare :
    {b : Buffer} (p : MonParser) (cmd : ℕ)
    → Holds b []
    → 515 ≤ b.limit - b.write_pos
    → HasArrays p
    → ServerTakes (some (bare_request cmd 0)) b p cmd []
understood_bare p cmd h room arrays =
    understood p (bare_request cmd 0) cmd [] refl (encode_bare cmd) (omega arith) tt h room arrays

told :
    {built : Option MonRequest} {b : Buffer} {p : MonParser} {cmd cmd' : ℕ}
    {texts texts' : List (List ℕ)}
    → ◌≡◌ {A = Option (ℕ × List (List ℕ))} (some (cmd, texts)) (some (cmd', texts'))
    → ServerTakes built b p cmd texts
    → ServerTakes built b p cmd' texts'
told {built} {b} {p} {cmd} {cmd'} {texts} {texts'} e u =
    let q : ◌≡◌ {A = ℕ × List (List ℕ)} (cmd, texts) (cmd', texts') = cc e in
    subst (λ (x : ℕ × List (List ℕ)). ServerTakes built b p x.0 x.1) q u

-- What a command asks of the server: its number on the wire and its texts.
unfoldable pub asked : ClientArgs → Option (ℕ × List (List ℕ))
asked a = elim a.cmd [
  | cmd_metrics ↦ some (4, [])
  | cmd_list_users ↦ some (3, [])
  | cmd_access_log ↦ some (5, [])
  | cmd_add_user ↦ some (1, c_str a.arg_user ∷ c_str a.arg_pass ∷ [])
  | cmd_del_user ↦ some (2, c_str a.arg_user ∷ [])
  | cmd_none ↦ none
]

-- The server understands each command of the client. For texts of up to 255 bytes and an empty
-- write buffer with room for the longest request, the request is built and queued whole, and the
-- parser of the server takes from exactly those bytes the number of the command and its texts.
pub command_understood :
    {b : Buffer} (p : MonParser) (a : ClientArgs) (cmd : ℕ) (texts : List (List ℕ))
    → asked a ≡ some (cmd, texts)
    → strlen a.arg_user ≤ 255
    → strlen a.arg_pass ≤ 255
    → Holds b []
    → 515 ≤ b.limit - b.write_pos
    → HasArrays p
    → ServerTakes (build_cmd_request a) b p cmd texts
unfolding asked build_cmd_request
command_understood {b} p a cmd texts e hs ht h room arrays = go a.cmd e
  where
    go :
        (c : ClientCmd)
        → ◌≡◌ {A = Option (ℕ × List (List ℕ))}
            (elim c [
              | cmd_metrics ↦ some (4, [])
              | cmd_list_users ↦ some (3, [])
              | cmd_access_log ↦ some (5, [])
              | cmd_add_user ↦ some (1, c_str a.arg_user ∷ c_str a.arg_pass ∷ [])
              | cmd_del_user ↦ some (2, c_str a.arg_user ∷ [])
              | cmd_none ↦ none
            ])
            (some (cmd, texts))
        → ServerTakes
            (elim c [
              | cmd_metrics ↦ some (bare_request 4 0)
              | cmd_list_users ↦ some (bare_request 3 0)
              | cmd_access_log ↦ some (bare_request 5 0)
              | cmd_add_user ↦
                  fill_arg (bare_request 1 2) 0 a.arg_user >>= λ req. fill_arg req 1 a.arg_pass
              | cmd_del_user ↦ fill_arg (bare_request 2 1) 0 a.arg_user
              | cmd_none ↦ none
            ])
            b
            p
            cmd
            texts
    go cmd_metrics e = told e (understood_bare p 4 h room arrays)
    go cmd_list_users e = told e (understood_bare p 3 h room arrays)
    go cmd_access_log e = told e (understood_bare p 5 h room arrays)
    go cmd_add_user e = told e (understood_two p 1 a.arg_user a.arg_pass refl hs ht h room arrays)
    go cmd_del_user e = told e (understood_one p 2 a.arg_user refl hs h room arrays)
    go cmd_none e = absurd (cc e)
