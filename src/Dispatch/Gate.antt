-- ===== src/Dispatch/Gate.antt =====
-- The machine of a connection goes on to the request only with the right credentials.
use socksv5_proxy.Base.{
  ◌≡◌, ◌==◌, refl, ◌∙◌, Bool-cases, inl, inr, false, Option, some, if◌then◌else◌,
}
use socksv5_proxy.Buffer
use socksv5_proxy.Handshake.{auth_write}
use socksv5_proxy.RequestPhase.{request_read_init, action_after}
use socksv5_proxy.Socks5.{
  Socks5, state_auth_write, state_request_read, state_error, action_read, action_close,
}
use socksv5_proxy.Stm
use socksv5_proxy.Stm.{StateMachine}
use socksv5_proxy.Dispatch.{
  World, Answers, socks5_handle_write, socks5_states, machine_of, concluded, lifted, on_conn,
  state_number, numbered,
}

auth_write-eq :
    (s : Socks5)
    → Buffer.can_read s.write_buffer ≡ false
    → auth_write s ≡ (if s.auth_status == 0 then state_request_read else state_error)
unfolding auth_write
auth_write-eq s sent = rw sent refl

abbrev waiting : Answers → StateMachine (Option World)
waiting sys = record { initial = 0; states = socks5_states sys; max_state = 9; current = some 3 }

-- The machine of a connection whose reply to the credentials is on its way.
machine_at :
    (sys : Answers) (s : Socks5)
    → s.current ≡ some state_auth_write
    → machine_of sys s ≡ waiting sys
unfolding machine_of state_number
machine_at sys s e = rw e refl

goes_on :
    (sys : Answers) (w : World)
    → auth_write w.conn ≡ state_request_read
    → Stm.stm_handler_write (waiting sys) (some w)
      ≡ some (
        record (waiting sys) { current = some 4 },
        some (record w { conn = request_read_init w.conn }),
        4,
      )
unfolding socks5_states lifted on_conn state_number Stm.stm_handler_write Stm.handle
    Stm.handle_first Stm.fire Stm.callback_of Stm.jump Stm.arrive Stm.depart Stm.is_current
    Stm.run_hook
goes_on sys w e = rw e refl

gives_up :
    (sys : Answers) (w : World)
    → auth_write w.conn ≡ state_error
    → Stm.stm_handler_write (waiting sys) (some w)
      ≡ some (record (waiting sys) { current = some 9 }, some w, 9)
unfolding socks5_states lifted on_conn state_number Stm.stm_handler_write Stm.handle
    Stm.handle_first Stm.fire Stm.callback_of Stm.jump Stm.arrive Stm.depart Stm.is_current
    Stm.run_hook
gives_up sys w e = rw e refl

-- Once the reply to the credentials has been sent, the event for writing takes a connection whose
-- credentials were right to the state that reads the request, with the parser of the request and
-- the reply set up for it, and waits for reading; any other connection goes to the state of
-- errors, and is to be closed.
pub reply_sent_decides :
    (sys : Answers) (w : World)
    → w.conn.current ≡ some state_auth_write
    → Buffer.can_read w.conn.write_buffer ≡ false
    → socks5_handle_write sys w ≡ (
        if w.conn.auth_status == 0
        then some (
          record w {
            conn = record (request_read_init w.conn) { current = some state_request_read };
          },
          action_read,
        )
        else some (record w { conn = record w.conn { current = some state_error } }, action_close))
unfolding socks5_handle_write concluded numbered action_after request_read_init
reply_sent_decides sys w at_state sent = elim (Bool-cases (w.conn.auth_status == 0)) [
  | inl e ↦
      rw
        (
          machine_at sys w.conn at_state,
          goes_on sys w (auth_write-eq w.conn sent ∙ rw e refl),
          e,
          sent,
        )
        refl
  | inr e ↦
      rw (machine_at sys w.conn at_state, gives_up sys w (auth_write-eq w.conn sent ∙ rw e refl), e)
        refl
]
