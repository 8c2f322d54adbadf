-- ===== src/Dispatch/Tests.antt =====
-- The table of states is well-formed; an instance of the theorem on it.
use socksv5_proxy.Base.{◌≡◌, refl, none, some, []}
use socksv5_proxy.Stm
use socksv5_proxy.AccessLog
use socksv5_proxy.Buffer
use socksv5_proxy.UserTable
use socksv5_proxy.Connect.{socket_opened}
use socksv5_proxy.Resolver.{no_error, dns_no_memory}
use socksv5_proxy.Selector.{selector_success}
use socksv5_proxy.Socks5.{socks5_init, state_auth_write, state_error, action_close}
use socksv5_proxy.Dispatch.{
  Answers, World, socks5_handle_write, machine_of, socks5_states, state_number,
}
use socksv5_proxy.Dispatch.Gate.{reply_sent_decides}

table_valid :
    (sys : Answers) → Stm.stm_init (machine_of sys socks5_init) ≡ some (machine_of sys socks5_init)
unfolding machine_of socks5_states state_number socks5_init Stm.stm_init Stm.correlative
table_valid sys = refl

-- Credentials that were refused; the reply has left.
abbrev refused : World
refused = record {
  conn = record socks5_init { current = some state_auth_write; auth_status = 1 };
  effects = [];
  job = none;
  users = UserTable.init;
  log = AccessLog.init;
}

abbrev answers : Answers
answers = record {
  dial = λ n addr. record {
    socket = socket_opened 9;
    non_blocking = no_error;
    connect = no_error;
    registered = selector_success;
  };
  start = dns_no_memory;
  bound = none;
  inet_ntop = λ family addr. none;
  now = 0;
}

reply_sent_decides_example :
    socks5_handle_write answers refused
    ≡ some (
      record refused { conn = record socks5_init { current = some state_error; auth_status = 1 } },
      action_close,
    )
unfolding socks5_init Buffer.can_read
reply_sent_decides_example = reply_sent_decides answers refused refl refl
