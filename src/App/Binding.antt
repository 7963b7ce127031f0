-- ===== src/App/Binding.antt =====
-- Binding a listener in smallserver/app.py: the one active invocation of a `SmallServer`, and
-- `_bind_and_schedule` up to the handle that it constructs.
use small_server.Prelude.{
  ℕ, Bool, true, false, not, ◌&&◌, ◌||◌, Option, none, some, leb, ◌==◌, if◌then◌else◌, is_nil,
  Result, ok, err,
}
use small_server.Prelude.Text.{Text, codes, text_equal}
use small_server.Cleanup.{Action, Transaction, CleanupError, empty, complete}
use small_server.Transport.Acquiring.{
  Network, Outcome, acquired, failed, unfinished, add_action, open_listener, create_wakeup_channel,
}

-- The part of a `SmallServer` that binding changes, with the world. An invocation is the number that
-- `id` gives its marker or its handle.
pub record Application (W : Type 0) : Type 0 where
  pub active_invocation : Option ℕ
  pub world : W

pub record Arguments : Type 0 where
  pub host : Text
  pub port : ℕ
  pub protocol : Text
  pub has_http2_config : Bool
  pub http2_installed : Bool

pub data BindError : Type 0 where
  bad_host bad_port bad_protocol config_without_http2 http2_missing active_listener : BindError
  ownership_changed : BindError
  raised : ℕ → BindError

-- The checks before anything is acquired.
unfoldable pub check_arguments : Arguments → Result BindError (Unit {0})
check_arguments a =
    if is_nil a.host
    then err bad_host
    else if not (leb a.port 65535)
    then err bad_port
    else if not (text_equal a.protocol (codes "http1") || text_equal a.protocol (codes "http2"))
    then err bad_protocol
    else if text_equal a.protocol (codes "http1") && a.has_http2_config
    then err config_without_http2
    else if text_equal a.protocol (codes "http2") && not a.http2_installed
    then err http2_missing
    else ok tt

abbrev pub is_active : Option ℕ → ℕ → Bool
is_active none i = false
is_active (some j) i = j == i

-- What `_bind_and_schedule` ends in: the listener and the channel of the handle, an exception with
-- nothing left, a ServerStartupError for the exception, or the exception itself with the
-- ServerStartupError as its cause.
pub data Binding (W : Type 0) : Type 0 where
  bound : ℕ → Option ℕ → Binding W
  refused : BindError → Binding W
  startup_failed : ℕ → CleanupError (Application W) ℕ → Binding W
  interrupted : ℕ → CleanupError (Application W) ℕ → Binding W

module _ {W : Type 0} where
  -- A call of the kernel leaves the application as it is.
  abbrev pub on_world : {A : Type 0} → (W → A × W) → Application W → A × Application W
  on_world call a = let (x, w) = call a.world in (x, record a { world = w })

  abbrev pub on_application : Network W → Network (Application W)
  on_application net = record {
    supports_wakeup_channel = net.supports_wakeup_channel;
    is_interrupt = net.is_interrupt;
    resolve_passive_address = on_world net.resolve_passive_address;
    socket_open = on_world net.socket_open;
    socket_set_reuse_address = λ i. on_world (net.socket_set_reuse_address i);
    socket_bind = λ i. on_world (net.socket_bind i);
    socket_listen = λ i. on_world (net.socket_listen i);
    socket_setblocking = λ i. on_world (net.socket_setblocking i);
    socket_peer_address = λ i. on_world (net.socket_peer_address i);
    socket_close = λ i. on_world (net.socket_close i);
    create_wakeup_channel = on_world net.create_wakeup_channel;
    validate = λ i. on_world (net.validate i);
    wakeup_close = λ i. on_world (net.wakeup_close i);
  }

  abbrev pub reserve : ℕ → Option ℕ → Application W → Result BindError (Unit {0}) × Application W
  reserve marker none a = (ok tt, record a { active_invocation = some marker })
  reserve marker (some i) a = (err active_listener, a)

  -- `_reserve_invocation`, with the marker that it makes.
  abbrev pub reserve_invocation : ℕ → Application W → Result BindError (Unit {0}) × Application W
  reserve_invocation marker a = reserve marker a.active_invocation a

  -- `_release_invocation`
  abbrev pub release_invocation : ℕ → Application W → Application W
  release_invocation expected a =
      if is_active a.active_invocation expected then record a { active_invocation = none } else a

  -- `_replace_invocation`
  abbrev pub replace_invocation :
      ℕ → ℕ → Application W → Result BindError (Unit {0}) × Application W
  replace_invocation expected replacement a =
      if is_active a.active_invocation expected
      then (ok tt, record a { active_invocation = some replacement })
      else (err ownership_changed, a)

  -- `_raise_startup_cleanup`, told whether the exception is a KeyboardInterrupt or a SystemExit.
  abbrev pub raise_startup_cleanup : Bool → ℕ → CleanupError (Application W) ℕ → Binding W
  raise_startup_cleanup true x e = interrupted x e
  raise_startup_cleanup false x e = startup_failed x e

-- The steps that follow each other, on a network that acts on the application. `connect` is the
-- constructor of the transport and `construct` the one of the handle, which reads the listener's
-- address.
module _ {W : Type 0} (net : Network (Application W)) (marker handle : ℕ) where
  -- A failure that has left nothing open releases the marker.
  abbrev pub give_up : ℕ → Application W → Binding W × Application W
  give_up x a = (refused (raised x), release_invocation marker a)

  -- `raise_acquisition_cleanup`: the marker is released once the cleanup is complete.
  abbrev pub raise_acquisition_cleanup :
      ℕ → Transaction (Application W) ℕ → Application W → Binding W × Application W
  raise_acquisition_cleanup x t a = (
    raise_startup_cleanup (net.is_interrupt x) x (record {
      transaction = t;
      on_cleanup_complete = some (release_invocation marker);
      completion_notified = false;
    }),
    a,
  )

  abbrev pub add_failed :
      Text
      → Action (Application W) ℕ
      → Option ℕ
      → Transaction (Application W) ℕ
      → Transaction (Application W) ℕ
  add_failed name action none t = t
  add_failed name action (some x) t = add_action t name action x

  -- A resource is closed, and kept in the transaction where that raises.
  abbrev pub close_into :
      Text
      → Action (Application W) ℕ
      → Transaction (Application W) ℕ × Application W
      → Transaction (Application W) ℕ × Application W
  close_into name action (t, a) = let (x, a') = action a in (add_failed name action x t, a')

  abbrev pub end_failed :
      ℕ → Transaction (Application W) ℕ × Application W → Binding W × Application W
  end_failed x (t, a) =
      let cleanup = raise_acquisition_cleanup x t a in
      let gone = give_up x a in if not (complete t) then cleanup else gone

  abbrev pub close_channel :
      Option ℕ
      → Transaction (Application W) ℕ × Application W
      → Transaction (Application W) ℕ × Application W
  close_channel none r = r
  close_channel (some channel) r = close_into (codes "wakeup") (net.wakeup_close channel) r

  abbrev pub close_bound :
      ℕ → Option ℕ → Application W → Transaction (Application W) ℕ × Application W
  close_bound listener channel a =
      close_into (codes "listener") (net.socket_close listener) (close_channel channel (empty, a))

  abbrev pub replaced :
      ℕ → Option ℕ → Result BindError (Unit {0}) × Application W → Binding W × Application W
  replaced listener channel (ok _, a) = (bound listener channel, a)
  replaced listener channel (err x, a) = (refused x, a)

  abbrev pub constructed : ℕ → Option ℕ → Option ℕ × Application W → Binding W × Application W
  constructed listener channel (none, a) =
      replaced listener channel (replace_invocation marker handle a)
  constructed listener channel (some x, a) = end_failed x (close_bound listener channel a)

  -- The listener's close after the channel's failure.
  abbrev pub with_channel :
      (ℕ → Application W → Option ℕ × Application W)
      → ℕ
      → Outcome (Application W) × Application W
      → Binding W × Application W
  with_channel construct listener (acquired channel, a) =
      constructed listener (some channel) (construct listener a)
  with_channel construct listener (failed x, a) =
      end_failed x (close_into (codes "listener") (net.socket_close listener) (empty, a))
  with_channel construct listener (unfinished x t, a) =
      let (t', a') = close_into (codes "listener") (net.socket_close listener) (t, a) in
      raise_acquisition_cleanup x t' a'

  abbrev pub with_listener :
      (ℕ → Application W → Option ℕ × Application W)
      → Outcome (Application W) × Application W
      → Binding W × Application W
  with_listener construct (acquired listener, a) =
      if net.supports_wakeup_channel
      then with_channel construct listener (create_wakeup_channel net a)
      else constructed listener none (construct listener a)
  with_listener construct (failed x, a) = give_up x a
  with_listener construct (unfinished x t, a) = raise_acquisition_cleanup x t a

  abbrev pub connected :
      (ℕ → Application W → Option ℕ × Application W)
      → Option ℕ × Application W
      → Binding W × Application W
  connected construct (none, a) = with_listener construct (open_listener net a)
  connected construct (some x, a) = give_up x a

  abbrev pub reserved :
      (Application W → Option ℕ × Application W)
      → (ℕ → Application W → Option ℕ × Application W)
      → Result BindError (Unit {0}) × Application W
      → Binding W × Application W
  reserved connect construct (ok _, a) = connected construct (connect a)
  reserved connect construct (err x, a) = (refused x, a)

  abbrev pub checked :
      (Application W → Option ℕ × Application W)
      → (ℕ → Application W → Option ℕ × Application W)
      → Application W
      → Result BindError (Unit {0})
      → Binding W × Application W
  checked connect construct a (ok _) = reserved connect construct (reserve_invocation marker a)
  checked connect construct a (err x) = (refused x, a)

  -- `_bind_and_schedule`, up to the handle that `_replace_invocation` puts in.
  unfoldable pub bind :
      (Application W → Option ℕ × Application W)
      → (ℕ → Application W → Option ℕ × Application W)
      → Arguments
      → Application W
      → Binding W × Application W
  bind connect construct arguments a = checked connect construct a (check_arguments arguments)
