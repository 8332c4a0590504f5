-- ===== src/Aos/Connection.antt =====
-- The transport of the AOS driver (src/switchtest/drivers/aos.py) between `connect` and `disconnect`.
use omniswitch_ci_cd.Prelude.{String, ◌<>◌, ◌⊎◌, inl, inr, Option, some, none}
use omniswitch_ci_cd.Exec.{Result, ok, raised, pure, gets, modify, continue, ◌>>=◌, ◌>>◌}
use omniswitch_ci_cd.Exec.Laws.{Keeps, Keeps-bind, Keeps-pure, keeps_rules}
use omniswitch_ci_cd.Domain.Runtime.{DeviceDefinition}
use omniswitch_ci_cd.Aos.Wire.{
  Transport, Wire, AosState, on_wire, set_transport, resolve_secret, resolve_optional_secret,
}
use omniswitch_ci_cd.Aos.Driver.{build_transport, aos_connect, close_if, aos_disconnect}

-- `AtMost o w`: no transport but `o` has a session. `connect` may open a session of its transport, also if it raises,
-- `close` ends that of its transport, also if it raises, and opens none, and so does reading the environment.
pub record IsSession {W : Type 0} (wire : Wire W) (AtMost : Option Transport → W → Type 0)
    : Type 0 where
  pub connects : (t : Transport) (w : W) → AtMost none w → AtMost (some t) (wire.connect t w).1
  pub closes : (t : Transport) (w : W) → AtMost (some t) w → AtMost none (wire.close t w).1
  pub close_keeps : (t : Transport) → Keeps (AtMost none) (wire.close t)
  pub getenv_keeps : (name : String) → Keeps (AtMost none) (wire.getenv name)

module _ {W : Type 0} (wire : Wire W) (device : DeviceDefinition)
    (AtMost : Option Transport → W → Type 0) (session : IsSession wire AtMost) where
  -- No transport has a session, or only the one of the driver.
  abbrev Known : Option Transport → W → Type 0
  Known o w = AtMost none w ⊎ AtMost o w

  secret-Keeps :
      (inline env_name : Option String) (label : String)
      → Keeps (AtMost none) (resolve_secret wire inline env_name label)
  unfolding resolve_secret
  secret-Keeps inline env_name label = search (keeps_rules, session.getenv_keeps)

  optional-Keeps :
      (inline env_name : Option String)
      → Keeps (AtMost none) (resolve_optional_secret wire inline env_name)
  unfolding resolve_optional_secret
  optional-Keeps inline env_name = search (keeps_rules, session.getenv_keeps)

  build-Keeps : Keeps (AtMost none) (build_transport wire device)
  unfolding build_transport
  build-Keeps =
      Keeps-bind _ _
        (secret-Keeps device.password device.password_env ("device '" <> (device.name <> "'")))
        λ password.
          Keeps-bind _ _ (optional-Keeps device.enable_password device.enable_password_env)
            λ secondary. Keeps-pure _

  abbrev KnownState : AosState W → Type 0
  KnownState s = Known s.transport s.world

  connect-Known : (s : AosState W) → AtMost none s.world → KnownState (aos_connect wire device s).1
  unfolding aos_connect set_transport modify on_wire ◌>>=◌
  connect-Known s silent =
      by_build (build_transport wire device s.world).0
        (record s { world = (build_transport wire device s.world).1 })
        (build-Keeps.at s.world silent)
    where
      by_build :
          (r : Result Transport) (v : AosState W)
          → AtMost none v.world
          → KnownState (continue r (λ t. set_transport t >> on_wire (wire.connect t)) v).1
      by_build (ok t) v kept = inr (session.connects t v.world kept)
      by_build (raised e) v kept = inl kept

  disconnect-silent :
      (s : AosState W) → KnownState s → AtMost none (aos_disconnect wire device s).1.world
  unfolding aos_disconnect ◌>>=◌ gets on_wire pure
  disconnect-silent s known = by_transport s.transport s.world known
    where
      by_transport :
          (o : Option Transport) (w : W)
          → Known o w
          → AtMost none (close_if wire device o (record { transport = o; world = w })).1.world
      by_transport none w (inl silent) = silent
      by_transport none w (inr silent) = silent
      by_transport (some t) w (inl silent) = (session.close_keeps t).at w silent
      by_transport (some t) w (inr one) = session.closes t w one

  -- If no transport has a session, then `connect` and `disconnect` behind it leave none with a session, whether the
  -- password was missing, `connect` raised with its session open, or all of them returned.
  pub aos_disconnect-aos_connect :
      (s : AosState W)
      → AtMost none s.world
      → AtMost none (aos_disconnect wire device (aos_connect wire device s).1).1.world
  aos_disconnect-aos_connect s silent =
      disconnect-silent (aos_connect wire device s).1 (connect-Known s silent)
