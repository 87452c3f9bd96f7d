-- ===== src/Daemon/Task/Yields.antt =====
-- A session of crates/daemon/src/main.rs that is to yield does not go on for ever.
use Prim.Native.String.{String}
use hass_sma_rs.Prelude.{
  ℕ, ◌+◌, ◌^◌, ◌<◌, ◌≤◌, ◌≡◌, refl, List, [], ◌∷◌, length, Bool-cases, inl, inr, ◌⊎◌, arith,
}
use hass_sma_rs.Transport.Rfcomm.Socket.{Kernel}
use hass_sma_rs.Transport.Rfcomm.Link.{Link, rfcomm}
use hass_sma_rs.Client.Session.{Session}
use hass_sma_rs.Client.Session.Query.{graceful_close}
use hass_sma_rs.Daemon.Readings.{Floats, Outputs}
use hass_sma_rs.Mqtt.Publisher.{Outcome, panicked, returned}
use hass_sma_rs.Daemon.Targets.{yields_at}
use hass_sma_rs.Daemon.Poll.{Swept}
use hass_sma_rs.Daemon.Task.{
  Settings, Broker, Task, Serving, Stage, connecting, serving, dead, swept, Reading, on_yield,
  with_out, leave, yield_session, counted_poll, tick,
}
use hass_sma_rs.Daemon.Task.Serves.{counted_below}

-- The clocks of one tick: those of the sweep, and the time behind the pause of a yield.
pub record Clocks : Type 0 where
  pub readings : ℕ → Reading
  pub now : ℕ

module _ {K F W : Type 0} (sys : Kernel K) (fuel : ℕ) (floats : Floats F) (outputs : Outputs F W)
    (rfc3339 : ℕ → String) (broker : Broker W) (cfg : Settings) where
  -- Tick after tick, for as long as the session is up.
  unfoldable pub serve : List Clocks → Stage K W → Stage K W
  serve [] a = a
  serve (c ∷ cs) (serving t v) =
      serve cs (tick sys fuel floats outputs rfc3339 broker cfg c.readings c.now t v)
  serve (c ∷ cs) a = a

  serve-connecting :
      (cs : List Clocks) (k : K) (t : Task W) → serve cs (connecting k t) ≡ connecting k t
  unfolding serve
  serve-connecting [] k t = refl
  serve-connecting (c ∷ cs) k t = refl

  serve-dead : (cs : List Clocks) → serve cs dead ≡ dead
  unfolding serve
  serve-dead [] = refl
  serve-dead (c ∷ cs) = refl

  -- The task is back at connecting, or a panic has ended it.
  abbrev pub IsOver : Stage K W → Type 0
  IsOver a = ((k : K) × (t : Task W) × (a ≡ connecting k t)) ⊎ (a ≡ dead)

  leave-IsOver :
      (cs : List Clocks) (t : Task W) (s : Session (Link K))
      → IsOver (serve cs (leave sys fuel floats outputs rfc3339 broker cfg t s))
  unfolding leave
  leave-IsOver cs t s = inl (_, _, serve-connecting cs _ t)

  swept-IsOver :
      (cs : List Clocks) (t : Task W) (v : Serving K)
      (o : Outcome (Swept (rfcomm sys fuel) floats outputs))
      → ((t' : Task W) (v' : Serving K)
          → v'.poll_count ≡ v.poll_count
          → IsOver (serve cs (serving t' v')))
      → IsOver (serve cs (swept sys fuel floats outputs rfc3339 broker cfg t v o))
  swept-IsOver cs t v panicked later = inr (serve-dead cs)
  swept-IsOver cs t v (returned o) later = elim (Bool-cases o.cycle_ok) [
    | inl good ↦
        rw good (
          later (with_out t o.world.1) (record v { session = o.world.0; tracker = o.tracker }) refl)
    | inr broken ↦ rw broken (leave-IsOver cs (with_out t o.world.1) o.world.0)
  ]

  -- Whatever the inverters, the transport and the publisher do, a session with a yield due after some
  -- number of polls, below 2 ^ 32, is over by its tick of that number: the task is back at
  -- connecting, or a panic of the publisher has ended it.
  pub serve-IsOver :
      (cs : List Clocks) (t : Task W) (v : Serving K)
      → cfg.inv.yield_every < 2 ^ 32
      → v.poll_count < cfg.inv.yield_every
      → cfg.inv.yield_every ≤ v.poll_count + length cs
      → IsOver (serve cs (serving t v))
  unfolding serve tick yield_session
  serve-IsOver [] t v small below enough = absurd (omega (arith, below, enough))
  serve-IsOver (c ∷ cs) t v small below enough =
      elim (Bool-cases (yields_at cfg.inv (counted_poll v).poll_count)) [
        | inl yields ↦
            rw yields
              (leave-IsOver cs (on_yield c.now t) (graceful_close (rfcomm sys fuel) v.session).1)
        | inr polls ↦
            let (same, next) = counted_below cfg.inv.yield_every v.poll_count small below polls in
            rw polls (
              swept-IsOver cs t (counted_poll v) _ (λ t' v' e.
                serve-IsOver cs t' v' small (omega (arith, e, same, next))
                  (omega (arith, e, same, enough))))
      ]
