-- ===== src/Launch/Poll.antt =====
-- internal/forward.go: the shape of the three loops that poll, `waitForHostPorts`,
-- `startWithPortRetry` and `waitForRunning`.
use docker_port_forward.Common.{ℕ, zero, suc, true, false, Option, none, some, Result, ok, err, ltb}
use docker_port_forward.Text.{Text}
use docker_port_forward.Docker.{Error, canceled, M}
use docker_port_forward.Launch.Machine.{Host}

-- A round ends the loop, or it asks for another one, unless the deadline is past: then the loop ends
-- with the error that the round gives.
pub data Round : Type 0 where
  over : Result Error (Unit {0}) → Round
  again : Error → Round

module _ (h : Host) where
  abbrev pub after_pause :
      M h.client.World (Option (Unit {0})) → Option Text → M h.client.World (Option (Unit {0}))
  after_pause next none w = next w
  after_pause next (some reason) w = (err (canceled reason), w)

  abbrev pub after_round :
      ℕ → M h.client.World (Option (Unit {0})) → Round → M h.client.World (Option (Unit {0}))
  after_round deadline next (over (ok _)) w = (ok (some tt), w)
  after_round deadline next (over (err e)) w = (err e, w)
  after_round deadline next (again e) w = elim (ltb deadline (h.now w)) [
    | true ↦ (err e, w)
    | false ↦ let (stopped, w') = h.pause w in after_pause next stopped w'
  ]

module _ (h : Host) (attempt : h.client.World → Round × h.client.World) (deadline : ℕ) where
  -- `fuel` bounds the rounds; with none left there is no result.
  unfoldable pub poll : ℕ → M h.client.World (Option (Unit {0}))
  poll zero w = (ok none, w)
  poll (suc fuel) w = let (round, w') = attempt w in after_round h deadline (poll fuel) round w'
