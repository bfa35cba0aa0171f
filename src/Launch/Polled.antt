-- ===== src/Launch/Polled.antt =====
-- internal/forward.go: how a polling loop ends, and that it does.
use docker_port_forward.Common.{
  ℕ, zero, suc, ◌+◌, ◌*◌, ◌≤◌, ◌<◌, ◌≡◌, ◌⊎◌, inl, inr, refl, Option, none, some, Result, ok, err,
  arith, false, Bool-cases, ltb,
}
use docker_port_forward.Text.{Text}
use docker_port_forward.Docker.{Error, canceled}
use docker_port_forward.Launch.Machine.{Host}
use docker_port_forward.Launch.Poll.{Round, over, again, poll, after_round, after_pause}

-- the pause between two rounds, in nanoseconds
abbrev pub period : ℕ
period = 200_000_000

-- The clock does not go back during a round, and a pause that is not cut short takes its time.
pub record Ticks (h : Host) (attempt : h.client.World → Round × h.client.World) : Type 0 where
  pub kept : (w : h.client.World) → h.now w ≤ h.now (attempt w).1
  pub paused : (w : h.client.World) → (h.pause w).0 ≡ none → h.now w + period ≤ h.now (h.pause w).1

module _ (h : Host) where
  -- the end by a context that is done
  abbrev pub IsCanceled : Error → h.client.World → Type 0
  IsCanceled e w =
      (before : h.client.World) × (reason : Text) × (e ≡ canceled reason)
      × (h.pause before ≡ (some reason, w))

module _ (h : Host) (attempt : h.client.World → Round × h.client.World) (deadline : ℕ) where
  -- The last round was over, or it was late, or the context was done in the pause after it.
  abbrev pub IsEnd : Result Error (Option (Unit {0})) × h.client.World → Type 0
  IsEnd (ok none, w) = ⊥
  IsEnd (ok (some _), w) = (before : h.client.World) × (attempt before ≡ (over (ok tt), w))
  IsEnd (err e, w) =
      (before : h.client.World) × ((attempt before ≡ (over (err e), w))
        ⊎ (((attempt before ≡ (again e, w)) × (deadline < h.now w))
            ⊎ ((reason : Text) × (e ≡ canceled reason) × (h.pause before ≡ (some reason, w)))))

  module _ (ticks : Ticks h attempt) where
    abbrev Ends : ℕ → Type 0
    Ends n =
        (w : h.client.World)
        → deadline < h.now w + n * period
        → IsEnd (poll h attempt deadline (suc n) w)

    -- what the rounds after a pause have to show
    abbrev Later :
        (h.client.World → Result Error (Option (Unit {0})) × h.client.World)
        → h.client.World
        → Type 0
    Later next w = (w' : h.client.World) → h.now w + period ≤ h.now w' → IsEnd (next w')

    paused-IsEnd :
        (next : h.client.World → Result Error (Option (Unit {0})) × h.client.World)
        → (w : h.client.World) (o : Option Text) → (h.pause w).0 ≡ o
        → Later next w
        → IsEnd (after_pause h next o (h.pause w).1)
    paused-IsEnd next w none e later = later (h.pause w).1 (ticks.paused w e)
    paused-IsEnd next w (some reason) e later = (w, inr (inr (reason, refl, cc)))

    round-IsEnd :
        (next : h.client.World → Result Error (Option (Unit {0})) × h.client.World)
        → (w : h.client.World) (r : Round) → (attempt w).0 ≡ r
        → (ltb deadline (h.now (attempt w).1) ≡ false → Later next (attempt w).1)
        → IsEnd (after_round h deadline next r (attempt w).1)
    round-IsEnd next w (over (ok _)) e later = (w, cc)
    round-IsEnd next w (over (err f)) e later = (w, inl cc)
    round-IsEnd next w (again f) e later = elim (Bool-cases (ltb deadline (h.now (attempt w).1))) [
      | inl late ↦ rw (after_round, late) (w, inr (inl (cc, ground arith)))
      | inr early ↦ rw (after_round, early) (paused-IsEnd next (attempt w).1 _ refl (later early))
    ]

    pub poll-Ends : (n : ℕ) → Ends n
    unfolding poll
    poll-Ends zero w lt =
        round-IsEnd (poll h attempt deadline zero) w _ refl
          λ early. absurd (ground (arith, ticks.kept w))
    poll-Ends (suc n) w lt =
        round-IsEnd (poll h attempt deadline (suc n)) w _ refl
          λ early w' p. poll-Ends n w' (ground (arith, ticks.kept w))
