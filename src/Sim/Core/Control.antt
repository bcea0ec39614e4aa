-- ===== src/Sim/Core/Control.antt =====
-- The control condition of internal/sim/media.go, in a tick of internal/sim/sim.go: a layer that is not live, because it
-- is off or because no story is alive on it.
use populace.Prelude.{
  ℕ, ◌≡◌, refl, ◌+◌, sym, ap, ◌∙◌, fun_ext, not, ◌||◌, length, if◌then◌else◌, Bool, false,
  Bool-cases, inl, inr, Option, none, some,
}
use populace.Prelude.Floats.{Floats}
use populace.Sim.Contagion.{
  Status, Contagion, Network, stays, is_unaware, asleep, shown_to, decide_on, peers, evaluate, fade,
  take_up, count_below, is_adoption, advance_with,
}
use populace.Sim.Contagion.Start.{reach}
use populace.Sim.Opinion.{Opinion, step_with, mean}
use populace.Sim.History.{Ring, record_sample}
use populace.Sim.Frames.Sync.{repack-tick}
use populace.Sim.DayNight.{runs, day_night_activity}
use populace.Sim.Media.{Media, live}
use populace.Sim.Media.Round as Round
use populace.Sim.Core.{Sim, Sample, Cohorts}
use populace.Sim.Core.Operations.{history_len, advance, show, pull_of, noted}

module _ (fl : Floats) {Chat : Type 0} (chats : Cohorts fl Chat) where
  -- `Live`, also of a layer that is not there.
  abbrev pub is_live : Option (Media fl) → Bool
  is_live none = false
  is_live (some m) = live fl m

  -- A round in which the feed shows nothing is a round without a feed.
  advance_with-unshown :
      (c : Contagion fl) (g : Network) (shown : Option (ℕ → ℕ)) (activity : Option (ℕ → fl.Float))
      → ((i : ℕ) → shown_to fl shown i ≡ 0)
      → advance_with fl c g shown activity ≡ advance_with fl c g none activity
  unfolding advance_with evaluate
  advance_with-unshown c g shown activity nothing =
      let same : evaluate fl c g shown activity ≡ evaluate fl c g none activity = fun_ext (λ i.
        ap
          (λ k.
            if not (is_unaware (c.state i)) || asleep fl c activity i
            then stays
            else decide_on fl c i (length (g i)) (peers c.state (g i)) k)
          (nothing i)) in
      ap
        (λ decided.
          (fade fl (take_up fl c decided), count_below c.n (λ i. is_adoption (decided i))))
        same

  round-dead :
      (gomaxprocs n : ℕ) (m : Media fl) (state : ℕ → Status) (weight y : ℕ → fl.Float)
      → live fl m ≡ false
      → Round.advance fl gomaxprocs n m state weight y ≡ (m, λ i. 0)
  unfolding Round.advance
  round-dead gomaxprocs n m state weight y dead = simp dead refl

  shown-dead :
      (gomaxprocs : ℕ) (s : Sim fl Chat) (m : Option (Media fl)) (i : ℕ)
      → is_live m ≡ false
      → shown_to fl (show fl chats gomaxprocs (record s { m = m })).1 i ≡ 0
  unfolding show
  shown-dead gomaxprocs s none i dead = refl
  shown-dead gomaxprocs s (some m) i dead = elim (Bool-cases m.enabled) [
    | inl on ↦
        simp on (ap (λ r. r.1 i) (round-dead gomaxprocs s.w.n m s.c.state s.w.weight s.o.y dead))
    | inr off ↦ simp off refl
  ]

  pull_of-dead :
      (m : Media fl) (y : ℕ → fl.Float) → live fl m ≡ false → pull_of fl chats (some m) y ≡ none
  unfolding pull_of
  pull_of-dead m y dead = simp dead refl

  pull-dead :
      (gomaxprocs : ℕ) (s : Sim fl Chat) (m : Option (Media fl))
      → is_live m ≡ false
      → pull_of fl chats (show fl chats gomaxprocs (record s { m = m })).0 s.o.y ≡ none
  unfolding show pull_of
  pull-dead gomaxprocs s none dead = refl
  pull-dead gomaxprocs s (some m) dead = elim (Bool-cases m.enabled) [
    | inl on ↦ simp on (
        ap (λ r. pull_of fl chats (some r.0) s.o.y)
          (round-dead gomaxprocs s.w.n m s.c.state s.w.weight s.o.y dead)
        ∙ pull_of-dead m s.o.y dead)
    | inr off ↦ simp off (pull_of-dead m s.o.y dead)
  ]

  -- A tick of a simulation whose layer is not live leaves the contagion, the opinions, the tick, the hour and the history
  -- as a tick of the simulation without a layer does, and reports the same adopters and the same move. It does not
  -- compare the flags, which may differ in the bit of the personas that the feed reached.
  pub advance-control :
      (gomaxprocs : ℕ) (ms : fl.Float) (s : Sim fl Chat)
      → is_live s.m ≡ false
      → let (t, adopters, delta) = advance fl chats gomaxprocs ms s in
        let (t', adopters', delta') = advance fl chats gomaxprocs ms (record s { m = none }) in
        (t.c ≡ t'.c)
        × (t.o ≡ t'.o)
        × (t.frames.tick ≡ t'.frames.tick)
        × (t.hour_utc ≡ t'.hour_utc)
        × (t.history ≡ t'.history)
        × (adopters ≡ adopters')
        × (delta ≡ delta')
  unfolding advance noted
  advance-control gomaxprocs ms s dead =
      let activity =
        if runs fl s.day_night
        then some (day_night_activity fl s.day_night s.hour_utc s.w.lon)
        else none in
      let unshown =
        advance_with-unshown s.c s.g (show fl chats gomaxprocs s).1 activity
          (λ i. shown-dead gomaxprocs s s.m i dead) in
      let unpulled = ap (step_with fl gomaxprocs s.o s.g) (pull-dead gomaxprocs s s.m dead) in
      let ticked = record s.frames { tick = s.frames.tick + 1 } in
      let next = s.frames.tick + 1 in
      let fed = advance_with fl s.c s.g (show fl chats gomaxprocs s).1 activity in
      let unfed = advance_with fl s.c s.g none activity in
      let pulled =
        step_with fl gomaxprocs s.o s.g (pull_of fl chats (show fl chats gomaxprocs s).0 s.o.y) in
      let free = step_with fl gomaxprocs s.o s.g none in
      let noted_with : ℕ → Contagion fl × ℕ → Opinion fl → Ring (Sample fl) = λ k r o.
        record_sample history_len s.history (record {
          tick = k;
          reach = reach fl r.0 s.w;
          new_adopters = r.1;
          shift = fl.sub (mean fl o s.w) s.base_opinion;
          tick_ms = ms;
        }) in
      (
        ap (λ r. r.0) unshown,
        ap (λ r. r.0) unpulled,
        repack-tick ticked _ ∙ sym (repack-tick ticked _),
        refl,
        ap (λ k. noted_with k fed pulled.0) (repack-tick ticked _)
            ∙ ap (λ r. noted_with next r pulled.0) unshown
            ∙ ap (λ q. noted_with next unfed q.0) unpulled
            ∙ sym (ap (λ k. noted_with k unfed free.0) (repack-tick ticked _)),
        ap (λ r. r.1) unshown,
        ap (λ r. r.1) unpulled,
      )
