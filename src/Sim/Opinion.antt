-- ===== src/Sim/Opinion.antt =====
-- internal/sim/opinion.go: the synchronous step of the opinions, over floats as a parameter. What the feed pulls a
-- persona to is given as a function, a number and a weight; without media its weights are 0.
pub mod Rounds
use populace.Prelude.{
  ℕ, zero, suc, ◌+◌, ◌-◌, ◌*◌, ◌≡◌, Bool, true, false, ◌&&◌, Option, none, some, List, [], ◌∷◌,
  length, ltb, ◌==◌, if◌then◌else◌, assign, ℕ_discrete,
}
use populace.Prelude.Floats.{Floats}
use populace.World.{Stratum, general, nomadic, immigrant, high_net_worth, media, World}
use populace.Sim.Random.{Rng, new_rng, f64, norm}
use populace.Sim.Parallel.{parallel_idx}
use populace.Sim.Contagion.{Network}
use populace.Sim.Contagion.Start.{clamp_f}

module _ (fl : Floats) where
  open fl use {Float, of_ℕ, ratio, neg, add, sub, mul, div, lt, le, eq, cos, pi}

  pub record Opinion : Type 0 where
    pub n : ℕ
    pub y : ℕ → Float
    pub prior : ℕ → Float
    pub lambda : ℕ → Float

  -- The susceptibility that is drawn for a persona of a stratum: one float for most, and a second one, which takes
  -- its place, for two of the strata.
  unfoldable pub draw_lambda : Stratum → Rng → Float
  draw_lambda st r =
      let (r', u) = f64 fl r in
      let v = (f64 fl r').1 in
      elim st [
        | media ↦ add (ratio 2 100) (mul (ratio 6 100) v)
        | high_net_worth ↦ add (ratio 15 100) (mul (ratio 25 100) v)
        | _ ↦ add (ratio 35 100) (mul (ratio 45 100) u)
      ]

  -- `NewOpinion`, from the two values of each persona's archetype.
  unfoldable pub new_opinion : World Float → (ℕ → Float × Float) → ℕ → Opinion
  unfolding draw_lambda clamp_f
  new_opinion w values topic_seed =
      let theta = mul (mul (f64 fl (new_rng topic_seed 0xA5A5)).1 (of_ℕ 2)) pi in
      let drawn = λ (i : ℕ). norm fl (new_rng topic_seed i) in
      let prior = λ (i : ℕ).
        let (open_to, sec) = values i in
        let base = add (mul (cos theta) open_to) (mul (fl.sin theta) sec) in
        clamp_f fl (add (mul base (ratio 8 10)) (mul (drawn i).1 (ratio 3 10))) (neg (of_ℕ 1))
          (of_ℕ 1) in
      record {
        n = w.n;
        y = prior;
        prior = prior;
        lambda = λ i. draw_lambda (w.strat i) (drawn i).0;
      }

  unfoldable pub sum_over : (ℕ → Float) → Float → List ℕ → Float
  sum_over y sum [] = sum
  sum_over y sum (j ∷ row) = sum_over y (add sum (y j)) row

  -- The mean of the neighbours, if there are any.
  unfoldable pub social : (ℕ → Float) → List ℕ → Option Float
  unfolding sum_over
  social y [] = none
  social y (j ∷ row) = some (div (sum_over y (of_ℕ 0) (j ∷ row)) (of_ℕ (length (j ∷ row))))

  -- The pull of the feed: what it shows, and how strongly.
  abbrev pub Pull : Type 0
  Pull = ℕ → Float × Float

  unfoldable pub blend : Float → Float → Option Float → Float
  blend phi fm none = fm
  blend phi fm (some s) = add (mul (sub (of_ℕ 1) phi) s) (mul phi fm)

  -- What a persona hears, from its neighbours and from the feed, if there is anything.
  unfoldable pub heard : Option Pull → ℕ → Option Float → Option Float
  unfolding blend
  heard none i s = s
  heard (some pull) i s =
      let (fm, fw) = pull i in
      let phi = div fw (add fw (ratio 12 10)) in if lt (of_ℕ 0) fw then some (blend phi fm s) else s

  -- The new opinion of a persona.
  unfoldable pub move : Opinion → ℕ → Option Float → Float
  move o i none = o.y i
  move o i (some s) = let lam = o.lambda i in add (mul lam s) (mul (sub (of_ℕ 1) lam) (o.prior i))

  unfoldable pub next_y : Opinion → Network → Option Pull → ℕ → Float
  unfolding move heard social
  next_y o g pull i = move o i (heard pull i (social o.y (g i)))

  -- How far persona `i` has moved; only whoever hears something counts.
  unfoldable pub moved : Opinion → ℕ → Option Float → Float → Float
  moved o i none local = local
  moved o i (some s) local =
      let d = fl.abs (sub (move o i (some s)) (o.y i)) in if lt local d then d else local

  -- The greatest move of the personas from `lo` on, `k` of them.
  unfoldable pub chunk_delta : Opinion → Network → Option Pull → ℕ → ℕ → Float → Float
  unfolding moved heard social
  chunk_delta o g pull lo zero local = local
  chunk_delta o g pull lo (suc k) local =
      chunk_delta o g pull (lo + 1) k (moved o lo (heard pull lo (social o.y (g lo))) local)

  unfoldable pub greatest : Float → List Float → Float
  greatest m [] = m
  greatest m (d ∷ ds) = greatest (if lt m d then d else m) ds

  unfoldable pub partials : Opinion → Network → Option Pull → List (ℕ × ℕ × ℕ) → List Float
  unfolding chunk_delta
  partials o g pull [] = []
  partials o g pull ((c, lo, hi) ∷ chunks) =
      chunk_delta o g pull lo (hi - lo) (of_ℕ 0) ∷ partials o g pull chunks

  -- `StepWith` on so many processors: the next opinions, and the greatest move.
  unfoldable pub step_with : ℕ → Opinion → Network → Option Pull → Opinion × Float
  unfolding next_y partials greatest parallel_idx
  step_with gomaxprocs o g pull = (
    record o { y = λ i. if ltb i o.n then next_y o g pull i else o.y i },
    greatest (of_ℕ 0) (partials o g pull (parallel_idx gomaxprocs o.n)),
  )

  -- `Step`.
  unfoldable pub step : ℕ → Opinion → Network → Opinion × Float
  unfolding step_with
  step gomaxprocs o g = step_with gomaxprocs o g none

  -- `Settle`, with so many rounds left, of which `r` are done, and `d` the last move, with the floats' infinity for
  -- none.
  unfoldable pub settle_from : ℕ → ℕ → Opinion → Network → Float → ℕ → Float → Opinion × ℕ × Float
  settle_from gomaxprocs zero o g tol r d = (o, r, d)
  settle_from gomaxprocs (suc left) o g tol r d =
      let one = step gomaxprocs o g in
      let rest = settle_from gomaxprocs left one.0 g tol (r + 1) one.1 in
      if lt one.1 tol then (one.0, r + 1, one.1) else rest

  unfoldable pub settle : ℕ → Opinion → Network → ℕ → Float → Float → Opinion × ℕ × Float
  unfolding settle_from
  settle gomaxprocs o g max_rounds tol infinity =
      settle_from gomaxprocs max_rounds o g tol 0 infinity

  -- `Broadcast`: the new opinions, and what the susceptibilities were.
  unfoldable pub broadcast : Opinion → List ℕ → Float → Opinion × List Float
  broadcast o [] stance = (o, [])
  broadcast o (id ∷ ids) stance =
      let anchored : Opinion = record o {
        lambda = assign ℕ_discrete o.lambda id (of_ℕ 0);
        prior = assign ℕ_discrete o.prior id stance;
        y = assign ℕ_discrete o.y id stance;
      } in
      let rest = broadcast anchored ids stance in (rest.0, o.lambda id ∷ rest.1)

  -- The weighted sum of a quantity over the personas below `i`, and the weights.
  unfoldable pub weigh : ℕ → (ℕ → Float) → (ℕ → Float) → Float × Float
  weigh zero weight f = (of_ℕ 0, of_ℕ 0)
  weigh (suc i) weight f = let (num, den) = weigh i weight f in (add num (f i), add den (weight i))

  unfoldable pub ratio_of : Float × Float → Float
  ratio_of (num, den) = if eq den (of_ℕ 0) then of_ℕ 0 else div num den

  -- `Mean`, `Variance` and `Polarisation`.
  unfoldable pub mean : Opinion → World Float → Float
  unfolding weigh ratio_of
  mean o w = ratio_of (weigh w.n w.weight (λ i. mul (w.weight i) (o.y i)))

  unfoldable pub variance : Opinion → World Float → Float
  unfolding mean
  variance o w =
      let m = mean o w in
      ratio_of (weigh w.n w.weight (λ i. let d = sub (o.y i) m in mul (mul (w.weight i) d) d))

  -- The shares at the two ends: whoever is at the lower end is not counted at the upper one.
  unfoldable pub ends : ℕ → World Float → (ℕ → Float) → Float → Float × Float × Float
  ends zero w y edge = (of_ℕ 0, of_ℕ 0, of_ℕ 0)
  ends (suc i) w y edge =
      let (dn, dp, den) = ends i w y edge in
      let wt = w.weight i in
      if le (y i) (neg edge)
      then (add dn wt, dp, add den wt)
      else if le edge (y i)
      then (dn, add dp wt, add den wt)
      else (dn, dp, add den wt)

  unfoldable pub polarisation : Opinion → World Float → Float → Float × Float
  unfolding ends
  polarisation o w edge =
      let (dn, dp, den) = ends w.n w o.y edge in
      if eq den (of_ℕ 0) then (of_ℕ 0, of_ℕ 0) else (div dn den, div dp den)
