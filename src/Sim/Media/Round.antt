-- ===== src/Sim/Media/Round.antt =====
-- internal/sim/media.go: a round of the platforms, `Advance`, and what a persona's feed pulls it to, `FeedPull`.
use Prim.Native.Nat.{bit_xor}
use populace.Prelude.{
  ℕ, zero, suc, ◌+◌, ◌-◌, ◌*◌, Bool, not, ◌&&◌, ◌||◌, List, [], ◌∷◌, ltb, ◌==◌, if◌then◌else◌,
}
use populace.Prelude.Int.{ℤ, pos, negsuc}
use populace.Prelude.Floats.{Floats}
use populace.Sim.Random.{u64, Rng, new_rng, f64}
use populace.Sim.Parallel.{parallel_idx}
use populace.Sim.Contagion.{Status, is_unaware, is_adopted, count_below}
use populace.Sim.Contagion.Start.{clamp_f}
use populace.Sim.Media.Platforms.{Platform}
use populace.Sim.Media.{Feed, Media, no_member, each_feed, live}

-- The bound by `maxFeedConfirm`, of an integer that is not negative.
unfoldable pub at_most_four : ℤ → ℕ
at_most_four (pos n) = if ltb 4 n then 4 else n
at_most_four (negsuc n) = 0

module _ (fl : Floats) where
  open fl use {Float, of_ℕ, ratio, neg, add, sub, mul, div, lt, le, eq, pow, exp, log, sqrt, trunc}

  -- The sums of one platform over a chunk of personas.
  pub record Acc : Type 0 where
    pub members : Float
    pub active : Float
    pub op_sum : Float
    pub op_n : Float

  abbrev pub no_acc : Acc
  no_acc = record { members = of_ℕ 0; active = of_ℕ 0; op_sum = of_ℕ 0; op_n = of_ℕ 0 }

  unfoldable pub count_in : Acc → Bool → Float → Float → Acc
  count_in a active wt y =
      let a' : Acc = record a { members = add a.members wt } in
      let counted : Acc = record a' {
        active = add a.active wt;
        op_sum = add a.op_sum (mul y wt);
        op_n = add a.op_n wt;
      } in
      if active then counted else a'

  unfoldable pub chunk_acc :
      Media fl → (ℕ → Status) → (ℕ → Float) → (ℕ → Float) → ℕ → ℕ → ℕ → Acc → Acc
  unfolding count_in
  chunk_acc m state weight y p lo zero a = a
  chunk_acc m state weight y p lo (suc k) a =
      let a' = if m.member lo p then count_in a (is_adopted (state lo)) (weight lo) (y lo) else a in
      chunk_acc m state weight y p (lo + 1) k a'

  unfoldable pub total_acc :
      Media fl → (ℕ → Status) → (ℕ → Float) → (ℕ → Float) → ℕ → Acc → List (ℕ × ℕ × ℕ) → Acc
  unfolding chunk_acc
  total_acc m state weight y p a [] = a
  total_acc m state weight y p a ((c, lo, hi) ∷ chunks) =
      let l = chunk_acc m state weight y p lo (hi - lo) no_acc in
      total_acc m state weight y p
        (record {
          members = add a.members l.members;
          active = add a.active l.active;
          op_sum = add a.op_sum l.op_sum;
          op_n = add a.op_n l.op_n;
        })
        chunks

  -- The feedback of a round on one platform.
  unfoldable pub feed_back : ℕ → Acc → Platform fl → Feed fl → Feed fl
  unfolding clamp_f
  feed_back step a pl fd =
      let engagement = if lt (of_ℕ 0) a.members then div a.active a.members else of_ℕ 0 in
      let rising = add fd.score (mul (mul pl.velocity engagement) (sub (of_ℕ 1) fd.score)) in
      let score = clamp_f fl (sub rising (mul pl.decay rising)) (of_ℕ 0) (of_ℕ 1) in
      let ranked = not pl.closed && (lt (of_ℕ 0) pl.amplify && lt (of_ℕ 0) engagement) in
      let q =
        if ranked then pow engagement (div (of_ℕ 1) (add (of_ℕ 1) pl.amplify)) else engagement in
      let presence = clamp_f fl (mul q score) (of_ℕ 0) (of_ℕ 1) in
      let higher = lt fd.peak presence in
      record {
        score = score;
        presence = presence;
        peak = if higher then presence else fd.peak;
        peak_at = if higher then step else fd.peak_at;
        feed_mean =
            if lt (of_ℕ 0) a.op_n then div a.op_sum a.op_n else mul fd.feed_mean (ratio 85 100);
      }

  -- `poisson`, and its loop, with so many rounds left.
  unfoldable pub poisson_loop : ℕ → Rng → Float → ℕ → Float → ℕ
  poisson_loop zero r l k p = k
  poisson_loop (suc left) r l k p =
      let (r', u) = f64 fl r in
      let p' = mul p u in
      let rest = poisson_loop left r' l (k + 1) p' in if le p' l then k else rest

  unfoldable pub poisson : Rng → Float → ℕ
  unfolding poisson_loop
  poisson r lambda =
      let few = if lt (of_ℕ 12) lambda then of_ℕ 12 else lambda in
      let drawn = poisson_loop 32 r (exp (neg few)) 0 (of_ℕ 1) in
      if le lambda (of_ℕ 0) then 0 else drawn

  -- `effectiveConfirmations`.
  unfoldable pub effective_confirmations : ℕ → ℕ
  unfolding at_most_four
  effective_confirmations shown =
      if shown == 0 then 0 else at_most_four (trunc (mul (ratio 9 10) (sqrt (of_ℕ shown))))

  -- What one platform shows a persona.
  unfoldable pub shown_by : Media fl → Platform fl → ℕ → ℕ → ℕ
  unfolding poisson
  shown_by m pl p i =
      let pres = (m.feeds p).presence in
      let r =
        new_rng (bit_xor (bit_xor m.seed (u64 (m.step * 0x9E3779B1))) (u64 (p * 0xC2B2AE35))) i in
      if le pres (ratio 1 1000000)
      then 0
      else if pl.closed
      then if lt (f64 fl r).1 pres then 1 else 0
      else poisson r (mul (of_ℕ 3) pres)

  unfoldable pub impressions : Media fl → ℕ → ℕ → List (Platform fl) → ℕ
  unfolding shown_by
  impressions m i p [] = 0
  impressions m i p (pl ∷ pls) =
      (if m.member i p then shown_by m pl p i else 0) + impressions m i (p + 1) pls

  -- The impressions of a persona that is on a platform and unaware.
  unfoldable pub reached : Media fl → (ℕ → Status) → ℕ → ℕ
  unfolding impressions no_member
  reached m state i =
      if no_member fl (m.member i) 0 m.platforms || not (is_unaware (state i))
      then 0
      else impressions m i 0 m.platforms

  -- The first half of `Advance`, which renews the feeds.
  unfoldable pub refresh : ℕ → ℕ → Media fl → (ℕ → Status) → (ℕ → Float) → (ℕ → Float) → Media fl
  unfolding total_acc feed_back each_feed parallel_idx
  refresh gomaxprocs n m state weight y =
      let chunks = parallel_idx gomaxprocs n in
      record m {
        feeds =
            each_feed fl
              (λ pl p fd. feed_back m.step (total_acc m state weight y p no_acc chunks) pl fd) 0
              m.platforms m.feeds;
      }

  -- `Advance`, on `n` personas and so many processors: the layer after the round, and what it shows to each.
  unfoldable pub advance :
      ℕ → ℕ → Media fl → (ℕ → Status) → (ℕ → Float) → (ℕ → Float) → Media fl × (ℕ → ℕ)
  unfolding refresh reached effective_confirmations live
  advance gomaxprocs n m state weight y =
      let fed = refresh gomaxprocs n m state weight y in
      let total = reached fed state in
      let after : Media fl = record fed { exposed = λ i. ltb 0 (total i); step = m.step + 1 } in
      if live fl m then (after, λ i. effective_confirmations (total i)) else (m, λ i. 0)

  -- The sums of `FeedPull`, from the platform `p` on.
  unfoldable pub pull_sums :
      Media fl → ℕ → Float → ℕ → List (Platform fl) → Float → Float → Float × Float
  pull_sums m i y p [] sum wsum = (sum, wsum)
  pull_sums m i y p (pl ∷ pls) sum wsum =
      let pres = (m.feeds p).presence in
      let seen = add (mul pl.sorting y) (mul (sub (of_ℕ 1) pl.sorting) (m.feeds p).feed_mean) in
      let wt = mul pres (add (ratio 4 10) (mul (ratio 6 10) pl.velocity)) in
      let counts = m.member i p && not (le pres (ratio 1 1000000)) in
      pull_sums m i y (p + 1) pls (if counts then add sum (mul seen wt) else sum)
        (if counts then add wsum wt else wsum)

  unfoldable pub feed_pull : Media fl → (ℕ → Float) → ℕ → Float × Float
  unfolding pull_sums no_member
  feed_pull m y i =
      let (sum, wsum) = pull_sums m i (y i) 0 m.platforms (of_ℕ 0) (of_ℕ 0) in
      if not m.enabled || no_member fl (m.member i) 0 m.platforms
      then (of_ℕ 0, of_ℕ 0)
      else if eq wsum (of_ℕ 0)
      then (of_ℕ 0, of_ℕ 0)
      else (div sum wsum, wsum)

  -- `ExposedCount`, among `n`.
  unfoldable pub exposed_count : ℕ → Media fl → ℕ
  exposed_count n m = if m.enabled then count_below n m.exposed else 0
