-- ===== src/Sim/Media.antt =====
-- internal/sim/media.go: the platforms, over floats as a parameter. The mask of a persona's platforms is the function
-- of its bits, of which a uint8 holds the 8 that there can be; the arrays by platform are one function to a record.
pub mod Platforms
pub mod Round
pub mod Exposure
use Prim.Native.Nat.{bit_xor}
use populace.Prelude.{
  ℕ, zero, suc, ◌+◌, ◌-◌, ◌*◌, ◌≤◌, ◌≡◌, Bool, true, false, not, ◌&&◌, ◌||◌, Option, none, some,
  List, [], ◌∷◌, length, ltb, leb, ◌==◌, if◌then◌else◌,
}
use populace.Prelude.Int.{ℤ, pos, negsuc, leb_ℤ, ltb_ℤ}
use populace.Prelude.Floats.{Floats}
use populace.Sim.Random.{u64, Rng, new_rng, f64}
use populace.Sim.Parallel.{parallel_idx}
use populace.Sim.Contagion.{Status, is_unaware, is_adopted, count_below}
use populace.Sim.Contagion.Start.{clamp_f}
use populace.Sim.Media.Platforms.{Platform}

module _ (fl : Floats) where
  open fl use {Float, of_ℕ, ratio, neg, add, sub, mul, div, lt, le, eq, pow, exp, log, sqrt, trunc}

  -- What the arrays hold of one platform.
  pub record Feed : Type 0 where
    pub score : Float
    pub presence : Float
    pub peak : Float
    pub peak_at : ℕ
    pub feed_mean : Float

  pub record Media : Type 0 where
    pub platforms : List (Platform fl)
    pub member : ℕ → ℕ → Bool
    pub feeds : ℕ → Feed
    pub exposed : ℕ → Bool
    pub seed : ℕ
    pub step : ℕ
    pub enabled : Bool

  -- `mask == 0`, of the bits of the platforms from `p` on.
  unfoldable pub no_member : (ℕ → Bool) → ℕ → List (Platform fl) → Bool
  no_member bits p [] = true
  no_member bits p (pl ∷ pls) = not (bits p) && no_member bits (p + 1) pls

  -- Whether a persona with these attributes is on the platform, which is number `p`.
  unfoldable pub joins : Platform fl → ℕ → ℕ → ℕ → Float → Float → Float → Bool
  unfolding clamp_f
  joins pl p seed i open_to reach urb =
      let share = clamp_f fl pl.reach (ratio 1 10000) (ratio 9999 10000) in
      let z =
        add
          (add
            (add (log (div share (sub (of_ℕ 1) share)))
              (mul (mul pl.open_skew open_to) (ratio 18 10)))
            (mul (mul pl.reach_skew (sub reach (ratio 1 2))) (ratio 22 10)))
          (mul (sub urb (ratio 1 2)) (ratio 9 10)) in
      let r = new_rng (bit_xor seed (u64 (p * 0x9E3779B97F4A7C15))) i in
      lt (f64 fl r).1 (div (of_ℕ 1) (add (of_ℕ 1) (exp (neg z))))

  unfoldable pub bits_of : ℕ → List (Platform fl) → ℕ → ℕ → Float → Float → Float → ℕ → Bool
  unfolding joins
  bits_of p [] seed i open_to reach urb q = false
  bits_of p (pl ∷ pls) seed i open_to reach urb q =
      if p == q
      then joins pl p seed i open_to reach urb
      else bits_of (p + 1) pls seed i open_to reach urb q

  abbrev pub silent : Feed
  silent = record {
    score = of_ℕ 0;
    presence = of_ℕ 0;
    peak = of_ℕ 0;
    peak_at = 0;
    feed_mean = of_ℕ 0;
  }

  -- `NewMedia`, from the openness and the reach of each persona's archetype and its urbanity; `none` where it panics.
  unfoldable pub new_media :
      List (Platform fl) → ℕ → (ℕ → Float) → (ℕ → Float) → (ℕ → Float) → Option Media
  unfolding bits_of
  new_media plats seed open_to reach urb =
      if ltb 8 (length plats)
      then none
      else some (record {
        platforms = plats;
        member = λ i. bits_of 0 plats seed i (open_to i) (reach i) (urb i);
        feeds = λ p. silent;
        exposed = λ i. false;
        seed = seed;
        step = 0;
        enabled = true;
      })

  -- `quiet`, of the platforms from `p` on.
  unfoldable pub quiet_from : (ℕ → Feed) → ℕ → List (Platform fl) → Bool
  quiet_from feeds p [] = true
  quiet_from feeds p (pl ∷ pls) =
      not (lt (ratio 1 10000) (feeds p).score) && quiet_from feeds (p + 1) pls

  unfoldable pub quiet : Media → Bool
  unfolding quiet_from
  quiet m = quiet_from m.feeds 0 m.platforms

  -- `Live`; a `Media` that is not there is `none` to the callers.
  unfoldable pub live : Media → Bool
  unfolding quiet
  live m = m.enabled && not (quiet m)

  unfoldable pub set_enabled : Media → Bool → Media
  set_enabled m v =
      let on : Media = record m { enabled = v } in
      let off : Media = record m {
        enabled = v;
        exposed = λ i. false;
        feeds = λ p. record (m.feeds p) { score = of_ℕ 0; presence = of_ℕ 0; peak = of_ℕ 0 };
      } in
      if v then on else off

  -- The score that a story starts with on a platform.
  unfoldable pub ignition : Platform fl → Float → Float
  unfolding clamp_f
  ignition pl salience =
      let s = mul (mul (ratio 25 100) salience) (add (ratio 6 10) (mul (ratio 4 10) pl.velocity)) in
      clamp_f fl (if pl.closed then mul s (ratio 35 100) else s) (of_ℕ 0) (of_ℕ 1)

  -- `f` on the feed of each platform, and nothing on the others.
  unfoldable pub each_feed :
      (Platform fl → ℕ → Feed → Feed) → ℕ → List (Platform fl) → (ℕ → Feed) → ℕ → Feed
  each_feed f p [] feeds q = feeds q
  each_feed f p (pl ∷ pls) feeds q =
      if p == q then f pl p (feeds q) else each_feed f (p + 1) pls feeds q

  unfoldable pub ignite : Media → Float → Media
  unfolding ignition each_feed
  ignite m salience =
      let lit : Media = record m {
        feeds =
            each_feed
              (λ pl p fd. record fd {
                score = ignition pl salience;
                presence = of_ℕ 0;
                peak = of_ℕ 0;
                peak_at = 0;
              })
              0 m.platforms m.feeds;
        step = 0;
      } in
      if m.enabled then lit else m

  unfoldable pub reset : Media → Media
  reset m = record m { feeds = λ p. silent; exposed = λ i. false; step = 0 }
