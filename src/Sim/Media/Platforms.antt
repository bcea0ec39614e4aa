-- ===== src/Sim/Media/Platforms.antt =====
-- internal/sim/media.go: `Platform` and `DefaultPlatforms`.
use populace.Prelude.{Bool, true, false, List, [], ◌∷◌}
use populace.Prelude.Decimals.{lit, less, value}
use populace.Prelude.Floats.{Floats}
use Prim.Native.String.{String}

module _ (fl : Floats) where
  open fl use {Float}

  pub record Platform : Type 0 where
    pub name : String
    pub slug : String
    pub reach : Float
    pub amplify : Float
    pub sorting : Float
    pub velocity : Float
    pub decay : Float
    pub open_skew : Float
    pub reach_skew : Float
    pub closed : Bool
    pub sketch : String

  abbrev shortvideo : Platform
  shortvideo = record {
    name = "Short video";
    slug = "shortvideo";
    reach = value fl (lit 42 100);
    amplify = value fl (lit 34 10);
    sorting = value fl (lit 3 10);
    velocity = value fl (lit 135 100);
    decay = value fl (lit 26 100);
    open_skew = value fl (lit 45 100);
    reach_skew = value fl (lit 3 10);
    closed = false;
    sketch =
        "Ranked almost purely by watch time. Enormous amplification, weak ideological sorting -- it will show anyone anything that holds attention.";
  }

  abbrev microblog : Platform
  microblog = record {
    name = "Microblog";
    slug = "microblog";
    reach = value fl (lit 19 100);
    amplify = value fl (lit 26 10);
    sorting = value fl (lit 72 100);
    velocity = value fl (lit 155 100);
    decay = value fl (lit 34 100);
    open_skew = value fl (lit 25 100);
    reach_skew = value fl (lit 75 100);
    closed = false;
    sketch =
        "Fast, quotable, and heavily sorted. Where a story becomes a position rather than a fact.";
  }

  abbrev groupchat : Platform
  groupchat = record {
    name = "Group chat";
    slug = "groupchat";
    reach = value fl (lit 61 100);
    amplify = value fl (lit 0 1);
    sorting = value fl (lit 55 100);
    velocity = value fl (lit 55 100);
    decay = value fl (lit 8 100);
    open_skew = value fl (less 1 10);
    reach_skew = value fl (less 3 10);
    closed = true;
    sketch =
        "No ranking function at all. Slow, sticky, and the closest thing here to the peer channel -- which is why it is the control.";
  }

  abbrev aggregator : Platform
  aggregator = record {
    name = "Link aggregator";
    slug = "aggregator";
    reach = value fl (lit 8 100);
    amplify = value fl (lit 21 10);
    sorting = value fl (lit 62 100);
    velocity = value fl (lit 11 10);
    decay = value fl (lit 3 10);
    open_skew = value fl (lit 55 100);
    reach_skew = value fl (lit 1 10);
    closed = false;
    sketch =
        "Small, self-selected, and ranked by votes -- a community that amplifies within itself and rarely leaks outward.";
  }

  abbrev video : Platform
  video = record {
    name = "Video platform";
    slug = "video";
    reach = value fl (lit 47 100);
    amplify = value fl (lit 19 10);
    sorting = value fl (lit 48 100);
    velocity = value fl (lit 8 10);
    decay = value fl (lit 14 100);
    open_skew = value fl (lit 1 10);
    reach_skew = value fl (lit 4 10);
    closed = false;
    sketch =
        "Long-form and recommendation-driven. Slower to build than a short-video feed and far slower to let go.";
  }

  abbrev broadcast : Platform
  broadcast = record {
    name = "Broadcast";
    slug = "broadcast";
    reach = value fl (lit 34 100);
    amplify = value fl (lit 6 10);
    sorting = value fl (lit 12 100);
    velocity = value fl (lit 95 100);
    decay = value fl (lit 22 100);
    open_skew = value fl (less 35 100);
    reach_skew = value fl (lit 9 10);
    closed = false;
    sketch =
        "Editor-ranked rather than engagement-ranked: one story for everybody, which is what makes its sorting so low.";
  }

  unfoldable pub default_platforms : List Platform
  default_platforms = shortvideo ∷ microblog ∷ groupchat ∷ aggregator ∷ video ∷ broadcast ∷ []
