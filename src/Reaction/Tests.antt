-- ===== src/Reaction/Tests.antt =====
-- The theorems on the relay at concrete inputs: stories and numbers are numbers.
use populace.Prelude.{
  ℕ, ◌+◌, ◌≤◌, ◌≡◌, ◌⊎◌, inl, inr, refl, true, false, none, some, List, [], ◌∷◌, ◌++◌, ℕ_discrete,
  arith,
}
use populace.Reaction.Relay.{
  Reaction, Relay, DiskEntry, touch_story, trim, remove, load, load_one, load_all, put, empty_relay,
}
use populace.Reaction.Relay.Stories.{IsBounded, touch_story-IsBounded}
use populace.Reaction.Relay.Restart.{load-IsBounded}
use populace.Reaction.Relay.Runs.{
  Generation, started, answered, hit, hit_counted, miss, start, answer, answer_done, answer_tokens,
  leave, Reach, begun, turned,
}
use populace.Reaction.Relay.Coverage.{run_covers}

abbrev said : ℕ → Reaction ℕ
said archetype = record {
  archetype = archetype;
  stance = 1;
  salience = 1;
  share = 0;
  line = 72 ∷ 105 ∷ [];
  cached = false;
  tokens = 12;
}

abbrev entry : ℕ → ℕ → DiskEntry ℕ ℕ
entry story archetype = record { archetype = archetype; story = story; reaction = said archetype }

-- Two stories in a cache for two.
abbrev two_stories : Relay ℕ ℕ
two_stories = load ℕ_discrete (empty_relay 2) (entry 7 1 ∷ entry 8 1 ∷ entry 7 2 ∷ [])

kept_order : (touch_story ℕ_discrete two_stories 9).order ≡ 8 ∷ 9 ∷ []
unfolding touch_story load load_one load_all put remove trim ℕ_discrete
kept_order = refl

touched_order : (touch_story ℕ_discrete two_stories 7).order ≡ 8 ∷ 7 ∷ []
unfolding touch_story load load_one load_all put remove trim ℕ_discrete
touched_order = refl

two_stories-IsBounded : IsBounded two_stories
two_stories-IsBounded = load-IsBounded ℕ_discrete 2 (entry 7 1 ∷ entry 8 1 ∷ entry 7 2 ∷ [])

touch_story-IsBounded_example :
    let d = touch_story ℕ_discrete two_stories 9 in
    IsBounded d
    × ((front : List ℕ) × (d.order ≡ front ++ 9 ∷ []))
    × (d.cache 9 ≡ two_stories.cache 9)
    × ((d.cache 7 ≡ two_stories.cache 7) ⊎ (d.cache 7 ≡ (λ a. none)))
unfolding load load_one load_all put remove trim ℕ_discrete
touch_story-IsBounded_example =
    touch_story-IsBounded ℕ_discrete two_stories 9 7 (omega arith) two_stories-IsBounded

abbrev begun_run : Generation ℕ ℕ
begun_run = started ℕ_discrete two_stories 8 (1 ∷ 2 ∷ [])

-- Archetype 1 is in the cache, and 2 is asked for.
abbrev after_hit : Generation ℕ ℕ
after_hit = record begun_run { left = 2 ∷ []; done = 1; hitting = true }

abbrev after_count : Generation ℕ ℕ
after_count = record after_hit { from_cache = 1; hitting = false }

abbrev after_miss : Generation ℕ ℕ
after_miss = record after_count { left = []; asked = some 2 }

abbrev after_start : Generation ℕ ℕ
after_start = record after_miss { asked = none; pending = 2 ∷ [] }

started-way : Reach ℕ_discrete 6 two_stories 8 (1 ∷ 2 ∷ []) after_start
unfolding started touch_story load load_one load_all put remove trim ℕ_discrete
started-way =
    turned {g = after_miss}
      (turned {g = after_count}
        (turned {g = after_hit} (turned {g = begun_run} begun (hit 1 (said 1) refl refl refl refl))
          (hit_counted refl))
        (miss 2 refl refl refl refl))
      (start 2 refl (omega arith))

-- It fails, and has not been added to `done` yet.
abbrev after_fail : Generation ℕ ℕ
after_fail = record after_start { failed = 1; pending = []; failing = 1 }

-- It answers, and its goroutine ends.
abbrev after_answer : Generation ℕ ℕ
after_answer = record (answered ℕ_discrete after_start 8 2 (said 2) []) {
  done = 2;
  tokens = 0 + (said 2).tokens;
  stored = [];
}

whole_way : Reach ℕ_discrete 6 two_stories 8 (1 ∷ 2 ∷ []) after_answer
unfolding started touch_story answered
whole_way =
    turned
      (turned
        (turned (turned started-way (answer 2 [] [] refl (said 2)))
          (answer_done (said 2).tokens [] [] refl))
        (answer_tokens (said 2).tokens [] [] refl))
      (leave 0 refl)

run_covers_example :
    IsBounded after_answer.relay
    × ((1 ≤ after_answer.failed) ⊎ ((x : Reaction ℕ) × (after_answer.relay.cache 8 2 ≡ some x)))
unfolding load load_one load_all put started answered ℕ_discrete
run_covers_example =
    run_covers ℕ_discrete 2 whole_way (omega arith) two_stories-IsBounded
      (record {
        none_left = refl;
        none_asked = refl;
        not_hitting = refl;
        none_pending = refl;
        none_failing = refl;
        none_stored = refl;
        none_counted = refl;
        none_leaving = refl;
      })
      refl (inr (inl refl))
