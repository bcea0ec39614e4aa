-- ===== src/Lib.antt =====
-- Verification of Populace: the gateway in front of the language model, and the spread of behaviours in
-- the simulated population.
--
-- The program. A world of personas is joined by a social graph; `internal/sim` moves opinions and behaviours
-- along it tick by tick, `internal/reaction` asks a language model how kinds of people react to a story,
-- and `cmd/populace` serves the result. `internal/gateway` is the proxy that the model's requests pass: it
-- checks the client's token, limits its rate, answers from a cache of responses, and admits a request to one
-- of the slots of the model's server, with batch requests kept below a share of them.
--
-- Gateway (internal/gateway):
--   Gateway.Cache      cache.go: the list and the map, with addresses for elements; `Get`, `Put`, `Stats`.
--     Cache.Lru is the contract, a list by recency with a bound on its bytes; Cache.Invariant, Eviction, Order
--     and Histories lead to the refinement. SHA-256 is a parameter, as are its collisions: the contract is over
--     the keys.
--   Gateway.Limiter    limit.go: the token bucket of a client, exact in units of 1/60e9 of a token, with readings of the
--     clock in any order, since `Allow` reads it before it takes the lock; the tokens may be below 0.
--   Gateway.Config     gateway.go: `Config.defaults`, over signed integers.
--   Gateway.Admission  gateway.go: `admit` and `release` as steps of a relation, one for each operation on an
--     atomic counter or a channel, of any number of requests in any order. A `select` is a step for each case.
--   Gateway.Auth       gateway.go: `auth` up to the handler.
--   Gateway.Handler    gateway.go: `handleCompletions` in two phases, before admission and after, since
--     other requests run in between. The bodies, the JSON in them and the upstream's answer are given.
--   Gateway.Window     gateway.go: `mark` and `liveTokPerSec`.
-- Simulation (internal/sim):
--   Sim.Random         graph.go: the splitmix64 streams, bit for bit on words below 2 ^ 64.
--   Sim.Contagion      contagion.go: `AdvanceWith`, `Advance`, `Decay`, `Run`, `Count`, `Reset`, and in Contagion.Start
--     `NewContagion`, `Reach`, `FeedShare`, over the arrays of World (internal/world/world.go). Arrays are functions
--     of the index; the chunks of a round write apart, so a round is one function of the old state.
--   Sim.Seeding        contagion.go: `SeedScattered`, `SeedCluster`, `SeedRegion`.
--   Sim.Frames         sim.go: `repack`, `resync` and `Encode`, the flags that go to the client. Frames.Wire is a reader
--     of the frames, by the layout in the comments of sim.go; the round trip is in Frames.RoundTrip.
--   Sim.Graph          graph.go: `BuildGraph` with the order of its goroutines' atomic operations as a parameter, its
--     proposals (`builder.proposals`, `hubPool`), `spatialRank`, `rankToOrder`, `bucketByArchetype`, `DegreeStats`.
--     Graph.Schedules and Sequence free the result of that order; Graph.Neighbours, Population and Rank have the proofs.
--   Sim.Parallel       graph.go: the ranges of the goroutines, `parallel` and `parallelIdx`.
--   Sim.Opinion        opinion.go: `NewOpinion`, `Step`, `StepWith`, `Settle`, `Broadcast` and the statistics. The feed's pull
--     is an argument, which `FeedPull` fills.
--   Sim.Media          media.go: `NewMedia`, `Ignite`, `SetEnabled`, `Reset`, the table of platforms, and in Media.Round
--     `Advance` and `FeedPull`.
--   Sim.History        stats.go: the ring of samples.
--   Sim.DayNight       daynight.go: the hour and the activity that goes with it.
--   Sim.Core           sim.go, reactions.go, stats.go: the simulation as one record, and in its children the flags of a persona
--     (Flags), `New`, `Inject`, `Advance` and `Reset` (Operations, with Stories for the seeding), `ApplyReactions` (Reactions), `Breakdown` (Groups). Moves has
--     the operations as steps in any order. The chat cohort is a state of any type, whose calls are a parameter: they
--     read the simulation and change only the cohort.
--   Sim.Street         street.go: the choice of residents, the count of their ties, and `Refresh`.
-- World (internal/world):
--   World              world.go: the arrays, the strata and `WeightedMean`; World.Stream is its random stream.
--   World.Regions, Roles, Archetypes   role.go: the tables, the numbers of the archetypes, and the draw of a role.
--   World.Centres, Positions, Places   place.go: the table of places, the draw of a position, and the place index.
--   World.Generate     world.go: `Generate`; World.Coherence has the proof that a persona's parts agree.
--   World.Encode       world.go: `EncodeInstances` into a writer that may fail, with a part of its chunk taken.
-- Client of the gateway (internal/llm):
--   Llm                client.go: the retry loop of `Complete`, on given attempts, and `looksLikeTailnet`.
-- Reactions (internal/reaction):
--   Reaction.Relay     relay.go: the cache of reactions and its order of stories: `Get`, `touchStory`, `load`.
--     Relay.Runs is `Run` as steps of its loop and of the goroutines that it starts, each
--     addition to an atomic counter a step of its own; Relay.Stories, Restart, Accounts
--     and Coverage have the proofs. A fingerprint is a value of a type with a decidable equality.
-- Server (cmd/populace):
--   Server.Clock       resilience.go, main.go: `tickOnce`, the back-off of `loop`, and the clock in `control`. `Advance` is
--     given, with what it leaves when it panics.
-- Prelude holds what they share: tests, lists, maps, signed integers, and a record of the floating-point
-- operations (Prelude.Floats), a parameter with no laws: what is proved holds however floats round. The one
-- theorem that needs a law, on what `Broadcast` anchors, has it as a hypothesis, on finite numbers only.
--
-- Fuel. The eviction loop of the cache runs on one more than the length of its list, each round of it removing an
-- element. The loop of `SeedCluster` runs on the size of the population. The loop of `SeedScattered` has the
-- source's own bound of tries, and that of `Run` its budget of rounds. `Complete` runs on `MaxRetries` + 1 attempts,
-- which Llm.Retries shows to be enough. The loop that turns a longitude into its range, on which floats have no laws,
-- has 8 turns of 360 degrees; by the spreads and the bound of the normal numbers, in Positions, two are enough in Go.
--
-- Bounds. Counters, byte counts and times are unbounded numbers, where the source has 64-bit integers that
-- no run fills; rounds stay below 2 ^ 31. A mutex makes its calls atomic.
--
-- Not modelled: HTTP, JSON, logging and start-up; what is inside cohorts and scripts, with the names of residents,
-- `Snapshot`, the parsing of answers and the dialogue, experiments and the HTTP handlers of the server; the browser
-- client and the deployment.

pub mod Gateway
pub mod Llm
pub mod Prelude
pub mod Reaction
pub mod Server
pub mod Sim
pub mod World
