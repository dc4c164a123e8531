-- ===== src/Lib.antt =====
-- ssh-farm: an idle farm that is played over SSH. This library models the headless game engine,
-- internal/sim, the packages that it rests on (internal/content, internal/gameclock,
-- internal/season), and those that serve it: the live sessions (internal/game), the moderation of
-- farm names (internal/moderation), the leaderboard (internal/leaderboard), the slots and usernames
-- of a connection (internal/identity) and the rows of saves (internal/store).
--
-- How the program is put together. A connection names a save by its identity and its slot. The
-- manager of internal/game keeps one actor per open save, and the actor is its only writer: it
-- advances the save by sim.Advance, as time passes, and applies the actions of
-- internal/sim/actions.go, contracts.go and scarecrow.go, each a function of the save, the content
-- and often a timestamp. The store keeps the save as JSON, with columns that the leaderboard ranks
-- farms by; moderation decides what a farm may be called there; the terminal views render it all.
--
-- What models what.
--   Content             internal/content/content.go: the definitions, and the look-ups by id
--   GameClock, Season   internal/gameclock/gameclock.go, internal/season/season.go
--   Host                what the engine takes from Go's standard library and the environment
--   Sim.State           internal/sim/state.go: State, New, upgradeState, DecodeState
--   Sim.Money, Random   satAdd and satMul; nextRand, roll100, rollBp and rollRange
--   Sim.Root            isqrt of internal/sim/derive.go
--   Sim.Contracts       internal/sim/contracts.go, with credit of state.go
--   Sim.Derive, Prices  internal/sim/derive.go and season.go, with the prices of scarecrow.go
--   Sim.Harvest         harvestPayout and expectedPayout of internal/sim/advance.go
--   Sim.Advance         internal/sim/advance.go: Report (Events, CheckAchievements), Visits (events,
--                       parcels, critters), Auto (the loop of an automatic plot), Clock (Advance)
--   Sim.Planting        Plant, ReplantAll, Harvest
--   Sim.Market          the purchases
--   Sim.Scarecrows      internal/sim/scarecrow.go: the drop clock, the pouches
--   Sim.Campaign        gifts, critters, names, Rebirth, StartContract, AbandonContract, settings
--   Sim.Dev             internal/sim/dev.go, behind DevApply of internal/game/dev.go (Game.Calls)
--   Sim.Outcome         the sentinel errors, and the outcome of an action
--   Sim.Actions         all actions as one data type, and the saves that a new farm reaches
--   Moderation          internal/moderation: Text (strings), Normalize, Validate, Denylist, Filter
--                       (moderation.go and the process state of denylist.go), Generate
--   Leaderboard         internal/leaderboard/engine.go: Ranking (rebuild), Boards (buildBoard),
--                       Engine (Get, as steps of concurrent callers; how a call that waited gets
--                       the rebuild's result over its channel is left out)
--   Identity            internal/identity: SanitizeSlot, and the usernames of proxy.go
--   Store               internal/store/store.go: the row of a save, its INSERT and UPDATE, GateRename
--   Game                internal/game: Actors (actor.go), Commands and Calls (session.go), Manager
--                       (Attach of manager.go), Departures (detach and Shutdown), Histories (what a
--                       server does, as a step relation), Reconcile (reconcile.go)
-- The other modules under Sim hold proofs: Valid and its children the invariant, Charges the prices
-- that purchases take, Refusals the errors, Pouches the rebirth preview, PriceGrowth, ReplantOrder,
-- CampaignOrder, Upgrades, Money.Laws, Random.Bounds, Root.Correct, Advance.Replay, Advance.Elapsed
-- and Advance.Termination. The children of the modules above hold proofs likewise. Tests holds data
-- and concrete runs.
--
-- How the state corresponds. A save is a record with the fields of sim.State in their order. An
-- action takes the save and returns it with a result or an error; a Go action writes through a
-- pointer, and what it has written when it returns is the save returned here. A Go int64 or int is
-- an integer whose sums, differences, products and quotients wrap as Go's do (Prelude.Int64); a
-- uint64 is a natural number below 2 ^ 64. A map is an association list, nil and empty alike, and a
-- missing key reads as Go's zero value. The contracts' display copy and the content's headlines and
-- labels are left out.
--
-- Bounds and fuel. Loops are recursion on the list or the count they run over. The second loop of
-- isqrt runs on fuel n, the argument: each round raises the root, which stays at most n, so that
-- the fuel does not run out (Sim.Root.Correct). The loop of an automatic plot runs on fuel
-- autoCycleCap + 2: a round below the cap ends the loop or counts a cycle, a round at the cap ends
-- it or settles all that is due, so that the crop is ripe after the timestamp unless the sum of the
-- timestamp and the growing time leaves int64, and one round more sees that
-- (Sim.Advance.Termination).
--
-- How concurrency corresponds. What Go does under a mutex, or an actor between two messages, is one
-- function of the state. A server is then the sequence of such steps in any order (Game.Histories),
-- and the callers of Engine.Get are steps of one machine in any order (Leaderboard.Engine). A step that
-- reads a clock asks that the seconds since the last time of the save it reaches fit int64. An actor
-- carries the id of the session it was made for, which tells it from one of the same key that has
-- stopped.
--
-- What is a parameter. Host has the month and the day of time.Unix in UTC, the environment variable
-- of the developer season, the floating-point guess of the root, strings.TrimSpace and the rune
-- count. The unicode tables (lower and upper case) and SHA-256 are functions. Nothing is assumed of
-- these but what a theorem says. IsContent states what content validation and the types give of the
-- content, as far as the invariant needs it. Of the denylist's file, os.ReadFile and toml.Unmarshal
-- are parameters. Of the game, the JSON encoding of a save is a pair of functions, and where a
-- theorem needs it a hypothesis says that what marshals unmarshals to itself; the store's database
-- is a map whose operations may fail. A clock is an argument of the step that reads it.
--
-- What is not modelled. A division by zero, which panics in Go; the reading and the validation of
-- the content files; the away vignettes, which are display text; the resolver of identities, the
-- migrations and the other queries of the store, the server, the terminal views, the configuration
-- and the commands.
mod Prelude
pub mod Content
pub mod Host
pub mod GameClock
pub mod Season
pub mod Sim
pub mod Moderation
pub mod Leaderboard
pub mod Identity
pub mod Store
pub mod Game
pub mod Tests
