-- ===== src/Lib.antt =====
-- A poker server: the betting, the value of hands and the hand that a table plays.
--
-- The parts, and the files that model them:
--   * src/domain/betting.ts. `PotManager` is Betting/Pots: the bets of a hand (`addBet`,
--     `getTotalPot`) and their split into a main pot and side pots (`calculatePots`), one function
--     for each statement of the loop over the bet levels. `BettingRound` is Betting/Round: one
--     street, with `applyAction` by its branches; Betting/Round/Queries has `isBettingComplete`,
--     `canReraise` and `getValidActionsForPlayer`.
--   * src/domain/handEvaluator.ts. `evaluateFiveCards` and `compareHands` are in HandEval,
--     `bestHand` and `determineWinners` in HandEval/Best.
--   * src/domain/fastHandEval.ts. `eval5ints`, the value of five cards as one number, and
--     `bestOf7ints` are in FastEval, the sort by hand as one function for each card that rises.
--   * src/services/game/live-game-manager.service.ts. A `Table` is the part of a `GameInstance`
--     that a hand uses. Table/Seats is the turn order and the dealer, Table/Street is
--     `bettingRoundLoop` with the strategies of the bots, Table/Award is `awardPot` and the
--     payments of `showdown`, and Table/Hand is `playHand`.
--     Table/Roster is who sits at it: `addPlayer`, `removePlayer`, the mutations that wait for the
--     end of a hand, and `assertChipConservation`.
--   * src/domain/deck.ts is Deck: the deck and its shuffles, the source of random numbers being a
--     parameter.
--   * src/services/provably-fair.service.ts is Fair: the seeds of a hand, the deck order that they
--     determine, and its verification. SHA-256 and HMAC are a parameter, of which nothing is assumed.
--   * src/config/tournaments.config.ts is Tournament/Config: the blind levels and the prizes.
--   * src/modules/tournaments/tournament-director.service.ts. The fields of `ActiveTournament` are in
--     Tournament/State. Tournament/Levels is `checkBlindLevelAdvance`; Tournament/Busts is
--     `checkForBustedPlayers`, the payouts of `finishTournament` and `checkHandForHandTransition`;
--     Tournament/Round is `handleHandComplete`, which calls these after each hand, and
--     Tournament/Stranded is `resolveDisconnectedTablePlayers`.
--     Tournament/Barrier is `BarrierCoordinator`, with its calls as a step relation. Tournament/Seeding
--     is `createInitialTables`, and Tournament/Balancing is `checkTableBalancing` with
--     `movePlayerForBalancing` and `breakTable`, on the rosters of the tables.
--   * src/services/prize-pool.service.ts is Prize: the split of a prize pool.
--   * src/game/invariants.ts is Invariants: the checker of chips and actions.
--
-- A table plays its streets with `BettingRound` and collects the bets in `PotManager`; at the
-- showdown it splits the pots and asks `determineWinners` of each. The deck comes in the order of the
-- hand's seeds. A tournament is a list of tables; after a hand it looks who is out, counts the hands,
-- raises the blinds of all tables, and moves players between tables through `addPlayer` and
-- `removePlayer` of their games.
--
-- The model. Ids and suits are only compared, so they are numbers; a dictionary is an association
-- list. Amounts that are stored are natural numbers, and differences are integers. Where the source
-- turns a bigint into a number (`Number(player.chips)` when a player is moved to another table,
-- `Number(amount)` in the prize pool), Prelude/Doubles has the double that it is rounded to, which
-- differs from it only above `Number.MAX_SAFE_INTEGER`. `chipSnapshot` is given with the tournament.
-- The source shares player objects between the table and the round; here the round returns the
-- player and the table writes him back, and the round sees the table's players at the start of each
-- turn. A strategy is a parameter: a function from the table, the round and the player to an action,
-- or none where it throws. `bettingRoundLoop` is bounded in the source, by four iterations for each
-- seat, and that bound is the fuel of the model. The loop over the blind levels has the hands as its
-- fuel, the one over the groups of tied players their number; the distance of two doubles is doubled
-- at most 971 times, which is enough below 2^1024. The other loops are over lists or indices.
-- `none` stands for an exception, and in `pay_blinds` also for a stack that would fall below zero.
--
-- Not modelled: events, logs, timers, the database, the strategies, the printing and parsing
-- of cards, and the order in which hands are revealed. The amount of an action is a whole number.
pub mod Prelude
pub mod Betting
pub mod HandEval
pub mod FastEval
pub mod Deck
pub mod Fair
pub mod Table
pub mod Tournament
pub mod Prize
pub mod Invariants
