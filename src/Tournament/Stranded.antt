-- ===== src/Tournament/Stranded.antt =====
-- `resolveDisconnectedTablePlayers` of `ActiveTournament`: the players of a table that is torn down
-- while nobody there is connected.
mod Counted
use servers_poker.Prelude.{
  ℕ, zero, suc, ◌+◌, Bool, true, false, not, Option, none, some, List, [], ◌∷◌, ◌++◌, any, filter,
  length, leb, ◌==◌, if◌then◌else◌,
}
use servers_poker.Prelude.Int.{sub_ℕ}
use servers_poker.Prelude.Doubles.{to_number}
use servers_poker.Prelude.Dict.{Dict, lookup}
use servers_poker.Tournament.State.{BotInfo, BustRecord, Tournament}
use servers_poker.Tournament.Busts.{active_bot}

-- An entry of the argument `players`.
pub record Stranded : Type 0 where
  pub id : ℕ
  pub chips : ℕ

-- `players.filter((p) => this.activeBots.has(p.id))`
unfoldable pub still_active : List BotInfo → List Stranded → List Stranded
still_active bots [] = []
still_active bots (p ∷ players) = elim (active_bot p.id bots) [
  | none ↦ still_active bots players
  | some b ↦ p ∷ still_active bots players
]

-- The sort by the numbers of the chips, the fewest first; it is stable.
unfoldable pub insert_stranded : Stranded → List Stranded → List Stranded
insert_stranded p [] = p ∷ []
insert_stranded p (q ∷ players) =
    if leb (to_number p.chips) (to_number q.chips)
    then p ∷ q ∷ players
    else q ∷ insert_stranded p players

unfoldable pub sort_stranded : List Stranded → List Stranded
unfolding insert_stranded
sort_stranded [] = []
sort_stranded (p ∷ players) = insert_stranded p (sort_stranded players)

-- `active.slice(0, -1)`
unfoldable pub all_but_last : List Stranded → List Stranded
all_but_last [] = []
all_but_last (p ∷ []) = []
all_but_last (p ∷ q ∷ players) = p ∷ all_but_last (q ∷ players)

-- `this.chipSnapshot.get(player.id) ?? Number(player.chips)`
abbrev pub chips_before : Dict → Stranded → ℕ
chips_before d p = if any (λ (e : ℕ × ℕ). e.0 == p.id) d then lookup p.id d else to_number p.chips

-- The record of a player who is out. He comes behind all who have no record yet.
abbrev pub stranded_record : Tournament → Stranded → BustRecord
stranded_record t p = record {
  bot_id = p.id;
  bust_level = t.current_level;
  bust_hand_number = t.round_counter;
  chips_at_hand_start = chips_before t.chip_snapshot p;
  finish_position = sub_ℕ t.total_entrants (length t.bust_order);
  is_tied = false;
}

-- The body of the loop for an active bot.
unfoldable pub strand : Tournament → Stranded → Tournament
strand t p = record t {
  busted_bots = p.id ∷ t.busted_bots;
  bust_order = t.bust_order ++ stranded_record t p ∷ [];
  active_bots = filter (λ (b : BotInfo). not (b.bot_id == p.id)) t.active_bots;
  chip_snapshot = filter (λ (e : ℕ × ℕ). not (e.0 == p.id)) t.chip_snapshot;
}

-- The loop over the players who are out.
unfoldable pub strand_all : List Stranded → Tournament → Tournament
unfolding strand
strand_all [] t = t
strand_all (p ∷ players) t = elim (active_bot p.id t.active_bots) [
  | none ↦ strand_all players t
  | some b ↦ strand_all players (strand t p)
]

-- `resolveDisconnectedTablePlayers`
unfoldable pub resolve_disconnected_table_players : Tournament → List Stranded → Tournament
unfolding still_active sort_stranded all_but_last strand_all
resolve_disconnected_table_players t players =
    strand_all (all_but_last (sort_stranded (still_active t.active_bots players))) t
