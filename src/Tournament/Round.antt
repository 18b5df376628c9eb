-- ===== src/Tournament/Round.antt =====
-- `handleHandComplete` of `ActiveTournament`: what a tournament does when a hand is over. The chips
-- that it stores, its measurements and its messages are left out.
pub mod Paid
use servers_poker.Prelude.{ℕ, ◌+◌, Option, none, some, List, length, leb, if◌then◌else◌}
use servers_poker.Tournament.State.{Tournament}
use servers_poker.Tournament.Barrier.{Barrier}
use servers_poker.Tournament.Busts.{
  EntryPayout, check_for_busted_players, check_hand_for_hand_transition, finish_tournament,
}
use servers_poker.Tournament.Levels.{check_blind_level_advance}
use servers_poker.Tournament.Balancing.{check_table_balancing}

-- The tournament is finished and paid, or it goes on, with its barrier and the tables that this
-- releases.
pub data Progress : Type 0 where
  finished : Tournament → List EntryPayout → Progress
  goes_on_with : Tournament → Barrier → List ℕ → Progress

-- `if (this.activeBots.size <= 1) await this.finishTournament()`
unfoldable pub finish_or : ℕ → Tournament → Option Progress → Option Progress
unfolding finish_tournament
finish_or buy_in t others =
    if leb (length t.active_bots) 1 then some (finished t (finish_tournament buy_in t)) else others

-- From the blind levels on.
unfoldable pub after_busts : ℕ → ℕ → ℕ → Tournament → Barrier → Option Progress
unfolding check_blind_level_advance check_table_balancing check_hand_for_hand_transition finish_or
after_busts seats hands_per_level buy_in t b = elim (check_blind_level_advance hands_per_level t) [
  | none ↦ none
  | some raised ↦ elim (check_table_balancing seats raised) [
    | none ↦ none
    | some balanced ↦
        let (t', b', released) = check_hand_for_hand_transition balanced b in
        finish_or buy_in t' (some (goes_on_with t' b' released))
  ]
]

-- `handleHandComplete`
unfoldable pub handle_hand_complete : ℕ → ℕ → ℕ → Tournament → Barrier → Option Progress
unfolding check_for_busted_players finish_or after_busts
handle_hand_complete seats hands_per_level buy_in t b =
    let t' = check_for_busted_players (record t { round_counter = t.round_counter + 1 }) in
    finish_or buy_in t' (after_busts seats hands_per_level buy_in t' b)
