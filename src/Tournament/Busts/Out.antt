-- ===== src/Tournament/Busts/Out.antt =====
-- Who is out, said of the players of the tables without the loop of `checkForBustedPlayers`.
use servers_poker.Prelude.{
  ℕ, ◌≡◌, refl, ap, ◌∙◌, inl, inr, Bool, false, not, ◌&&◌, none, some, List, [], ◌∷◌, ◌++◌, map,
  filter, includes, ◌==◌, Bool-cases, Option-cases, arith,
}
use servers_poker.Prelude.Dict.{lookup}
use servers_poker.Table.{GamePlayer}
use servers_poker.Tournament.State.{BotInfo, TableEntry, Tournament}
use servers_poker.Tournament.Busts.{Bust, active_bot, busts_at, busted_this_round}
use servers_poker.Tournament.Busts.Active.{bot_ids, active_bot-includes}

-- He has no chips, has not gone out before, and his bot is active; whether he is connected does not
-- matter.
abbrev pub is_out : Tournament → GamePlayer → Bool
is_out t p =
    p.chips == 0 && not (includes p.id t.busted_bots) && includes p.id (bot_ids t.active_bots)

-- A player of a table, with the chips that he had before the hand.
abbrev pub with_snapshot : Tournament → TableEntry → GamePlayer → Bust
with_snapshot t e p = record {
  bot_id = p.id;
  chips_at_start = lookup p.id t.chip_snapshot;
  table_id = e.id;
}

-- All the players of tables who are out.
abbrev pub all_out : Tournament → List TableEntry → List Bust
all_out t [] = []
all_out t (e ∷ tables) =
    map (with_snapshot t e) (filter (is_out t) e.game.table.players) ++ all_out t tables

active_bot-none :
    (id : ℕ) (bots : List BotInfo) → active_bot id bots ≡ none → includes id (bot_ids bots) ≡ false
active_bot-none id [] e = refl
active_bot-none id (b ∷ bots) e = elim (Bool-cases (b.bot_id == id)) [
  | inl q ↦ absurd (found (rw q at e))
  | inr q ↦ let k = active_bot-none id bots (rw q at e) in ground (arith, q, k)
]
  where
    found : some b ≡ none → ⊥
    found k = cc

busts_at-all_out :
    (t : Tournament) (e : TableEntry) (players : List GamePlayer)
    → busts_at t e.id players ≡ map (with_snapshot t e) (filter (is_out t) players)
unfolding busts_at
busts_at-all_out t e [] = refl
busts_at-all_out t e (p ∷ players) =
    let rest = busts_at-all_out t e players in
    let test = p.chips == 0 && not (includes p.id t.busted_bots) in
    elim (Bool-cases test) [
      | inl q ↦ elim (Option-cases (active_bot p.id t.active_bots)) [
        | inl n ↦ rw (q, n, active_bot-none p.id t.active_bots n, busts_at) rest
        | inr (bot, n) ↦
            rw (q, n, active_bot-includes p.id t.active_bots bot n, busts_at)
              (ap (λ l. with_snapshot t e p ∷ l) rest)
      ]
      | inr q ↦ rw (q, busts_at) rest
    ]

pub busted_this_round-all_out :
    (t : Tournament) (tables : List TableEntry) → busted_this_round t tables ≡ all_out t tables
unfolding busted_this_round
busted_this_round-all_out t [] = refl
busted_this_round-all_out t (e ∷ tables) =
    ap (λ l. l ++ busted_this_round t tables) (busts_at-all_out t e e.game.table.players)
    ∙ ap (λ l. map (with_snapshot t e) (filter (is_out t) e.game.table.players) ++ l)
        (busted_this_round-all_out t tables)
