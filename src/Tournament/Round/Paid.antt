-- ===== src/Tournament/Round/Paid.antt =====
-- The hand that leaves one player ends the tournament.
use servers_poker.Prelude.{
  ℕ, ◌+◌, ◌-◌, ◌*◌, ◌≡◌, refl, sym, ap, ◌∙◌, subst, true, some, List, [], ◌∷◌, ◌++◌, map, filter,
  length, leb, is_empty, if_cases, range_from, sum_by, All, Distinct, arith,
}
use mathlib.Core.List.{reverse}
use servers_poker.Tournament.Config.{Payout, calculate_prizes}
use servers_poker.Tournament.State.{BustRecord, TableEntry, Tournament}
use servers_poker.Tournament.Barrier.{Barrier}
use servers_poker.Tournament.Busts.{
  Bust, EntryPayout, base_best_position, busted_this_round, check_for_busted_players,
  finish_tournament, place_groups, sort_busts,
}
use servers_poker.Tournament.Busts.Sorted.{bust_ids, Descends}
use servers_poker.Tournament.Busts.Places.{map-append}
use servers_poker.Tournament.Busts.Active.{bot_ids, Survives}
use servers_poker.Tournament.Busts.Out.{all_out, is_out, with_snapshot}
use servers_poker.Tournament.Busts.Counted.{
  IsCounted, record_behind, bust_players-total, check_for_busted_players-places,
}
use servers_poker.Tournament.Busts.Paid.{
  record_bots, paid_amounts, zeros, received, finish_tournament-received,
}
use servers_poker.Tournament.Round.{finished, finish_or, handle_hand_complete}

check_for_busted_players-total :
    (t : Tournament) → (check_for_busted_players t).total_entrants ≡ t.total_entrants
unfolding check_for_busted_players
check_for_busted_players-total t =
    let busts = sort_busts (busted_this_round t t.tables) in
    if_cases (λ (u : Tournament). u.total_entrants ≡ t.total_entrants) (is_empty busts) _ _ refl
      (bust_players-total (base_best_position t (length busts)) t
        (place_groups (length busts) 0 busts))

-- The tournament when a hand is over.
abbrev pub counted : Tournament → Tournament
counted t = record t { round_counter = t.round_counter + 1 }

-- Who is out does not depend on the number of rounds.
all_out-counted :
    (t : Tournament) (tables : List TableEntry) → all_out (counted t) tables ≡ all_out t tables
all_out-counted t [] = refl
all_out-counted t (e ∷ tables) =
    ap (λ l. map (with_snapshot t e) (filter (is_out t) e.game.table.players) ++ l)
      (all_out-counted t tables)

record_bots-behind :
    (t : Tournament) (left : ℕ) (out sorted : List Bust)
    → record_bots (map (record_behind t left out) sorted) ≡ bust_ids sorted
record_bots-behind t left out [] = refl
record_bots-behind t left out (b ∷ sorted) =
    ap (λ l. b.bot_id ∷ l) (record_bots-behind t left out sorted)

-- Where everybody who entered is active or out, and no bot is found without chips at two seats: when
-- one player is left after a hand, `handleHandComplete` returns and ends the tournament. The first
-- payout is for a player who was active and is not out. Then come those who went out in this hand,
-- of whom the one who had the fewest chips before it comes first, and then those who had gone out
-- before, the last one first. The positions are 1, 2 and so on, the amounts the prizes in their order
-- and then zeros, and they add up to the buy-ins of all.
pub handle_hand_complete-finished :
    (seats hands_per_level buy_in : ℕ) (t : Tournament) (b : Barrier)
    → IsCounted t
    → Distinct (bust_ids (all_out t t.tables))
    → length (check_for_busted_players (counted t)).active_bots ≡ 1
    → let out = all_out t t.tables in
      let n = t.total_entrants in
      let prizes = calculate_prizes (n * buy_in) n in
      (t' : Tournament) × (payouts : List EntryPayout) × (handle_hand_complete seats hands_per_level
          buy_in t b
        ≡ some (finished t' payouts))
      × (sorted : List Bust) × (map (λ (e : EntryPayout). e.bot_id) payouts
          ≡ bot_ids t'.active_bots ++ reverse (record_bots t.bust_order ++ bust_ids sorted))
      × (length t'.active_bots ≡ 1)
      × All (Survives t out) t'.active_bots
      × Descends sorted
      × ((f : Bust → ℕ) → sum_by f sorted ≡ sum_by f out)
      × (map (λ (e : EntryPayout). e.position) payouts ≡ range_from 1 n)
      × (paid_amounts payouts ≡ map (λ (p : Payout). p.amount) prizes ++ zeros (n - length prizes))
      × (received payouts ≡ n * buy_in)
unfolding handle_hand_complete finish_or
handle_hand_complete-finished seats hands_per_level buy_in t b c d one =
    let u = counted t in
    let t' = check_for_busted_players u in
    let n = t.total_entrants in
    let c' : IsCounted u = record { total = c.total; distinct = c.distinct } in
    let same_out = all_out-counted t t.tables in
    let (counts, survive, marked, sorted, order, descends, sums) =
      check_for_busted_players-places u c' (subst (λ l. Distinct (bust_ids l)) (sym same_out) d) in
    let paid = finish_tournament-received buy_in t' counts one in
    let same = check_for_busted_players-total u in
    let last : leb (length t'.active_bots) 1 ≡ true = ground (arith, one) in
    let payouts = finish_tournament buy_in t' in
    let bots =
      ap record_bots order
      ∙ map-append (λ (r : BustRecord). r.bot_id) t.bust_order
          (map (record_behind u (length t'.active_bots) (all_out u t.tables)) sorted)
      ∙ ap (λ l. record_bots t.bust_order ++ l)
          (record_bots-behind u (length t'.active_bots) (all_out u t.tables) sorted) in
    (
      t',
      payouts,
      rw (last, finish_or) refl,
      sorted,
      paid.0 ∙ ap (λ l. bot_ids t'.active_bots ++ reverse l) bots,
      one,
      subst (λ l. All (Survives t l) t'.active_bots) same_out survive,
      descends,
      λ f. sums f ∙ ap (sum_by f) same_out,
      paid.1 ∙ ap (range_from 1) same,
      subst
          (λ k.
            paid_amounts payouts
            ≡ map (λ (p : Payout). p.amount) (calculate_prizes (k * buy_in) k)
              ++ zeros (k - length (calculate_prizes (k * buy_in) k)))
          same paid.2,
      paid.3 ∙ ap (λ k. k * buy_in) same,
    )
