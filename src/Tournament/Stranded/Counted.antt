-- ===== src/Tournament/Stranded/Counted.antt =====
-- A table that is torn down loses nobody.
use servers_poker.Prelude.{
  suc, ◌+◌, ◌≡◌, refl, inl, inr, List, [], ◌∷◌, length, length-append, Option-cases, arith,
}
use servers_poker.Tournament.State.{Tournament}
use servers_poker.Tournament.Busts.{active_bot}
use servers_poker.Tournament.Busts.Active.{others-Distinct, others-length, active_bot-includes}
use servers_poker.Tournament.Busts.Counted.{IsCounted}
use servers_poker.Tournament.Stranded.{
  Stranded, stranded_record, strand, strand_all, all_but_last, sort_stranded, still_active,
  resolve_disconnected_table_players,
}

strand_all-IsCounted :
    (players : List Stranded) (t : Tournament) → IsCounted t → IsCounted (strand_all players t)
unfolding strand_all strand
strand_all-IsCounted [] t c = c
strand_all-IsCounted (p ∷ players) t c = elim (Option-cases (active_bot p.id t.active_bots)) [
  | inl n ↦ rw (n, strand_all) (strand_all-IsCounted players t c)
  | inr (b, e) ↦
      let there = active_bot-includes p.id t.active_bots b e in
      let fewer : suc (length (strand t p).active_bots) ≡ length t.active_bots =
        others-length p.id t.active_bots c.distinct there in
      let more : length (strand t p).bust_order ≡ length t.bust_order + 1 =
        length-append t.bust_order (stranded_record t p ∷ []) in
      let same : (strand t p).total_entrants ≡ t.total_entrants = refl in
      let one : IsCounted (strand t p) = record {
        total = omega (arith, c.total, fewer, more, same);
        distinct = others-Distinct p.id t.active_bots c.distinct;
      } in
      rw (e, strand_all) (strand_all-IsCounted players (strand t p) one)
]

-- Where everybody who entered is active or out, it is still so after
-- `resolveDisconnectedTablePlayers`, whatever players it is given.
pub resolve_disconnected_table_players-IsCounted :
    (t : Tournament) (players : List Stranded)
    → IsCounted t
    → IsCounted (resolve_disconnected_table_players t players)
unfolding resolve_disconnected_table_players
resolve_disconnected_table_players-IsCounted t players c =
    strand_all-IsCounted (all_but_last (sort_stranded (still_active t.active_bots players))) t c
