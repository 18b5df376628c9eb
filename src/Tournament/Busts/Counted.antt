-- ===== src/Tournament/Busts/Counted.antt =====
-- Everybody who entered is active or out.
use servers_poker.Prelude.{
  ℕ, ◌+◌, ◌≡◌, refl, sym, ap, ◌∙◌, subst, inl, inr, true, ◌||◌, List, [], ◌∷◌, ◌++◌, map, length,
  is_empty, includes, sum_by, Distinct, ltb, false, All, All-map_of, All-of_Member, Bool-cases,
  length-append, length-map, arith,
}
use servers_poker.Prelude.Int.{ℤ, pos, ◌+ℤ◌}
use servers_poker.Tournament.State.{BustRecord, Tournament}
use servers_poker.Tournament.Busts.{
  Bust, Placed, busted_this_round, sort_busts, bust_record, bust_player, bust_players, place_groups,
  base_best_position, check_for_busted_players,
}
use servers_poker.Tournament.Busts.Sorted.{
  sort_busts-includes, how_many, had_more, had_as_many, bust_ids, Descends, sort_busts-Descends,
  sort_busts-sum, sort_busts-All, sort_busts-Distinct, sort_busts-length,
}
use servers_poker.Tournament.Busts.Places.{
  placed_among, append_nil, bust_players-bust_order, sort_busts-place_groups,
}
use servers_poker.Tournament.Busts.Out.{all_out, busted_this_round-all_out}
use servers_poker.Tournament.Busts.Active.{
  bot_ids, Survives, bust_players-Survives, bust_players-busted_bots, bust_players-active,
  busted_this_round-active,
}

-- Everybody who entered is active or has a record, and no bot is active twice.
pub record IsCounted (t : Tournament) : Type 0 where
  pub total : length t.active_bots + length t.bust_order ≡ t.total_entrants
  pub distinct : Distinct (bot_ids t.active_bots)

-- A record of a player who is out: behind everybody who is still active and everybody who went out
-- in the same hand with more chips, and tied with those who had as many.
abbrev pub record_behind : Tournament → ℕ → List Bust → Bust → BustRecord
record_behind t still_active busts b = record {
  bot_id = b.bot_id;
  bust_level = t.current_level;
  bust_hand_number = t.round_counter;
  chips_at_hand_start = b.chips_at_start;
  finish_position = pos (still_active + 1 + how_many (had_more b) busts);
  is_tied = ltb 1 (how_many (had_as_many b) busts);
}

records-behind :
    (t : Tournament) (left : ℕ) (busts xs : List Bust)
    → left + length busts + length t.bust_order ≡ t.total_entrants
    → map (bust_record t (base_best_position t (length busts))) (map (placed_among busts) xs)
      ≡ map (record_behind t left busts) xs
records-behind t left busts [] e = refl
records-behind t left busts (b ∷ xs) e =
    let place : base_best_position t (length busts) +ℤ pos (how_many (had_more b) busts)
        ≡ pos (left + 1 + how_many (had_more b) busts) =
      ground (arith, e) in
    cc (place, records-behind t left busts xs e)

pub bust_players-total :
    (base : ℤ) (t : Tournament) (placed : List Placed)
    → (bust_players base t placed).total_entrants ≡ t.total_entrants
unfolding bust_players bust_player
bust_players-total base t [] = refl
bust_players-total base t (p ∷ placed) = bust_players-total base (bust_player base t p) placed

is_empty-nil : (xs : List Bust) → is_empty xs ≡ true → xs ≡ []
is_empty-nil [] e = refl
is_empty-nil (x ∷ xs) e = absurd cc

-- Those who are marked as out are those who were, and the busts.
abbrev pub IsMarked : Tournament → List Bust → Tournament → Type 0
IsMarked t busts u =
    (id : ℕ)
    → includes id u.busted_bots ≡ (includes id (bust_ids busts) || includes id t.busted_bots)

-- What `checkForBustedPlayers` leaves.
abbrev IsDone : Tournament → List Bust → List Bust → Tournament → Type 0
IsDone t busts sorted u =
    IsCounted u
    × All (Survives t sorted) u.active_bots
    × IsMarked t sorted u
    × (u.bust_order ≡ t.bust_order ++ map (record_behind t (length u.active_bots) busts) sorted)

bust_players-IsDone :
    (t : Tournament) (busts sorted : List Bust)
    → IsCounted t
    → length sorted ≡ length busts
    → Distinct (bust_ids sorted)
    → All (λ (b : Bust). includes b.bot_id (bot_ids t.active_bots) ≡ true) sorted
    → IsDone t busts sorted
        (bust_players (base_best_position t (length busts)) t (map (placed_among busts) sorted))
bust_players-IsDone t busts sorted c l d a =
    let base = base_best_position t (length busts) in
    let placed = map (placed_among busts) sorted in
    let after = bust_players base t placed in
    let active = bust_players-active base busts sorted t d a c.distinct in
    let order = bust_players-bust_order base t placed in
    let counted : length after.active_bots + length busts + length t.bust_order ≡ t.total_entrants =
      omega (arith, active.0, l, c.total) in
    (
      record {
        total = omega (
          arith,
          ap length order,
          length-append t.bust_order (map (bust_record t base) placed),
          length-map (bust_record t base) placed,
          length-map (placed_among busts) sorted,
          active.0,
          c.total,
          bust_players-total base t placed,
        );
        distinct = active.1;
      },
      All-of_Member (Survives t sorted) after.active_bots
          (λ b m. bust_players-Survives base busts sorted t b m),
      bust_players-busted_bots base busts sorted t,
      order
          ∙ ap (λ r. t.bust_order ++ r)
              (records-behind t (length after.active_bots) busts sorted counted),
    )

check_for_busted_players-lem :
    (t : Tournament)
    → IsCounted t
    → Distinct (bust_ids (busted_this_round t t.tables))
    → let busts = busted_this_round t t.tables in
      let t' = check_for_busted_players t in
      IsCounted t'
      × All (Survives t (sort_busts busts)) t'.active_bots
      × IsMarked t (sort_busts busts) t'
      × (t'.bust_order
          ≡ t.bust_order ++ map (record_behind t (length t'.active_bots) busts) (sort_busts busts))
unfolding check_for_busted_players
check_for_busted_players-lem t c d =
    let busts = busted_this_round t t.tables in
    let sorted = sort_busts busts in
    let l = sort_busts-length busts in
    let run : List Placed → ℕ → Tournament = λ p n. bust_players (base_best_position t n) t p in
    let done =
      bust_players-IsDone t busts sorted c l (sort_busts-Distinct busts d)
        (sort_busts-All _ busts (busted_this_round-active t t.tables)) in
    let after : IsDone t busts sorted
        (run (place_groups (length sorted) 0 sorted) (length sorted)) =
      subst (λ p. IsDone t busts sorted (run p (length sorted)))
        (sym (sort_busts-place_groups busts))
        (subst (λ n. IsDone t busts sorted (run (map (placed_among busts) sorted) n)) (sym l)
          done) in
    elim (Bool-cases (is_empty sorted)) [
      | inl e ↦
          let none_out : sorted ≡ [] = is_empty-nil sorted e in
          rw (e, check_for_busted_players)
            (
              c,
              subst (λ k. All (Survives t k) t.active_bots) (sym none_out)
                  (All-of_Member (Survives t []) t.active_bots (λ b m. (m, refl))),
              subst (λ k. IsMarked t k t) (sym none_out) (λ id. refl),
              subst
                  (λ k.
                    t.bust_order
                    ≡ t.bust_order ++ map (record_behind t (length t.active_bots) busts) k)
                  (sym none_out) (sym (append_nil t.bust_order)),
            )
      | inr e ↦
          rw (e, check_for_busted_players)
            (
              record { total = after.0.total; distinct = after.0.distinct },
              after.1,
              after.2,
              after.3,
            )
    ]

-- Where everybody who entered is active or out, and no bot is found without chips at two seats,
-- `checkForBustedPlayers` keeps it so. No player who is out stays active, and they and those who
-- were so before are marked as busted. It writes a record for each player of a table who has no
-- chips, has not gone out before and whose bot is active, connected or not; the one who had the
-- most chips before the hand comes first. His record has those chips, and his position is behind
-- all who are still active and all who went out in this hand with more chips; it is tied when
-- another had as many.
pub check_for_busted_players-places :
    (t : Tournament)
    → IsCounted t
    → Distinct (bust_ids (all_out t t.tables))
    → let out = all_out t t.tables in
      let t' = check_for_busted_players t in
      IsCounted t'
      × All (Survives t out) t'.active_bots
      × IsMarked t out t'
      × (sorted : List Bust) × (t'.bust_order
          ≡ t.bust_order ++ map (record_behind t (length t'.active_bots) out) sorted)
      × Descends sorted
      × ((f : Bust → ℕ) → sum_by f sorted ≡ sum_by f out)
check_for_busted_players-places t c d =
    let found = busted_this_round-all_out t t.tables in
    let done =
      check_for_busted_players-lem t c (subst (λ l. Distinct (bust_ids l)) (sym found) d) in
    let t' = check_for_busted_players t in
    let out = all_out t t.tables in
    (
      done.0,
      All-map_of (Survives t out) t'.active_bots
          (λ b k. (
            k.0,
            sym (sort_busts-includes b.bot_id out)
                ∙ subst (λ l. includes b.bot_id (bust_ids (sort_busts l)) ≡ false) found k.1,
          ))
          done.1,
      λ id.
          subst
            (λ l.
              includes id t'.busted_bots
              ≡ (includes id (bust_ids (sort_busts l)) || includes id t.busted_bots))
            found (done.2 id)
          ∙ ap (λ b. b || includes id t.busted_bots) (sort_busts-includes id out),
      sort_busts out,
      subst
          (λ l.
            t'.bust_order
            ≡ t.bust_order ++ map (record_behind t (length t'.active_bots) l) (sort_busts l))
          found done.3,
      sort_busts-Descends out,
      λ f. sort_busts-sum f out,
    )
