-- ===== src/Tournament/Busts/Paid.antt =====
-- The end of a tournament pays out its pool.
use servers_poker.Prelude.{
  ℕ, zero, suc, ◌+◌, ◌-◌, ◌*◌, ◌≤◌, ◌≡◌, refl, sym, ap, ◌∙◌, subst, true, false, List, [], ◌∷◌,
  ◌++◌, map, length, length-append, range_from, ◌==◌, sum_by, sum_by-append, arith,
}
use mathlib.Core.List.{reverse, reverse_aux}
use servers_poker.Tournament.Config.{Payout, calculate_prizes}
use servers_poker.Tournament.Prizes.{paid, IsRanked, calculate_prizes-paid}
use servers_poker.Tournament.State.{BotInfo, BustRecord, Tournament}
use servers_poker.Tournament.Busts.{
  EntryPayout, amount_for, reversed, pay_from, winner_record, with_winner, finish_tournament,
}
use servers_poker.Tournament.Busts.Places.{map-append, append_assoc, append_nil}
use servers_poker.Tournament.Busts.Active.{bot_ids}
use servers_poker.Tournament.Busts.Counted.{IsCounted}

abbrev pub received : List EntryPayout → ℕ
received = sum_by (λ (e : EntryPayout). e.amount)

abbrev pub record_bots : List BustRecord → List ℕ
record_bots = map (λ (r : BustRecord). r.bot_id)

pay_from-bots :
    (payouts : List Payout) (i : ℕ) (records : List BustRecord)
    → map (λ (e : EntryPayout). e.bot_id) (pay_from payouts i records) ≡ record_bots records
unfolding pay_from
pay_from-bots payouts i [] = refl
pay_from-bots payouts i (r ∷ records) =
    ap (λ l. r.bot_id ∷ l) (pay_from-bots payouts (i + 1) records)

pay_from-positions :
    (payouts : List Payout) (i : ℕ) (records : List BustRecord)
    → map (λ (e : EntryPayout). e.position) (pay_from payouts i records)
      ≡ range_from (i + 1) (length records)
unfolding pay_from
pay_from-positions payouts i [] = refl
pay_from-positions payouts i (r ∷ records) =
    ap (λ l. (i + 1) ∷ l)
      (pay_from-positions payouts (i + 1) records
        ∙ ap (λ k. range_from k (length records)) (omega arith))

-- The payouts of those who get nothing.
abbrev pub zeros : ℕ → List ℕ
zeros zero = []
zeros (suc n) = 0 ∷ zeros n

abbrev pub paid_amounts : List EntryPayout → List ℕ
paid_amounts = map (λ (e : EntryPayout). e.amount)

pay_from-zeros :
    (i : ℕ) (records : List BustRecord)
    → paid_amounts (pay_from [] i records) ≡ zeros (length records)
unfolding pay_from
pay_from-zeros i [] = refl
pay_from-zeros i (r ∷ records) = ap (λ l. 0 ∷ l) (pay_from-zeros (i + 1) records)

-- Behind its position a payout is not looked at.
pay_from-passed :
    (p : Payout) (payouts : List Payout) (i : ℕ) (records : List BustRecord)
    → p.position ≤ i
    → paid_amounts (pay_from (p ∷ payouts) i records) ≡ paid_amounts (pay_from payouts i records)
unfolding pay_from
pay_from-passed p payouts i [] h = refl
pay_from-passed p payouts i (r ∷ records) h =
    let other : (p.position == i + 1) ≡ false = ground (arith, h) in
    rw other (
      ap (λ l. amount_for (i + 1) payouts ∷ l)
        (pay_from-passed p payouts (i + 1) records (omega (arith, h))))

-- Each place gets its prize, and the places behind the prizes get nothing.
pay_from-amounts :
    (payouts : List Payout) (i bound : ℕ) (records : List BustRecord)
    → IsRanked i bound payouts
    → length payouts ≤ length records
    → paid_amounts (pay_from payouts i records)
      ≡ map (λ (p : Payout). p.amount) payouts ++ zeros (length records - length payouts)
unfolding pay_from
pay_from-amounts [] i bound records h l = pay_from-zeros i records ∙ ap zeros (omega arith)
pay_from-amounts (p ∷ payouts) i bound [] h l = absurd (omega (arith, l))
pay_from-amounts (p ∷ payouts) i bound (r ∷ records) h l =
    let here : (p.position == i + 1) ≡ true = ground (arith, h.0) in
    rw here (
      ap (λ k. p.amount ∷ k)
        (pay_from-passed p payouts (i + 1) records (omega (arith, h.0))
          ∙ pay_from-amounts payouts (i + 1) p.amount records h.2 (omega (arith, l))
          ∙ ap (λ k. map (λ (q : Payout). q.amount) payouts ++ zeros k) (omega arith)))

received-amounts :
    (payouts : List EntryPayout) → received payouts ≡ sum_by (λ n. n) (paid_amounts payouts)
received-amounts [] = refl
received-amounts (e ∷ payouts) = ap (λ n. e.amount + n) (received-amounts payouts)

zeros-sum : (n : ℕ) → sum_by (λ n. n) (zeros n) ≡ 0
zeros-sum zero = refl
zeros-sum (suc n) = omega (arith, zeros-sum n)

prizes-sum :
    (payouts : List Payout)
    → sum_by (λ n. n) (map (λ (p : Payout). p.amount) payouts) ≡ paid payouts
prizes-sum [] = refl
prizes-sum (p ∷ payouts) = ap (λ n. p.amount + n) (prizes-sum payouts)

reversed-bots :
    (records : List BustRecord) (behind : List ℕ)
    → record_bots (reversed records) ++ behind ≡ reverse_aux (record_bots records) behind
reversed-bots [] behind = refl
reversed-bots (r ∷ records) behind =
    ap (λ l. l ++ behind) (map-append (λ (s : BustRecord). s.bot_id) (reversed records) (r ∷ []))
    ∙ append_assoc (record_bots (reversed records)) (r.bot_id ∷ []) behind
    ∙ reversed-bots records (r.bot_id ∷ behind)

reversed-last :
    (records : List BustRecord) (r : BustRecord)
    → reversed (records ++ r ∷ []) ≡ r ∷ reversed records
reversed-last [] r = refl
reversed-last (s ∷ records) r = ap (λ l. l ++ s ∷ []) (reversed-last records r)

reversed-length : (records : List BustRecord) → length (reversed records) ≡ length records
reversed-length [] = refl
reversed-length (r ∷ records) =
    omega (arith, length-append (reversed records) (r ∷ []), reversed-length records)

-- The winner, and behind him those who went out, the last one first.
with_winner-bots :
    (t : Tournament)
    → length t.active_bots ≡ 1
    → record_bots (reversed (with_winner t))
      ≡ bot_ids t.active_bots ++ reverse (record_bots t.bust_order)
unfolding with_winner
with_winner-bots t e = go t.active_bots refl
  where
    go :
        (bots : List BotInfo)
        → t.active_bots ≡ bots
        → record_bots (reversed (with_winner t))
          ≡ bot_ids t.active_bots ++ reverse (record_bots t.bust_order)
    go [] q = absurd (omega (arith, e, ap length q))
    go (b ∷ c ∷ bots) q = absurd (omega (arith, e, ap length q))
    go (b ∷ []) q =
        rw (q, with_winner)
          (ap record_bots (reversed-last t.bust_order (winner_record t b))
            ∙ ap (λ l. b.bot_id ∷ l)
                (sym (append_nil (record_bots (reversed t.bust_order)))
                  ∙ reversed-bots t.bust_order []))

with_winner-length :
    (t : Tournament)
    → IsCounted t
    → length t.active_bots ≡ 1
    → length (with_winner t) ≡ t.total_entrants
unfolding with_winner
with_winner-length t c e = go t.active_bots refl
  where
    go : (bots : List BotInfo) → t.active_bots ≡ bots → length (with_winner t) ≡ t.total_entrants
    go [] q = absurd (omega (arith, e, ap length q))
    go (b ∷ bots) q =
        rw (q, with_winner)
          (omega (arith, c.total, e, length-append t.bust_order (winner_record t b ∷ [])))

-- Where everybody who entered is active or out, and one player is active, `finishTournament` writes
-- a payout for each who entered: first for the active one, then for those who went out, the last one
-- first. The positions are 1, 2 and so on. The amounts are the prizes in their order and then zeros,
-- and they add up to the buy-ins of all.
pub finish_tournament-received :
    (buy_in : ℕ) (t : Tournament)
    → IsCounted t
    → length t.active_bots ≡ 1
    → let n = t.total_entrants in
      let payouts = finish_tournament buy_in t in
      let prizes = calculate_prizes (n * buy_in) n in
      (map (λ (e : EntryPayout). e.bot_id) payouts
        ≡ bot_ids t.active_bots ++ reverse (record_bots t.bust_order))
      × (map (λ (e : EntryPayout). e.position) payouts ≡ range_from 1 n)
      × (paid_amounts payouts ≡ map (λ (p : Payout). p.amount) prizes ++ zeros (n - length prizes))
      × (received payouts ≡ n * buy_in)
unfolding finish_tournament
finish_tournament-received buy_in t c e =
    let n = t.total_entrants in
    let prizes = calculate_prizes (n * buy_in) n in
    let ranked = calculate_prizes-paid (n * buy_in) n in
    let final = reversed (with_winner t) in
    let all : length final ≡ n = reversed-length (with_winner t) ∙ with_winner-length t c e in
    let enough : length prizes ≤ length final = omega (arith, all, ranked.1, c.total, e) in
    let payouts = pay_from prizes 0 final in
    let amounts : paid_amounts payouts
        ≡ map (λ (p : Payout). p.amount) prizes ++ zeros (n - length prizes) =
      subst
        (λ k.
          paid_amounts payouts ≡ map (λ (p : Payout). p.amount) prizes ++ zeros (k - length prizes))
        all (pay_from-amounts prizes 0 (n * buy_in) final ranked.2 enough) in
    (
      pay_from-bots prizes 0 final ∙ with_winner-bots t e,
      pay_from-positions prizes 0 final ∙ ap (λ k. range_from 1 k) all,
      amounts,
      omega (
        arith,
        received-amounts payouts,
        ap (sum_by (λ k. k)) amounts,
        sum_by-append (λ k. k) (map (λ (p : Payout). p.amount) prizes) (zeros (n - length prizes)),
        zeros-sum (n - length prizes),
        prizes-sum prizes,
        ranked.0,
      ),
    )
