-- ===== src/Tournament/Busts/Active.antt =====
-- The bots that are still active when some have gone out.
use servers_poker.Prelude.{
  ℕ, suc, ◌+◌, ◌≡◌, refl, ap, ◌∙◌, subst, inl, inr, true, false, not, ◌&&◌, ◌||◌, some, List, [],
  ◌∷◌, map, filter, length, includes, Distinct, ◌==◌, All, Member, filter-Member, All-append,
  Bool-cases, if_cases, Option-cases, arith,
}
use servers_poker.Prelude.Int.{ℤ}
use servers_poker.Table.{GamePlayer}
use servers_poker.Tournament.State.{BotInfo, TableEntry, Tournament}
use servers_poker.Tournament.Busts.{
  Bust, active_bot, busts_at, busted_this_round, bust_player, bust_players,
}
use servers_poker.Tournament.Busts.Sorted.{bust_ids}
use servers_poker.Tournament.Busts.Places.{placed_among}

abbrev pub bot_ids : List BotInfo → List ℕ
bot_ids = map (λ (b : BotInfo). b.bot_id)

abbrev pub others : ℕ → List BotInfo → List BotInfo
others id = filter (λ (b : BotInfo). not (b.bot_id == id))

-- An active bot who is not among the busts.
abbrev pub Survives : Tournament → List Bust → BotInfo → Type 0
Survives t busts b = Member b t.active_bots × (includes b.bot_id (bust_ids busts) ≡ false)

others-includes :
    (id j : ℕ) (bots : List BotInfo)
    → includes j (bot_ids (others id bots)) ≡ (includes j (bot_ids bots) && not (j == id))
others-includes id j [] = refl
others-includes id j (b ∷ bots) = ground (arith, others-includes id j bots)

pub others-Distinct :
    (id : ℕ) (bots : List BotInfo) → Distinct (bot_ids bots) → Distinct (bot_ids (others id bots))
others-Distinct id [] h = tt
others-Distinct id (b ∷ bots) h =
    if_cases (λ l. Distinct (bot_ids l)) (not (b.bot_id == id)) _ _
      (others-includes id b.bot_id bots ∙ ground (arith, h.0), others-Distinct id bots h.1)
      (others-Distinct id bots h.1)

others-same :
    (id : ℕ) (bots : List BotInfo)
    → includes id (bot_ids bots) ≡ false
    → length (others id bots) ≡ length bots
others-same id [] e = refl
others-same id (b ∷ bots) e = ground (arith, others-same id bots (ground (arith, e)), e)

pub others-length :
    (id : ℕ) (bots : List BotInfo)
    → Distinct (bot_ids bots)
    → includes id (bot_ids bots) ≡ true
    → suc (length (others id bots)) ≡ length bots
others-length id [] h e = absurd cc
others-length id (b ∷ bots) h e = elim (Bool-cases (b.bot_id == id)) [
  | inl q ↦
      let same : includes id (bot_ids bots) ≡ false =
        subst (λ n. includes n (bot_ids bots) ≡ false) (ground (arith, q)) h.0 in
      rw q (ap suc (others-same id bots same))
  | inr q ↦
      let rest : includes id (bot_ids bots) ≡ true = ground (arith, q, e) in
      rw q (ap suc (others-length id bots h.1 rest))
]

-- The busts are of different bots, all of them active.
pub bust_players-active :
    (base : ℤ) (all busts : List Bust) (t : Tournament)
    → Distinct (bust_ids busts)
    → All (λ (b : Bust). includes b.bot_id (bot_ids t.active_bots) ≡ true) busts
    → Distinct (bot_ids t.active_bots)
    → let t' = bust_players base t (map (placed_among all) busts) in
      (length t'.active_bots + length busts ≡ length t.active_bots)
      × Distinct (bot_ids t'.active_bots)
unfolding bust_players bust_player
bust_players-active base all [] t d a h = (omega arith, h)
bust_players-active base all (b ∷ busts) t d a h =
    let t1 = bust_player base t (placed_among all b) in
    let still : All (λ (c : Bust). includes c.bot_id (bot_ids t1.active_bots) ≡ true) busts =
      remain busts d.0 a.1 in
    let rest =
      bust_players-active base all busts t1 d.1 still (others-Distinct b.bot_id t.active_bots h) in
    (omega (arith, rest.0, others-length b.bot_id t.active_bots h a.0), rest.1)
  where
    remain :
        (cs : List Bust)
        → includes b.bot_id (bust_ids cs) ≡ false
        → All (λ (c : Bust). includes c.bot_id (bot_ids t.active_bots) ≡ true) cs
        → All (λ (c : Bust). includes c.bot_id (bot_ids (others b.bot_id t.active_bots)) ≡ true) cs
    remain [] e k = tt
    remain (c ∷ cs) e k = (
      others-includes b.bot_id c.bot_id t.active_bots ∙ ground (arith, e, k.0),
      remain cs (ground (arith, e)) k.1,
    )

-- The bots that are marked as out: those who were, and the busts.
pub bust_players-busted_bots :
    (base : ℤ) (all busts : List Bust) (t : Tournament) (id : ℕ)
    → includes id (bust_players base t (map (placed_among all) busts)).busted_bots
      ≡ (includes id (bust_ids busts) || includes id t.busted_bots)
unfolding bust_players bust_player
bust_players-busted_bots base all [] t id = refl
bust_players-busted_bots base all (c ∷ busts) t id =
    bust_players-busted_bots base all busts (bust_player base t (placed_among all c)) id
    ∙ ground arith

-- Those who are still active were active before and are not among the busts.
pub bust_players-Survives :
    (base : ℤ) (all busts : List Bust) (t : Tournament) (b : BotInfo)
    → Member b (bust_players base t (map (placed_among all) busts)).active_bots
    → Survives t busts b
unfolding bust_players bust_player
bust_players-Survives base all [] t b m = (m, refl)
bust_players-Survives base all (c ∷ busts) t b m =
    let t1 = bust_player base t (placed_among all c) in
    let (m1, rest) = bust_players-Survives base all busts t1 b m in
    let (m0, apart) =
      filter-Member (λ (d : BotInfo). not (d.bot_id == c.bot_id)) b t.active_bots m1 in
    (m0, ground (arith, apart, rest))

pub active_bot-includes :
    (id : ℕ) (bots : List BotInfo) (bot : BotInfo)
    → active_bot id bots ≡ some bot
    → includes id (bot_ids bots) ≡ true
active_bot-includes id [] bot e = absurd cc
active_bot-includes id (b ∷ bots) bot e = elim (Bool-cases (b.bot_id == id)) [
  | inl q ↦ ground (arith, q)
  | inr q ↦ let k = active_bot-includes id bots bot (rw q at e) in ground (arith, k)
]

busts_at-active :
    (t : Tournament) (table_id : ℕ) (players : List GamePlayer)
    → All
        (λ (b : Bust). includes b.bot_id (bot_ids t.active_bots) ≡ true)
        (busts_at t table_id players)
unfolding busts_at
busts_at-active t table_id [] = tt
busts_at-active t table_id (p ∷ players) =
    let rest = busts_at-active t table_id players in
    if_cases (λ l. All (λ (b : Bust). includes b.bot_id (bot_ids t.active_bots) ≡ true) l)
      (p.chips == 0 && not (includes p.id t.busted_bots)) _ _
      (elim (Option-cases (active_bot p.id t.active_bots)) [
        | inl e ↦ rw e rest
        | inr (bot, e) ↦ rw e (active_bot-includes p.id t.active_bots bot e, rest)
      ])
      rest

pub busted_this_round-active :
    (t : Tournament) (tables : List TableEntry)
    → All
        (λ (b : Bust). includes b.bot_id (bot_ids t.active_bots) ≡ true)
        (busted_this_round t tables)
unfolding busted_this_round
busted_this_round-active t [] = tt
busted_this_round-active t (e ∷ tables) =
    All-append _ (busts_at t e.id e.game.table.players) (busted_this_round t tables)
      (busts_at-active t e.id e.game.table.players) (busted_this_round-active t tables)
