-- ===== src/Table/Seats.antt =====
-- Who is in, and whose turn is next: `activePlayers`, `playablePlayers`, `nextActiveIndex`, and the
-- move of the dealer button between two hands.
use servers_poker.Prelude.{
  ℕ, zero, suc, ◌+◌, ◌%◌, Bool, true, false, not, ◌&&◌, ◌||◌, none, some, List, filter, length,
  get_elem?, ltb, ◌==◌, if◌then◌else◌,
}
use servers_poker.Table.{GamePlayer, Table}

-- `playablePlayers`
unfoldable pub playable_players : Table → List GamePlayer
playable_players t = filter (λ p. ltb 0 p.chips && not p.disconnected) t.players

-- `activePlayers`
unfoldable pub active_players : Table → List GamePlayer
active_players t = filter (λ p. not p.folded && not p.disconnected) t.players

-- `activeSeatCount`
unfoldable pub active_seat_count : Table → ℕ
active_seat_count t = length (filter (λ p. not p.disconnected) t.players)

-- The test of the loop in `nextActiveIndex`: the seat cannot act. The index is below the number of
-- seats.
abbrev pub must_skip : List GamePlayer → ℕ → Bool
must_skip players idx = elim (get_elem? players idx) [
  | none ↦ false
  | some p ↦ p.folded || (p.chips == 0 || p.disconnected)
]

-- The loop of `nextActiveIndex`, with the tries that are left.
unfoldable pub skip_seats : ℕ → List GamePlayer → ℕ → ℕ
skip_seats zero players idx = idx
skip_seats (suc tries) players idx =
    let rest = skip_seats tries players ((idx + 1) % length players) in
    if must_skip players idx then rest else idx

-- `nextActiveIndex`
unfoldable pub next_active_index : Table → ℕ → ℕ
unfolding skip_seats
next_active_index t from_index =
    skip_seats (length t.players) t.players ((from_index + 1) % length t.players)

-- The test of the loop that moves the button: the seat can deal.
abbrev pub can_deal : List GamePlayer → ℕ → Bool
can_deal players idx = elim (get_elem? players idx) [
  | none ↦ true
  | some p ↦ ltb 0 p.chips && not p.disconnected
]

unfoldable pub seek_dealer : ℕ → List GamePlayer → ℕ → ℕ
seek_dealer zero players idx = idx
seek_dealer (suc tries) players idx =
    let rest = seek_dealer tries players ((idx + 1) % length players) in
    if can_deal players idx then idx else rest

-- The end of an iteration of `startGame`: the dealer's next seat.
unfoldable pub advance_dealer : Table → Table
unfolding seek_dealer
advance_dealer t = record t {
  dealer_index = seek_dealer (length t.players) t.players ((t.dealer_index + 1) % length t.players);
}
