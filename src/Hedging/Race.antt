-- ===== src/Hedging/Race.antt =====
-- What of the attempts' responses reaches the client.
use mathlib.Core.List.{◌++◌}
use ratelimiter_redis.Base.{
  inr, inl, ◌∙◌, Bool-cases, ℕ, String, ◌≡◌, refl, ap, true, false, List, [], ◌∷◌, ◌==◌,
  if◌then◌else◌,
}
use ratelimiter_redis.Http.{Call, set_header, add_header, del_header, write_header, write}
use ratelimiter_redis.Hedging.{Writers, new_writers, winning, race}

-- The calls that are not on the header map.
abbrev pub sent : List Call → List Call
sent [] = []
sent (write_header c ∷ cs) = write_header c ∷ sent cs
sent (write b ∷ cs) = write b ∷ sent cs
sent (_ ∷ cs) = sent cs

abbrev pub NoWrite : List (ℕ × Call) → Type 0
NoWrite [] = Unit {0}
NoWrite ((i, write b) ∷ es) = ⊥
NoWrite ((i, _) ∷ es) = NoWrite es

-- The last code that attempt `i` set, `c` before; 0 stands for none.
abbrev pub last_code : ℕ → ℕ → List (ℕ × Call) → ℕ
last_code i c [] = c
last_code i c ((j, write_header d) ∷ es) = last_code i (if i == j then d else c) es
last_code i c ((j, _) ∷ es) = last_code i c es

claimed_silent :
    (es : List (ℕ × Call)) (ws : Writers) → ws.claimed ≡ true → sent (race es ws).0 ≡ []
unfolding race
claimed_silent [] ws h = refl
claimed_silent ((i, set_header k v) ∷ es) ws h = claimed_silent es ws h
claimed_silent ((i, add_header k v) ∷ es) ws h = claimed_silent es ws h
claimed_silent ((i, del_header k) ∷ es) ws h = claimed_silent es ws h
claimed_silent ((i, write_header c) ∷ es) ws h = claimed_silent es _ h
claimed_silent ((i, write b) ∷ es) ws h = rw h (claimed_silent es _ refl)

sent-winning :
    (code : ℕ) (b : String) (cs : List Call)
    → sent (winning code b ++ cs) ≡ winning code b ++ sent cs
sent-winning code b cs = elim (Bool-cases (code == 0)) [ inl h ↦ rw h refl | inr h ↦ rw h refl ]

winning_alone : (code : ℕ) (b : String) → winning code b ++ [] ≡ winning code b
winning_alone code b = elim (Bool-cases (code == 0)) [ inl h ↦ rw h refl | inr h ↦ rw h refl ]

race_first :
    (es later : List (ℕ × Call)) (i : ℕ) (b : String) (ws : Writers)
    → NoWrite es
    → ws.claimed ≡ false
    → sent (race (es ++ (i, write b) ∷ later) ws).0 ≡ winning (last_code i (ws.codes i) es) b
unfolding race
race_first [] later i b ws silent h = rw h (
    sent-winning (ws.codes i) b _
    ∙ ap (◌++◌ (winning (ws.codes i) b)) (claimed_silent later _ refl)
    ∙ winning_alone (ws.codes i) b)
race_first ((j, set_header k v) ∷ es) later i b ws silent h = race_first es later i b ws silent h
race_first ((j, add_header k v) ∷ es) later i b ws silent h = race_first es later i b ws silent h
race_first ((j, del_header k) ∷ es) later i b ws silent h = race_first es later i b ws silent h
race_first ((j, write_header c) ∷ es) later i b ws silent h = race_first es later i b _ silent h
race_first ((j, write x) ∷ es) later i b ws silent h = elim silent [ ]

-- Whatever the interleaving of the attempts, the client gets the code that the attempt of the first
-- `Write` set last, and the bytes of that one `Write`: every later one is lost, also that attempt's own.
pub first_write_alone :
    (before later : List (ℕ × Call)) (i : ℕ) (b : String)
    → NoWrite before
    → sent (race (before ++ (i, write b) ∷ later) new_writers).0 ≡ winning (last_code i 0 before) b
first_write_alone before later i b silent = race_first before later i b new_writers silent refl
