-- ===== src/Ring/Access/Counters.antt =====
-- The byte counters of `read_access` do not disturb one another.
use sintra.Base.{ℕ, zero, suc, ◌+◌, ◌^◌, ◌<◌, ◌≤◌, ◌≡◌, bit, ◌==◌, if◌then◌else◌, arith}
use sintra.Ring.Access.{count, add_count, sub_count, clear_count}

-- An octile is one of eight.
pub elim_octile {ℓ} :
    (P : ℕ → Type ℓ) → P 0 → P 1 → P 2 → P 3 → P 4 → P 5 → P 6 → P 7 → (o : ℕ) → o < 8 → P o
elim_octile P a b c d e f g i zero h = a
elim_octile P a b c d e f g i (suc zero) h = b
elim_octile P a b c d e f g i (suc (suc zero)) h = c
elim_octile P a b c d e f g i (suc (suc (suc zero))) h = d
elim_octile P a b c d e f g i (suc (suc (suc (suc zero)))) h = e
elim_octile P a b c d e f g i (suc (suc (suc (suc (suc zero))))) h = f
elim_octile P a b c d e f g i (suc (suc (suc (suc (suc (suc zero)))))) h = g
elim_octile P a b c d e f g i (suc (suc (suc (suc (suc (suc (suc zero))))))) h = i
elim_octile P a b c d e f g i (suc (suc (suc (suc (suc (suc (suc (suc n)))))))) h =
    absurd (omega arith)

-- A fact about octiles `o` and `p`, for each `p`.
abbrev Row : (ℕ → ℕ → Type 0) → ℕ → Type 0
Row P o = P o 0 × P o 1 × P o 2 × P o 3 × P o 4 × P o 5 × P o 6 × P o 7

-- A fact about two octiles from its rows.
from_rows : (P : ℕ → ℕ → Type 0) → ((o : ℕ) → o < 8 → Row P o) → (o p : ℕ) → o < 8 → p < 8 → P o p
from_rows P rows o p ho hp =
    let r = rows o ho in elim_octile (P o) r.0 r.1 r.2 r.3 r.4 r.5 r.6 r.7 p hp

abbrev AddAt : ℕ → ℕ → Type 0
AddAt o p =
    (w : ℕ) → w < 2 ^ 64 → count w o < 0xff → count (add_count w o) p ≡ count w p + bit (o == p)

AddAt-rows : (o : ℕ) → o < 8 → Row AddAt o
unfolding count add_count
AddAt-rows =
    elim_octile (Row AddAt) (omega arith) (omega arith) (omega arith) (omega arith) (omega arith)
      (omega arith) (omega arith) (omega arith)

-- `fetch_add` raises the counter of its octile and no other, while that counter is below 255.
pub count-add_count :
    (o p w : ℕ)
    → o < 8
    → p < 8
    → w < 2 ^ 64
    → count w o < 0xff
    → count (add_count w o) p ≡ count w p + bit (o == p)
count-add_count o p w ho hp = from_rows AddAt AddAt-rows o p ho hp w

abbrev SubAt : ℕ → ℕ → Type 0
SubAt o p =
    (w : ℕ) → w < 2 ^ 64 → 0 < count w o → count (sub_count w o) p + bit (o == p) ≡ count w p

SubAt-rows : (o : ℕ) → o < 8 → Row SubAt o
unfolding count sub_count
SubAt-rows =
    elim_octile (Row SubAt) (omega arith) (omega arith) (omega arith) (omega arith) (omega arith)
      (omega arith) (omega arith) (omega arith)

-- Taking one away lowers the counter of its octile and no other, where that counter is not 0.
pub count-sub_count :
    (o p w : ℕ)
    → o < 8
    → p < 8
    → w < 2 ^ 64
    → 0 < count w o
    → count (sub_count w o) p + bit (o == p) ≡ count w p
count-sub_count o p w ho hp = from_rows SubAt SubAt-rows o p ho hp w

abbrev ClearAt : ℕ → ℕ → Type 0
ClearAt o p = (w : ℕ) → w < 2 ^ 64 → count (clear_count w o) p ≡ (if o == p then 0 else count w p)

ClearAt-rows : (o : ℕ) → o < 8 → Row ClearAt o
unfolding count clear_count
ClearAt-rows =
    elim_octile (Row ClearAt) (omega arith) (omega arith) (omega arith) (omega arith) (omega arith)
      (omega arith) (omega arith) (omega arith)

-- Clearing an octile's byte leaves the other counters.
pub count-clear_count :
    (o p w : ℕ)
    → o < 8
    → p < 8
    → w < 2 ^ 64
    → count (clear_count w o) p ≡ (if o == p then 0 else count w p)
count-clear_count o p w ho hp = from_rows ClearAt ClearAt-rows o p ho hp w

pub add_count-lt : (w o : ℕ) → add_count w o < 2 ^ 64
unfolding add_count
add_count-lt w o = omega arith

pub sub_count-lt : (w o : ℕ) → sub_count w o < 2 ^ 64
unfolding sub_count
sub_count-lt w o = omega arith

pub clear_count-lt : (w o : ℕ) → w < 2 ^ 64 → clear_count w o < 2 ^ 64
unfolding clear_count
clear_count-lt w o h = omega arith

pub count-le : (w o : ℕ) → count w o ≤ 0xff
unfolding count
count-le w o = omega arith
