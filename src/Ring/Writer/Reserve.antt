-- ===== src/Ring/Writer/Reserve.antt =====
-- What a reservation that succeeds says of the writer, and of the octile it enters.
use sintra.Base.{
  ℕ, suc, ◌+◌, ◌*◌, ◌/◌, ◌%◌, ◌^◌, ◌<◌, ◌≤◌, ◌≡◌, ◌≢◌, refl, ap, sym, ◌∙◌, Bool, false, ◌==◌, List,
  [], ◌∷◌, arith, Bool-cases, inl, inr,
}
use native.Mathlib.Nat.{mod-add-mod}
use sintra.Ring.Access.{octile_of_index, count}
use sintra.Ring.Layout.{mod_u64}
use sintra.Ring.Layout.Octiles.{octile-mod}
use sintra.Ring.Writer.{
  Writer, Observation, access, unidentified, done, await_octile, advance_octile, reserve,
  prepare_write,
}

-- The word counts a reader on the octile.
abbrev pub Sees : ℕ → Observation → Type 0
Sees o (access word) = count word o ≢ 0
Sees o unidentified = Unit {0}

abbrev pub AllSee : ℕ → List Observation → Type 0
AllSee o [] = Unit {0}
AllSee o (x ∷ xs) = Sees o x × AllSee o xs

-- While every observation shows a reader on the octile, the writer does not get past its wait.
pub await_octile-guarded :
    (o : ℕ) (observed : List Observation) {b : Bool}
    → AllSee o observed
    → await_octile o observed ≢ done b
unfolding await_octile
await_octile-guarded o [] h e = cc
await_octile-guarded o (unidentified ∷ rest) h e = cc
await_octile-guarded o (access word ∷ rest) h e =
    let f : (count word o == 0) ≡ false = ground (arith, h.0) in
    await_octile-guarded o rest h.1 (rw (f, await_octile) at e)

-- The writer's octile is that of its pending head.
abbrev pub AtOctile : ℕ → Writer → Type 0
AtOctile size w = (w.num ≡ 8 * size) × (w.octile ≡ w.pending / size % 8)

-- Where the writer stands once its wait is over.
pub record Advanced (head : ℕ) (observed : List Observation) (w w' : Writer) : Type 0 where
  pub num : w'.num ≡ w.num
  pub pending : w'.pending ≡ w.pending
  pub octile : w'.octile ≡ octile_of_index head w.num
  pub avoids : (g : ℕ) → AllSee g observed → octile_of_index head w.num ≡ g → w.octile ≡ g

-- A writer that entered a new octile has seen that nobody guards it.
await_octile-done :
    (head : ℕ) (observed : List Observation) (w : Writer) {w' : Writer}
    → advance_octile head observed w ≡ done w'
    → (w.octile == octile_of_index head w.num) ≡ false
    → (b : Bool) × (await_octile (octile_of_index head w.num) observed ≡ done b)
unfolding advance_octile
await_octile-done head observed w e new = ground (arith, e, new)

advance_octile-done :
    (head : ℕ) (observed : List Observation) (w : Writer) {w' : Writer}
    → advance_octile head observed w ≡ done w'
    → Advanced head observed w w'
unfolding advance_octile
advance_octile-done head observed w {w'} e =
    elim (Bool-cases (w.octile == octile_of_index head w.num)) [
      | inl same ↦ record {
        num = ground arith;
        pending = ground arith;
        octile = ground arith;
        avoids = λ g h q. ground arith;
      }
      | inr new ↦ record {
        num = ground arith;
        pending = ground arith;
        octile = ground arith;
        avoids = λ g h q.
            let (b, passed) = await_octile-done head observed w e new in
            absurd (await_octile-guarded g observed h (rw q at passed));
      }
    ]

-- A successful reservation of `n` elements: where it lies, and where the writer stands after it.
pub record Reserved (size n : ℕ) (observed : List Observation) (w : Writer) (i : ℕ) (w' : Writer)
    : Type 0 where
  pub small : n ≤ size
  pub index : i ≡ w.pending % (8 * size)
  pub at : AtOctile size w'
  pub moved : w'.pending ≡ w.pending + n
  pub avoids : (g : ℕ) → AllSee g observed → w'.pending / size % 8 ≡ g → w.pending / size % 8 ≡ g

-- The tests that a successful reservation has passed.
pub prepare_write-parts :
    (aligned : ℕ → Bool) (me n : ℕ) (observed : List Observation) (w : Writer) {i : ℕ} {w' : Writer}
    → prepare_write aligned me n observed w ≡ done (i, w')
    → (n ≤ w.num / 8)
      × (i ≡ mod_u64 w.pending w.num)
      × (advance_octile
            (mod_u64 (reserve w n).pending w.num)
            observed
            (record (reserve w n) { thread = me })
          ≡ done w')
unfolding prepare_write
prepare_write-parts aligned me n observed w e = ground (arith, e)

-- A reservation of `n` elements that succeeds, on a ring of positive size whose writer is at the
-- octile of its pending head and stays below the signed range: it lies at the index of the pending
-- head and is at most an octile long, the writer is then at the octile of the new head, and it
-- entered no octile on which every observation counted a reader.
pub prepare_write-done :
    (aligned : ℕ → Bool) (me n size : ℕ) (observed : List Observation) (w : Writer) {i : ℕ}
    {w' : Writer}
    → 0 < size
    → size < 2 ^ 58
    → AtOctile size w
    → w.pending + n < 2 ^ 63
    → prepare_write aligned me n observed w ≡ done (i, w')
    → Reserved size n observed w i w'
prepare_write-done aligned me n size observed w {i} {w'} h k at fits e =
    let (small, index, moved) = prepare_write-parts aligned me n observed w e in
    let head : ℕ = mod_u64 (reserve w n).pending w.num in
    let a = advance_octile-done head observed (record (reserve w n) { thread = me }) moved in
    let whole : (reserve w n).pending ≡ w.pending + n = omega arith in
    let oct : octile_of_index head w.num ≡ (w.pending + n) / size % 8 =
      rw (at.0, whole) (octile-mod size (w.pending + n) h k) in
    record {
      small = ground (arith, small, at.0);
      index = rw (index, at.0) refl;
      at = (a.num ∙ at.0, a.octile ∙ oct ∙ ap (λ z. z / size % 8) (sym (a.pending ∙ whole)));
      moved = a.pending ∙ whole;
      avoids = λ g see q.
          sym at.1 ∙ a.avoids g see (oct ∙ ap (λ z. z / size % 8) (sym (a.pending ∙ whole)) ∙ q);
    }

pub suc-mod : (num i p : ℕ) → i % num ≡ p % num → suc i % num ≡ suc p % num
suc-mod num i p e =
    ap (λ z. z % num) (omega arith)
    ∙ sym (mod-add-mod i num 1)
    ∙ ap (λ z. (z + 1) % num) e
    ∙ mod-add-mod p num 1
    ∙ ap (λ z. z % num) (omega arith)
