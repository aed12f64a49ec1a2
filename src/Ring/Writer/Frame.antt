-- ===== src/Ring/Writer/Frame.antt =====
-- A reader's guard keeps the writer away from the whole window behind the head that the reader saw.
use sintra.Base.{
  ℕ, suc, ◌+◌, ◌-◌, ◌*◌, ◌/◌, ◌%◌, ◌^◌, ◌<◌, ◌≤◌, ◌≡◌, ◌≢◌, refl, ap, sym, ◌∙◌, Bool, List, [], ◌∷◌,
  Option, none, some, length, arith, dec_lt,
}
use mathlib.Core.Path.{subst}
use native.Mathlib.Nat.{mod-mod}
use sintra.Ring.Layout.{trailing_octile_of}
use sintra.Ring.Layout.Octiles.{trailing_octile_lem, next_octile, apart_mod}
use sintra.Ring.Writer.{
  Writer, Observation, Outcome, done, invalid_argument, system_error, waiting, prepare_write, Ring,
  store, store_all, write, done_writing, Action, put, publish, run,
}
use sintra.Ring.Writer.Reserve.{AllSee, AtOctile, prepare_write-parts, prepare_write-done, suc-mod}

-- A guard on the octile where the window begins stops the head short of the octile's next lap.
stops_short :
    (size n p seen trailing : ℕ)
    → 0 < size
    → n ≤ size
    → p / size < (seen + 8 * size - trailing) / size
    → ((p + n) / size % 8 ≡ (seen + 8 * size - trailing) / size % 8
        → p / size % 8 ≡ (seen + 8 * size - trailing) / size % 8)
    → (p + n) / size < (seen + 8 * size - trailing) / size
stops_short size n p seen trailing h k behind avoids =
    let g : ℕ = (seen + 8 * size - trailing) / size in
    let near : (p + n) / size ≤ p / size + 1 = next_octile size p n h k in
    elim (dec_lt ((p + n) / size) g) [
      | yes lt ↦ lt
      | no ge ↦
          let e : (p + n) / size ≡ g = omega (arith, near, behind) in
          let q : p / size % 8 ≡ g % 8 = avoids (ap (λ z. z % 8) e) in
          absurd (omega (arith, near, behind, e, q))
    ]

-- The head is then within a lap of the window's start.
within_lap :
    (size p seen trailing : ℕ)
    → 0 < size
    → trailing ≤ 8 * size
    → p / size < (seen + 8 * size - trailing) / size
    → p + trailing < seen + 8 * size
within_lap size p seen trailing h k behind = grind arith

-- A head at most one octile ahead lies before the next lap of a window of six octiles.
window_starts :
    (size p seen trailing : ℕ)
    → 0 < size
    → trailing ≤ 6 * size
    → p ≤ seen + size
    → p / size < (seen + 8 * size - trailing) / size
window_starts size p seen trailing h ht hi = grind arith

module _ {ℓ} {A : Type ℓ} where
  -- Stores at positions between a sequence number and its next lap leave its element alone.
  store_all-frame :
      (num : ℕ) (cells : ℕ → A) (i p s : ℕ) (src : List A)
      → i % num ≡ p % num
      → s < p
      → p + length src ≤ s + num
      → store_all num cells i src (s % num) ≡ cells (s % num)
  unfolding store_all
  store_all-frame num cells i p s [] e h k = refl
  store_all-frame num cells i p s (x ∷ xs) e h k =
      let apart : p % num ≢ s % num = apart_mod num s p h (omega arith) in
      store_all-frame num (store num cells i x) (suc i) (suc p) s xs (suc-mod num i p e)
        (omega arith) (omega arith)
      ∙ ground (arith, e, apart)

  -- What a reader relies on: `seen` was the head when it took the snapshot.
  record Window (size trailing seen : ℕ) (before r : Ring A) : Type ℓ where
    at : AtOctile size r.writer
    ahead : seen ≤ r.writer.pending
    behind : r.writer.pending / size < (seen + 8 * size - trailing) / size
    same :
        (s : ℕ)
        → seen ≤ s + trailing
        → s < seen
        → r.cells (s % (8 * size)) ≡ before.cells (s % (8 * size))

  written : List A → Ring A → Outcome (ℕ × Writer) → Outcome (Ring A)
  written src r o = elim o [
    | done (i, w) ↦ done (record r { writer = w; cells = store_all w.num r.cells i src })
    | invalid_argument ↦ invalid_argument
    | system_error ↦ system_error
    | waiting ↦ waiting
  ]

  written-done :
      (src : List A) (r : Ring A) {r' : Ring A} (o : Outcome (ℕ × Writer))
      → written src r o ≡ done r'
      → (i : ℕ) × (w : Writer) × (o ≡ done (i, w))
        × (r' ≡ record r { writer = w; cells = store_all w.num r.cells i src })
  unfolding written
  written-done src r (done (i, w)) e = (i, w, refl, cc)
  written-done src r invalid_argument e = cc
  written-done src r system_error e = cc
  written-done src r waiting e = cc

  write-done :
      (aligned : ℕ → Bool) (me : ℕ) (src : List A) (observed : List Observation) (r : Ring A)
      {r' : Ring A}
      → write aligned me src observed r ≡ done r'
      → (i : ℕ) × (w : Writer) × (prepare_write aligned me (length src) observed r.writer
          ≡ done (i, w))
        × (r' ≡ record r { writer = w; cells = store_all w.num r.cells i src })
  unfolding write written
  write-done aligned me src observed r e =
      written-done src r (prepare_write aligned me (length src) observed r.writer) e

  -- One write, waiting while the reader's octile is guarded, keeps the window.
  write-Window :
      (aligned : ℕ → Bool) (me size trailing seen : ℕ) (src : List A) (observed : List Observation)
      {before r r' : Ring A}
      → 0 < size
      → size < 2 ^ 58
      → trailing ≤ 8 * size
      → seen + 9 * size < 2 ^ 63
      → AllSee (trailing_octile_of (8 * size) trailing seen) observed
      → Window size trailing seen before r
      → write aligned me src observed r ≡ done r'
      → Window size trailing seen before r'
  write-Window aligned me size trailing seen src observed {before} {r} {r'} h k ht hs sees v e =
      let (i, w, q, shape) = write-done aligned me src observed r e in
      let small : r.writer.pending + length src < 2 ^ 63 = ground (
        arith,
        (prepare_write-parts aligned me (length src) observed r.writer q).0,
        v.at.0,
        within_lap size r.writer.pending seen trailing h ht v.behind,
      ) in
      let z = prepare_write-done aligned me (length src) size observed r.writer h k v.at small q in
      let g = trailing_octile_lem size trailing seen h k ht (omega arith) in
      let short =
        stops_short size (length src) r.writer.pending seen trailing h z.small v.behind (λ next.
          z.avoids (trailing_octile_of (8 * size) trailing seen) sees
            (ap (λ t. t / size % 8) z.moved ∙ next ∙ sym g)
          ∙ g) in
      let lap = within_lap size (r.writer.pending + length src) seen trailing h ht short in
      let base : i % (8 * size) ≡ r.writer.pending % (8 * size) =
        rw z.index (mod-mod r.writer.pending (8 * size)) in
      rw shape (record {
        at = z.at;
        ahead = omega (arith, v.ahead, z.moved);
        behind = rw z.moved short;
        same = λ s from to. rw z.at.0 (
            store_all-frame (8 * size) r.cells i r.writer.pending s src base
              (omega (arith, to, v.ahead)) (omega (arith, lap, from))
            ∙ v.same s from to);
      })

  continued : (Ring A → Option (Ring A)) → Outcome (Ring A) → Option (Ring A)
  continued rest o = elim o [
    | done r ↦ rest r
    | invalid_argument ↦ none
    | system_error ↦ none
    | waiting ↦ none
  ]

  continued-some :
      (rest : Ring A → Option (Ring A)) (o : Outcome (Ring A)) {r' : Ring A}
      → continued rest o ≡ some r'
      → (r : Ring A) × (o ≡ done r) × (rest r ≡ some r')
  unfolding continued
  continued-some rest (done r) e = (r, refl, e)
  continued-some rest invalid_argument e = cc
  continued-some rest system_error e = cc
  continued-some rest waiting e = cc

  run-put :
      (aligned : ℕ → Bool) (me : ℕ) (src : List A) (observed : List Observation)
      (rest : List (Action A)) (r : Ring A) {r' : Ring A}
      → run aligned me (put src observed ∷ rest) r ≡ some r'
      → (r1 : Ring A) × (write aligned me src observed r ≡ done r1)
        × (run aligned me rest r1 ≡ some r')
  unfolding run continued
  run-put aligned me src observed rest r e =
      continued-some (run aligned me rest) (write aligned me src observed r) e

  -- Every write of the sequence waited while the octile was guarded.
  abbrev pub AllGuarded : ℕ → List (Action A) → Type 0
  AllGuarded o [] = Unit {0}
  AllGuarded o (put src observed ∷ rest) = AllSee o observed × AllGuarded o rest
  AllGuarded o (publish ∷ rest) = AllGuarded o rest

  run-Window :
      (aligned : ℕ → Bool) (me size trailing seen : ℕ) (actions : List (Action A))
      {before r r' : Ring A}
      → 0 < size
      → size < 2 ^ 58
      → trailing ≤ 8 * size
      → seen + 9 * size < 2 ^ 63
      → AllGuarded (trailing_octile_of (8 * size) trailing seen) actions
      → Window size trailing seen before r
      → run aligned me actions r ≡ some r'
      → Window size trailing seen before r'
  unfolding run done_writing
  run-Window aligned me size trailing seen [] {before} {r} {r'} h k ht hs g v e =
      let same : r ≡ r' = cc in subst (λ x. Window size trailing seen before x) same v
  run-Window aligned me size trailing seen (publish ∷ rest) {r} h k ht hs g v e =
      run-Window aligned me size trailing seen rest h k ht hs g
        (record { at = v.at; ahead = v.ahead; behind = v.behind; same = v.same }) e
  run-Window aligned me size trailing seen (put src observed ∷ rest) {r} {r'} h k ht hs g v e =
      let (r1, q, t) = run-put aligned me src observed rest r e in
      run-Window aligned me size trailing seen rest h k ht hs g.1
        (write-Window aligned me size trailing seen src observed h k ht hs g.0 v q) t

  -- A reader has seen the head `seen` and guards the octile where its trailing window of at most
  -- three quarters of the ring begins; the writer starts at most one octile, what one write can
  -- reserve, past that head. Then whatever the thread writes and publishes, as long as each wait
  -- for an octile finds the guard counted, no element of the window is overwritten.
  pub run-keeps_window :
      (aligned : ℕ → Bool) (me size trailing seen : ℕ) (actions : List (Action A)) (r : Ring A)
      {r' : Ring A}
      → 0 < size
      → size < 2 ^ 58
      → trailing ≤ 6 * size
      → seen + 9 * size < 2 ^ 63
      → AtOctile size r.writer
      → seen ≤ r.writer.pending
      → r.writer.pending ≤ seen + size
      → AllGuarded (trailing_octile_of (8 * size) trailing seen) actions
      → run aligned me actions r ≡ some r'
      → (s : ℕ) → seen ≤ s + trailing
      → s < seen
      → r'.cells (s % (8 * size)) ≡ r.cells (s % (8 * size))
  run-keeps_window aligned me size trailing seen actions r h k ht hs at lo hi g e =
      let start : Window size trailing seen r r = record {
        at = at;
        ahead = lo;
        behind = window_starts size r.writer.pending seen trailing h ht hi;
        same = λ s a b. refl;
      } in
      (run-Window aligned me size trailing seen actions h k (omega arith) hs g start e).same
