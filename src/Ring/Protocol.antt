-- ===== src/Ring/Protocol.antt =====
-- The readers and the writer of one ring as interleaved atomic steps on the shared words: the
-- guard transactions of `acquire_guard`, `release_guard` and `done_reading`, the copy of
-- `with_copying_mark`, and the writer's requests and evictions in
-- `advance_writer_octile_if_needed` (include/sintra/detail/ipc/rings.h). The spinlock that keeps
-- `done_reading` and an eviction apart is left out, which allows more interleavings. A reader that
-- is admitted finds a slot without a guard, and one that retires has none; not steps here are the
-- teardown of a slot with a guard and the recovery of counts that no guard explains.
pub mod Invariant
pub mod Steps
pub mod Reachable
use sintra.Base.{ℕ, ◌+◌, ◌<◌, ◌≡◌, Bool, true, false, ◌==◌, Option, none, some, if◌then◌else◌}
use sintra.Ring.State.{
  ReaderState, active, inactive, set_status, drop_marks, drop_pending, drop_request, raise_request,
}
use sintra.Ring.Control.{initial_state}
use sintra.Ring.Access.{count, add_count, sub_count}
use sintra.Ring.Transitions.{
  guard_of, begin_acquire, attach_guard, begin_release, begin_done, admit_copy, copied,
  mark_copying, evict,
}

-- Where a reader stands between its atomic operations.
pub data ReaderPc : Type 0 where
  idle : ReaderPc
  pended : (octile : ℕ) (previous : Option ℕ) → ReaderPc  -- before `read_access.fetch_add`
  counted : (octile : ℕ) (previous : Option ℕ) → ReaderPc  -- before the guard is published
  releasing : (octile : ℕ) (last : Bool) → ReaderPc  -- before the count is given back
  clearing : (last : Bool) → ReaderPc  -- before `clear_pending`
  finishing : ReaderPc  -- before `done_reading` drops a request
  copying : ReaderPc  -- inside the copy

pub data WriterPc : Type 0 where
  free : WriterPc
  evicting : (octile : ℕ) (i : ℕ) → WriterPc  -- before the evicted reader's count is given back
  answered : (i : ℕ) → WriterPc  -- before the request is dropped

-- `release_read_access_count`: a counter that is 0 stays.
abbrev pub give_back : ℕ → ℕ → ℕ
give_back access octile = if count access octile == 0 then access else sub_count access octile

-- After the publication, a guard held before has to be given back.
abbrev pub after_attach : Option ℕ → ReaderPc
after_attach none = idle
after_attach (some previous) = releasing previous false

abbrev pub after_clear : Bool → ReaderPc
after_clear true = finishing
after_clear false = idle

-- One atomic operation of a reader: the counter word, its own state word and its place.
pub data Move (a : ℕ) (s : ReaderState) : ReaderPc → ℕ → ReaderState → ReaderPc → Type 0 where
  pend :
      (allow_evicted : Bool) (octile : ℕ) {t : ReaderState}
      → octile < 8
      → begin_acquire allow_evicted octile s ≡ some t
      → Move a s idle a t (pended octile (guard_of s))
  take_count :
      {octile : ℕ} {previous : Option ℕ}
      → Move a s (pended octile previous) (add_count a octile) s (counted octile previous)
  attach :
      {octile : ℕ} {previous : Option ℕ}
      → Move a s
          (counted octile previous)
          a
          (attach_guard previous octile s)
          (after_attach previous)
  release :
      {t : ReaderState} → begin_release s ≡ some t → Move a s idle a t (releasing s.octile false)
  finish : {t : ReaderState} → begin_done s ≡ some t → Move a s idle a t (releasing s.octile true)
  finish_unguarded : begin_done s ≡ none → Move a s idle a s (clearing true)
  give :
      {octile : ℕ} {last : Bool}
      → Move a s (releasing octile last) (give_back a octile) s (clearing last)
  clear : {last : Bool} → Move a s (clearing last) a (drop_pending s) (after_clear last)
  drop : Move a s finishing a (drop_request s) idle
  copy_enter : admit_copy true s ≡ copied → Move a s idle a (mark_copying s true) copying
  copy_exit : Move a s copying a (mark_copying s false) idle
  admit : s.status ≡ inactive → Move a s idle a (set_status (drop_marks s) active) idle
  retire : s.present ≡ false → Move a s idle a (set_status (drop_marks s) inactive) idle

pub record System : Type 0 where
  pub access : ℕ
  pub state : ℕ → ReaderState
  pub pc : ℕ → ReaderPc
  pub writer : WriterPc

abbrev pub update {ℓ} : {A : Type ℓ} → (ℕ → A) → ℕ → A → ℕ → A
update f i a j = if i == j then a else f j

-- One step of the ring with `n` reader slots.
pub data Step (n : ℕ) (s : System) : System → Type 0 where
  reader :
      (i : ℕ) {a : ℕ} {t : ReaderState} {p : ReaderPc}
      → i < n
      → Move s.access (s.state i) (s.pc i) a t p
      → Step n s (record s { access = a; state = update s.state i t; pc = update s.pc i p })
  request :
      (i : ℕ) → i < n → Step n s (record s { state = update s.state i (raise_request (s.state i)) })
  cancel :
      (i : ℕ) → i < n → Step n s (record s { state = update s.state i (drop_request (s.state i)) })
  evict_reader :
      (i threshold new_octile v : ℕ) {t : ReaderState}
      → i < n
      → s.writer ≡ free
      → evict threshold new_octile v (s.state i) ≡ some t
      → Step n s (record s { state = update s.state i t; writer = evicting (s.state i).octile i })
  give_evicted :
      {octile i : ℕ}
      → s.writer ≡ evicting octile i
      → Step n s (record s { access = give_back s.access octile; writer = answered i })
  answer :
      {i : ℕ}
      → i < n
      → s.writer ≡ answered i
      → Step n s (record s { state = update s.state i (drop_request (s.state i)); writer = free })

pub data Reach (n : ℕ) (s : System) : System → Type 0 where
  here : Reach n s s
  next : {t u : System} → Reach n s t → Step n t u → Reach n s u

-- The ring before its first reader.
abbrev pub initial : System
initial = record { access = 0; state = λ i. initial_state; pc = λ i. idle; writer = free }
