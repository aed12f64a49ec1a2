-- ===== src/Ring/State/Codec.antt =====
-- The state word and its decoded form agree: every operation on the word is, on the fields, the
-- operation of the record.
use sintra.Base.{ℕ, ◌^◌, ◌<◌, ◌≡◌, Bool, true, false, arith}
use sintra.Ring.State.{
  ReaderState, set_status, set_guard, set_pending, drop_pending, drop_request, drop_marks,
  raise_request, transition_allowed,
}
use sintra.Ring.State.Word
use sintra.Ring.State.Word.{k_no_pending_octile}
use sintra.Ring.Transitions.{mark_copying}

-- The record that a word stands for.
unfoldable pub decode : ℕ → ReaderState
unfolding Word.guard_octile Word.guard_present Word.copying Word.request_pending Word.status
    Word.pending_octile
decode w = record {
  octile = Word.guard_octile w;
  present = Word.guard_present w;
  copying = Word.copying w;
  request = Word.request_pending w;
  status = Word.status w;
  pending = Word.pending_octile w;
}

-- The fields that are bytes hold bytes.
pub record Fits (s : ReaderState) : Type 0 where
  pub octile_byte : s.octile < 0x100
  pub status_byte : s.status < 0x100
  pub pending_byte : s.pending < 0x100

pub decode-Fits : (w : ℕ) → Fits (decode w)
unfolding decode
decode-Fits w = omega arith

pub decode-with_status :
    (w v : ℕ) → w < 2 ^ 32 → v < 0x100 → decode (Word.with_status w v) ≡ set_status (decode w) v
unfolding decode Word.with_status
decode-with_status w v h hv = ground arith

pub decode-with_guard :
    (w o : ℕ) (g : Bool)
    → w < 2 ^ 32
    → o < 0x100
    → decode (Word.with_guard w o g) ≡ set_guard (decode w) o g
unfolding decode Word.with_guard
decode-with_guard w o g h ho = ground arith

pub decode-with_pending :
    (w o : ℕ) → w < 2 ^ 32 → o < 0x100 → decode (Word.with_pending w o) ≡ set_pending (decode w) o
unfolding decode Word.with_pending
decode-with_pending w o h ho = ground arith

pub decode-clear_pending :
    (w : ℕ) → w < 2 ^ 32 → decode (Word.clear_pending w) ≡ drop_pending (decode w)
unfolding Word.clear_pending
decode-clear_pending w h = decode-with_pending w k_no_pending_octile h (omega arith)

pub decode-clear_request :
    (w : ℕ) → w < 2 ^ 32 → decode (Word.clear_request w) ≡ drop_request (decode w)
unfolding decode Word.clear_request
decode-clear_request w h = ground arith

pub decode-clear_marks : (w : ℕ) → w < 2 ^ 32 → decode (Word.clear_marks w) ≡ drop_marks (decode w)
unfolding decode Word.clear_marks
decode-clear_marks w h = ground arith

pub decode-set_request :
    (w : ℕ) → w < 2 ^ 32 → decode (Word.set_request w) ≡ raise_request (decode w)
unfolding decode Word.set_request
decode-set_request w h = ground arith

decode-set_copying :
    (w : ℕ) → w < 2 ^ 32 → decode (Word.set_copying w) ≡ mark_copying (decode w) true
unfolding decode Word.set_copying
decode-set_copying w h = ground arith

decode-clear_copying :
    (w : ℕ) → w < 2 ^ 32 → decode (Word.clear_copying w) ≡ mark_copying (decode w) false
unfolding decode Word.clear_copying
decode-clear_copying w h = ground arith

-- A word that is made has the given fields and no mark.
decode-make_word :
    (v o : ℕ) (g : Bool) (p : ℕ)
    → v < 0x100
    → o < 0x100
    → p < 0x100
    → decode (Word.make_word v o g p) ≡ record {
      octile = o;
      present = g;
      copying = false;
      request = false;
      status = v;
      pending = p;
    }
unfolding decode Word.make_word
decode-make_word v o g p hv ho hp = ground arith

-- For a 32-bit word and arguments that are bytes: a word that is made has the fields that it was made
-- of; each update of the word (of the status, the guard, the pending octile, the request, the
-- copying mark, and of both marks) is on the decoded fields the operation of the record; and
-- `guard_transition_allowed` answers the same.
pub word_refines :
    (w v o p : ℕ) (g : Bool)
    → w < 2 ^ 32
    → v < 0x100
    → o < 0x100
    → p < 0x100
    → (decode (Word.make_word v o g p) ≡ record {
      octile = o;
      present = g;
      copying = false;
      request = false;
      status = v;
      pending = p;
    })
      × (decode (Word.with_status w v) ≡ set_status (decode w) v)
      × (decode (Word.with_guard w o g) ≡ set_guard (decode w) o g)
      × (decode (Word.with_pending w p) ≡ set_pending (decode w) p)
      × (decode (Word.clear_pending w) ≡ drop_pending (decode w))
      × (decode (Word.clear_request w) ≡ drop_request (decode w))
      × (decode (Word.clear_marks w) ≡ drop_marks (decode w))
      × (decode (Word.set_request w) ≡ raise_request (decode w))
      × (decode (Word.set_copying w) ≡ mark_copying (decode w) true)
      × (decode (Word.clear_copying w) ≡ mark_copying (decode w) false)
      × (Word.guard_transition_allowed w ≡ transition_allowed (decode w))
unfolding decode Word.guard_transition_allowed Word.guard_pending
word_refines w v o p g h hv ho hp = (
  decode-make_word v o g p hv ho hp,
  decode-with_status w v h hv,
  decode-with_guard w o g h ho,
  decode-with_pending w p h hp,
  decode-clear_pending w h,
  decode-clear_request w h,
  decode-clear_marks w h,
  decode-set_request w h,
  decode-set_copying w h,
  decode-clear_copying w h,
  ground arith,
)
