-- ===== src/Tests/Mutex.antt =====
-- One thread in each process: thread 0 takes the mutex, its process exits, and thread 1 takes it.
use sintra.Base.{ℕ, ◌+◌, ◌≤◌, ◌≡◌, inr, refl, arith}
use sintra.Mutex.{
  Words, Pc, publishing, checked, stamped, tupled, owning, critical, running, exited, Mutex,
  owner_pid, instance_of, token_of, make_owner_token, enter_publication, find_unowned, store_stamp,
  store_instance, publish, Reach, here, next, move, start, set_pc, set_phase, unused,
}
use sintra.Mutex.Invariant.{Identities}
use sintra.Mutex.Exclusion.{excludes_live, owner_keeps}
use sintra.Mutex.Recovery.{Alone, abandoned_taken}

abbrev pid_of : ℕ → ℕ
pid_of p = p + 1

abbrev nonce_of : ℕ → ℕ
nonce_of p = 7

abbrev self : ℕ → ℕ
self t = t

ids : Identities pid_of nonce_of pid_of self self
unfolding instance_of
ids = record {
  instances = λ p q h. omega (arith, h);
  pids = λ p h. omega (arith, h);
  tids = λ t u h k. h;
}

abbrev inst : ℕ → ℕ
inst p = instance_of pid_of nonce_of pid_of self self p

abbrev after : Mutex → Words → Pc → Mutex
after m w p = record m { words = w; pc = set_pc m.pc 0 p }

abbrev started : Mutex
started = record unused { phase = set_phase unused.phase 0 running }

abbrev gated : Words
gated = record (unused.words) { recovering = inst 0 }

abbrev with_stamp : Words
with_stamp = record gated { owner_start_stamp = 1 }

abbrev with_instance : Words
with_instance = record with_stamp { owner_instance = inst 0 }

abbrev owned : Words
owned = record with_instance { owner = token_of pid_of nonce_of pid_of self self 0 }

abbrev held : Mutex
held =
    after
      (after (after (after (after started gated publishing) gated checked) with_stamp stamped)
        with_instance tupled)
      owned owning

held-Reach : Reach pid_of nonce_of pid_of self self unused held
held-Reach =
    next
      (next
        (next
          (next
            (next (next here (start 0 refl (λ q h. absurd (ground (arith, h)))))
              (move 0 refl (enter_publication refl)))
            (move 0 refl (find_unowned refl)))
          (move 0 refl (store_stamp 1 (inr refl))))
        (move 0 refl store_instance))
      (move 0 refl (publish refl))

excludes_live_example : ◌≡◌ {A = ℕ} 0 0
excludes_live_example =
    excludes_live pid_of nonce_of pid_of self self ids held 0 0 held-Reach refl refl refl refl

owner_keeps_example :
    (held.words.owner ≡ token_of pid_of nonce_of pid_of self self 0)
    × (held.words.owner_instance ≡ instance_of pid_of nonce_of pid_of self self 0)
owner_keeps_example = owner_keeps pid_of nonce_of pid_of self self ids held 0 held-Reach refl refl

-- Process 0 has exited with the mutex and the gate, and process 1 runs.
abbrev abandoned : Mutex
abandoned = record {
  words = owned;
  phase = set_phase (set_phase unused.phase 0 exited) 1 running;
  pc = set_pc unused.pc 0 owning;
}

abandoned_taken_example :
    (k : ℕ) × (final : Mutex) × (k ≤ 11)
    × Alone pid_of nonce_of pid_of self self 1 abandoned k final
    × (final.pc 1 ≡ critical)
    × (final.phase ≡ abandoned.phase)
    × (final.words ≡ record {
      owner = token_of pid_of nonce_of pid_of self self 1;
      owner_start_stamp = 0;
      owner_instance = instance_of pid_of nonce_of pid_of self self 1;
      recovering = 0;
    })
unfolding token_of make_owner_token instance_of owner_pid
abandoned_taken_example =
    abandoned_taken pid_of nonce_of pid_of self self abandoned 1 refl refl
      (inr (λ q h. ground (arith, h))) (omega arith) (λ q h. ground (arith, h))
