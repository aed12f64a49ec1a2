-- ===== src/Coordinator/Waiting.antt =====
-- Waiting for a name, and the publication that ends the wait.
use sintra.Base.{
  ℕ, ◌≡◌, ◌≢◌, refl, ap, ◌∙◌, Bool, true, false, ◌&&◌, ◌||◌, ◌==◌, Option, none, some, List, [],
  ◌∷◌, mem, arith, if◌then◌else◌, ==_refl,
}
use sintra.Base.Maps.{get, put, or_else, get-remove_same, get-put_same}
use sintra.Ids.{process_of}
use sintra.Barrier.{insert}
use sintra.Coordinator.{
  Coordinator, ReaderIdentity, Publication, Waited, resolve_instance, set_draining_state,
  set_collective_shutdown_state,
}
use sintra.Coordinator.Publish.{
  Published, refused, published, WaitAnswer, deferred_until, no_waiters, wait_for_instance,
  may_publish, true_sequence, publish_transceiver, enter, start_occurrence,
}
use sintra.Barrier.Completion.{mem-insert}
use sintra.Coordinator.Consistency.Runs.{enter-tables}

-- Several calls of `wait_for_instance` for one name: the callers, each with the id that
-- `make_instance_id` would give it.
unfoldable pub wait_in_turn : ℕ → List (ℕ × ℕ) → Coordinator → List WaitAnswer × Coordinator
unfolding wait_for_instance
wait_in_turn name [] c = ([], c)
wait_in_turn name ((caller, fresh) ∷ rest) c =
    let first = wait_for_instance caller fresh name c in
    let others = wait_in_turn name rest first.1 in (first.0 ∷ others.0, others.1)

abbrev pub callers : List (ℕ × ℕ) → List ℕ
callers [] = []
callers ((caller, fresh) ∷ rest) = caller ∷ callers rest

abbrev pub all_deferred : ℕ → List WaitAnswer → Bool
all_deferred common [] = true
all_deferred common (deferred_until x ∷ rest) = x == common && all_deferred common rest
all_deferred common (_ ∷ rest) = false

-- The reply of a publication and those that it goes to.
abbrev pub replied_to : Published → Option (ℕ × List ℕ × ℕ)
replied_to refused = none
replied_to (published iid piids common emitted) = some (iid, piids, common)

abbrev waiting_for : ℕ → Coordinator → Waited
waiting_for name c = or_else (get c.instances_waited name) no_waiters

-- A wait for a name that nobody has.
wait-state :
    (caller fresh name : ℕ) (c : Coordinator)
    → resolve_instance name c ≡ 0
    → wait_for_instance caller fresh name c ≡ (
      deferred_until (
          if (waiting_for name c).common_function_iid == 0
          then fresh
          else (waiting_for name c).common_function_iid),
      record c {
        instances_waited = put c.instances_waited name (record {
          waiters = insert caller (waiting_for name c).waiters;
          common_function_iid =
              if (waiting_for name c).common_function_iid == 0
              then fresh
              else (waiting_for name c).common_function_iid;
        });
      },
    )
unfolding wait_for_instance
wait-state caller fresh name c e = rw (e, wait_for_instance) refl

-- The state of a wait: nobody has the name, and those who wait for it share an id.
record Waits (name common : ℕ) (c : Coordinator) : Type 0 where
  free : resolve_instance name c ≡ 0
  shared : (waiting_for name c).common_function_iid ≡ common
  nonzero : common ≢ 0

record AfterWaits (name common : ℕ) (calls : List (ℕ × ℕ)) (c : Coordinator)
    (answers : List WaitAnswer) (after : Coordinator) : Type 0 where
  still : Waits name common after
  deferred : all_deferred common answers ≡ true
  waiting :
      (x : ℕ)
      → mem x (waiting_for name after).waiters
        ≡ (mem x (callers calls) || mem x (waiting_for name c).waiters)
  others : after ≡ record c { instances_waited = after.instances_waited }

wait-Waits :
    (caller fresh name common : ℕ) (c : Coordinator)
    → resolve_instance name c ≡ 0
    → (if (waiting_for name c).common_function_iid == 0
        then fresh
        else (waiting_for name c).common_function_iid)
      ≡ common
    → common ≢ 0
    → AfterWaits name common
        ((caller, fresh) ∷ [])
        c
        ((wait_for_instance caller fresh name c).0 ∷ [])
        (wait_for_instance caller fresh name c).1
unfolding wait_for_instance resolve_instance
wait-Waits caller fresh name common c e k v =
    rw (wait-state caller fresh name c e, k)
      record {
        still = record {
          free = e;
          shared = ground (arith, get-put_same c.instances_waited name);
          nonzero = v;
        };
        deferred = ground (arith, ==_refl common);
        waiting = λ x. ground (arith, mem-insert caller x (waiting_for name c).waiters);
        others = refl;
      }

wait_in_turn-Waits :
    (calls : List (ℕ × ℕ)) (name common : ℕ) (c : Coordinator)
    → Waits name common c
    → AfterWaits name common calls c (wait_in_turn name calls c).0 (wait_in_turn name calls c).1
unfolding wait_in_turn
wait_in_turn-Waits [] name common c h = record {
  still = h;
  deferred = refl;
  waiting = λ x. refl;
  others = refl;
}
wait_in_turn-Waits ((caller, fresh) ∷ rest) name common c h =
    let first =
      wait-Waits caller fresh name common c h.free (ground (arith, h.shared, h.nonzero))
        h.nonzero in
    let more =
      wait_in_turn-Waits rest name common (wait_for_instance caller fresh name c).1 first.still in
    record {
      still = more.still;
      deferred = ground (arith, first.deferred, more.deferred);
      waiting = λ x. ground (arith, more.waiting x, first.waiting x);
      others =
          more.others
          ∙ ap {A = Coordinator} {B = Coordinator}
              (λ s. record (s) {
                instances_waited =
                    (wait_in_turn name rest
                      (wait_for_instance caller fresh name c).1).1.instances_waited;
              })
              first.others;
    }

start_occurrence-waited :
    (r : Option (List (ℕ × Publication))) (process : ℕ) (c : Coordinator)
    → (start_occurrence r process c).instances_waited ≡ c.instances_waited
unfolding start_occurrence set_draining_state set_collective_shutdown_state
start_occurrence-waited none process c = refl
start_occurrence-waited (some r) process c = refl

enter-waited :
    (e : Publication) (iid : ℕ) (c : Coordinator)
    → (enter e iid c).instances_waited ≡ c.instances_waited
unfolding enter
enter-waited e iid c =
    start_occurrence-waited (get c.transceiver_registry (process_of iid)) (process_of iid) _

-- What a publication that is not refused does.
pub publish_transceiver-published :
    (tid iid name : ℕ) (identity : ReaderIdentity) (c : Coordinator)
    → may_publish iid name identity c ≡ true
    → (replied_to (publish_transceiver tid iid name identity c).0
        ≡ some (iid, (waiting_for name c).waiters, (waiting_for name c).common_function_iid))
      × (resolve_instance name (publish_transceiver tid iid name identity c).1 ≡ iid)
      × (get (publish_transceiver tid iid name identity c).1.instances_waited name ≡ none)
unfolding publish_transceiver true_sequence resolve_instance
publish_transceiver-published tid iid name identity c m =
    rw (publish_transceiver, m)
      (
        ap
            (λ w. some (
              iid,
              (or_else (get w name) no_waiters).waiters,
              (or_else (get w name) no_waiters).common_function_iid,
            ))
            (enter-waited entry iid c),
        ap (λ names. or_else (get names name) 0) (enter-tables entry iid c).0
            ∙ ap (λ o. or_else o 0) (get-put_same c.instance_id_of_assigned_name name iid),
        get-remove_same (enter entry iid c).instances_waited name,
      )
  where
    entry : Publication
    entry = record { type_id = tid; name = name; reader_identity = identity }

waits-may_publish :
    (iid name common : ℕ) (identity : ReaderIdentity) (calls : List (ℕ × ℕ)) (c : Coordinator)
    (answers : List WaitAnswer) (after : Coordinator)
    → AfterWaits name common calls c answers after
    → may_publish iid name identity after ≡ may_publish iid name identity c
unfolding may_publish resolve_instance
waits-may_publish iid name common identity calls c answers after h =
    ap (may_publish iid name identity) h.others

-- Processes wait for a name that nobody has and nobody waits for, each in its turn, and then an
-- instance is published under the name, which the coordinator does not refuse. All of them were
-- deferred under one id, the reply of the publication carries that id, it goes to exactly the
-- processes that waited, the name resolves to the instance, and nobody waits for it any longer.
pub publish_transceiver-answers_waits :
    (tid iid name caller fresh : ℕ) (identity : ReaderIdentity) (calls : List (ℕ × ℕ))
    (c : Coordinator)
    → get c.instances_waited name ≡ none
    → fresh ≢ 0
    → may_publish iid name identity c ≡ true
    → let waits = wait_in_turn name ((caller, fresh) ∷ calls) c in
      let publication = publish_transceiver tid iid name identity waits.1 in
      (answered : List ℕ) × (replied_to publication.0 ≡ some (iid, answered, fresh))
      × ((x : ℕ) → mem x answered ≡ mem x (callers ((caller, fresh) ∷ calls)))
      × (all_deferred fresh waits.0 ≡ true)
      × (resolve_instance name publication.1 ≡ iid)
      × (get publication.1.instances_waited name ≡ none)
unfolding wait_in_turn may_publish
publish_transceiver-answers_waits tid iid name caller fresh identity calls c nobody v m =
    let first =
      wait-Waits caller fresh name fresh c (ground (arith, m)) (ground (arith, nobody)) v in
    let more =
      wait_in_turn-Waits calls name fresh (wait_for_instance caller fresh name c).1 first.still in
    let p =
      publish_transceiver-published tid iid name identity
        (wait_in_turn name ((caller, fresh) ∷ calls) c).1
        (waits-may_publish iid name fresh identity calls (wait_for_instance caller fresh name c).1 _
            _ more
          ∙ waits-may_publish iid name fresh identity ((caller, fresh) ∷ []) c _ _ first
          ∙ m) in
    (
      (waiting_for name (wait_in_turn name ((caller, fresh) ∷ calls) c).1).waiters,
      p.0
          ∙ ap
              (λ f. some (
                iid,
                (waiting_for name (wait_in_turn name ((caller, fresh) ∷ calls) c).1).waiters,
                f,
              ))
              more.still.shared,
      λ x. ground (arith, more.waiting x, first.waiting x, nobody),
      ground (arith, first.deferred, more.deferred),
      p.1,
      p.2,
    )
