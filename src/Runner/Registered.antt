-- ===== src/Runner/Registered.antt =====
-- The invariant of a runner under registration: the map has one entry for a priority, and
-- `numProcesses` counts the processes in it.
use nacelle.Prelude.{
  ℕ, suc, ◌+◌, ◌≡◌, refl, sym, ◌∙◌, false, Option, none, some, List, [], ◌∷◌, ◌++◌, arith, Dict,
  has_key, lookup, insert, keys, length, length-append, ℤ, eqb_ℤ_iff, string_comparable,
  nat_comparable, int_comparable, ==_refl,
}
use nacelle.Runner.Meta.{ProcessMeta, ProcessConfigFunc, configure, new_process_meta}
use nacelle.Runner.Registry.{
  ProcessRunner, new_process_runner, register_process, processes_at, ensure_priority,
  append_process, insert_sorted, sort, get_priorities,
}
use nacelle.Runner.Count.{count_at}
use nacelle.Runner.Priorities.{register_processes}
use nacelle.Runner.Sorting.{
  IsDistinct, IsAscending, insert-IsDistinct, sort-IsAscending, has_key-sort,
}

abbrev size : Dict ℤ (List ProcessMeta) → ℕ
size [] = 0
size ((p, ms) ∷ m) = length ms + size m

size-insert :
    (p : ℤ) (ms : List ProcessMeta) (m : Dict ℤ (List ProcessMeta))
    → size (insert p ms m) + length (processes_at m p) ≡ size m + length ms
unfolding processes_at insert lookup
size-insert p ms [] = omega arith
size-insert p ms ((q, ns) ∷ m) = ground (arith, size-insert p ms m)

size-ensure_priority : (p : ℤ) (m : Dict ℤ (List ProcessMeta)) → size (ensure_priority p m) ≡ size m
unfolding ensure_priority processes_at
size-ensure_priority p m = ground (arith, size-insert p [] m)

size-append_process :
    (meta : ProcessMeta) (m : Dict ℤ (List ProcessMeta))
    → size (append_process meta m) ≡ suc (size m)
unfolding append_process
size-append_process meta m =
    let m' = ensure_priority meta.priority m in
    let before = processes_at m' meta.priority in
    omega (
      arith,
      size-insert meta.priority (before ++ meta ∷ []) m',
      size-ensure_priority meta.priority m,
      length-append {0} before (meta ∷ []),
    )

append_process-IsDistinct :
    (meta : ProcessMeta) (m : Dict ℤ (List ProcessMeta))
    → IsDistinct (keys m)
    → IsDistinct (keys (append_process meta m))
unfolding append_process
append_process-IsDistinct meta m d =
    insert-IsDistinct meta.priority _ (ensure_priority meta.priority m)
      (ensured (lookup meta.priority m) refl)
  where
    ensured :
        (o : Option (List ProcessMeta))
        → lookup meta.priority m ≡ o
        → IsDistinct (keys (ensure_priority meta.priority m))
    ensured none e =
        unfold ensure_priority in rw (e, ensure_priority) (insert-IsDistinct meta.priority [] m d)
    ensured (some ms) e = unfold ensure_priority in rw (e, ensure_priority) d

count_at-cons :
    (p : ℤ) (ms : List ProcessMeta) (m : Dict ℤ (List ProcessMeta)) (ps : List ℤ)
    → has_key p ps ≡ false
    → count_at ((p, ms) ∷ m) ps ≡ count_at m ps
unfolding processes_at lookup
count_at-cons p ms m [] h = refl
count_at-cons p ms m (q ∷ qs) h =
    ground (arith, count_at-cons p ms m qs, eqb_ℤ_iff p q, eqb_ℤ_iff q p)

count_at-keys : (m : Dict ℤ (List ProcessMeta)) → IsDistinct (keys m) → count_at m (keys m) ≡ size m
unfolding keys processes_at lookup
count_at-keys [] d = refl
count_at-keys ((p, ms) ∷ m) d =
    ground (arith, count_at-cons p ms m (keys m) d.0, count_at-keys m d.1, ==_refl p)

count_at-insert_sorted :
    (m : Dict ℤ (List ProcessMeta)) (p : ℤ) (ps : List ℤ)
    → count_at m (insert_sorted p ps) ≡ length (processes_at m p) + count_at m ps
unfolding insert_sorted
count_at-insert_sorted m p [] = refl
count_at-insert_sorted m p (q ∷ qs) = ground (arith, count_at-insert_sorted m p qs)

count_at-sort : (m : Dict ℤ (List ProcessMeta)) (ps : List ℤ) → count_at m (sort ps) ≡ count_at m ps
unfolding sort
count_at-sort m [] = refl
count_at-sort m (p ∷ ps) = omega (arith, count_at-insert_sorted m p (sort ps), count_at-sort m ps)

pub record IsRegistered (pr : ProcessRunner) : Type 0 where
  pub distinct : IsDistinct (keys pr.processes)
  pub counted : pr.num_processes ≡ size pr.processes

new_process_runner-IsRegistered : IsRegistered new_process_runner
unfolding new_process_runner keys
new_process_runner-IsRegistered = record { distinct = tt; counted = refl }

pub register_process-IsRegistered :
    (pr : ProcessRunner) (p : ℕ) (configs : List ProcessConfigFunc)
    → IsRegistered pr
    → IsRegistered (register_process pr p configs)
unfolding register_process
register_process-IsRegistered pr p configs v =
    let meta = configure configs (new_process_meta p) in
    record {
      distinct = append_process-IsDistinct meta pr.processes v.distinct;
      counted = omega (arith, size-append_process meta pr.processes, v.counted);
    }

pub register_processes-IsRegistered :
    (calls : List (ℕ × List ProcessConfigFunc))
    → IsRegistered (register_processes new_process_runner calls)
register_processes-IsRegistered calls =
    all_calls calls new_process_runner new_process_runner-IsRegistered
  where
    all_calls :
        (cs : List (ℕ × List ProcessConfigFunc)) (pr : ProcessRunner)
        → IsRegistered pr
        → IsRegistered (register_processes pr cs)
    all_calls [] pr v = v
    all_calls ((p, configs) ∷ cs) pr v =
        all_calls cs (register_process pr p configs) (register_process-IsRegistered pr p configs v)

-- In a runner that only registration has changed, `getPriorities` lists each priority in use once,
-- in ascending order, and the processes at these priorities are `numProcesses` many.
pub get_priorities_lem :
    (pr : ProcessRunner)
    → IsRegistered pr
    → IsAscending (get_priorities pr)
      × ((p : ℤ) → has_key p (get_priorities pr) ≡ has_key p (keys pr.processes))
      × (count_at pr.processes (get_priorities pr) ≡ pr.num_processes)
unfolding get_priorities
get_priorities_lem pr v = (
  sort-IsAscending (keys pr.processes) v.distinct,
  (λ p. has_key-sort p (keys pr.processes)),
  count_at-sort pr.processes (keys pr.processes)
      ∙ count_at-keys pr.processes v.distinct
      ∙ sym v.counted,
)
