-- ===== src/Runner/Registry.antt =====
-- The registration half of runner.go: initializers in order, processes by priority.
use nacelle.Prelude.{
  ℕ, suc, none, some, List, [], ◌∷◌, ◌++◌, Dict, lookup, insert, keys, if◌then◌else◌, ℤ, leb_ℤ,
  string_comparable, nat_comparable, int_comparable,
}
use nacelle.Runner.Meta.{
  InitializerMeta, ProcessMeta, InitializerConfigFunc, ProcessConfigFunc, configure,
  new_initializer_meta, new_process_meta,
}

-- The channels `done` and `halt` and the `once` of the struct are part of the watch (Runner/Watch).
pub record ProcessRunner : Type 0 where
  pub initializers : List InitializerMeta
  pub processes : Dict ℤ (List ProcessMeta)
  pub num_processes : ℕ

unfoldable pub new_process_runner : ProcessRunner
new_process_runner = record { initializers = []; processes = []; num_processes = 0 }

unfoldable pub register_initializer : ProcessRunner → ℕ → List InitializerConfigFunc → ProcessRunner
register_initializer pr i configs = record pr {
  initializers = pr.initializers ++ configure configs (new_initializer_meta i) ∷ [];
}

-- `pr.processes[priority]`, which is empty for a priority without processes.
unfoldable pub processes_at : Dict ℤ (List ProcessMeta) → ℤ → List ProcessMeta
processes_at m p = elim (lookup p m) [ none ↦ [] | some ms ↦ ms ]

-- `RegisterProcess` makes the entry of the priority if there is none, and then appends to it.
unfoldable pub ensure_priority : ℤ → Dict ℤ (List ProcessMeta) → Dict ℤ (List ProcessMeta)
ensure_priority p m = elim (lookup p m) [ none ↦ insert p [] m | some _ ↦ m ]

unfoldable pub append_process : ProcessMeta → Dict ℤ (List ProcessMeta) → Dict ℤ (List ProcessMeta)
unfolding ensure_priority processes_at
append_process meta m =
    let m' = ensure_priority meta.priority m in
    insert meta.priority (processes_at m' meta.priority ++ meta ∷ []) m'

unfoldable pub register_process : ProcessRunner → ℕ → List ProcessConfigFunc → ProcessRunner
unfolding append_process
register_process pr p configs =
    let meta = configure configs (new_process_meta p) in
    record pr { num_processes = suc pr.num_processes; processes = append_process meta pr.processes }

-- `sort.Ints`.
unfoldable pub insert_sorted : ℤ → List ℤ → List ℤ
insert_sorted p [] = p ∷ []
insert_sorted p (q ∷ qs) = if leb_ℤ p q then p ∷ q ∷ qs else q ∷ insert_sorted p qs

unfoldable pub sort : List ℤ → List ℤ
unfolding insert_sorted
sort [] = []
sort (p ∷ ps) = insert_sorted p (sort ps)

unfoldable pub get_priorities : ProcessRunner → List ℤ
unfolding sort
get_priorities pr = sort (keys pr.processes)
