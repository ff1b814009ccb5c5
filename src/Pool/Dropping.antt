-- ===== src/Pool/Dropping.antt =====
-- `local_memcache_drop_namespace` with `force`: the file and the two locks of a pool.
use localmemcache.Base.{
  ℕ, ◌≡◌, refl, ap, ◌∙◌, inl, inr, none, some, Option, Option-cases, Bool-cases, true, false, List,
}
use localmemcache.Cmd.Ends
use localmemcache.Cmd.Ends.{Ends, ends}
use localmemcache.Common.{lmc_clean_string}
use localmemcache.Lock.{
  same_name, same_name_refl, same_name→eq, lmc_namespacify, lmc_lock_init, lmc_lock_repair-one,
  timed_out,
}
use localmemcache.Pool.{lmc_checkize, lmc_namespace_or_filename}
use localmemcache.Pool.Crashed.{check_lock}
use localmemcache.Pool.Recovery.{local_memcache_drop_namespace, repair_lock}
use localmemcache.Shm.{
  lmc_clean_namespace, lmc_shm_ensure_root_path, lmc_does_namespace_exist, lmc_does_file_exist,
  lmc_file_path_for_namespace, lmc_namespace_root_path,
}
use localmemcache.System.{World, Env, directory, open_lock, on_sem}

-- The semaphore `name` has value 1, and everything else is as it was.
record Freed (name : List ℕ) (w w' : World) : Type 0 where
  freed : w'.sems name ≡ some 1
  others : (n : List ℕ) → same_name n name ≡ false → w'.sems n ≡ w.sems n
  paths : w'.paths ≡ w.paths
  contents : w'.contents ≡ w.contents

lock_repaired :
    (ns : List ℕ) (w : World) → Ends (λ _ w'. Freed (lmc_namespacify ns) w w') (repair_lock ns w)
unfolding repair_lock open_lock lmc_lock_init on_sem
lock_repaired ns w =
    let name = lmc_namespacify ns in
    elim (Option-cases (w.sems name)) [
      | inl missing ↦
          rw (missing, same_name_refl name, (lmc_lock_repair-one timed_out 1).0)
            (ends (record {
              freed = rw (same_name_refl name) refl;
              others = λ n ne. rw ne refl;
              paths = refl;
              contents = refl;
            }))
      | inr (v, there) ↦
          rw (there, there, (lmc_lock_repair-one timed_out v).0)
            (ends (record {
              freed = rw (same_name_refl name) refl;
              others = λ n ne. rw ne refl;
              paths = refl;
              contents = refl;
            }))
    ]

-- The path `fn` leads nowhere, and everything else is as it was.
record Unlinked (fn : List ℕ) (w w' : World) : Type 0 where
  gone : w'.paths fn ≡ none
  others : (p : List ℕ) → same_name p fn ≡ false → w'.paths p ≡ w.paths p
  contents : w'.contents ≡ w.contents

module _ (env : Env) (ns : List ℕ) (w : World) (allowed : (t : ℕ) → env.refuses t ≡ false)
    (root : w.paths (lmc_namespace_root_path env.root) ≡ some directory) where
  file_removed :
      Ends
        (λ _ w'. Unlinked (lmc_file_path_for_namespace env.root ns) w w')
        (lmc_clean_namespace env ns w)
  unfolding lmc_clean_namespace lmc_shm_ensure_root_path lmc_does_namespace_exist
      lmc_does_file_exist
  file_removed =
      let fn = lmc_file_path_for_namespace env.root ns in
      elim (Option-cases (w.paths fn)) [
        | inl missing ↦
            rw (root, missing)
              (ends (record { gone = missing; others = λ p ne. refl; contents = refl }))
        | inr (node, there) ↦
            rw (root, there, allowed w.clock)
              (ends (record {
                gone = rw (same_name_refl fn) refl;
                others = λ p ne. rw ne refl;
                contents = refl;
              }))
      ]

-- What `local_memcache_drop_namespace` leaves of a pool.
pub record Dropped (env : Env) (ns : List ℕ) (w w' : World) : Type 0 where
  pub gone : w'.paths (lmc_file_path_for_namespace env.root ns) ≡ none
  pub other_paths :
      (p : List ℕ)
      → same_name p (lmc_file_path_for_namespace env.root ns) ≡ false
      → w'.paths p ≡ w.paths p
  pub contents : w'.contents ≡ w.contents
  pub lock : w'.sems (lmc_namespacify ns) ≡ some 1
  pub second_lock : w'.sems (check_lock ns) ≡ some 1

module _ (env : Env) (ns : List ℕ) (filename : Option (List ℕ)) (w : World)
    (allowed : (t : ℕ) → env.refuses t ≡ false)
    (root : w.paths (lmc_namespace_root_path env.root) ≡ some directory) where
  dropped :
      (clean : List ℕ) (w1 w2 w3 : World)
      → Unlinked (lmc_file_path_for_namespace env.root clean) w w1
      → Freed (lmc_namespacify clean) w1 w2
      → Freed (check_lock clean) w2 w3
      → Dropped env clean w w3
  dropped clean w1 w2 w3 u f g = record {
    gone = ap (λ ps. ps (lmc_file_path_for_namespace env.root clean)) (g.paths ∙ f.paths) ∙ u.gone;
    other_paths = λ p ne. ap (λ ps. ps p) (g.paths ∙ f.paths) ∙ u.others p ne;
    contents = g.contents ∙ (f.contents ∙ u.contents);
    lock = elim (Bool-cases (same_name (lmc_namespacify clean) (check_lock clean))) [
      | inl same ↦
          ap w3.sems (same_name→eq (lmc_namespacify clean) (check_lock clean) same) ∙ g.freed
      | inr ne ↦ g.others (lmc_namespacify clean) ne ∙ f.freed
    ];
    second_lock = g.freed;
  }

  -- With a namespace and `force`, where the root directory is there and no system call fails,
  -- `local_memcache_drop_namespace` returns 1; the path of the pool leads nowhere, all other
  -- paths and the bytes of all files are the same, and both semaphores of the pool are there
  -- with value 1, whatever they were and also where there was none.
  pub drop_namespace-Dropped :
      Ends
        (λ r w'. (r ≡ true) × Dropped env (lmc_clean_string ns) w w')
        (local_memcache_drop_namespace env (some ns) filename true w)
  unfolding local_memcache_drop_namespace lmc_namespace_or_filename
  drop_namespace-Dropped =
      let clean = lmc_clean_string ns in
      Ends.bind (file_removed env clean w allowed root) λ _ w1 u.
        Ends.bind (lock_repaired clean w1) λ _ w2 f.
          Ends.bind (lock_repaired (lmc_checkize clean) w2)
            λ _ w3 g. ends (refl, dropped clean w1 w2 w3 u f g)
