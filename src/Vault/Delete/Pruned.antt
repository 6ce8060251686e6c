-- ===== src/Vault/Delete/Pruned.antt =====
-- internal/vault/mutators.go, PruneTrash: which entries of the trash are removed.
use obsidian_mcp_server.Prelude.{
  ℕ, zero, suc, ◌+◌, ◌-◌, ◌*◌, ◌≤◌, ◌<◌, ◌≡◌, refl, Bool, true, false, Option, none, some, List, [],
  ◌∷◌, ltb, arith,
}
use obsidian_mcp_server.Prelude.Int.{pos}
use obsidian_mcp_server.Prelude.Exec.{Result, ok, err, continue}
use obsidian_mcp_server.Strings.{Bytes}
use obsidian_mcp_server.Vault.Errors.{OsError, not_exist, other, os_fault, PathError}
use obsidian_mcp_server.Vault.FilePath.{join_path}
use obsidian_mcp_server.Vault.Os.{Os, Entry}
use obsidian_mcp_server.Vault.Guards.{Service, path_error}
use obsidian_mcp_server.Vault.Delete.Prune.{
  prune, trash_root, day, minus_days, before_cutoff, expired, is_expired_entry, counted, if_expired,
  prune_entries, prune_listed, prune_trash,
}

minus_days_lem :
    (n : ℕ) → n < 106751 → minus_days (pos (suc n)) ≡ 18446744073709551616 - suc n * day
minus_days_lem n h = omega arith

-- Up to 106751 days the duration does not wrap around.
before_cutoff_lem :
    (now days t : ℕ)
    → days ≤ 106751
    → before_cutoff now (minus_days (pos days)) t ≡ ltb (t + days * day) now
before_cutoff_lem now zero t h = ground arith
before_cutoff_lem now (suc n) t h = ground (arith, h, minus_days_lem n (omega arith))

some_injective : {a b : ℕ} → some a ≡ some b → a ≡ b
some_injective h = cc

module _ (parse : Bytes → Option ℕ) (now days : ℕ) where
  -- A directory whose name is a time that lies more than the days back.
  abbrev pub IsOld : Entry → Type 0
  IsOld e = (e.is_dir ≡ true) × ((t : ℕ) × (parse e.name ≡ some t) × (t + days * day < now))

  expired-Old :
      (small : days ≤ 106751) (o : Option ℕ)
      → expired parse now (pos days) o ≡ true
      → (t : ℕ) × (o ≡ some t) × (t + days * day < now)
  expired-Old small none h = cc
  expired-Old small (some t) h = (t, refl, ground (arith, h, before_cutoff_lem now days t small))

  expired_old :
      (small : days ≤ 106751) (o : Option ℕ) (t : ℕ)
      → o ≡ some t
      → t + days * day < now
      → expired parse now (pos days) o ≡ true
  expired_old small none t e h = cc
  expired_old small (some u) t e h =
      ground (arith, h, before_cutoff_lem now days u small, some_injective e)

  is_expired_entry-IsOld :
      days ≤ 106751 → (e : Entry) → is_expired_entry parse now (pos days) e ≡ true → IsOld e
  unfolding is_expired_entry
  is_expired_entry-IsOld small e h =
      (ground (arith, h), expired-Old small (parse e.name) (ground (arith, h)))

  is_expired_entry-Not :
      days ≤ 106751 → (e : Entry) → is_expired_entry parse now (pos days) e ≡ false → ¬ IsOld e
  unfolding is_expired_entry
  is_expired_entry-Not small e h old =
      ground (arith, h, old.0, expired_old small (parse e.name) old.1.0 old.1.1 old.1.2)

  module _ (os : Os) (v : Service) where
    open os use {State, read_dir, remove_all}

    -- What may become of the entries: the count goes from the first number to the second. An old one is
    -- removed, another is kept, and an entry that cannot be removed is the last that is looked at.
    pub data Pruned : List Entry → ℕ → ℕ → Option (Bytes × OsError) → State → State → Type 0 where
      finished : {n : ℕ} {s : State} → Pruned [] n n none s s
      kept :
          {e : Entry} {es : List Entry} {m n : ℕ} {r : Option (Bytes × OsError)} {s s' : State}
          → ¬ IsOld e
          → Pruned es m n r s s'
          → Pruned (e ∷ es) m n r s s'
      removed :
          {e : Entry} {es : List Entry} {m n : ℕ} {r : Option (Bytes × OsError)} {s t s' : State}
          → IsOld e
          → remove_all (join_path (trash_root v.root) e.name) s ≡ (ok tt, t)
          → Pruned es (suc m) n r t s'
          → Pruned (e ∷ es) m n r s s'
      stopped :
          {e : Entry} {es : List Entry} {m : ℕ} {x : OsError} {s s' : State}
          → IsOld e
          → remove_all (join_path (trash_root v.root) e.name) s ≡ (err x, s')
          → Pruned (e ∷ es) m m (some (e.name, x)) s s'

    -- The outcome of a run that began with the count `m`.
    abbrev pub Outcome : List Entry → ℕ → State → Result (ℕ × PathError) ℕ × State → Type 0
    Outcome es m s (ok n, s') = Pruned es m n none s s'
    Outcome es m s (err (n, e), s') =
        (f : Bytes × OsError) × (e ≡ path_error prune f.0 (os_fault f.1))
        × Pruned es m n (some f) s s'

    Outcome-kept :
        (e : Entry) (es : List Entry) (m : ℕ) (s : State) (out : Result (ℕ × PathError) ℕ × State)
        → ¬ IsOld e
        → Outcome es m s out
        → Outcome (e ∷ es) m s out
    Outcome-kept e es m s (ok n, s') young p = kept young p
    Outcome-kept e es m s (err (n, x), s') young p = (p.0, p.1, kept young p.2)

    Outcome-removed :
        (e : Entry) (es : List Entry) (m : ℕ) (s t : State) (out : Result (ℕ × PathError) ℕ × State)
        → IsOld e
        → remove_all (join_path (trash_root v.root) e.name) s ≡ (ok tt, t)
        → Outcome es (suc m) t out
        → Outcome (e ∷ es) m s out
    Outcome-removed e es m s t (ok n, s') old h p = removed old h p
    Outcome-removed e es m s t (err (n, x), s') old h p = (p.0, p.1, removed old h p.2)

    -- What a run of PruneTrash may do, by what the directory of the trash holds.
    abbrev pub PrunedTrash :
        Result OsError (List Entry) → State → Result (ℕ × PathError) ℕ × State → Type 0
    PrunedTrash (ok es) s out = Outcome es 0 s out
    PrunedTrash (err not_exist) s out = out ≡ (ok 0, s)
    PrunedTrash (err other) s out =
        out ≡ (err (0, path_error prune (trash_root v.root) (os_fault other)), s)

    module _ (small : days ≤ 106751) where
      remove_then :
          (e : Entry) (es : List Entry) (m : ℕ) (s : State) (o : Result OsError (Unit {0}) × State)
          → IsOld e
          → remove_all (join_path (trash_root v.root) e.name) s ≡ o
          → ((n : ℕ) (t : State) → Outcome es n t (prune_entries parse now (pos days) os v n es t))
          → Outcome (e ∷ es) m s (
              continue
                (counted parse now (pos days) os v m e.name o).0
                (λ n. prune_entries parse now (pos days) os v n es)
                (counted parse now (pos days) os v m e.name o).1)
      remove_then e es m s (ok u, t) old h later =
          Outcome-removed e es m s t _ old h (later (suc m) t)
      remove_then e es m s (err x, t) old h later = ((e.name, x), refl, stopped old h)

      prune_entries-Outcome :
          (es : List Entry) (m : ℕ) (s : State)
          → Outcome es m s (prune_entries parse now (pos days) os v m es s)
      unfolding prune_entries
      prune_entries-Outcome [] m s = finished
      prune_entries-Outcome (e ∷ es) m s =
          by_age (is_expired_entry parse now (pos days) e) refl (prune_entries-Outcome es)
        where
          by_age :
              (b : Bool)
              → is_expired_entry parse now (pos days) e ≡ b
              → ((n : ℕ) (t : State)
                  → Outcome es n t (prune_entries parse now (pos days) os v n es t))
              → Outcome (e ∷ es) m s (
                  if_expired parse now
                    (pos days)
                    os
                    v
                    b
                    m
                    e.name
                    (λ n. prune_entries parse now (pos days) os v n es)
                    s)
          by_age true h later = remove_then e es m s _ (is_expired_entry-IsOld small e h) refl later
          by_age false h later =
              Outcome-kept e es m s _ (is_expired_entry-Not small e h) (later m s)

      listed-PrunedTrash :
          (r : Result OsError (List Entry)) (s : State)
          → PrunedTrash r s (prune_listed parse now (pos days) os v r s)
      listed-PrunedTrash (ok es) s = prune_entries-Outcome es 0 s
      listed-PrunedTrash (err not_exist) s = refl
      listed-PrunedTrash (err other) s = refl

      -- For a retention of at most 106751 days, PruneTrash goes over the entries of the trash in order:
      -- it removes a directory whose name is a time more than the retention back, keeps every other
      -- entry, and gives the number removed; where one cannot be removed it stops with the error and
      -- the number before it. Without a trash nothing is done.
      pub prune_trash-PrunedTrash :
          (s : State)
          → PrunedTrash (read_dir (trash_root v.root) s) s (prune_trash parse now (pos days) os v s)
      unfolding prune_trash
      prune_trash-PrunedTrash s = listed-PrunedTrash (read_dir (trash_root v.root) s) s
