-- ===== src/Vault/Guards/Refusals.antt =====
-- internal/vault: the errors that say that an operation was refused, as opposed to those that may
-- come after a part of its work was done.
use obsidian_mcp_server.Prelude.{◌≡◌, sym, ap, ◌∙◌, subst}
use obsidian_mcp_server.Prelude.Exec.{
  Exec, Result, ok, err, asks, pure, ◌>>=◌, ◌>>◌, asks_rule, call_rule,
}
use obsidian_mcp_server.Strings.{Bytes}
use obsidian_mcp_server.Vault.Errors.{
  OsError, not_exist, other, Fault, not_found, file_too_large, os_fault, PathError,
}
use obsidian_mcp_server.Vault.Guards.{os_call, with_path, wrapped, missing_is, path_error}

-- The faults that no call of the system gives and that no size of a combined text causes.
abbrev pub IsRefusal : Fault → Type 0
IsRefusal (os_fault e) = ⊥
IsRefusal not_found = ⊥
IsRefusal file_too_large = ⊥
IsRefusal _ = Unit

module _ {S A : Type 0} where
  err_injective :
      (e e' : PathError) (s s' : S)
      → ◌≡◌ {A = Result PathError A × S} (err e, s) (err e', s')
      → e ≡ e'
  err_injective e e' s s' h = cc

  -- An outcome that leaves the state `s` as it was where it is a refusal.
  abbrev pub Keeps : S → Result PathError A × S → Type 0
  Keeps s out = (e : PathError) (s' : S) → out ≡ (err e, s') → IsRefusal e.fault → s' ≡ s

  -- An outcome that is no refusal.
  abbrev pub IsLate : Result PathError A × S → Type 0
  IsLate out = (e : PathError) (s' : S) → out ≡ (err e, s') → ¬ IsRefusal e.fault

  pub Keeps-err : (e : PathError) (s : S) → Keeps s (err e, s)
  Keeps-err e s e' s' h r = cc

  pub Keeps-late : (s : S) (out : Result PathError A × S) → IsLate out → Keeps s out
  Keeps-late s out l e s' h r = absurd (l e s' h r)

  same-IsRefusal :
      (e e' : PathError) (s s' : S)
      → ◌≡◌ {A = Result PathError A × S} (err e, s) (err e', s')
      → IsRefusal e'.fault
      → IsRefusal e.fault
  same-IsRefusal e e' s s' h = subst (λ x. IsRefusal x.fault) (err_injective e' e s' s (sym h))

  outcome-IsLate :
      (op path : Bytes) (g : OsError → Fault)
      → ((x : OsError) → ¬ IsRefusal (g x))
      → (o : Result OsError A × S) → IsLate (with_path op path (wrapped g o.0), o.1)
  outcome-IsLate op path g n (ok a, s) e s' h r = cc
  outcome-IsLate op path g n (err x, s) e s' h r =
      n x (same-IsRefusal (path_error op path (g x)) e s s' h r)

  pub os_call-IsLate :
      (op path : Bytes) (g : OsError → Fault) (m : Exec S OsError A) (s : S)
      → ((x : OsError) → ¬ IsRefusal (g x))
      → IsLate (os_call op path g m s)
  os_call-IsLate op path g m s n = outcome-IsLate op path g n (m s)

pub missing_is-IsLate : (x : OsError) → ¬ IsRefusal (missing_is not_found x)
missing_is-IsLate not_exist r = r
missing_is-IsLate other r = r

module _ {S A B : Type 0} where
  pub asks-Keeps :
      (f : S → Result PathError A) (k : A → Exec S PathError B) (s : S)
      → ((a : A) → f s ≡ ok a → Keeps s (k a s))
      → Keeps s ((asks f >>= k) s)
  asks-Keeps f k s = asks_rule (Keeps s) f k s (λ e h. Keeps-err e s)

  pub call-IsLate :
      (m : Exec S PathError A) (k : A → Exec S PathError B) (s : S)
      → IsLate (m s)
      → ((a : A) (s' : S) → m s ≡ (ok a, s') → IsLate (k a s'))
      → IsLate ((m >>= k) s)
  call-IsLate m k s l g =
      call_rule IsLate m k s (λ e s1 h. λ e' s' k' r. l e s1 h (same-IsRefusal e e' s1 s' k' r)) g

  -- A last statement that gives a result changes nothing of this.
  pub pure-Keeps :
      (m : Exec S PathError A) (b : B) (s : S) → Keeps s (m s) → Keeps s ((m >> pure b) s)
  pure-Keeps m b s h =
      call_rule (Keeps s) m (λ _. pure b) s
        (λ e s1 h' e' s' k r. ap (λ o. o.1) (sym k) ∙ h e s1 h' (same-IsRefusal e e' s1 s' k r))
        (λ a s1 _ e s' k r. cc)
