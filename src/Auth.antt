-- ===== src/Auth.antt =====
-- internal/auth/rbac.go. A role's set of permissions is the list of the permissions that are set.
pub mod Roles
pub mod Granting
pub mod Tokens
mod Tests
use distributed_image_proces.Prelude.{
  ◌*◌, String, Bool, true, false, ◌||◌, Option, none, some, List, [], ◌∷◌, if◌then◌else◌, lookup,
  insert, lookup_or,
}
use distributed_image_proces.Cache.Ids.{contains}

abbrev pub Permission : Type 0
Permission = String

abbrev pub job_submit : Permission
job_submit = "job:submit"

abbrev pub job_read : Permission
job_read = "job:read"

abbrev pub job_cancel : Permission
job_cancel = "job:cancel"

abbrev pub algo_register : Permission
algo_register = "algorithm:register"

abbrev pub quota_admin : Permission
quota_admin = "quota:admin"

abbrev pub task_lease : Permission
task_lease = "task:lease"

abbrev pub task_report : Permission
task_report = "task:report"

abbrev pub wildcard : Permission
wildcard = "*"

-- `grants`
abbrev pub Policy : Type 0
Policy = List (String × List Permission)

unfoldable pub new_policy : Policy
new_policy = []

-- Grant's loop.
unfoldable pub set_perms : List Permission → List Permission → List Permission
set_perms [] set = set
set_perms (perm ∷ perms) set = set_perms perms (perm ∷ set)

-- Grant
unfoldable pub grant_role : String → List Permission → Policy → Policy
unfolding set_perms
grant_role role perms p = insert role (set_perms perms (lookup_or role [] p)) p

-- What one role contributes to Allow.
unfoldable pub allows : Policy → Permission → String → Bool
unfolding contains
allows p perm role = elim (lookup role p) [
  | none ↦ false
  | some set ↦ contains wildcard set || contains perm set
]

-- Allow
unfoldable pub allow : List String → Permission → Policy → Bool
unfolding allows
allow [] perm p = false
allow (role ∷ roles) perm p =
    let rest = allow roles perm p in if allows p perm role then true else rest

-- Authorize, on the roles of the claims, or `none` for nil.
unfoldable pub authorize : Option (List String) → Permission → Policy → Bool
unfolding allow
authorize none perm p = false
authorize (some roles) perm p = allow roles perm p

-- DefaultPolicy
unfoldable pub default_policy : Policy
unfolding grant_role new_policy
default_policy = grant_role "worker" (task_lease ∷ task_report ∷ job_read ∷ []) (
    grant_role "viewer" (job_read ∷ []) (
      grant_role "operator" (job_submit ∷ job_read ∷ job_cancel ∷ algo_register ∷ [])
        (grant_role "admin" (wildcard ∷ []) new_policy)))
