-- ===== src/Auth/Tests.antt =====
-- A grant to the default policy.
use distributed_image_proces.Prelude.{
  ◌≡◌, refl, true, false, [], ◌∷◌, string_discrete, lookup, insert,
}
use distributed_image_proces.Cache.Ids.{contains}
use distributed_image_proces.Auth.{default_policy, allows, grant_role, job_cancel}

grants_cancel :
    (allows default_policy job_cancel "viewer" ≡ false)
    × (allows (grant_role "viewer" (job_cancel ∷ []) default_policy) job_cancel "viewer" ≡ true)
unfolding default_policy allows grant_role contains lookup insert string_discrete
grants_cancel = (refl, refl)
