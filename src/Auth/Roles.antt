-- ===== src/Auth/Roles.antt =====
-- What a Grant changes.
use distributed_image_proces.Prelude.{
  String, ◌≡◌, refl, ite, true, false, ◌&&◌, ◌||◌, List, [], ◌∷◌, arith, string_discrete, lookup_or,
  lookup-insert,
}
use distributed_image_proces.Cache.Ids.{contains}
use distributed_image_proces.Auth.{Permission, wildcard, Policy, set_perms, grant_role, allows}

contains-set_perms :
    (perm : Permission) (perms set : List Permission)
    → contains perm (set_perms perms set) ≡ (contains perm perms || contains perm set)
unfolding contains set_perms
contains-set_perms perm [] set = refl
contains-set_perms perm (q ∷ perms) set = ground (arith, contains-set_perms perm perms (q ∷ set))

-- After a Grant, a role allows a permission exactly when it did, or when it is the role of the Grant
-- and the granted permissions have the permission or the wildcard.
pub allows-grant_role :
    (role other : String) (perms : List Permission) (perm : Permission) (p : Policy)
    → allows (grant_role role perms p) perm other ≡ (
        allows p perm other
        || (ite (string_discrete other role) true false
            && (contains wildcard perms || contains perm perms)))
unfolding allows grant_role contains
allows-grant_role role other perms perm p =
    let set = lookup_or role [] p in
    ground (
      arith,
      lookup-insert other role (set_perms perms set) p,
      contains-set_perms perm perms set,
      contains-set_perms wildcard perms set,
    )
