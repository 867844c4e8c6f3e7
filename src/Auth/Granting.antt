-- ===== src/Auth/Granting.antt =====
-- What Allow and Authorize decide.
use distributed_image_proces.Prelude.{
  String, ◌≡◌, refl, sym, ◌∙◌, ◌⊎◌, inl, inr, true, some, List, [], ◌∷◌, arith, lookup, if_neg,
  string_discrete, Bool-cases, Option-cases,
}
use mathlib.Core.List.{Memᴰ}
use distributed_image_proces.Cache.Ids.{contains}
use distributed_image_proces.Auth.{Policy, Permission, allow, allows, authorize}

-- One of the roles is granted the permission, or all of them by the wildcard.
pub record Granted (policy : Policy) (roles : List String) (perm : Permission) : Type 0 where
  pub role : String
  pub has_role : Memᴰ role roles
  pub set : List Permission
  pub granted_to : lookup role policy ≡ some set
  pub has_perm : Memᴰ "*" set ⊎ Memᴰ perm set

contains-Memᴰ : (x : String) (xs : List String) → contains x xs ≡ true → Memᴰ x xs
unfolding contains
contains-Memᴰ x [] h = absurd (cc h)
contains-Memᴰ x (y ∷ ys) h = elim (string_discrete x y) [
  | yes e ↦ Memᴰ.head e
  | no n ↦
      Memᴰ.tail (contains-Memᴰ x ys (sym (if_neg (string_discrete x y) n true (contains x ys)) ∙ h))
]

allows-Granted :
    (policy : Policy) (perm : Permission) (role : String) (roles : List String)
    → Memᴰ role roles
    → allows policy perm role ≡ true
    → Granted policy roles perm
unfolding allows
allows-Granted policy perm role roles m h = elim (Option-cases (lookup role policy)) [
  | inl e ↦ absurd (ground (arith, e, h))
  | inr (set, e) ↦ record {
    role = role;
    has_role = m;
    set = set;
    granted_to = e;
    has_perm = elim (Bool-cases (contains "*" set)) [
      | inl w ↦ inl (contains-Memᴰ "*" set w)
      | inr w ↦ inr (contains-Memᴰ perm set (ground (arith, e, w, h)))
    ];
  }
]

allow-Granted :
    (policy : Policy) (perm : Permission) (roles all_roles : List String)
    → ((r : String) → Memᴰ r roles → Memᴰ r all_roles)
    → allow roles perm policy ≡ true
    → Granted policy all_roles perm
unfolding allow
allow-Granted policy perm [] all_roles part h = absurd (cc h)
allow-Granted policy perm (role ∷ roles) all_roles part h =
    elim (Bool-cases (allows policy perm role)) [
      | inl a ↦ allows-Granted policy perm role all_roles (part role (Memᴰ.head refl)) a
      | inr a ↦
          allow-Granted policy perm roles all_roles (λ r m. part r (Memᴰ.tail m))
            (ground (arith, a, h))
    ]

pub authorize-Granted :
    (policy : Policy) (perm : Permission) (roles : List String)
    → authorize (some roles) perm policy ≡ true
    → Granted policy roles perm
unfolding authorize
authorize-Granted policy perm roles h = allow-Granted policy perm roles roles (λ r m. m) h
