-- ===== src/Admission/Accounting.antt =====
-- When Admit admits.
use distributed_image_proces.Prelude.{
  ℕ, ◌<◌, String, ◌≡◌, ◌↔◌, inl, inr, some, arith, Option-cases, lookup,
}
use distributed_image_proces.Admission.{ticket, admit, Controller, held, share}

-- Admit hands out a ticket exactly when the tenant has a class, holds less than its share, and the
-- total is below the ceiling.
pub admit-ticket_iff :
    (tenant : String) (c : Controller)
    → ((admit tenant c).0 ≡ ticket tenant) ↔ (
        (w : ℕ) × (lookup tenant c.classes ≡ some w)
        × (held tenant c < share w c)
        × (c.total < c.max_in_flight))
unfolding admit
admit-ticket_iff tenant c = (to, from)
  where
    to :
        (admit tenant c).0 ≡ ticket tenant
        → (w : ℕ) × (lookup tenant c.classes ≡ some w)
          × (held tenant c < share w c)
          × (c.total < c.max_in_flight)
    to h = elim (Option-cases (lookup tenant c.classes)) [
      | inl e ↦ absurd (ground arith)
      | inr (w, e) ↦ (w, e, ground arith, ground arith)
    ]

    from :
        ((w : ℕ) × (lookup tenant c.classes ≡ some w)
          × (held tenant c < share w c)
          × (c.total < c.max_in_flight))
        → (admit tenant c).0 ≡ ticket tenant
    from (w, e, a, b) = rw (e, admit) (ground arith)
